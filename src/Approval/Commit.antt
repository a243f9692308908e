-- ===== src/Approval/Commit.antt =====
-- The decision of a rule as one transaction with its record (app/auto_approval/commit.py), over
-- `_transition_candidate_status_sync` of app/db/database.py.
mod Evidence
mod Samples
use eh_bot.Prelude.{
  ℕ, ◌+◌, ◌≡◌, refl, sym, ◌∙◌, ap, Bool, true, false, not, ◌&&◌, ◌||◌, Option, none, some, List, [],
  ◌∷◌, ◌++◌, arith, if◌then◌else◌, Text, codes, Result, ok, err, ◌>>=◌, ◌>>◌, refuse_if, nat_Eq,
  IfOk, returned, raised, IfOk-ok, IfOk-bind, IfOk-self, IfOk-refuse_if, append_assoc,
}
use eh_bot.Prelude.Dict
use eh_bot.Prelude.Dict.{Dict}
use eh_bot.Rules.{Host}
use eh_bot.Rules.Evaluate.{Failure, Metadata, Condition}
use eh_bot.Approval.{
  Status, approved, rejected, pending_review, Action, approve, reject, requeue, is_allowed, Rule,
  Candidate, Match, Tables,
}
use eh_bot.Approval.Service.{matching_rule}
use eh_bot.Approval.Service.First.{IsMatch, matching_rule-IsMatch}

-- The verbs of the timeline: those of an operator, and the two that rules sign.
pub data Verb : Type 0 where
  verb : Action → Verb
  auto_approve auto_reject : Verb

-- What a row of `review_actions` says besides the candidate, the verb and the operator.
pub data Details (Float : Type 0) : Type 0 where
  new_status : Status → Option Text → Details Float
  rule_evidence : Match Float → List ℕ → Details Float

pub record Audit (Float : Type 0) : Type 0 where
  pub candidate_id : ℕ
  pub action : Verb
  pub operator : Text
  pub details : Details Float

-- The tables with the audit trail, the oldest row first, and whether a change of the candidate's
-- sources is pending.
pub record Ledger (Float : Type 0) : Type 0 where
  pub tables : Tables Float
  pub audits : List (Audit Float)
  pub is_changing : ℕ → Bool

pub data CommitError : Type 0 where
  decision_changed missing_candidate not_reviewable : CommitError
  evaluation : Failure → CommitError

abbrev pub auto_operator : Text
auto_operator = codes "自动审批"

-- `命中规则「…」`
abbrev rule_note : Text → Text
rule_note name = codes "命中规则「" ++ name ++ codes "」"

pub or_blank : Option Text → Text
or_blank none = []
or_blank (some t) = t

is_approval : Action → Bool
is_approval approve = true
is_approval _ = false

-- The status that a decision leads to, and the reason that it leaves.
pub status_after : Action → Status
unfolding is_approval
status_after a = if is_approval a then approved else rejected

pub remark_after : Action → Text → Option Text
unfolding is_approval
remark_after a name = if is_approval a then none else some (rule_note name)

pub verb_after : Action → Verb
unfolding is_approval
verb_after a = if is_approval a then auto_approve else auto_reject

-- `note` is stored if it is not empty.
pub stored_note : Option Text → Option Text
stored_note (some (c ∷ t)) = some (c ∷ t)
stored_note _ = none

pub with_status : Status → Text → Candidate → Candidate
with_status s reason c = record c { status = s; filter_reason = reason }

module _ {Float : Type 0} where
  pub moved :
      ℕ
      → Text
      → Action
      → Status
      → Option Text
      → Ledger Float
      → Option Candidate
      → Result CommitError (Ledger Float)
  unfolding with_status or_blank stored_note
  moved candidate_id operator action status remark l none = err missing_candidate
  moved candidate_id operator action status remark l (some c) = do
    refuse_if (not (is_allowed action c.status)) not_reviewable
    ok (record l {
      tables = record l.tables {
        candidates =
            Dict.set candidate_id (with_status status (or_blank remark) c) l.tables.candidates;
      };
      audits =
          l.audits
          ++ (record {
            candidate_id = candidate_id;
            action = verb action;
            operator = operator;
            details = new_status status (stored_note remark);
          }
              ∷ []);
    })

  -- `_transition_candidate_status_sync`
  pub transition :
      ℕ → Text → Action → Status → Option Text → Ledger Float → Result CommitError (Ledger Float)
  unfolding moved
  transition candidate_id operator action status remark l =
      moved candidate_id operator action status remark l
        (Dict.lookup candidate_id l.tables.candidates)

  pub or_evaluation :
      Result Failure (Option (Match Float)) → Result CommitError (Option (Match Float))
  or_evaluation (ok m) = ok m
  or_evaluation (err e) = err (evaluation e)

  -- `record_decision`
  pub record_decision : ℕ → Match Float → List ℕ → Ledger Float → Ledger Float
  unfolding verb_after
  record_decision candidate_id m job_ids l = record l {
    audits =
        l.audits
        ++ (record {
          candidate_id = candidate_id;
          action = verb_after m.rule.action;
          operator = auto_operator;
          details = rule_evidence m job_ids;
        }
            ∷ []);
  }

  -- Python's `==` of two matches, and the evaluation's host.
  module _ (host : Host Float) (same : Match Float → Match Float → Bool) where
    pub is_same : Option (Match Float) → Match Float → Bool
    is_same none m = false
    is_same (some fresh) m = same fresh m

    -- `begin_decision`
    pub begin_decision : ℕ → Match Float → Ledger Float → Result CommitError (Ledger Float)
    unfolding or_evaluation is_same transition status_after remark_after
    begin_decision candidate_id m l = do
      fresh ← or_evaluation (matching_rule host l.tables candidate_id)
      refuse_if (not (is_same fresh m) || l.is_changing candidate_id) decision_changed
      transition candidate_id auto_operator m.rule.action (status_after m.rule.action)
          (remark_after m.rule.action m.rule.name) l

    -- `reject_automatically`: the rows of the transaction, if none of its steps raises
    pub reject_automatically : ℕ → Match Float → Ledger Float → Result CommitError (Ledger Float)
    unfolding begin_decision record_decision
    reject_automatically candidate_id m l = do
      moved_on ← begin_decision candidate_id m l
      ok (record_decision candidate_id m [] moved_on)
