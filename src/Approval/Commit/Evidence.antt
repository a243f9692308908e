-- ===== src/Approval/Commit/Evidence.antt =====
-- What a committed decision of a rule rests on, and what it writes.
use eh_bot.Prelude.{
  ℕ, ◌≡◌, refl, Bool, true, false, not, ◌||◌, Option, none, some, [], ◌∷◌, ◌++◌, arith, Result, ok,
  err, ◌>>=◌, ◌>>◌, refuse_if, nat_Eq, IfOk, returned, raised, IfOk-ok, IfOk-bind, IfOk-refuse_if,
  append_assoc,
}
use eh_bot.Prelude.Dict
use eh_bot.Prelude.Dict.{Dict}
use eh_bot.Rules.{Host}
use eh_bot.Rules.Evaluate.{Failure}
use eh_bot.Approval.{is_allowed, Candidate, Match}
use eh_bot.Approval.Service.{matching_rule}
use eh_bot.Approval.Service.First.{IsMatch, matching_rule-IsMatch}
use eh_bot.Approval.Commit.{
  verb, new_status, rule_evidence, Ledger, decision_changed, not_reviewable, auto_operator,
  status_after, remark_after, verb_after, or_blank, stored_note, with_status, moved, transition,
  or_evaluation, record_decision, is_same, begin_decision, reject_automatically,
}

module _ {Float : Type 0} (host : Host Float) (same : Match Float → Match Float → Bool) where
  -- What a committed decision of a match on a candidate has read and written.
  pub record IsCommitted (candidate_id : ℕ) (m : Match Float) (l after : Ledger Float)
      : Type 0 where
    pub fresh : Match Float
    pub seen : IsMatch host l.tables candidate_id fresh
    pub unchanged : same fresh m ≡ true
    pub settled : l.is_changing candidate_id ≡ false
    pub candidates_after :
        after.tables.candidates
        ≡ Dict.set candidate_id
            (with_status
              (status_after m.rule.action)
              (or_blank (remark_after m.rule.action m.rule.name))
              seen.candidate)
            l.tables.candidates
    pub audits_after :
        after.audits
        ≡ l.audits
          ++ record {
            candidate_id = candidate_id;
            action = verb m.rule.action;
            operator = auto_operator;
            details =
                new_status
                  (status_after m.rule.action)
                  (stored_note (remark_after m.rule.action m.rule.name));
          }
            ∷ record {
              candidate_id = candidate_id;
              action = verb_after m.rule.action;
              operator = auto_operator;
              details = rule_evidence m [];
            }
            ∷ []

  moved-IsCommitted :
      (candidate_id : ℕ) (m fresh : Match Float) (l : Ledger Float) (c : Candidate)
      (seen : IsMatch host l.tables candidate_id fresh)
      → seen.candidate ≡ c
      → same fresh m ≡ true
      → l.is_changing candidate_id ≡ false
      → IfOk
          (λ next. IsCommitted candidate_id m l (record_decision candidate_id m [] next))
          (moved candidate_id auto_operator m.rule.action
            (status_after m.rule.action)
            (remark_after m.rule.action m.rule.name)
            l
            (some c))
  unfolding moved record_decision
  moved-IsCommitted candidate_id m fresh l c seen e u q =
      IfOk-refuse_if (not (is_allowed m.rule.action c.status)) not_reviewable λ allowed.
        returned (record {
          fresh = fresh;
          seen = seen;
          unchanged = u;
          settled = q;
          candidates_after = rw e refl;
          audits_after = append_assoc l.audits _ _;
        })

  transition-IsCommitted :
      (candidate_id : ℕ) (m fresh : Match Float) (l : Ledger Float)
      → IsMatch host l.tables candidate_id fresh
      → same fresh m ≡ true
      → l.is_changing candidate_id ≡ false
      → IfOk
          (λ next. IsCommitted candidate_id m l (record_decision candidate_id m [] next))
          (transition candidate_id auto_operator m.rule.action
            (status_after m.rule.action)
            (remark_after m.rule.action m.rule.name)
            l)
  unfolding transition
  transition-IsCommitted candidate_id m fresh l seen u q =
      rw (seen.found) (moved-IsCommitted candidate_id m fresh l seen.candidate seen refl u q)

  checked-IsCommitted :
      (candidate_id : ℕ) (m : Match Float) (l : Ledger Float)
      (found : Result Failure (Option (Match Float)))
      → matching_rule host l.tables candidate_id ≡ found
      → IfOk
          (λ next. IsCommitted candidate_id m l (record_decision candidate_id m [] next))
          (do
            fresh ← or_evaluation found
            refuse_if
                (not (is_same host same fresh m) || l.is_changing candidate_id)
                decision_changed
            transition candidate_id auto_operator m.rule.action
                (status_after m.rule.action)
                (remark_after m.rule.action m.rule.name)
                l)
  unfolding or_evaluation is_same
  checked-IsCommitted candidate_id m l (err e) h = raised
  checked-IsCommitted candidate_id m l (ok none) h = raised
  checked-IsCommitted candidate_id m l (ok (some fresh)) h =
      IfOk-refuse_if (not (same fresh m) || l.is_changing candidate_id) decision_changed λ passed.
        transition-IsCommitted candidate_id m fresh l
          (matching_rule-IsMatch host l.tables candidate_id fresh h) (ground arith) (ground arith)

  -- An automatic rejection that is committed rests on a match that the same transaction found again: of
  -- an enabled rule, on a candidate that awaited review, had a gallery id and had no pending change
  -- of its sources. It sets the status and the reason of this candidate, leaves the other rows as
  -- they were, and adds the two rows of the audit: the transition, and the evidence of the rule.
  pub reject_automatically-IsCommitted :
      (candidate_id : ℕ) (m : Match Float) (l after : Ledger Float)
      → reject_automatically host same candidate_id m l ≡ ok after
      → IsCommitted candidate_id m l after
  unfolding reject_automatically begin_decision
  reject_automatically-IsCommitted candidate_id m l after h =
      IfOk-ok {P = IsCommitted candidate_id m l}
        (IfOk-bind
          (checked-IsCommitted candidate_id m l (matching_rule host l.tables candidate_id) refl)
          (λ next k. returned k))
        h
