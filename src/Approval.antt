-- ===== src/Approval.antt =====
-- Which automatic rule decides a candidate: the service, the commit of its decision and the sweep
-- (app/auto_approval/service.py, commit.py, models.py and sweeper.py).
mod Order
pub mod Service
mod Sweep
mod Commit
use eh_bot.Prelude.{
  ℕ, ◌≡◌, Bool, true, false, not, ◌&&◌, ◌||◌, Option, none, some, List, [], ◌∷◌, ltb, leb, ◌==◌,
  if◌then◌else◌, Text,
}
use eh_bot.Prelude.Dict.{Dict}
use eh_bot.Prelude.Int.{ℤ, pos, negsuc}
use eh_bot.Rules.{Node}
use eh_bot.Rules.Evaluate.{Metadata, Condition}

-- `candidates.status`
pub data Status : Type 0 where
  discovered pending_review needs_info approved rejected processing failed downloaded : Status

-- The verbs that a rule may carry (`RULE_ACTIONS`), and 重新排队, which is for operators only.
pub data Action : Type 0 where
  approve reject requeue : Action

-- `REVIEWABLE_STATUSES`
unfoldable pub is_reviewable : Status → Bool
is_reviewable pending_review = true
is_reviewable needs_info = true
is_reviewable rejected = true
is_reviewable _ = false

-- `REQUEUEABLE_STATUSES`
unfoldable pub is_requeueable : Status → Bool
is_requeueable rejected = true
is_requeueable failed = true
is_requeueable _ = false

-- `status in statuses_allowing(action)`
unfoldable pub is_allowed : Action → Status → Bool
unfolding is_reviewable is_requeueable
is_allowed requeue s = is_requeueable s
is_allowed _ s = is_reviewable s

-- `AutoApprovalRule`, but for the stored texts of the two times.
pub record Rule (Float : Type 0) : Type 0 where
  pub rule_id : ℕ
  pub name : Text
  pub enabled : Bool
  pub priority : ℤ
  pub version : ℕ
  pub tree : Node Float
  pub dsl_snapshot : Text
  pub case_sensitive : Bool
  pub action : Action
  pub rule_uuid : Text

-- A row of `candidates` with its effective metadata and, of each ingest entry that points to it, the
-- id, generation and revision.
pub record Candidate : Type 0 where
  pub status : Status
  pub ex_gid : Option ℕ
  pub title : Option Text
  pub filter_reason : Text
  pub metadata : Metadata
  pub entries : List (ℕ × ℕ × ℕ)

-- `AutoApprovalMatch`
pub record Match (Float : Type 0) : Type 0 where
  pub rule : Rule Float
  pub metadata : Metadata
  pub conditions : List Condition
  pub gallery_id : ℕ
  pub ingest_identity : List (ℕ × ℕ × ℕ)

-- `AutoApprovalDryRunHit`
pub record Hit : Type 0 where
  pub candidate_id : ℕ
  pub title : Option Text
  pub status : Status

-- `AutoApprovalDryRun`
pub record DryRun : Type 0 where
  pub scanned : ℕ
  pub matched : ℕ
  pub truncated : Bool
  pub hits : List Hit
  pub action : Action

-- The tables that a decision reads: the candidates by id, and the rules in any order.
pub record Tables (Float : Type 0) : Type 0 where
  pub candidates : Dict ℕ Candidate
  pub rules : List (Rule Float)

int_lt : ℤ → ℤ → Bool
int_lt (pos a) (pos b) = ltb a b
int_lt (pos a) (negsuc b) = false
int_lt (negsuc a) (pos b) = true
int_lt (negsuc a) (negsuc b) = ltb b a

int_eq : ℤ → ℤ → Bool
int_eq (pos a) (pos b) = a == b
int_eq (negsuc a) (negsuc b) = a == b
int_eq _ _ = false

module _ {Float : Type 0} where
  -- Not behind, in `ORDER BY priority, id`.
  pub comes_before : Rule Float → Rule Float → Bool
  unfolding int_lt int_eq
  comes_before r s =
      int_lt r.priority s.priority || int_eq r.priority s.priority && leb r.rule_id s.rule_id

  pub insert_rule : Rule Float → List (Rule Float) → List (Rule Float)
  insert_rule r [] = r ∷ []
  insert_rule r (s ∷ rs) = if comes_before r s then r ∷ s ∷ rs else s ∷ insert_rule r rs

  -- `WHERE enabled = 1`
  pub insert_if : Bool → Rule Float → List (Rule Float) → List (Rule Float)
  unfolding insert_rule
  insert_if true r rs = insert_rule r rs
  insert_if false r rs = rs

  -- `_list_auto_approval_rules_sync(True)`
  pub enabled_rules : List (Rule Float) → List (Rule Float)
  unfolding insert_if
  enabled_rules [] = []
  enabled_rules (r ∷ rs) = insert_if r.enabled r (enabled_rules rs)
