-- ===== src/Approval/Service.antt =====
-- `AutomaticApprovalService` of app/auto_approval/service.py.
pub mod First
pub mod Trial
pub mod Samples
use eh_bot.Prelude.{
  ℕ, suc, ◌+◌, Bool, true, false, not, ◌&&◌, ◌||◌, Option, none, some, List, [], ◌∷◌, ltb, leb,
  ◌==◌, if◌then◌else◌, length, Text, Result, ok, err, ◌>>=◌, nat_Eq,
}
use eh_bot.Prelude.Dict
use eh_bot.Prelude.Dict.{Dict}
use eh_bot.Rules.{Host, Node}
use eh_bot.Rules.Evaluate.{Failure, unknown_operator, Metadata, Condition, evaluate}
use eh_bot.Approval.{
  Status, pending_review, Action, Rule, Candidate, Match, Hit, DryRun, Tables, enabled_rules,
}

abbrev pub dry_run_scan_limit : ℕ
dry_run_scan_limit = 200

abbrev pub dry_run_sample_limit : ℕ
dry_run_sample_limit = 5

unfoldable pub is_pending : Status → Bool
is_pending pending_review = true
is_pending _ = false

-- The `RuleValidationError` of the evaluation, which the service catches; other exceptions it lets pass.
pub is_caught : Failure → Bool
is_caught unknown_operator = true
is_caught _ = false

-- A row of the page that a dry run reads.
pub record Item : Type 0 where
  pub candidate_id : ℕ
  pub title : Option Text
  pub status : Status
  pub metadata : Metadata

pub hit_of : Item → Hit
hit_of i = record { candidate_id = i.candidate_id; title = i.title; status = i.status }

-- The counters of the loop: `matched` and `hits`, the latest first.
pub add_hit : ℕ → Item → ℕ × List Hit → ℕ × List Hit
unfolding hit_of
add_hit sample_limit i (matched, hits) =
    (suc matched, if ltb (length hits) sample_limit then hit_of i ∷ hits else hits)

pub reverse_onto : List Hit → List Hit → List Hit
reverse_onto acc [] = acc
reverse_onto acc (h ∷ hs) = reverse_onto (h ∷ acc) hs

module _ {Float : Type 0} (host : Host Float) where
  -- What one rule does to the search for the first match: `none` passes on to the next rule.
  pub verdict :
      Rule Float
      → Candidate
      → ℕ
      → Result Failure (Bool × List Condition)
      → Option (Result Failure (Match Float))
  unfolding is_caught
  verdict r c gid (ok (true, conditions)) = some (
      ok (record {
        rule = r;
        metadata = c.metadata;
        conditions = conditions;
        gallery_id = gid;
        ingest_identity = c.entries;
      }))
  verdict r c gid (ok (false, conditions)) = none
  verdict r c gid (err e) = if is_caught e then none else some (err e)

  -- What a rule decides of a candidate, if anything.
  pub decide : Candidate → ℕ → Rule Float → Option (Result Failure (Match Float))
  unfolding verdict
  decide c gid r = verdict r c gid (evaluate host r.tree c.metadata r.case_sensitive)

  pub or_next :
      Option (Result Failure (Match Float))
      → Result Failure (Option (Match Float))
      → Result Failure (Option (Match Float))
  or_next none rest = rest
  or_next (some (ok m)) rest = ok (some m)
  or_next (some (err e)) rest = err e

  -- the loop over the rules
  pub first_match : Candidate → ℕ → List (Rule Float) → Result Failure (Option (Match Float))
  unfolding decide or_next
  first_match c gid [] = ok none
  first_match c gid (r ∷ rs) = or_next (decide c gid r) (first_match c gid rs)

  pub with_gallery :
      List (Rule Float) → Candidate → Option ℕ → Result Failure (Option (Match Float))
  unfolding first_match
  with_gallery rules c none = ok none
  with_gallery rules c (some gid) = first_match c gid rules

  pub of_candidate : List (Rule Float) → Option Candidate → Result Failure (Option (Match Float))
  unfolding with_gallery is_pending
  of_candidate rules none = ok none
  of_candidate rules (some c) =
      if is_pending c.status then with_gallery rules c c.ex_gid else ok none

  -- `matching_rule_in_transaction`, and `matching_rule`, which opens the transaction
  pub matching_rule : Tables Float → ℕ → Result Failure (Option (Match Float))
  unfolding of_candidate
  matching_rule tables candidate_id =
      of_candidate (enabled_rules tables.rules) (Dict.lookup candidate_id tables.candidates)

  add_if : Bool → ℕ → List ℕ → List ℕ
  add_if true candidate_id ids = candidate_id ∷ ids
  add_if false candidate_id ids = ids

  -- `preview`, over the ids and the metadata that `pending_candidate_ids(require_gallery=True)` and
  -- `effective_metadata` give; an exception of the evaluation passes.
  pub preview : Rule Float → List (ℕ × Metadata) → Result Failure (List ℕ)
  unfolding add_if
  preview r [] = ok []
  preview r ((candidate_id, metadata) ∷ rest) = do
    (matched, conditions) ← evaluate host r.tree metadata r.case_sensitive
    ids ← preview r rest
    ok (add_if matched candidate_id ids)

  -- Where the loop stands after one item: it goes on, or it breaks.
  pub after_item :
      ℕ
      → Item
      → Result Failure (Bool × List Condition)
      → ℕ × List Hit
      → Result Failure (Bool × (ℕ × List Hit))
  unfolding add_hit is_caught
  after_item sample_limit i (ok (true, conditions)) counts =
      ok (true, add_hit sample_limit i counts)
  after_item sample_limit i (ok (false, conditions)) counts = ok (true, counts)
  after_item sample_limit i (err e) counts = if is_caught e then ok (false, counts) else err e

  pub or_break :
      (ℕ × List Hit → Result Failure (ℕ × List Hit))
      → Bool × (ℕ × List Hit)
      → Result Failure (ℕ × List Hit)
  or_break go (true, counts) = go counts
  or_break go (false, counts) = ok counts

  pub scan_items : Node Float → Bool → ℕ → List Item → ℕ × List Hit → Result Failure (ℕ × List Hit)
  unfolding after_item or_break
  scan_items tree case_sensitive sample_limit [] counts = ok counts
  scan_items tree case_sensitive sample_limit (i ∷ items) counts =
      after_item sample_limit i (evaluate host tree i.metadata case_sensitive) counts
      >>= or_break (scan_items tree case_sensitive sample_limit items)

  -- `dry_run`, over the page and the total that `list_candidates_page` gives
  pub dry_run : Node Float → Bool → Action → ℕ → List Item → ℕ → Result Failure DryRun
  unfolding scan_items reverse_onto
  dry_run tree case_sensitive action sample_limit page total = do
    (matched, hits) ← scan_items tree case_sensitive sample_limit page (0, [])
    ok record {
      scanned = length page;
      matched = matched;
      truncated = ltb (length page) total;
      hits = reverse_onto [] hits;
      action = action;
    }
