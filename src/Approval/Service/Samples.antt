-- ===== src/Approval/Service/Samples.antt =====
-- The service on a small table of rules.
use eh_bot.Prelude.{ℕ, ◌≡◌, refl, true, false, none, some, [], ◌∷◌, codes, ok, err, nat_Eq, length}
use eh_bot.Prelude.Dict
use eh_bot.Prelude.Int.{pos}
use eh_bot.Rules.{Node}
use eh_bot.Rules.Validate.Samples.{ascii}
use eh_bot.Rules.Evaluate.{value_error}
use eh_bot.Rules.Evaluate.Samples.{
  long_work, broken_rating, pages_24, long_work_condition, long_work-matches, broken_rating-raises,
  long_work-IsRunnable,
}
use eh_bot.Approval.{
  pending_review, needs_info, approve, reject, Rule, Candidate, Match, Tables, enabled_rules,
  insert_rule, insert_if, comes_before, int_lt, int_eq,
}
use eh_bot.Approval.Service.{
  Item, is_pending, is_caught, verdict, decide, or_next, first_match, with_gallery, of_candidate,
  matching_rule, dry_run,
}
use eh_bot.Approval.Service.First.{
  IsMatch, IsDecidedByFirst, matching_rule-first, matching_rule-IsMatch,
}
use eh_bot.Approval.Service.Trial.{matching, take, dry_run-IsRunnable}

abbrev pub book : Candidate
book = record {
  status = pending_review;
  ex_gid = some 4137423;
  title = some (codes "A long book");
  filter_reason = [];
  metadata = pages_24;
  entries = (1, 1, 2) ∷ [];
}

abbrev pub rule_of : ℕ → Node ℕ → Rule ℕ
rule_of id tree = record {
  rule_id = id;
  name = codes "long";
  enabled = true;
  priority = pos id;
  version = 1;
  tree = tree;
  dsl_snapshot = [];
  case_sensitive = false;
  action = reject;
  rule_uuid = [];
}

abbrev pub tables : Tables ℕ
tables = record {
  candidates = (7, book) ∷ (8, record book { ex_gid = none }) ∷ [];
  rules = rule_of 5 broken_rating ∷ rule_of 2 long_work ∷ [];
}

abbrev pub book_match : Match ℕ
book_match = record {
  rule = rule_of 2 long_work;
  metadata = pages_24;
  conditions = long_work_condition ∷ [];
  gallery_id = 4137423;
  ingest_identity = (1, 1, 2) ∷ [];
}

pub matching_rule-book : matching_rule ascii tables 7 ≡ ok (some book_match)
unfolding matching_rule of_candidate Dict.lookup is_pending with_gallery enabled_rules insert_if
    insert_rule comes_before int_lt int_eq first_match decide or_next verdict
matching_rule-book = rw (long_work-matches) refl

-- In front of the rule that matches, a rule that raises an exception keeps it from being tried.
matching_rule-blocked :
    matching_rule ascii
      (record tables { rules = rule_of 1 broken_rating ∷ rule_of 2 long_work ∷ [] })
      7
    ≡ err value_error
unfolding matching_rule of_candidate Dict.lookup is_pending with_gallery enabled_rules insert_if
    insert_rule comes_before int_lt int_eq first_match decide or_next verdict is_caught
matching_rule-blocked = rw (broken_rating-raises) refl

matching_rule-first_example : IsDecidedByFirst ascii tables 7 book 4137423
matching_rule-first_example =
    matching_rule-first ascii tables 7 book 4137423 (unfold Dict.lookup in refl) refl refl

matching_rule-IsMatch_example : IsMatch ascii tables 7 book_match
matching_rule-IsMatch_example = matching_rule-IsMatch ascii tables 7 book_match matching_rule-book

abbrev item : Item
item = record {
  candidate_id = 7;
  title = some (codes "A long book");
  status = needs_info;
  metadata = pages_24;
}

dry_run-IsRunnable_example :
    let hits = matching ascii long_work false (item ∷ item ∷ []) in
    dry_run ascii long_work false approve 1 (item ∷ item ∷ []) 9
    ≡ ok record {
      scanned = 2;
      matched = length hits;
      truncated = true;
      hits = take 1 hits;
      action = approve;
    }
dry_run-IsRunnable_example =
    dry_run-IsRunnable ascii long_work false approve 1 (item ∷ item ∷ []) 9 long_work-IsRunnable
