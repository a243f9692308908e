-- ===== src/Approval/Commit/Samples.antt =====
-- An automatic rejection on a small table.
use eh_bot.Prelude.{ℕ, ◌≡◌, refl, false, Bool, ◌==◌, none, some, [], ◌∷◌, codes, ok}
use eh_bot.Prelude.Dict
use eh_bot.Rules.Validate.Samples.{ascii}
use eh_bot.Approval.{reject, rejected, Match, is_allowed, is_reviewable}
use eh_bot.Approval.Service.Samples.{book, tables, book_match, matching_rule-book}
use eh_bot.Approval.Commit.{
  Ledger, verb, auto_reject, new_status, rule_evidence, auto_operator, rule_note, status_after,
  remark_after, verb_after, is_approval, or_blank, stored_note, with_status, moved, transition,
  or_evaluation, is_same, record_decision, begin_decision, reject_automatically,
}
use eh_bot.Approval.Commit.Evidence.{IsCommitted, reject_automatically-IsCommitted}

abbrev ledger : Ledger ℕ
ledger = record { tables = tables; audits = []; is_changing = λ candidate_id. false }

abbrev same_rule : Match ℕ → Match ℕ → Bool
same_rule m n = m.rule.rule_id == n.rule.rule_id

abbrev ledger_after : Ledger ℕ
ledger_after = record {
  tables = record tables {
    candidates =
        (7, record book { status = rejected; filter_reason = rule_note (codes "long") })
        ∷ (8, record book { ex_gid = none })
        ∷ [];
  };
  audits =
      record {
        candidate_id = 7;
        action = verb reject;
        operator = auto_operator;
        details = new_status rejected (some (rule_note (codes "long")));
      }
      ∷ record {
        candidate_id = 7;
        action = auto_reject;
        operator = auto_operator;
        details = rule_evidence book_match [];
      }
      ∷ [];
  is_changing = λ candidate_id. false;
}

reject-book : reject_automatically ascii same_rule 7 book_match ledger ≡ ok ledger_after
unfolding reject_automatically begin_decision or_evaluation is_same transition moved Dict.lookup
    Dict.set status_after remark_after verb_after is_approval or_blank stored_note with_status
    record_decision is_allowed is_reviewable
reject-book = rw (matching_rule-book) refl

reject_automatically-IsCommitted_example :
    IsCommitted ascii same_rule 7 book_match ledger ledger_after
reject_automatically-IsCommitted_example =
    reject_automatically-IsCommitted ascii same_rule 7 book_match ledger ledger_after reject-book
