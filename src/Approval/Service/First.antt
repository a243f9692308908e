-- ===== src/Approval/Service/First.antt =====
-- The first rule that decides a candidate, against the order of the table.
use mathlib.Core.List.{Memᴰ}
use eh_bot.Prelude.{
  ◌≡◌, refl, sym, ap, ◌∙◌, ◌⊎◌, inl, inr, Bool, true, false, Option, none, some, List, [], ◌∷◌,
  arith, if◌then◌else◌, Result, ok, err, All, Option-cases, ℕ, nat_Eq,
}
use eh_bot.Prelude.Dict
use eh_bot.Rules.{Host}
use eh_bot.Rules.Evaluate.{Failure, unknown_operator, value_error, bad_operand, Condition, evaluate}
use eh_bot.Approval.{
  Status, Rule, Candidate, Match, Tables, pending_review, comes_before, enabled_rules,
}
use eh_bot.Approval.Service.{
  is_pending, is_caught, verdict, decide, or_next, first_match, with_gallery, of_candidate,
  matching_rule,
}
use eh_bot.Approval.Order.{
  All-enabled_rules, All-weaken, IsEnabled, IsOrdered, comes_before_refl, enabled_rules-IsOrdered,
  enabled_rules-mem,
}

module _ {Float : Type 0} (host : Host Float) where
  -- What a rule that decides gives the whole search.
  pub settled : Result Failure (Match Float) → Result Failure (Option (Match Float))
  settled (ok m) = ok (some m)
  settled (err e) = err e

  -- A rule of the table that is enabled and decides the candidate, in front of all others that do.
  pub record IsFirst (c : Candidate) (gid : ℕ) (rules : List (Rule Float)) (r : Rule Float)
      (outcome : Result Failure (Match Float)) : Type 0 where
    pub enabled : IsEnabled r rules
    pub decides : decide host c gid r ≡ some outcome
    pub in_front :
        All (λ s. s.enabled ≡ true → (decide host c gid s ≡ none) ⊎ (comes_before r s ≡ true)) rules

  -- The first rule that decides settles the search, or none does and nothing is found.
  pub IsDecidedByFirst : Tables Float → ℕ → Candidate → ℕ → Type 0
  IsDecidedByFirst tables candidate_id c gid =
      ((r : Rule Float) × (outcome : Result Failure (Match Float)) × IsFirst c gid tables.rules r
          outcome
        × (matching_rule host tables candidate_id ≡ settled outcome))
      ⊎ (All (λ s. s.enabled ≡ true → decide host c gid s ≡ none) tables.rules
          × (matching_rule host tables candidate_id ≡ ok none))

  record IsAhead (c : Candidate) (gid : ℕ) (rules : List (Rule Float)) (r : Rule Float)
      (outcome : Result Failure (Match Float)) : Type 0 where
    listed : Memᴰ r rules
    decided : decide host c gid r ≡ some outcome
    ahead : All (λ s. (decide host c gid s ≡ none) ⊎ (comes_before r s ≡ true)) rules
    result : first_match host c gid rules ≡ settled outcome

  record PassesAll (c : Candidate) (gid : ℕ) (rules : List (Rule Float)) : Type 0 where
    silent : All (λ s. decide host c gid s ≡ none) rules
    nothing : first_match host c gid rules ≡ ok none

  Search : Candidate → ℕ → List (Rule Float) → Type 0
  Search c gid rules =
      ((r : Rule Float) × (outcome : Result Failure (Match Float)) × IsAhead c gid rules r outcome)
      ⊎ PassesAll c gid rules

  or_next-settled :
      (outcome : Result Failure (Match Float)) (rest : Result Failure (Option (Match Float)))
      → or_next host (some outcome) rest ≡ settled outcome
  unfolding or_next settled
  or_next-settled (ok m) rest = refl
  or_next-settled (err e) rest = refl

  first_match-Search :
      (c : Candidate) (gid : ℕ) (rules : List (Rule Float)) → IsOrdered rules → Search c gid rules
  unfolding first_match Search IsOrdered
  first_match-Search c gid [] o = inr (record { silent = tt; nothing = refl })
  first_match-Search c gid (r ∷ rs) o = elim (Option-cases (decide host c gid r)) [
    | inl e ↦ elim (first_match-Search c gid rs o.1) [
      | inl (s, outcome, f) ↦ inl (
        s,
        outcome,
        record {
          listed = Memᴰ.tail f.listed;
          decided = f.decided;
          ahead = (inl e, f.ahead);
          result = rw e (unfold or_next in f.result);
        },
      )
      | inr p ↦
          inr (record { silent = (e, p.silent); nothing = rw e (unfold or_next in p.nothing) })
    ]
    | inr (outcome, e) ↦ inl (
      r,
      outcome,
      record {
        listed = Memᴰ.head refl;
        decided = e;
        ahead = (inr (comes_before_refl r), All-weaken rs (λ s h. inr h) o.0);
        result = rw e (or_next-settled outcome (first_match host c gid rs));
      },
    )
  ]

  -- Of a candidate that awaits review and has a gallery id, what the search gives is decided by the
  -- first enabled rule, by priority and then by id, that matches it or raises an exception that the
  -- service does not catch: a match is returned, and such an exception passes. Rules that do not match, or
  -- that raise the exception it catches, are passed over, and without any other rule nothing is returned.
  pub matching_rule-first :
      (tables : Tables Float) (candidate_id : ℕ) (c : Candidate) (gid : ℕ)
      → Dict.lookup candidate_id tables.candidates ≡ some c
      → c.status ≡ pending_review
      → c.ex_gid ≡ some gid
      → IsDecidedByFirst tables candidate_id c gid
  unfolding matching_rule of_candidate is_pending with_gallery Search IsDecidedByFirst
  matching_rule-first tables candidate_id c gid found pending linked =
      rw (found, pending, linked)
        (elim search [
          | inl (r, outcome, f) ↦ inl (
            r,
            outcome,
            record {
              enabled = enabled_rules-mem r tables.rules f.listed;
              decides = f.decided;
              in_front = All-enabled_rules _ tables.rules f.ahead;
            },
            f.result,
          )
          | inr p ↦ inr (All-enabled_rules _ tables.rules p.silent, p.nothing)
        ])
    where
      search : Search c gid (enabled_rules tables.rules)
      search =
          first_match-Search c gid (enabled_rules tables.rules)
            (enabled_rules-IsOrdered tables.rules)

  -- The match of a rule of the table, on the candidate as it stands there.
  pub record IsMatch (tables : Tables Float) (candidate_id : ℕ) (m : Match Float) : Type 0 where
    pub candidate : Candidate
    pub found : Dict.lookup candidate_id tables.candidates ≡ some candidate
    pub pending : candidate.status ≡ pending_review
    pub linked : candidate.ex_gid ≡ some m.gallery_id
    pub current : m.metadata ≡ candidate.metadata
    pub generation : m.ingest_identity ≡ candidate.entries
    pub enabled : IsEnabled m.rule tables.rules
    pub matched :
        evaluate host m.rule.tree m.metadata m.rule.case_sensitive ≡ ok (true, m.conditions)

  verdict-matched :
      (r : Rule Float) (c : Candidate) (gid : ℕ) (m : Match Float)
      (outcome : Result Failure (Bool × List Condition))
      → verdict host r c gid outcome ≡ some (ok m)
      → (outcome ≡ ok (true, m.conditions))
        × (m.rule ≡ r)
        × (m.metadata ≡ c.metadata)
        × (m.gallery_id ≡ gid)
        × (m.ingest_identity ≡ c.entries)
  unfolding verdict is_caught
  verdict-matched r c gid m (ok (true, conditions)) h = ground arith
  verdict-matched r c gid m (ok (false, conditions)) h = cc
  verdict-matched r c gid m (err unknown_operator) h = cc
  verdict-matched r c gid m (err value_error) h = cc
  verdict-matched r c gid m (err bad_operand) h = cc

  settled-matched :
      (outcome : Result Failure (Match Float)) (m : Match Float)
      → settled outcome ≡ ok (some m)
      → outcome ≡ ok m
  unfolding settled
  settled-matched (ok n) m h = cc
  settled-matched (err e) m h = cc

  Search-IsMatch :
      (tables : Tables Float) (candidate_id : ℕ) (m : Match Float) (c : Candidate) (gid : ℕ)
      → Dict.lookup candidate_id tables.candidates ≡ some c
      → c.status ≡ pending_review
      → c.ex_gid ≡ some gid
      → first_match host c gid (enabled_rules tables.rules) ≡ ok (some m)
      → Search c gid (enabled_rules tables.rules)
      → IsMatch tables candidate_id m
  unfolding Search decide
  Search-IsMatch tables candidate_id m c gid found pending linked h (inl (r, outcome, f)) =
      let (seen, is_rule, meta, gal, gen) =
        verdict-matched r c gid m (evaluate host r.tree c.metadata r.case_sensitive)
          (f.decided ∙ ap some (settled-matched outcome m (sym f.result ∙ h))) in
      record {
        candidate = c;
        found = found;
        pending = pending;
        linked = rw gal linked;
        current = meta;
        generation = gen;
        enabled = simp is_rule (enabled_rules-mem r tables.rules f.listed);
        matched = simp (is_rule, meta) seen;
      }
  Search-IsMatch tables candidate_id m c gid found pending linked h (inr p) = cc

  with_gallery-IsMatch :
      (tables : Tables Float) (candidate_id : ℕ) (m : Match Float) (c : Candidate) (o : Option ℕ)
      → Dict.lookup candidate_id tables.candidates ≡ some c
      → c.status ≡ pending_review
      → c.ex_gid ≡ o
      → with_gallery host (enabled_rules tables.rules) c o ≡ ok (some m)
      → IsMatch tables candidate_id m
  unfolding with_gallery
  with_gallery-IsMatch tables candidate_id m c none found pending linked h = cc
  with_gallery-IsMatch tables candidate_id m c (some gid) found pending linked h =
      Search-IsMatch tables candidate_id m c gid found pending linked h (
        first_match-Search c gid (enabled_rules tables.rules)
          (enabled_rules-IsOrdered tables.rules))

  of_candidate-IsMatch :
      (tables : Tables Float) (candidate_id : ℕ) (m : Match Float) (o : Option Candidate)
      → Dict.lookup candidate_id tables.candidates ≡ o
      → of_candidate host (enabled_rules tables.rules) o ≡ ok (some m)
      → IsMatch tables candidate_id m
  unfolding of_candidate is_pending
  of_candidate-IsMatch tables candidate_id m none found h = cc
  of_candidate-IsMatch tables candidate_id m (some c) found h = from c.status refl h
    where
      from :
          (s : Status)
          → c.status ≡ s
          → (if is_pending s
              then with_gallery host (enabled_rules tables.rules) c c.ex_gid
              else ok none)
            ≡ ok (some m)
          → IsMatch tables candidate_id m
      from pending_review e k = with_gallery-IsMatch tables candidate_id m c c.ex_gid found e refl k
      from _ e k = cc

  -- A rule decides nothing but a candidate that awaits review and has a gallery id: the match that is
  -- returned names that id, the effective metadata and the ingest entries as they stand in the
  -- tables, and a rule of the table that is enabled and whose evaluation on this metadata is true,
  -- with the conditions of that evaluation.
  pub matching_rule-IsMatch :
      (tables : Tables Float) (candidate_id : ℕ) (m : Match Float)
      → matching_rule host tables candidate_id ≡ ok (some m)
      → IsMatch tables candidate_id m
  unfolding matching_rule
  matching_rule-IsMatch tables candidate_id m h =
      of_candidate-IsMatch tables candidate_id m (Dict.lookup candidate_id tables.candidates) refl h
