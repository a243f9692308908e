-- ===== src/Approval/Service/Trial.antt =====
-- What a trial run of a rule reports.
use eh_bot.Prelude.{
  ℕ, zero, suc, ◌+◌, ◌-◌, ◌≡◌, refl, Bool, List, [], ◌∷◌, ◌++◌, append_assoc, append-nil, arith,
  ltb, if◌then◌else◌, length, ok, ap, ◌∙◌, Bool-cases, inl, inr, ltb→lt, if-cases,
}
use eh_bot.Rules.{Host, Node}
use eh_bot.Rules.Shape.{IsRunnable}
use eh_bot.Rules.Evaluate.Total.{holds, evaluate-IsRunnable}
use eh_bot.Approval.{Action, Hit}
use eh_bot.Approval.Service.{
  Item, hit_of, add_hit, after_item, or_break, scan_items, reverse_onto, dry_run,
}

module _ {Float : Type 0} (host : Host Float) (tree : Node Float) (case_sensitive : Bool) where
  -- The items of the page that the rule holds of, as hits.
  pub matching : List (Item) → List Hit
  unfolding hit_of
  matching [] = []
  matching (i ∷ items) =
      let rest = matching items in
      if holds host tree i.metadata case_sensitive then hit_of i ∷ rest else rest

pub take {ℓ} : {A : Type ℓ} → ℕ → List A → List A
take zero xs = []
take (suc n) [] = []
take (suc n) (x ∷ xs) = x ∷ take n xs

reverse_onto-append : (acc hs : List Hit) → reverse_onto acc hs ≡ reverse_onto [] hs ++ acc
unfolding reverse_onto
reverse_onto-append acc [] = refl
reverse_onto-append acc (h ∷ hs) =
    rw
      (
        reverse_onto-append (h ∷ acc) hs,
        reverse_onto-append (h ∷ []) hs,
        append_assoc (reverse_onto [] hs) (h ∷ []) acc,
      )
      refl

-- The loop's counters behind a list of hits.
counted : ℕ → List Hit → ℕ × List Hit → ℕ × List Hit
counted limit [] counts = counts
counted limit (h ∷ hs) (matched, hits) =
    counted limit hs (suc matched, if ltb (length hits) limit then h ∷ hits else hits)

counted-matched :
    (limit : ℕ) (hs : List Hit) (counts : ℕ × List Hit)
    → (counted limit hs counts).0 ≡ counts.0 + length hs
unfolding counted
counted-matched limit [] counts = omega arith
counted-matched limit (h ∷ hs) (matched, hits) = omega (
  arith,
  counted-matched limit hs (suc matched, if ltb (length hits) limit then h ∷ hits else hits),
)

take-none {ℓ} : {A : Type ℓ} (n : ℕ) (xs : List A) → n ≡ 0 → take n xs ≡ []
unfolding take
take-none zero xs h = refl
take-none (suc n) xs h = absurd (omega arith)

take-some {ℓ} :
    {A : Type ℓ} (n k : ℕ) (x : A) (xs : List A) → n ≡ suc k → take n (x ∷ xs) ≡ x ∷ take k xs
unfolding take
take-some n k x xs h = rw h refl

take-nil {ℓ} : {A : Type ℓ} (n : ℕ) → take {A = A} n [] ≡ []
unfolding take
take-nil zero = refl
take-nil (suc n) = refl

counted-hits :
    (limit : ℕ) (hs : List Hit) (matched : ℕ) (hits : List Hit)
    → reverse_onto [] (counted limit hs (matched, hits)).1
      ≡ reverse_onto [] hits ++ take (limit - length hits) hs
unfolding counted reverse_onto
counted-hits limit [] matched hits = rw (take-nil (limit - length hits), append-nil) refl
counted-hits limit (h ∷ hs) matched hits =
    if-cases
      (λ kept.
        reverse_onto [] (counted limit hs (suc matched, kept)).1
        ≡ reverse_onto [] hits ++ take (limit - length hits) (h ∷ hs))
      (ltb (length hits) limit)
      (λ e.
        rw
          (
            counted-hits limit hs (suc matched) (h ∷ hits),
            reverse_onto-append (h ∷ []) hits,
            append_assoc (reverse_onto [] hits) (h ∷ []) (take (limit - length (h ∷ hits)) hs),
            take-some (limit - length hits) (limit - length (h ∷ hits)) h hs
                (omega (arith, ltb→lt (length hits) limit e)),
          )
          refl)
      (λ e.
        rw
          (
            counted-hits limit hs (suc matched) hits,
            take-none (limit - length hits) hs (ground arith),
            take-none (limit - length hits) (h ∷ hs) (ground arith),
          )
          refl)

from_zero-matched : (limit : ℕ) (hs : List Hit) → (counted limit hs (0, [])).0 ≡ length hs
from_zero-matched limit hs = omega (arith, counted-matched limit hs (0, []))

from_zero-hits :
    (limit : ℕ) (hs : List Hit) → reverse_onto [] (counted limit hs (0, [])).1 ≡ take limit hs
unfolding reverse_onto
from_zero-hits limit hs =
    counted-hits limit hs 0 [] ∙ ap (λ n. take n hs) {x = limit - 0} {y = limit} (omega arith)

module _ {Float : Type 0} (host : Host Float) (tree : Node Float) (case_sensitive : Bool) where
  scan_items-counted :
      (limit : ℕ) (items : List Item) (counts : ℕ × List Hit)
      → IsRunnable host tree
      → scan_items host tree case_sensitive limit items counts
        ≡ ok (counted limit (matching host tree case_sensitive items) counts)
  unfolding scan_items after_item or_break counted matching add_hit
  scan_items-counted limit [] counts h = refl
  scan_items-counted limit (i ∷ items) counts h =
      elim (Bool-cases (holds host tree i.metadata case_sensitive)) [
        | inl e ↦
            rw (evaluate-IsRunnable host tree i.metadata case_sensitive h, e)
              (scan_items-counted limit items (add_hit limit i counts) h)
        | inr e ↦
            rw (evaluate-IsRunnable host tree i.metadata case_sensitive h, e)
              (scan_items-counted limit items counts h)
      ]

  -- A trial run of a rule of the right shape raises nothing. It counts the items of the page that the
  -- rule holds of, and names the first of them, up to the limit and in the order of the page; it says
  -- how many items it read, and whether there are more.
  pub dry_run-IsRunnable :
      (action : Action) (sample_limit : ℕ) (page : List Item) (total : ℕ)
      → IsRunnable host tree
      → let hits = matching host tree case_sensitive page in
        dry_run host tree case_sensitive action sample_limit page total
        ≡ ok record {
          scanned = length page;
          matched = length hits;
          truncated = ltb (length page) total;
          hits = take sample_limit hits;
          action = action;
        }
  unfolding dry_run
  dry_run-IsRunnable action sample_limit page total h =
      rw
        (
          scan_items-counted sample_limit page (0, []) h,
          from_zero-matched sample_limit (matching host tree case_sensitive page),
          from_zero-hits sample_limit (matching host tree case_sensitive page),
        )
        refl
