-- ===== src/Approval/Order.antt =====
-- The enabled rules in `ORDER BY priority, id`.
use mathlib.Core.List.{Memᴰ}
use eh_bot.Prelude.{
  ◌≡◌, refl, ◌⊎◌, inl, inr, Bool, true, false, List, [], ◌∷◌, arith, All, Bool-cases, if-elim,
  nat_Eq,
}
use eh_bot.Prelude.Int.{ℤ, pos, negsuc}
use eh_bot.Approval.{Rule, int_lt, int_eq, comes_before, insert_rule, insert_if, enabled_rules}

int_lt_trans : (a b c : ℤ) → int_lt a b ≡ true → int_lt b c ≡ true → int_lt a c ≡ true
unfolding int_lt
int_lt_trans a b c h k = ground arith

int_eq-lt : (a b c : ℤ) → int_eq a b ≡ true → int_lt b c ≡ true → int_lt a c ≡ true
unfolding int_lt int_eq
int_eq-lt a b c h k = ground arith

int_lt-eq : (a b c : ℤ) → int_lt a b ≡ true → int_eq b c ≡ true → int_lt a c ≡ true
unfolding int_lt int_eq
int_lt-eq a b c h k = ground arith

int_eq_trans : (a b c : ℤ) → int_eq a b ≡ true → int_eq b c ≡ true → int_eq a c ≡ true
unfolding int_eq
int_eq_trans a b c h k = ground arith

int_trichotomy : (a b : ℤ) → int_lt a b ≡ false → (int_lt b a ≡ true) ⊎ (int_eq b a ≡ true)
unfolding int_lt int_eq
int_trichotomy a b h = ground arith

int_eq-sym : (a b : ℤ) → int_eq a b ≡ int_eq b a
unfolding int_eq
int_eq-sym a b = ground arith

module _ {Float : Type 0} where
  pub comes_before_refl : (r : Rule Float) → comes_before r r ≡ true
  unfolding comes_before int_lt int_eq
  comes_before_refl r = elim r.priority [ pos n ↦ ground arith | negsuc n ↦ ground arith ]

  comes_before_trans :
      (r s t : Rule Float)
      → comes_before r s ≡ true
      → comes_before s t ≡ true
      → comes_before r t ≡ true
  unfolding comes_before
  comes_before_trans r s t h k = ground (
    arith,
    int_lt_trans r.priority s.priority t.priority,
    int_eq-lt r.priority s.priority t.priority,
    int_lt-eq r.priority s.priority t.priority,
    int_eq_trans r.priority s.priority t.priority,
  )

  comes_before-total : (r s : Rule Float) → comes_before r s ≡ false → comes_before s r ≡ true
  unfolding comes_before
  comes_before-total r s h =
      ground (arith, int_trichotomy r.priority s.priority, int_eq-sym r.priority s.priority)

  -- No rule is behind one that follows it.
  unfoldable pub IsOrdered : List (Rule Float) → Type 0
  IsOrdered [] = Unit
  IsOrdered (r ∷ rs) = All (λ s. comes_before r s ≡ true) rs × IsOrdered rs

  pub All-weaken :
      {P Q : Rule Float → Type 0} (rs : List (Rule Float))
      → ((s : Rule Float) → P s → Q s)
      → All P rs
      → All Q rs
  All-weaken [] f h = tt
  All-weaken (r ∷ rs) f h = (f r h.0, All-weaken rs f h.1)

  All-insert_rule :
      (P : Rule Float → Type 0) (r : Rule Float) (rs : List (Rule Float))
      → P r
      → All P rs
      → All P (insert_rule r rs)
  unfolding insert_rule
  All-insert_rule P r [] h hs = (h, tt)
  All-insert_rule P r (s ∷ rs) h hs = elim (Bool-cases (comes_before r s)) [
    | inl e ↦ rw e (h, hs)
    | inr e ↦ rw e (hs.0, All-insert_rule P r rs h hs.1)
  ]

  insert_rule-IsOrdered :
      (r : Rule Float) (rs : List (Rule Float)) → IsOrdered rs → IsOrdered (insert_rule r rs)
  unfolding insert_rule IsOrdered
  insert_rule-IsOrdered r [] h = (tt, tt)
  insert_rule-IsOrdered r (s ∷ rs) h = elim (Bool-cases (comes_before r s)) [
    | inl e ↦ rw e (((e, All-weaken rs (λ t k. comes_before_trans r s t e k) h.0)), h)
    | inr e ↦ rw e (
      All-insert_rule (λ t. comes_before s t ≡ true) r rs (comes_before-total r s e) h.0,
      insert_rule-IsOrdered r rs h.1,
    )
  ]

  insert_if-IsOrdered :
      (b : Bool) (r : Rule Float) (rs : List (Rule Float))
      → IsOrdered rs
      → IsOrdered (insert_if b r rs)
  unfolding insert_if
  insert_if-IsOrdered true r rs h = insert_rule-IsOrdered r rs h
  insert_if-IsOrdered false r rs h = h

  pub enabled_rules-IsOrdered : (rs : List (Rule Float)) → IsOrdered (enabled_rules rs)
  unfolding enabled_rules IsOrdered
  enabled_rules-IsOrdered [] = tt
  enabled_rules-IsOrdered (r ∷ rs) =
      insert_if-IsOrdered r.enabled r (enabled_rules rs) (enabled_rules-IsOrdered rs)

  insert_rule-mem :
      (r t : Rule Float) (rs : List (Rule Float)) → Memᴰ t (insert_rule r rs) → (t ≡ r) ⊎ Memᴰ t rs
  unfolding insert_rule
  insert_rule-mem r t [] (Memᴰ.head e) = inl e
  insert_rule-mem r t [] (Memᴰ.tail m) = elim m [ ]
  insert_rule-mem r t (s ∷ rs) m =
      if-elim (λ l. Memᴰ t l → (t ≡ r) ⊎ Memᴰ t (s ∷ rs)) (comes_before r s)
        (λ n. elim n [ Memᴰ.head e ↦ inl e | Memᴰ.tail k ↦ inr k ])
        (λ n. elim n [
          | Memᴰ.head e ↦ inr (Memᴰ.head e)
          | Memᴰ.tail k ↦ elim (insert_rule-mem r t rs k) [
            | inl e ↦ inl e
            | inr k' ↦ inr (Memᴰ.tail k')
          ]
        ])
        m

  -- A rule of the table that is enabled.
  unfoldable pub IsEnabled : Rule Float → List (Rule Float) → Type 0
  IsEnabled t rs = Memᴰ t rs × (t.enabled ≡ true)

  insert_if-mem :
      (b : Bool) (r t : Rule Float) (rs : List (Rule Float))
      → r.enabled ≡ b
      → Memᴰ t (insert_if b r rs)
      → ((t ≡ r) × (r.enabled ≡ true)) ⊎ Memᴰ t rs
  unfolding insert_if
  insert_if-mem true r t rs e m = elim (insert_rule-mem r t rs m) [
    | inl same ↦ inl (same, e)
    | inr k ↦ inr k
  ]
  insert_if-mem false r t rs e m = inr m

  pub enabled_rules-mem :
      (t : Rule Float) (rs : List (Rule Float)) → Memᴰ t (enabled_rules rs) → IsEnabled t rs
  unfolding enabled_rules IsEnabled
  enabled_rules-mem t [] m = elim m [ ]
  enabled_rules-mem t (r ∷ rs) m = elim (insert_if-mem r.enabled r t (enabled_rules rs) refl m) [
    | inl (same, on) ↦ (Memᴰ.head same, rw same on)
    | inr k ↦ let (k', on) = enabled_rules-mem t rs k in (Memᴰ.tail k', on)
  ]

  insert_rule-All :
      (P : Rule Float → Type 0) (r : Rule Float) (rs : List (Rule Float))
      → All P (insert_rule r rs)
      → P r × All P rs
  unfolding insert_rule
  insert_rule-All P r [] h = h
  insert_rule-All P r (s ∷ rs) h =
      if-elim (λ l. All P l → P r × (P s × All P rs)) (comes_before r s) (λ k. k)
        (λ k. let (hr, hs) = insert_rule-All P r rs k.1 in (hr, (k.0, hs))) h

  insert_if-All :
      (P : Rule Float → Type 0) (b : Bool) (r : Rule Float) (rs : List (Rule Float))
      → r.enabled ≡ b
      → All P (insert_if b r rs)
      → (r.enabled ≡ true → P r) × All P rs
  unfolding insert_if
  insert_if-All P true r rs e h = let (hr, hs) = insert_rule-All P r rs h in ((λ on. hr), hs)
  insert_if-All P false r rs e h = ((λ on. cc), h)

  pub All-enabled_rules :
      (P : Rule Float → Type 0) (rs : List (Rule Float))
      → All P (enabled_rules rs)
      → All (λ s. s.enabled ≡ true → P s) rs
  unfolding enabled_rules
  All-enabled_rules P [] h = tt
  All-enabled_rules P (r ∷ rs) h =
      let (hr, hs) = insert_if-All P r.enabled r (enabled_rules rs) refl h in
      (hr, All-enabled_rules P rs hs)
