-- ===== src/Queue/Rows/Table.antt =====
-- What happens to one table of the queue while identifiers are given out.
use mathlib.Core.Path.{subst}
use eh_bot.Prelude.{
  ℕ, suc, ◌≤◌, ◌<◌, ◌≡◌, refl, sym, ◌∙◌, Option, none, some, ◌⊎◌, inl, inr, arith, ◌==◌, nat_Eq,
  if-cases,
}
use eh_bot.Prelude.Dict
use eh_bot.Prelude.Dict.{Dict}
use eh_bot.Queue.Rows.{update_row, change}

-- Every identifier in the table has been given out.
unfoldable pub IsGivenOut : {V : Type 0} → Dict ℕ V → ℕ → Type 0
IsGivenOut {V} d fresh = (id : ℕ) (v : V) → Dict.lookup id d ≡ some v → id < fresh

-- The row of `v` is still there, as one that `R` allows.
pub record IsKept {V : Type 0} (R : V → V → Type 0) (v : V) (o : Option V) : Type 0 where
  pub row : V
  pub found : o ≡ some row
  pub same : R v row

-- Every identifier of the later table has been given out, no row is lost, and what is new has an identifier that had not been
-- given out before.
pub record IsExtended {V : Type 0} (R : V → V → Type 0) (d : Dict ℕ V) (fresh : ℕ) (d' : Dict ℕ V)
    (fresh' : ℕ) : Type 0 where
  pub numbered : IsGivenOut d' fresh'
  pub kept : (id : ℕ) (v : V) → Dict.lookup id d ≡ some v → IsKept R v (Dict.lookup id d')
  pub added :
      (id : ℕ) (v : V)
      → Dict.lookup id d' ≡ some v
      → (fresh ≤ id) ⊎ ((u : V) × (Dict.lookup id d ≡ some u))

unfoldable pub Extends : {V : Type 0} → (V → V → Type 0) → Dict ℕ V → ℕ → Dict ℕ V → ℕ → Type 0
Extends R d fresh d' fresh' = IsGivenOut d fresh → IsExtended R d fresh d' fresh'

module _ {V : Type 0} (R : V → V → Type 0) where
  pub Extends-trans :
      (d d' d'' : Dict ℕ V) (fresh fresh' fresh'' : ℕ)
      → ((u v w : V) → R u v → R v w → R u w)
      → fresh ≤ fresh'
      → Extends R d fresh d' fresh'
      → Extends R d' fresh' d'' fresh''
      → Extends R d fresh d'' fresh''
  unfolding Extends
  Extends-trans d d' d'' fresh fresh' fresh'' t l a b g =
      let x = a g in
      let y = b x.numbered in
      record {
        numbered = y.numbered;
        kept = λ id v e.
            let k = x.kept id v e in
            let m = y.kept id k.row k.found in
            record { row = m.row; found = m.found; same = t v k.row m.row k.same m.same };
        added = λ id v e. elim (y.added id v e) [
          | inl new ↦ inl (omega (arith, new, l))
          | inr (u, k) ↦ x.added id u k
        ];
      }

  module _ (reflexive : (v : V) → R v v) where
    IsKept-self : (v : V) (o : Option V) → o ≡ some v → IsKept R v o
    IsKept-self v o e = record { row = v; found = e; same = reflexive v }

    pub Extends-later :
        (d : Dict ℕ V) (fresh fresh' : ℕ) → fresh ≤ fresh' → Extends R d fresh d fresh'
    unfolding Extends IsGivenOut
    Extends-later d fresh fresh' l g = record {
      numbered = λ id v e. omega (arith, g id v e, l);
      kept = λ id v e. IsKept-self v _ e;
      added = λ id v e. inr (v, e);
    }

    pub Extends-refl : (d : Dict ℕ V) (fresh : ℕ) → Extends R d fresh d fresh
    Extends-refl d fresh = Extends-later d fresh fresh (omega arith)

    IsGivenOut-set :
        (id : ℕ) (v : V) (d : Dict ℕ V) (fresh : ℕ)
        → id < fresh
        → IsGivenOut d fresh
        → IsGivenOut (Dict.set id v d) fresh
    unfolding IsGivenOut
    IsGivenOut-set id v d fresh l g j u e =
        if-cases (λ (o : Option V). o ≡ some u → j < fresh) (id == j) (λ same k. ground arith)
          (λ other k. g j u k) (sym (Dict.lookup-set id j v d) ∙ e)

    set-kept :
        (id j : ℕ) (v u : V) (d : Dict ℕ V)
        → Dict.lookup j d ≡ some u
        → (j ≡ id → R u v)
        → IsKept R u (Dict.lookup j (Dict.set id v d))
    set-kept id j v u d e h = rw (Dict.lookup-set id j v d) (
        if-cases (IsKept R u) (id == j)
          (λ same. record { row = v; found = refl; same = h (ground arith) })
          (λ other. IsKept-self u _ e))

    set-added :
        (id j fresh : ℕ) (v u : V) (d : Dict ℕ V)
        → (j ≡ id → (fresh ≤ j) ⊎ ((w : V) × (Dict.lookup j d ≡ some w)))
        → Dict.lookup j (Dict.set id v d) ≡ some u
        → (fresh ≤ j) ⊎ ((w : V) × (Dict.lookup j d ≡ some w))
    set-added id j fresh v u d h e =
        if-cases
          (λ (o : Option V). o ≡ some u → (fresh ≤ j) ⊎ ((w : V) × (Dict.lookup j d ≡ some w)))
          (id == j) (λ same k. h (ground arith)) (λ other k. inr (u, k))
          (sym (Dict.lookup-set id j v d) ∙ e)

    pub Extends-set :
        (id : ℕ) (v u : V) (d : Dict ℕ V) (fresh : ℕ)
        → Dict.lookup id d ≡ some u
        → R u v
        → Extends R d fresh (Dict.set id v d) fresh
    unfolding Extends IsGivenOut
    Extends-set id v u d fresh e r g = record {
      numbered = IsGivenOut-set id v d fresh (g id u e) g;
      kept = λ j w k.
          set-kept id j v w d k
            (λ same. let same_row : u ≡ w = cc in subst (λ x. R x v) same_row r);
      added = λ j w k. set-added id j fresh v w d (λ same. inr (u, cc)) k;
    }

    pub Extends-insert :
        (v : V) (d : Dict ℕ V) (fresh : ℕ) → Extends R d fresh (Dict.set fresh v d) (suc fresh)
    unfolding Extends IsGivenOut
    Extends-insert v d fresh g = record {
      numbered =
          IsGivenOut-set fresh v d (suc fresh) (omega arith) (λ id u e. omega (arith, g id u e));
      kept = λ j w k. set-kept fresh j v w d k (λ same. absurd (omega (arith, g j w k)));
      added = λ j w k. set-added fresh j fresh v w d (λ same. inl (omega (arith, same))) k;
    }

    pub Extends-update :
        (id : ℕ) (f : V → V) (d : Dict ℕ V) (fresh : ℕ)
        → ((v : V) → R v (f v))
        → Extends R d fresh (update_row id f d) fresh
    unfolding update_row change
    Extends-update id f d fresh h = by_row (Dict.lookup id d) refl
      where
        by_row : (o : Option V) → Dict.lookup id d ≡ o → Extends R d fresh (change id f d o) fresh
        by_row none e = Extends-refl d fresh
        by_row (some v) e = Extends-set id (f v) v d fresh e (h v)
