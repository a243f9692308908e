-- ===== src/Prelude/Dict.antt =====
-- Python's `dict`: an association list in the order of insertion, each key once.
use Prim.Native.Nat.{◌≤◌, ◌+◌}
use mathlib.Core.Path.{◌≡◌, refl}
use mathlib.Core.Option.{Option, none, some}
use mathlib.Core.List.{List, [], ◌∷◌}
use native.Mathlib.Omega.{arith}
use mathlib.Core.Logic.{inl, inr}
use eh_bot.Prelude.Tests.{if◌then◌else◌, Bool-cases}
use eh_bot.Prelude.Lists.{length, All}
use eh_bot.Prelude.Interfaces.{Eq}

abbrev pub Dict {ℓ κ} : Type ℓ → Type κ → Type (ℓ ⊔ κ)
Dict K V = List (K × V)

module _ {ℓ κ} {K : Type ℓ} {V : Type κ} ⦃e : Eq K⦄ where
  -- d.get(k)
  unfoldable pub lookup : K → Dict K V → Option V
  lookup k [] = none
  lookup k ((j, v) ∷ d) = if e.beq j k then some v else lookup k d

  -- d[k] = v: a key that is there keeps its place, a new one goes to the end.
  unfoldable pub set : K → V → Dict K V → Dict K V
  set k v [] = (k, v) ∷ []
  set k v ((j, w) ∷ d) = if e.beq j k then (j, v) ∷ d else (j, w) ∷ set k v d

  -- d.pop(k, None)
  unfoldable pub pop : K → Dict K V → Dict K V
  pop k [] = []
  pop k ((j, w) ∷ d) = if e.beq j k then d else (j, w) ∷ pop k d

  pub lookup-set :
      (k j : K) (v : V) (d : Dict K V)
      → lookup j (set k v d) ≡ (if e.beq k j then some v else lookup j d)
  unfolding lookup set
  lookup-set k j v [] = refl
  lookup-set k j v ((i, w) ∷ d) =
      ground (arith, e.beq_iff k j, e.beq_iff i k, e.beq_iff i j, lookup-set k j v d)

  pub lookup-set_self : (k : K) (v : V) (d : Dict K V) → lookup k (set k v d) ≡ some v
  unfolding lookup set
  lookup-set_self k v [] = ground (arith, e.beq_iff k k)
  lookup-set_self k v ((i, w) ∷ d) =
      ground (arith, e.beq_iff i k, e.beq_iff k k, lookup-set_self k v d)

  pub length-set : (k : K) (v : V) (d : Dict K V) → length (set k v d) ≤ length d + 1
  unfolding set
  length-set k v [] = omega arith
  length-set k v ((i, w) ∷ d) = ground (arith, length-set k v d)

  pub length-pop : (k : K) (d : Dict K V) → length (pop k d) ≤ length d
  unfolding pop
  length-pop k [] = omega arith
  length-pop k ((i, w) ∷ d) = ground (arith, length-pop k d)

  -- Each key stands once.
  abbrev pub IsDistinct : Dict K V → Type κ
  IsDistinct [] = Unit
  IsDistinct ((k, v) ∷ d) = (lookup k d ≡ none) × IsDistinct d

  pub set-IsDistinct : (k : K) (v : V) (d : Dict K V) → IsDistinct d → IsDistinct (set k v d)
  unfolding lookup set
  set-IsDistinct k v [] h = (refl, tt)
  set-IsDistinct k v ((j, w) ∷ d) h = elim (Bool-cases (e.beq j k)) [
    | inl same ↦ rw same h
    | inr other ↦
        rw other
          (rw lookup-set (ground (arith, e.beq_iff j k, e.beq_iff k j)), set-IsDistinct k v d h.1)
  ]

  pub lookup-pop :
      (k j : K) (d : Dict K V)
      → IsDistinct d
      → lookup j (pop k d) ≡ (if e.beq k j then none else lookup j d)
  unfolding lookup pop
  lookup-pop k j [] h = ground arith
  lookup-pop k j ((i, w) ∷ d) h =
      ground (arith, e.beq_iff k j, e.beq_iff i k, e.beq_iff i j, lookup-pop k j d h.1)

  pub pop-IsDistinct : (k : K) (d : Dict K V) → IsDistinct d → IsDistinct (pop k d)
  unfolding lookup pop
  pop-IsDistinct k [] h = tt
  pop-IsDistinct k ((j, w) ∷ d) h = elim (Bool-cases (e.beq j k)) [
    | inl same ↦ rw same h.1
    | inr other ↦ rw other (rw (lookup-pop k j d h.1) (ground (arith, h.0)), pop-IsDistinct k d h.1)
  ]

  All-map : {P Q : K × V → Type κ} (d : Dict K V) → ((p : K × V) → P p → Q p) → All P d → All Q d
  All-map [] f h = tt
  All-map (p ∷ d) f h = (f p h.0, All-map d f h.1)

  -- What stands in the dict is what its keys are looked up to.
  pub All-lookup : (d : Dict K V) → IsDistinct d → All (λ (p : K × V). lookup p.0 d ≡ some p.1) d
  unfolding lookup
  All-lookup [] h = tt
  All-lookup ((k, v) ∷ d) h = (
    ground (arith, e.beq_iff k k),
    All-map d (λ p found. ground (arith, e.beq_iff k p.0)) (All-lookup d h.1),
  )
