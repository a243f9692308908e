-- ===== src/Volumes/Gaps.antt =====
-- The volumes that are reported missing.
use mathlib.Core.Path.{subst}
use eh_bot.Prelude.{
  ℕ, suc, zero, ◌+◌, ◌≤◌, ◌<◌, ◌≡◌, refl, sym, ◌∙◌, ap, Bool, true, false, ◌&&◌, ◌||◌, Option, none,
  some, List, [], ◌∷◌, arith, ◌==◌, if◌then◌else◌, Text, if-cases, Bool-cases, inl, inr, list_eq,
  list_eq_iff,
}
use eh_bot.Volumes.{
  Volume, volume, nonzero, indexes_of, max_of, is_listed, gaps, names_for, with_missing, of_volumes,
  of_group, resolve_volumes, sibling, member_of, insert_volume, add_volume, candidates, names_of,
  sibling_volumes, comes_first,
}

gaps-listed :
    (n from x : ℕ) (is : List ℕ)
    → gaps n from is ≡ []
    → from ≤ x
    → x < from + n
    → is_listed x is ≡ true
unfolding gaps
gaps-listed zero from x is e l u = absurd (omega (arith, l, u))
gaps-listed (suc n) from x is e l u = elim (Bool-cases (is_listed from is)) [
  | inl here ↦ elim (Bool-cases (from == x)) [
    | inl same ↦ ground (arith, here)
    | inr other ↦
        gaps-listed n (suc from) x is
          (subst (λ b. (if b then gaps n (suc from) is else from ∷ gaps n (suc from) is) ≡ []) here
            e)
          (ground arith) (omega (arith, u))
  ]
  | inr missing ↦ absurd (
      cons-ne-nil (
        subst (λ b. (if b then gaps n (suc from) is else from ∷ gaps n (suc from) is) ≡ []) missing
          e))
]
  where
    cons-ne-nil : {x : ℕ} {xs : List ℕ} → ¬ (x ∷ xs ≡ [])
    cons-ne-nil h = cc

max_of-listed : (x : ℕ) (is : List ℕ) → is_listed x is ≡ true → x ≤ max_of is
unfolding max_of is_listed
max_of-listed x [] h = cc
max_of-listed x (i ∷ is) h = ground (arith, max_of-listed x is, h)

names_for-empty : (group : Text) (b : Bool) (is : List ℕ) → names_for group b is ≡ [] → is ≡ []
unfolding names_for
names_for-empty group b [] e = refl
names_for-empty group b (i ∷ is) e = cc

with_missing_complete :
    (group : Text) (names : List Text) (x i : ℕ)
    → (with_missing group names).1 ≡ []
    → is_listed x (indexes_of names) ≡ true
    → 0 < i
    → i ≤ x
    → is_listed i (indexes_of names) ≡ true
unfolding with_missing
with_missing_complete group names x i e h positive l =
    gaps-listed (max_of (indexes_of names)) 1 i (indexes_of names) (names_for-empty group _ _ e)
      positive (omega (arith, l, max_of-listed x (indexes_of names) h))

-- With every index a volume of that index and of each below it, from one on.
IsComplete : ℕ → ℕ → List Text × List Text → Type 0
IsComplete x i found =
    found.1 ≡ [] → is_listed x (indexes_of found.0) ≡ true → is_listed i (indexes_of found.0) ≡ true

of_volumes-IsComplete :
    (name group : Text) (names : List Text) (v : Text) (vs : List Text) (x i : ℕ)
    → names ≡ v ∷ vs
    → 0 < i
    → i ≤ x
    → IsComplete x i (of_volumes name group names)
unfolding of_volumes IsComplete with_missing
of_volumes-IsComplete name group names v vs x i shape positive l =
    subst (λ ns. IsComplete x i (of_volumes name group ns)) (sym shape)
      (λ e h. with_missing_complete group (v ∷ vs) x i e h positive l)

-- The name is that of a file in the directory.
unfoldable pub is_file_in : Text → List (Text × Bool) → Bool
is_file_in name [] = false
is_file_in name ((n, is_file) ∷ entries) = list_eq n name && is_file || is_file_in name entries

-- A list with a first volume.
record IsCons (vs : List (ℕ × Text)) : Type 0 where
  head : ℕ × Text
  rest : List (ℕ × Text)
  shape : vs ≡ head ∷ rest

insert_volume-IsCons : (v : ℕ × Text) (vs : List (ℕ × Text)) → IsCons (insert_volume v vs)
unfolding insert_volume
insert_volume-IsCons v [] = record { head = v; rest = []; shape = refl }
insert_volume-IsCons v (w ∷ vs) =
    if-cases IsCons (comes_first v w) (λ e. record { head = v; rest = w ∷ vs; shape = refl })
      (λ e. record { head = w; rest = insert_volume v vs; shape = refl })

add_volume-IsCons :
    (o : Option (ℕ × Text)) (vs : List (ℕ × Text)) → IsCons vs → IsCons (add_volume o vs)
unfolding add_volume
add_volume-IsCons none vs c = c
add_volume-IsCons (some v) vs c = insert_volume-IsCons v vs

candidates-IsCons :
    (name : Text) (v : Volume) (entries : List (Text × Bool))
    → volume name ≡ some v
    → is_file_in name entries ≡ true
    → IsCons (candidates v.group entries)
unfolding candidates is_file_in
candidates-IsCons name v [] e h = cc
candidates-IsCons name v ((n, false) ∷ entries) e h =
    add_volume-IsCons (sibling v.group (n, false)) _
      (candidates-IsCons name v entries e (ground (arith, h)))
candidates-IsCons name v ((n, true) ∷ entries) e h = elim (Bool-cases (list_eq n name)) [
  | inl same ↦
      let found = sibling-self n v (ap volume ((list_eq_iff n name).0 same) ∙ e) in
      subst (λ o. IsCons (add_volume o (candidates v.group entries))) (sym found)
        (unfold add_volume in insert_volume-IsCons (v.index, n) (candidates v.group entries))
  | inr other ↦
      add_volume-IsCons (sibling v.group (n, true)) _
        (candidates-IsCons name v entries e (ground (arith, h, other)))
]
  where
    sibling-self :
        (n : Text) (v : Volume) → volume n ≡ some v → sibling v.group (n, true) ≡ some (v.index, n)
    sibling-self n v e =
        unfold sibling in unfold member_of in rw (e, (list_eq_iff v.group v.group).1 refl) refl

names_of-cons :
    (vs : List (ℕ × Text)) (v : ℕ × Text) (rest : List (ℕ × Text))
    → vs ≡ v ∷ rest
    → names_of vs ≡ v.1 ∷ names_of rest
unfolding names_of
names_of-cons vs v rest e = ap names_of e

of_group-IsComplete :
    (name : Text) (entries : List (Text × Bool)) (x i : ℕ) (o : Option Volume)
    → volume name ≡ o
    → is_file_in name entries ≡ true
    → 0 < i
    → i ≤ x
    → IsComplete x i (of_group name entries o)
unfolding of_group IsComplete
of_group-IsComplete name entries x i none missing file positive l =
    λ e h. absurd (unnumbered name x missing h)
  where
    unnumbered :
        (name : Text) (x : ℕ) → volume name ≡ none → ¬ (is_listed x (indexes_of (name ∷ [])) ≡ true)
    unnumbered name x missing h =
        let empty : indexes_of (name ∷ []) ≡ [] =
          unfold indexes_of in unfold nonzero in rw missing refl in
        let gone : is_listed x [] ≡ true = subst (λ is. is_listed x is ≡ true) empty h in
        unfold is_listed in cc
of_group-IsComplete name entries x i (some v) found file positive l =
    let c = candidates-IsCons name v entries found file in
    of_volumes-IsComplete name v.group (sibling_volumes v.group entries) c.head.1 (names_of c.rest)
      x i
      (unfold sibling_volumes in names_of-cons (candidates v.group entries) c.head c.rest c.shape)
      positive l

-- If no volume is reported missing, the volumes that are returned are complete: with a volume of some index
-- there is one of every index below it, from one on. The archive must be a file of the directory.
pub resolve_volumes-IsComplete :
    (name : Text) (entries : List (Text × Bool)) (x i : ℕ)
    → is_file_in name entries ≡ true
    → (resolve_volumes name entries).1 ≡ []
    → is_listed x (indexes_of (resolve_volumes name entries).0) ≡ true
    → 0 < i
    → i ≤ x
    → is_listed i (indexes_of (resolve_volumes name entries).0) ≡ true
unfolding resolve_volumes IsComplete
resolve_volumes-IsComplete name entries x i file e h positive l =
    of_group-IsComplete name entries x i (volume name) refl file positive l e h
