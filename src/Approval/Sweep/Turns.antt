-- ===== src/Approval/Sweep/Turns.antt =====
-- Every candidate that stays eligible gets its turn.
use eh_bot.Prelude.{
  ℕ, zero, suc, ◌+◌, ◌*◌, ◌-◌, ◌≤◌, ◌<◌, ◌≡◌, refl, Bool, true, false, ◌||◌, Option, none, some,
  List, [], ◌∷◌, arith, ◌==◌, length, All, Bool-cases, inl, inr, ap, ◌∙◌,
}
use native.Mathlib.Nat.{mul-suc}
use eh_bot.Approval.Sweep.{precedes, in_order, first, last_or, next_batch}
use eh_bot.Approval.Sweep.Window.{
  All-listed, IsOrdered, count, count-in_order, first-IsOrdered, first_in_front, in_order-IsOrdered,
  is_listed, is_listed-in_order, last_or-IsLast, precedes-later, precedes-passed, precedes_irrefl,
}

-- A pass takes at least its batch away from what is in front of an id that it does not reach.
count-gap :
    (f g : ℕ → Bool) (n : ℕ) (ids : List ℕ)
    → ((b : ℕ) → g b ≡ true → f b ≡ true)
    → All (λ b. (f b ≡ true) × (g b ≡ false)) (first n ids)
    → length (first n ids) + count g ids ≤ count f ids
unfolding first count
count-gap f g zero [] h a = omega arith
count-gap f g zero (b ∷ ids) h a = ground (arith, h b, count-gap f g zero ids h tt)
count-gap f g (suc n) [] h a = omega arith
count-gap f g (suc n) (b ∷ ids) h a = ground (arith, a.0, count-gap f g n ids h a.1)

-- What a batch leaves in front of `x`, behind its last id.
batch-gap :
    (cursor : Option ℕ) (x : ℕ) (batch : List ℕ)
    → 0 < length batch
    → IsOrdered cursor batch
    → All (λ b. precedes cursor b x ≡ true) batch
    → (z : ℕ) × (last_or none batch ≡ some z)
      × (precedes cursor z x ≡ true)
      × All (λ b. (precedes cursor b x ≡ true) × (precedes (some z) b x ≡ false)) batch
batch-gap cursor x [] l o h = absurd (omega arith)
batch-gap cursor x (a ∷ ids) l o h =
    let (z, e, last) = last_or-IsLast cursor none a ids o in
    let ahead = All-listed (λ b. precedes cursor b x ≡ true) z (a ∷ ids) h last.listed in
    (
      z,
      e,
      ahead,
      All-both (λ b. precedes cursor b x ≡ true) (λ b. precedes cursor z b ≡ false) _
          (λ b k m. (k, precedes-passed cursor z b x ahead m)) (a ∷ ids) h last.latest,
    )
  where
    All-both :
        (P Q R : ℕ → Type 0)
        → ((b : ℕ) → P b → Q b → R b)
        → (bs : List ℕ) → All P bs
        → All Q bs
        → All R bs
    All-both P Q R f [] p q = tt
    All-both P Q R f (b ∷ bs) p q = (f b p.0 q.0, All-both P Q R f bs p.1 q.1)

next_batch-gap :
    (limit : ℕ) (cursor : Option ℕ) (x : ℕ) (ids : List ℕ)
    → 0 < limit
    → is_listed x ids ≡ true
    → is_listed x (next_batch limit cursor ids).0 ≡ false
    → limit + count (λ b. precedes (next_batch limit cursor ids).1 b x) ids
      ≤ count (λ b. precedes cursor b x) ids
unfolding next_batch
next_batch-gap limit cursor x ids positive m k =
    let sorted = in_order cursor ids in
    let (ahead, full) =
      first_in_front cursor x limit sorted (in_order-IsOrdered cursor ids)
        (is_listed-in_order x cursor ids m) k in
    let (z, e, front, apart) =
      batch-gap cursor x (first limit sorted) (omega (arith, full))
        (first-IsOrdered cursor limit sorted (in_order-IsOrdered cursor ids)) ahead in
    rw e (
      omega (
        arith,
        full,
        count-gap (λ b. precedes cursor b x) (λ b. precedes (some z) b x) limit sorted
            (λ b. precedes-later cursor z b x front) apart,
        count-in_order (λ b. precedes cursor b x) cursor ids,
        count-in_order (λ b. precedes (some z) b x) cursor ids,
      ))

-- The batches of consecutive passes, from the ids that are eligible at each.
pub passes : ℕ → Option ℕ → List (List ℕ) → List (List ℕ)
passes limit cursor [] = []
passes limit cursor (ids ∷ rest) =
    let (batch, cursor') = next_batch limit cursor ids in batch ∷ passes limit cursor' rest

pub is_reached : ℕ → List (List ℕ) → Bool
is_reached x [] = false
is_reached x (batch ∷ rest) = is_listed x batch || is_reached x rest

-- Nothing becomes eligible from one pass to the next.
unfoldable pub IsShrinking : List ℕ → List (List ℕ) → Type 0
IsShrinking ids [] = Unit
IsShrinking ids (next ∷ rest) =
    ((f : ℕ → Bool) → count f next ≤ count f ids) × IsShrinking next rest

passes-reach :
    (limit : ℕ) (cursor : Option ℕ) (x n : ℕ) (ids : List ℕ) (rest : List (List ℕ))
    → 0 < limit
    → IsShrinking ids rest
    → All (λ next. is_listed x next ≡ true) rest
    → count (λ b. precedes cursor b x) ids ≤ n
    → n < limit * length rest
    → is_reached x (passes limit cursor rest) ≡ true
unfolding passes is_reached IsShrinking
passes-reach limit cursor x n ids [] positive s a h k = absurd (omega arith)
passes-reach limit cursor x n ids (next ∷ rest) positive s a h k =
    elim (Bool-cases (is_listed x (next_batch limit cursor next).0)) [
      | inl e ↦ rw e refl
      | inr e ↦
          let gap = next_batch-gap limit cursor x next positive a.0 e in
          let fewer = s.0 (λ b. precedes cursor b x) in
          rw e (
            passes-reach limit (next_batch limit cursor next).1 x (n - limit) next rest positive s.1
              a.1 (omega (arith, gap, fewer, h))
              (omega (arith, gap, fewer, h, mul-suc limit (length rest))))
    ]

count-lt :
    (f : ℕ → Bool) (x : ℕ) (ids : List ℕ)
    → f x ≡ false
    → is_listed x ids ≡ true
    → count f ids < length ids
unfolding count is_listed
count-lt f x [] h m = cc
count-lt f x (a ∷ ids) h m = elim (Bool-cases (x == a)) [
  | inl e ↦
      let same : f a ≡ false = ap f {x = a} {y = x} (ground arith) ∙ h in
      rw same (omega (arith, count-length f ids))
  | inr e ↦
      let behind : is_listed x ids ≡ true = ground arith in
      elim (Bool-cases (f a)) [
        | inl y ↦ rw y (omega (arith, count-lt f x ids h behind))
        | inr y ↦ rw y (omega (arith, count-lt f x ids h behind))
      ]
]
  where
    count-length : (f : ℕ → Bool) (ids : List ℕ) → count f ids ≤ length ids
    count-length f [] = omega arith
    count-length f (a ∷ ids) = ground (arith, count-length f ids)

-- While nothing new becomes eligible, every candidate that stays eligible is in one of the batches of
-- so many passes as make up, with the size of a batch, the number of the candidates that were
-- eligible; wherever the cursor stood. A pass may take candidates out, by deciding them.
pub passes-reach_all :
    (limit : ℕ) (cursor : Option ℕ) (x : ℕ) (ids : List ℕ) (pending : List (List ℕ))
    → 0 < limit
    → is_listed x ids ≡ true
    → IsShrinking ids pending
    → All (λ next. is_listed x next ≡ true) pending
    → length ids ≤ limit * length pending
    → is_reached x (passes limit cursor pending) ≡ true
passes-reach_all limit cursor x ids pending positive m s a k =
    passes-reach limit cursor x (count (λ b. precedes cursor b x) ids) ids pending positive s a
      (omega arith)
      (omega (arith, count-lt (λ b. precedes cursor b x) x ids (precedes_irrefl cursor x) m, k))
