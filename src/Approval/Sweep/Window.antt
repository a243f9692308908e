-- ===== src/Approval/Sweep/Window.antt =====
-- A batch of the sweeper is a window on the ids in the order from the cursor.
use eh_bot.Prelude.{
  ℕ, zero, suc, ◌+◌, ◌≡◌, refl, Bool, true, false, ◌||◌, Option, none, some, List, [], ◌∷◌, arith,
  ◌==◌, if◌then◌else◌, length, All, if-cases,
}
use eh_bot.Approval.Sweep.{is_behind, precedes, insert_id, in_order, first, last_or}

-- How many of the ids pass a test.
unfoldable pub count : (ℕ → Bool) → List ℕ → ℕ
count f [] = 0
count f (a ∷ ids) = (if f a then 1 else 0) + count f ids

unfoldable pub is_listed : ℕ → List ℕ → Bool
is_listed x [] = false
is_listed x (a ∷ ids) = x == a || is_listed x ids

count-insert_id :
    (f : ℕ → Bool) (cursor : Option ℕ) (a : ℕ) (ids : List ℕ)
    → count f (insert_id cursor a ids) ≡ count f (a ∷ ids)
unfolding count insert_id
count-insert_id f cursor a [] = refl
count-insert_id f cursor a (b ∷ ids) =
    if-cases (λ l. count f l ≡ count f (a ∷ b ∷ ids)) (precedes cursor b a)
      (λ e. omega (arith, count-insert_id f cursor a ids)) (λ e. refl)

pub count-in_order :
    (f : ℕ → Bool) (cursor : Option ℕ) (ids : List ℕ) → count f (in_order cursor ids) ≡ count f ids
unfolding count in_order
count-in_order f cursor [] = refl
count-in_order f cursor (a ∷ ids) =
    omega (arith, count-insert_id f cursor a (in_order cursor ids), count-in_order f cursor ids)

-- No id stands behind one that it precedes.
unfoldable pub IsOrdered : Option ℕ → List ℕ → Type 0
IsOrdered cursor [] = Unit
IsOrdered cursor (a ∷ ids) = All (λ b. precedes cursor b a ≡ false) ids × IsOrdered cursor ids

All-weaken : {P Q : ℕ → Type 0} (ids : List ℕ) → ((a : ℕ) → P a → Q a) → All P ids → All Q ids
All-weaken [] f h = tt
All-weaken (a ∷ ids) f h = (f a h.0, All-weaken ids f h.1)

All-insert_id :
    (P : ℕ → Type 0) (cursor : Option ℕ) (a : ℕ) (ids : List ℕ)
    → P a
    → All P ids
    → All P (insert_id cursor a ids)
unfolding insert_id
All-insert_id P cursor a [] h hs = (h, tt)
All-insert_id P cursor a (b ∷ ids) h hs =
    if-cases (All P) (precedes cursor b a) (λ e. (hs.0, All-insert_id P cursor a ids h hs.1))
      (λ e. (h, hs))

precedes_asym :
    (cursor : Option ℕ) (a b : ℕ) → precedes cursor a b ≡ true → precedes cursor b a ≡ false
unfolding precedes is_behind
precedes_asym none a b h = ground arith
precedes_asym (some c) a b h = ground arith

not_precedes_trans :
    (cursor : Option ℕ) (a b c : ℕ)
    → precedes cursor b a ≡ false
    → precedes cursor c b ≡ false
    → precedes cursor c a ≡ false
unfolding precedes is_behind
not_precedes_trans none a b c h k = ground arith
not_precedes_trans (some n) a b c h k = ground arith

insert_id-IsOrdered :
    (cursor : Option ℕ) (a : ℕ) (ids : List ℕ)
    → IsOrdered cursor ids
    → IsOrdered cursor (insert_id cursor a ids)
unfolding insert_id IsOrdered
insert_id-IsOrdered cursor a [] h = (tt, tt)
insert_id-IsOrdered cursor a (b ∷ ids) h =
    if-cases (IsOrdered cursor) (precedes cursor b a)
      (λ e. (
        All-insert_id (λ c. precedes cursor c b ≡ false) cursor a ids (precedes_asym cursor b a e)
            h.0,
        insert_id-IsOrdered cursor a ids h.1,
      ))
      (λ e. ((e, All-weaken ids (λ c k. not_precedes_trans cursor a b c e k) h.0), h))

pub in_order-IsOrdered : (cursor : Option ℕ) (ids : List ℕ) → IsOrdered cursor (in_order cursor ids)
unfolding in_order IsOrdered
in_order-IsOrdered cursor [] = tt
in_order-IsOrdered cursor (a ∷ ids) =
    insert_id-IsOrdered cursor a (in_order cursor ids) (in_order-IsOrdered cursor ids)

precedes-total :
    (cursor : Option ℕ) (a x : ℕ)
    → precedes cursor x a ≡ false
    → (x == a) ≡ false
    → precedes cursor a x ≡ true
unfolding precedes is_behind
precedes-total none a x h d = ground arith
precedes-total (some c) a x h d = ground arith

pub All-listed : (P : ℕ → Type 0) (x : ℕ) (ids : List ℕ) → All P ids → is_listed x ids ≡ true → P x
unfolding is_listed
All-listed P x [] h m = cc
All-listed P x (a ∷ ids) h m = ground (arith, All-listed P x ids h.1)

-- An id that a batch of `n` does not reach has `n` ids in front of it.
pub first_in_front :
    (cursor : Option ℕ) (x n : ℕ) (ids : List ℕ)
    → IsOrdered cursor ids
    → is_listed x ids ≡ true
    → is_listed x (first n ids) ≡ false
    → All (λ b. precedes cursor b x ≡ true) (first n ids) × (length (first n ids) ≡ n)
unfolding is_listed first IsOrdered
first_in_front cursor x zero ids o m k = (tt, refl)
first_in_front cursor x (suc n) [] o m k = cc
first_in_front cursor x (suc n) (a ∷ ids) o m k =
    let other : (x == a) ≡ false = ground arith in
    let behind : is_listed x ids ≡ true = ground arith in
    let missed : is_listed x (first n ids) ≡ false = ground arith in
    let (hs, l) = first_in_front cursor x n ids o.1 behind missed in
    (
      (
        precedes-total cursor a x (All-listed (λ b. precedes cursor b a ≡ false) x ids o.0 behind)
            other,
        hs,
      ),
      omega (arith, l),
    )

All-first : (P : ℕ → Type 0) (n : ℕ) (ids : List ℕ) → All P ids → All P (first n ids)
unfolding first
All-first P zero ids h = tt
All-first P (suc n) [] h = tt
All-first P (suc n) (a ∷ ids) h = (h.0, All-first P n ids h.1)

pub first-IsOrdered :
    (cursor : Option ℕ) (n : ℕ) (ids : List ℕ)
    → IsOrdered cursor ids
    → IsOrdered cursor (first n ids)
unfolding first IsOrdered
first-IsOrdered cursor zero ids h = tt
first-IsOrdered cursor (suc n) [] h = tt
first-IsOrdered cursor (suc n) (a ∷ ids) h =
    (All-first (λ b. precedes cursor b a ≡ false) n ids h.0, first-IsOrdered cursor n ids h.1)

-- The last id of a batch is one of its ids, and precedes none of them.
pub record IsLast (cursor : Option ℕ) (z : ℕ) (batch : List ℕ) : Type 0 where
  pub listed : is_listed z batch ≡ true
  pub latest : All (λ b. precedes cursor z b ≡ false) batch

pub precedes_irrefl : (cursor : Option ℕ) (a : ℕ) → precedes cursor a a ≡ false
unfolding precedes is_behind
precedes_irrefl none a = ground arith
precedes_irrefl (some c) a = ground arith

pub last_or-IsLast :
    (cursor : Option ℕ) (o : Option ℕ) (a : ℕ) (ids : List ℕ)
    → IsOrdered cursor (a ∷ ids)
    → (z : ℕ) × (last_or o (a ∷ ids) ≡ some z) × IsLast cursor z (a ∷ ids)
unfolding last_or IsOrdered is_listed
last_or-IsLast cursor o a [] h =
    (a, refl, record { listed = ground arith; latest = (precedes_irrefl cursor a, tt) })
last_or-IsLast cursor o a (b ∷ ids) h =
    let (z, e, last) = last_or-IsLast cursor (some a) b ids h.1 in
    (
      z,
      e,
      record {
        listed = ground (arith, last.listed);
        latest = (
          All-listed (λ c. precedes cursor c a ≡ false) z (b ∷ ids) h.0 last.listed,
          last.latest,
        );
      },
    )

pub precedes-later :
    (cursor : Option ℕ) (z b x : ℕ)
    → precedes cursor z x ≡ true
    → precedes (some z) b x ≡ true
    → precedes cursor b x ≡ true
unfolding precedes is_behind
precedes-later none z b x h k = ground arith
precedes-later (some c) z b x h k = ground arith

pub precedes-passed :
    (cursor : Option ℕ) (z b x : ℕ)
    → precedes cursor z x ≡ true
    → precedes cursor z b ≡ false
    → precedes (some z) b x ≡ false
unfolding precedes is_behind
precedes-passed none z b x h k = ground arith
precedes-passed (some c) z b x h k = ground arith

is_listed-insert_id :
    (x : ℕ) (cursor : Option ℕ) (a : ℕ) (ids : List ℕ)
    → is_listed x (a ∷ ids) ≡ true
    → is_listed x (insert_id cursor a ids) ≡ true
unfolding is_listed insert_id
is_listed-insert_id x cursor a [] h = h
is_listed-insert_id x cursor a (b ∷ ids) h =
    if-cases (λ l. is_listed x l ≡ true) (precedes cursor b a)
      (λ e. ground (arith, is_listed-insert_id x cursor a ids)) (λ e. h)

pub is_listed-in_order :
    (x : ℕ) (cursor : Option ℕ) (ids : List ℕ)
    → is_listed x ids ≡ true
    → is_listed x (in_order cursor ids) ≡ true
unfolding is_listed in_order
is_listed-in_order x cursor [] h = cc
is_listed-in_order x cursor (a ∷ ids) h =
    is_listed-insert_id x cursor a (in_order cursor ids)
      (unfold is_listed in ground (arith, is_listed-in_order x cursor ids))
