-- ===== src/Dedup/Ranking.antt =====
-- The order in which works are kept.
use mathlib.Core.List.{Perm}
use mathlib.Core.List.Perm
use eh_bot.Prelude.{
  ℕ, zero, suc, ◌≡◌, refl, Bool, true, false, ◌&&◌, ◌||◌, Option, none, some, List, [], ◌∷◌, arith,
  ltb, ◌==◌, if◌then◌else◌, length, All, inl, inr, Bool-cases,
}
use eh_bot.Prelude.Int.{negsuc}
use eh_bot.Dedup.{
  Entry, keep_key, pages_or, key_lt, int_lt, int_eq, negate, insert_best, best_first,
}

-- Page counts from 0 on, with a missing one below all.
abbrev pub pages_rank : Option ℕ → ℕ
pages_rank none = 0
pages_rank (some n) = suc n

int_lt-pages :
    (m n : Option ℕ)
    → int_lt (pages_or (negsuc 0) m) (pages_or (negsuc 0) n) ≡ ltb (pages_rank m) (pages_rank n)
unfolding int_lt pages_or
int_lt-pages none none = refl
int_lt-pages none (some n) = ground arith
int_lt-pages (some m) none = ground arith
int_lt-pages (some m) (some n) = ground arith

int_eq-pages :
    (m n : Option ℕ)
    → int_eq (pages_or (negsuc 0) m) (pages_or (negsuc 0) n) ≡ (pages_rank m == pages_rank n)
unfolding int_eq pages_or
int_eq-pages none none = refl
int_eq-pages none (some n) = ground arith
int_eq-pages (some m) none = ground arith
int_eq-pages (some m) (some n) = ground arith

int_lt-negate : (a b : ℕ) → int_lt (negate a) (negate b) ≡ ltb b a
unfolding int_lt
int_lt-negate zero zero = refl
int_lt-negate zero (suc b) = ground arith
int_lt-negate (suc a) zero = ground arith
int_lt-negate (suc a) (suc b) = ground arith

-- `e` ranks below `f`: the key's order in plain numbers.
unfoldable pub below : Entry → Entry → Bool
below e f =
    ltb (if e.packaged then 1 else 0) (if f.packaged then 1 else 0)
    || ((if e.packaged then 1 else 0) == (if f.packaged then 1 else 0))
      && (ltb (pages_rank e.page_count) (pages_rank f.page_count)
          || (pages_rank e.page_count == pages_rank f.page_count)
            && ltb f.candidate_id e.candidate_id)

key_lt-below : (e f : Entry) → key_lt (keep_key e) (keep_key f) ≡ below e f
unfolding key_lt keep_key below
key_lt-below e f = rw (
  int_lt-pages e.page_count f.page_count,
  int_eq-pages e.page_count f.page_count,
  int_lt-negate e.candidate_id f.candidate_id,
)

below_asymm : (e f : Entry) → below e f ≡ true → below f e ≡ false
unfolding below
below_asymm e f h = ground arith

-- Not being below is transitive.
below_trans : (e f g : Entry) → below e f ≡ false → below f g ≡ false → below e g ≡ false
unfolding below
below_trans e f g h k = ground arith

-- None that follows ranks higher.
abbrev pub IsRanked : List Entry → Type 0
IsRanked [] = Unit
IsRanked (e ∷ rest) = All (λ f. below e f ≡ false) rest × IsRanked rest

insert_best-All :
    (P : Entry → Type 0) (e : Entry) (rest : List Entry)
    → P e
    → All P rest
    → All P (insert_best e rest)
unfolding insert_best
insert_best-All P e [] p h = (p, tt)
insert_best-All P e (f ∷ rest) p h = elim (Bool-cases (key_lt (keep_key e) (keep_key f))) [
  | inl lower ↦ rw lower (h.0, insert_best-All P e rest p h.1)
  | inr first ↦ rw first (p, h)
]

All-below_trans :
    (e f : Entry) (rest : List Entry)
    → below e f ≡ false
    → All (λ g. below f g ≡ false) rest
    → All (λ g. below e g ≡ false) rest
All-below_trans e f [] h k = tt
All-below_trans e f (g ∷ rest) h k = (below_trans e f g h k.0, All-below_trans e f rest h k.1)

insert_best-IsRanked :
    (e : Entry) (rest : List Entry) → IsRanked rest → IsRanked (insert_best e rest)
unfolding insert_best
insert_best-IsRanked e [] r = (tt, tt)
insert_best-IsRanked e (f ∷ rest) r = elim (Bool-cases (key_lt (keep_key e) (keep_key f))) [
  | inl lower ↦ rw lower (
    insert_best-All (λ g. below f g ≡ false) e rest (below_asymm e f (rw key_lt-below at lower))
        r.0,
    insert_best-IsRanked e rest r.1,
  )
  | inr first ↦
      rw first
        (let above = (rw key_lt-below at first) in (above, All-below_trans e f rest above r.0), r)
]

pub best_first-IsRanked : (entries : List Entry) → IsRanked (best_first entries)
unfolding best_first
best_first-IsRanked [] = tt
best_first-IsRanked (e ∷ entries) =
    insert_best-IsRanked e (best_first entries) (best_first-IsRanked entries)

insert_best-perm : (e : Entry) (rest : List Entry) → Perm (insert_best e rest) (e ∷ rest)
unfolding insert_best
insert_best-perm e [] = Perm.refl (e ∷ [])
insert_best-perm e (f ∷ rest) = elim (Bool-cases (key_lt (keep_key e) (keep_key f))) [
  | inl lower ↦ rw lower (Perm.trans (Perm.cons f (insert_best-perm e rest)) (Perm.swap e f rest))
  | inr first ↦ rw first (Perm.refl (e ∷ f ∷ rest))
]

length-insert_best :
    (e : Entry) (rest : List Entry) → length (insert_best e rest) ≡ suc (length rest)
unfolding insert_best
length-insert_best e [] = refl
length-insert_best e (f ∷ rest) = ground (arith, length-insert_best e rest)

pub length-best_first : (entries : List Entry) → length (best_first entries) ≡ length entries
unfolding best_first
length-best_first [] = refl
length-best_first (e ∷ entries) =
    ground (arith, length-insert_best e (best_first entries), length-best_first entries)

pub best_first-perm : (entries : List Entry) → Perm (best_first entries) entries
unfolding best_first
best_first-perm [] = Perm.refl []
best_first-perm (e ∷ entries) =
    Perm.trans (insert_best-perm e (best_first entries)) (Perm.cons e (best_first-perm entries))
