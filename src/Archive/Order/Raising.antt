-- ===== src/Archive/Order/Raising.antt =====
-- Names that cannot be sorted.
use eh_bot.Prelude.{
  ◌≡◌, ℕ, refl, ap, ◌∙◌, Bool, true, false, ◌&&◌, Option, none, some, List, [], ◌∷◌, ◌++◌, Text,
  arith,
}
use eh_bot.Prelude.Decimal.{is_digit}
use eh_bot.Archive.Order.{
  Chunk, is_superscript, int_from, all_isdigit, isdigit, join_run, runs, chunk, chunks, with_chunk,
  natural_sort_key,
}

unfoldable pub all_superscripts : Text → Bool
unfolding is_superscript
all_superscripts [] = true
all_superscripts (c ∷ t) = is_superscript c && all_superscripts t

-- A part of digits ends where the text ends, or there is none.
unfoldable pub ends_in_digit : Text → Bool
unfolding is_digit
ends_in_digit [] = true
ends_in_digit (c ∷ []) = is_digit c
ends_in_digit (c ∷ d ∷ t) = ends_in_digit (d ∷ t)

unfoldable pub begins_with_digit : Text → Bool
unfolding is_digit
begins_with_digit [] = true
begins_with_digit (c ∷ t) = is_digit c

is_digit-is_superscript : (c : ℕ) → is_superscript c ≡ true → is_digit c ≡ false
unfolding is_superscript is_digit
is_digit-is_superscript c h = ground arith

join_run-digit :
    (c : ℕ) (rs : List (Bool × Text))
    → (t : Text) × (rest : List (Bool × Text)) × (join_run true c rs ≡ (true, t) ∷ rest)
unfolding join_run
join_run-digit c [] = (_, _, refl)
join_run-digit c ((true, t) ∷ rest) = (_, _, refl)
join_run-digit c ((false, t) ∷ rest) = (_, _, refl)

join_run-before :
    (c : ℕ) (post : Text)
    → begins_with_digit post ≡ true
    → join_run false c (runs post) ≡ (false, c ∷ []) ∷ runs post
unfolding runs join_run begins_with_digit
join_run-before c [] h = refl
join_run-before c (d ∷ u) h = let (t, rest, e) = join_run-digit d (runs u) in rw (h, e) refl

runs-superscripts :
    (c : ℕ) (t post : Text)
    → all_superscripts (c ∷ t) ≡ true
    → begins_with_digit post ≡ true
    → runs ((c ∷ t) ++ post) ≡ (false, c ∷ t) ∷ runs post
unfolding runs all_superscripts join_run
runs-superscripts c [] post h hp =
    rw (is_digit-is_superscript c (ground arith)) (join_run-before c post hp)
runs-superscripts c (d ∷ t) post h hp =
    rw (runs-superscripts d t post (ground arith) hp, is_digit-is_superscript c (ground arith)) refl

all_isdigit-superscripts : (t : Text) → all_superscripts t ≡ true → all_isdigit t ≡ true
unfolding all_superscripts all_isdigit
all_isdigit-superscripts [] h = refl
all_isdigit-superscripts (c ∷ t) h = ground (arith, all_isdigit-superscripts t)

chunk-superscripts :
    (c : ℕ) (t : Text) → all_superscripts (c ∷ t) ≡ true → chunk (false, c ∷ t) ≡ none
unfolding chunk isdigit int_from all_superscripts
chunk-superscripts c t h =
    rw (all_isdigit-superscripts (c ∷ t) h, is_digit-is_superscript c (ground arith)) refl

-- Behind its first part a text has one without a key.
HasBadTail : Text → Type 0
HasBadTail t =
    (r : Bool × Text) × (rest : List (Bool × Text)) × (runs t ≡ r ∷ rest) × (chunks rest ≡ none)

with_chunk-none : (o : Option Chunk) → with_chunk o none ≡ none
unfolding with_chunk
with_chunk-none none = refl
with_chunk-none (some c) = refl

join_run-HasBadTail :
    (d : Bool) (c : ℕ) (r : Bool × Text) (rest : List (Bool × Text))
    → chunks rest ≡ none
    → (r' : Bool × Text) × (rest' : List (Bool × Text)) × (join_run d c (r ∷ rest) ≡ r' ∷ rest')
      × (chunks rest' ≡ none)
unfolding join_run chunks
join_run-HasBadTail true c (true, t) rest h = (_, _, refl, h)
join_run-HasBadTail true c (false, t) rest h =
    (_, _, refl, rw h (with_chunk-none (chunk (false, t))))
join_run-HasBadTail false c (false, t) rest h = (_, _, refl, h)
join_run-HasBadTail false c (true, t) rest h =
    (_, _, refl, rw h (with_chunk-none (chunk (true, t))))

cons-HasBadTail : (c : ℕ) (t : Text) → HasBadTail t → HasBadTail (c ∷ t)
unfolding HasBadTail runs
cons-HasBadTail c t (r, rest, e, h) =
    let (r', rest', e', h') = join_run-HasBadTail (is_digit c) c r rest h in
    (r', rest', rw e e', h')

behind-HasBadTail :
    (c : ℕ) (t s v : Text) (rest : List (Bool × Text))
    → ends_in_digit (c ∷ t) ≡ true
    → runs v ≡ (false, s) ∷ rest
    → chunk (false, s) ≡ none
    → HasBadTail ((c ∷ t) ++ v)
unfolding HasBadTail runs ends_in_digit join_run chunks with_chunk
behind-HasBadTail c [] s v rest h e n =
    ((true, c ∷ []), (false, s) ∷ rest, rw (h, e) refl, rw n refl)
behind-HasBadTail c (d ∷ t) s v rest h e n =
    cons-HasBadTail c ((d ∷ t) ++ v) (behind-HasBadTail d t s v rest h e n)

-- A name that in lower case has a run of superscripts standing by itself has no key to sort by, since
-- `int` raises a `ValueError`. What stands before the run ends in a digit or is empty; what stands
-- behind it begins with a digit or is empty.
pub natural_sort_key-superscripts :
    (lower : Text → Text) (name pre : Text) (c : ℕ) (t post : Text)
    → lower name ≡ pre ++ ((c ∷ t) ++ post)
    → ends_in_digit pre ≡ true
    → all_superscripts (c ∷ t) ≡ true
    → begins_with_digit post ≡ true
    → natural_sort_key lower name ≡ none
unfolding natural_sort_key chunks with_chunk HasBadTail
natural_sort_key-superscripts lower name [] c t post e h hs hp =
    rw (e, runs-superscripts c t post hs hp, chunk-superscripts c t hs) refl
natural_sort_key-superscripts lower name (d ∷ pre) c t post e h hs hp =
    let (r, rest, k, n) =
      behind-HasBadTail d pre (c ∷ t) ((c ∷ t) ++ post) (runs post) h
        (runs-superscripts c t post hs hp) (chunk-superscripts c t hs) in
    ap (λ x. chunks (runs x)) e
    ∙ ap chunks k
    ∙ ap (with_chunk (chunk r)) n
    ∙ with_chunk-none (chunk r)
