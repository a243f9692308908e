-- ===== src/Archive/Order.antt =====
-- `natural_sort_key` of app/archive/safety.py. Of the characters that `str.isdigit` takes, the ASCII digits,
-- which `\d` and `int` take as well, and the superscripts ¹, ² and ³, which they do not.
pub mod Raising
pub mod Asymmetry
use mathlib.Core.Option
use eh_bot.Prelude.{
  ℕ, ◌+◌, ◌-◌, ◌*◌, Bool, true, false, not, ◌&&◌, ◌||◌, Option, none, some, List, [], ◌∷◌, ◌==◌,
  leb, ltb, if◌then◌else◌, Text, list_eq,
}
use eh_bot.Prelude.Decimal.{is_digit}

unfoldable pub is_superscript : ℕ → Bool
is_superscript c = c == 0xb9 || c == 0xb2 || c == 0xb3

-- `(0, part)` and `(1, int(part))`
pub data Chunk : Type 0 where
  words : Text → Chunk
  number : ℕ → Chunk

-- `int` of a part, from the value of the digits already read; `none` is the `ValueError`.
unfoldable pub int_from : ℕ → Text → Option ℕ
unfolding is_digit
int_from n [] = some n
int_from n (c ∷ t) =
    let rest = int_from (n * 10 + (c - b'0')) t in if is_digit c then rest else none

unfoldable pub all_isdigit : Text → Bool
unfolding is_digit is_superscript
all_isdigit [] = true
all_isdigit (c ∷ t) = (is_digit c || is_superscript c) && all_isdigit t

-- `str.isdigit`
unfoldable pub isdigit : Text → Bool
unfolding all_isdigit
isdigit [] = false
isdigit (c ∷ t) = all_isdigit (c ∷ t)

-- The parts of `_DIGITS.split`: runs of digits, and what stands between them; the empty parts are
-- left out. The flag says that a part is one of digits.
join_run : Bool → ℕ → List (Bool × Text) → List (Bool × Text)
join_run d c [] = (d, c ∷ []) ∷ []
join_run true c ((true, t) ∷ rest) = (true, c ∷ t) ∷ rest
join_run true c ((false, t) ∷ rest) = (true, c ∷ []) ∷ (false, t) ∷ rest
join_run false c ((false, t) ∷ rest) = (false, c ∷ t) ∷ rest
join_run false c ((true, t) ∷ rest) = (false, c ∷ []) ∷ (true, t) ∷ rest

runs : Text → List (Bool × Text)
unfolding join_run is_digit
runs [] = []
runs (c ∷ t) = join_run (is_digit c) c (runs t)

-- The key of one part, which asks only what `isdigit` says of it.
chunk : Bool × Text → Option Chunk
unfolding int_from isdigit
chunk (digits, t) = if isdigit t then Option.map number (int_from 0 t) else some (words t)

with_chunk : Option Chunk → Option (List Chunk) → Option (List Chunk)
with_chunk none rest = none
with_chunk (some c) none = none
with_chunk (some c) (some cs) = some (c ∷ cs)

chunks : List (Bool × Text) → Option (List Chunk)
unfolding chunk with_chunk
chunks [] = some []
chunks (r ∷ rs) = with_chunk (chunk r) (chunks rs)

-- `none` is the `ValueError`.
unfoldable pub natural_sort_key : (Text → Text) → Text → Option (List Chunk)
unfolding runs chunks
natural_sort_key lower name = chunks (runs (lower name))

pub text_lt : Text → Text → Bool
text_lt t [] = false
text_lt [] (d ∷ u) = true
text_lt (c ∷ t) (d ∷ u) = ltb c d || (c == d && text_lt t u)

chunk_lt : Chunk → Chunk → Bool
unfolding text_lt
chunk_lt (words t) (words u) = text_lt t u
chunk_lt (words t) (number n) = true
chunk_lt (number m) (words u) = false
chunk_lt (number m) (number n) = ltb m n

chunk_eq : Chunk → Chunk → Bool
chunk_eq (words t) (words u) = list_eq t u
chunk_eq (number m) (number n) = m == n
chunk_eq _ _ = false

-- The order of tuples.
unfoldable pub key_lt : List Chunk → List Chunk → Bool
unfolding chunk_lt chunk_eq
key_lt cs [] = false
key_lt [] (d ∷ ds) = true
key_lt (c ∷ cs) (d ∷ ds) = chunk_lt c d || (chunk_eq c d && key_lt cs ds)
