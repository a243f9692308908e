-- ===== src/Prelude/Strings.antt =====
-- Python's `str.strip()`, `str.split()`, `" ".join(...)` and a split at single characters, over lists
-- of code points.
use Prim.Native.Nat.{ℕ}
use mathlib.Core.Path.{◌≡◌, refl}
use mathlib.Core.Bool.{Bool, true, false, ◌||◌, ◌&&◌}
use mathlib.Core.List.{List, [], ◌∷◌, ◌++◌}
use eh_bot.Prelude.Tests.{leb, ◌==◌, if◌then◌else◌}
use eh_bot.Prelude.Lists.{Text, codes, All}
use eh_bot.Prelude.Interfaces.{list_eq}
use Prim.Native.String.{String}

-- `str.isspace` of one character.
unfoldable pub is_white : ℕ → Bool
is_white c =
    (leb 9 c && leb c 13)
    || (leb 28 c && leb c 32)
    || c == 0x85
    || c == 0xa0
    || c == 0x1680
    || (leb 0x2000 c && leb c 0x200a)
    || c == 0x2028
    || c == 0x2029
    || c == 0x202f
    || c == 0x205f
    || c == 0x3000

pub trim_left : Text → Text
trim_left [] = []
trim_left (c ∷ s) = if is_white c then trim_left s else c ∷ s

abbrev keep : ℕ → Text → Text
keep c [] = if is_white c then [] else c ∷ []
keep c (d ∷ s) = c ∷ d ∷ s

pub trim_right : Text → Text
trim_right [] = []
trim_right (c ∷ s) = keep c (trim_right s)

-- `s.strip()`
unfoldable pub trim : Text → Text
unfolding is_white trim_left trim_right
trim s = trim_right (trim_left s)

trim_left-black : (s : Text) → All (λ c. is_white c ≡ false) s → trim_left s ≡ s
unfolding trim_left
trim_left-black [] h = refl
trim_left-black (c ∷ s) h = rw (h.0) refl

trim_right-black : (s : Text) → All (λ c. is_white c ≡ false) s → trim_right s ≡ s
unfolding trim_right
trim_right-black [] h = refl
trim_right-black (c ∷ []) h = rw (h.0) refl
trim_right-black (c ∷ d ∷ s) h = rw (trim_right-black (d ∷ s) h.1) refl

-- A text without blanks stays as it is.
pub trim-black : (s : Text) → All (λ c. is_white c ≡ false) s → trim s ≡ s
unfolding trim
trim-black s h = rw (trim_left-black s h) (trim_right-black s h)

-- What one more character does to the words behind it; the flag says that a word goes on.
abbrev grow : Bool → ℕ → Bool × List Text → Bool × List Text
grow true c (_, ws) = (false, ws)
grow false c (true, w ∷ ws) = (true, (c ∷ w) ∷ ws)
grow false c (_, ws) = (true, (c ∷ []) ∷ ws)

pub words_from : Text → Bool × List Text
words_from [] = (false, [])
words_from (c ∷ s) = grow (is_white c) c (words_from s)

-- `s.split()`
unfoldable pub words : Text → List Text
unfolding is_white words_from
words s = (words_from s).1

-- `" ".join(words)`
unfoldable pub join_words : List Text → Text
join_words [] = []
join_words (w ∷ []) = w
join_words (w ∷ v ∷ ws) = w ++ 32 ∷ join_words (v ∷ ws)

abbrev pub push : Bool → ℕ → List Text → List Text
push true c parts = [] ∷ parts
push false c [] = (c ∷ []) ∷ []
push false c (p ∷ parts) = (c ∷ p) ∷ parts

-- `s.split(sep)`, at every character that the test takes
unfoldable pub split_at_any : (ℕ → Bool) → Text → List Text
split_at_any sep [] = [] ∷ []
split_at_any sep (c ∷ s) = push (sep c) c (split_at_any sep s)

unfoldable pub is_one_of : Text → List String → Bool
is_one_of t [] = false
is_one_of t (s ∷ ss) = list_eq t (codes s) || is_one_of t ss

-- `text.startswith(prefix)`
unfoldable pub starts_with : Text → Text → Bool
starts_with [] t = true
starts_with (c ∷ s) [] = false
starts_with (c ∷ s) (d ∷ t) = c == d && starts_with s t
