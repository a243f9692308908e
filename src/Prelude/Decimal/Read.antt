-- ===== src/Prelude/Decimal/Read.antt =====
-- `int(text)` in base ten, over ASCII text: white space around the number, one sign, and single
-- underscores between digits are allowed. `none` is a raised `ValueError`. The interpreter's limit
-- on the length of the text (4300 digits) is not modelled.
use Prim.Native.Nat.{ℕ, zero, suc, ◌+◌, ◌-◌, ◌*◌}
use mathlib.Core.Path.{◌≡◌, refl, ◌∙◌, ap}
use mathlib.Core.Bool.{Bool, true, false, ◌&&◌, ◌||◌}
use mathlib.Core.List.{[], ◌∷◌}
use mathlib.Core.Option
use mathlib.Core.Option.{Option, none, some}
use native.Mathlib.Omega.{arith}
use eh_bot.Prelude.Tests.{leb, ◌==◌, if◌then◌else◌}
use eh_bot.Prelude.Lists.{Text, All}
use eh_bot.Prelude.Int.{ℤ, pos, negsuc}
use eh_bot.Prelude.Decimal.Print.{
  decimal, str_int, IsDigit, Leads, decimal-IsDigit, decimal-Leads, value, value-decimal,
}

unfoldable pub is_digit : ℕ → Bool
is_digit c = leb b'0' c && leb c b'9'

-- tab, line feed, vertical tab, form feed, carriage return, blank
unfoldable pub is_space : ℕ → Bool
is_space c = (leb 9 c && leb c 13) || (c == 32)

pub lstrip : Text → Text
lstrip [] = []
lstrip (c ∷ s) = if is_space c then lstrip s else c ∷ s

abbrev keep : ℕ → Text → Text
keep c [] = if is_space c then [] else c ∷ []
keep c (d ∷ s) = c ∷ d ∷ s

pub rstrip : Text → Text
rstrip [] = []
rstrip (c ∷ s) = keep c (rstrip s)

unfoldable pub strip : Text → Text
unfolding is_space lstrip rstrip
strip s = rstrip (lstrip s)

-- The digits; the flag says that the last character was one, so an underscore may follow.
pub read_digits : ℕ → Bool → Text → Option ℕ
read_digits n after_digit [] = if after_digit then some n else none
read_digits n after_digit (c ∷ s) =
    let rest = read_digits (if is_digit c then n * 10 + (c - b'0') else n) (is_digit c) s in
    if is_digit c || (after_digit && c == b'_') then rest else none

abbrev pub negate : ℕ → ℤ
negate zero = pos zero
negate (suc n) = negsuc n

pub signed : Text → Option ℤ
unfolding read_digits is_digit
signed [] = none
signed (c ∷ s) =
    if c == b'-'
    then Option.map negate (read_digits 0 false s)
    else if c == b'+'
    then Option.map pos (read_digits 0 false s)
    else Option.map pos (read_digits 0 false (c ∷ s))

unfoldable pub py_int : Text → Option ℤ
unfolding strip signed
py_int s = signed (strip s)

is_space-IsDigit : (c : ℕ) → IsDigit c → is_space c ≡ false
unfolding is_space
is_space-IsDigit c h = ground arith

rstrip-IsDigit : (s : Text) → All IsDigit s → rstrip s ≡ s
unfolding rstrip
rstrip-IsDigit [] h = refl
rstrip-IsDigit (c ∷ []) h = rw (is_space-IsDigit c h.0)
rstrip-IsDigit (c ∷ d ∷ s) h = rw (rstrip-IsDigit (d ∷ s) h.1)

rstrip-visible : (c : ℕ) (s : Text) → is_space c ≡ false → All IsDigit s → rstrip (c ∷ s) ≡ c ∷ s
unfolding rstrip
rstrip-visible c [] visible h = rw visible
rstrip-visible c (d ∷ s) visible h = rw (rstrip-IsDigit (d ∷ s) h)

-- A sign or a digit in front of digits.
strip-visible : (c : ℕ) (s : Text) → is_space c ≡ false → All IsDigit s → strip (c ∷ s) ≡ c ∷ s
unfolding strip lstrip
strip-visible c s visible h = rw visible (rstrip-visible c s visible h)

read_digits-value : (n : ℕ) (s : Text) → All IsDigit s → read_digits n true s ≡ some (value n s)
unfolding read_digits is_digit
read_digits-value n [] h = refl
read_digits-value n (c ∷ s) h = ground (arith, read_digits-value (n * 10 + (c - b'0')) s)

read_digits-digits :
    (b : Bool) (c : ℕ) (s : Text)
    → All IsDigit (c ∷ s)
    → read_digits 0 b (c ∷ s) ≡ some (value 0 (c ∷ s))
unfolding read_digits is_digit
read_digits-digits b c s h = ground (arith, read_digits-value (0 * 10 + (c - b'0')) s)

py_int-digits :
    (c : ℕ) (s : Text) → All IsDigit (c ∷ s) → py_int (c ∷ s) ≡ some (pos (value 0 (c ∷ s)))
unfolding py_int signed
py_int-digits c s h =
    rw (strip-visible c s (is_space-IsDigit c h.0) h.1)
      (ground (arith, read_digits-digits false c s))

-- `int("+12")`
pub py_int-plus :
    (c : ℕ) (s : Text) → All IsDigit (c ∷ s) → py_int (b'+' ∷ c ∷ s) ≡ some (pos (value 0 (c ∷ s)))
unfolding py_int signed
py_int-plus c s h =
    rw (strip-visible b'+' (c ∷ s) (unfold is_space in refl) h)
      (ground (arith, read_digits-digits false c s))

py_int-minus :
    (c : ℕ) (s : Text)
    → All IsDigit (c ∷ s)
    → py_int (b'-' ∷ c ∷ s) ≡ some (negate (value 0 (c ∷ s)))
unfolding py_int signed
py_int-minus c s h =
    rw (strip-visible b'-' (c ∷ s) (unfold is_space in refl) h)
      (ground (arith, read_digits-digits false c s))

nonempty : (n : ℕ) (s : Text) → Leads n s → (c : ℕ) × (t : Text) × (s ≡ c ∷ t)
nonempty n [] h = absurd h
nonempty n (c ∷ t) h = (c, t, refl)

-- A fact about every digit string with its first digit, at the digits of a number.
pub of_decimal :
    (P : Text → Type 0) (n : ℕ)
    → ((c : ℕ) (t : Text) → All IsDigit (c ∷ t) → Leads n (c ∷ t) → P (c ∷ t))
    → P (decimal n)
of_decimal P n k =
    let (c, t, e) = nonempty n (decimal n) (decimal-Leads n) in
    rw e (k c t (rw e at (decimal-IsDigit n)) (rw e at (decimal-Leads n)))

pub py_int-decimal : (n : ℕ) → py_int (decimal n) ≡ some (pos n)
py_int-decimal n =
    of_decimal (λ s. py_int s ≡ some (pos (value 0 s))) n (λ c t h _. py_int-digits c t h)
    ∙ ap (λ (m : ℕ). some (pos m)) (value-decimal n)

pub py_int-plus_decimal : (n : ℕ) → py_int (b'+' ∷ decimal n) ≡ some (pos n)
py_int-plus_decimal n =
    of_decimal (λ s. py_int (b'+' ∷ s) ≡ some (pos (value 0 s))) n (λ c t h _. py_int-plus c t h)
    ∙ ap (λ (m : ℕ). some (pos m)) (value-decimal n)

pub py_int-padded : (n : ℕ) → py_int (b'0' ∷ decimal n) ≡ some (pos n)
py_int-padded n =
    py_int-digits b'0' (decimal n) ((omega arith, omega arith), decimal-IsDigit n)
    ∙ ap (λ (m : ℕ). some (pos m)) (value-decimal n)

pub py_int-str_int : (z : ℤ) → py_int (str_int z) ≡ some z
unfolding str_int
py_int-str_int (pos n) = py_int-decimal n
py_int-str_int (negsuc n) =
    of_decimal (λ s. py_int (b'-' ∷ s) ≡ some (negate (value 0 s))) (n + 1)
      (λ c t h _. py_int-minus c t h)
    ∙ ap (λ (m : ℕ). some (negate m)) (value-decimal (n + 1))
    ∙ negate_suc
  where
    negate_suc : some (negate (n + 1)) ≡ some (negsuc n)
    negate_suc = ground arith

-- `int` takes one sign only.
pub py_int-dashes : (n : ℕ) → py_int (b'-' ∷ b'-' ∷ decimal n) ≡ none
py_int-dashes n =
    of_decimal (λ s. py_int (b'-' ∷ b'-' ∷ s) ≡ none) n
      λ c t h _. unfold py_int signed strip lstrip rstrip in rw (rstrip-IsDigit (c ∷ t) h)
