-- ===== src/Prelude/Decimal/Print.antt =====
-- `str(n)`: the decimal digits, most significant first.
use Prim.Native.Nat.{ℕ, zero, suc, ◌+◌, ◌-◌, ◌*◌, ◌/◌, ◌%◌, ◌≤◌, ◌<◌}
use mathlib.Core.Path.{◌≡◌, refl}
use mathlib.Core.Logic.{◌≢◌, inl, inr}
use mathlib.Core.List.{[], ◌∷◌, ◌++◌}
use native.Mathlib.Omega.{arith}
use eh_bot.Prelude.Tests.{ltb, if◌then◌else◌, Bool-cases}
use eh_bot.Prelude.Lists.{Text, All, All-append}
use eh_bot.Prelude.Int.{ℤ, pos, negsuc}

-- The fuel is the number itself, which is more than it has digits.
pub decimal_fuel : ℕ → ℕ → Text
decimal_fuel zero n = (b'0' + n % 10) ∷ []
decimal_fuel (suc f) n =
    let rest = decimal_fuel f (n / 10) ++ (b'0' + n % 10) ∷ [] in
    if ltb n 10 then (b'0' + n) ∷ [] else rest

unfoldable pub decimal : ℕ → Text
unfolding decimal_fuel
decimal n = decimal_fuel n n

unfoldable pub str_int : ℤ → Text
str_int (pos n) = decimal n
str_int (negsuc n) = b'-' ∷ decimal (n + 1)

abbrev pub IsDigit : ℕ → Type 0
IsDigit c = (b'0' ≤ c) × (c ≤ b'9')

decimal_fuel-IsDigit : (f n : ℕ) → All IsDigit (decimal_fuel f n)
unfolding decimal_fuel
decimal_fuel-IsDigit zero n = ((omega arith, omega arith), tt)
decimal_fuel-IsDigit (suc f) n = elim (Bool-cases (ltb n 10)) [
  | inl small ↦ rw small ((omega arith, ground arith), tt)
  | inr big ↦ rw big (
      All-append IsDigit (decimal_fuel f (n / 10)) _ (decimal_fuel-IsDigit f (n / 10))
        ((omega arith, omega arith), tt))
]

pub decimal-IsDigit : (n : ℕ) → All IsDigit (decimal n)
unfolding decimal
decimal-IsDigit n = decimal_fuel-IsDigit n n

-- The first of the digits, which is no zero but in "0".
abbrev pub Leads : ℕ → Text → Type 0
Leads n [] = ⊥
Leads n (c ∷ s) = IsDigit c × ((0 < n) → c ≢ b'0')

Leads-append : {m n : ℕ} (s t : Text) → ((0 < n) → 0 < m) → Leads m s → Leads n (s ++ t)
Leads-append [] t up h = absurd h
Leads-append (c ∷ s) t up h = (h.0, λ pos_n. h.1 (up pos_n))

decimal_fuel-Leads : (f n : ℕ) → n ≤ f → Leads n (decimal_fuel f n)
unfolding decimal_fuel
decimal_fuel-Leads zero n h = ((omega arith, omega arith), λ p. omega arith)
decimal_fuel-Leads (suc f) n h = elim (Bool-cases (ltb n 10)) [
  | inl small ↦ rw small ((omega arith, ground arith), λ p. omega arith)
  | inr big ↦ rw big (
      Leads-append {m = n / 10} (decimal_fuel f (n / 10)) _ (λ p. ground arith)
        (decimal_fuel-Leads f (n / 10) (omega arith)))
]

pub decimal-Leads : (n : ℕ) → Leads n (decimal n)
unfolding decimal
decimal-Leads n = decimal_fuel-Leads n n (omega arith)

-- The number that digits spell behind `n`.
abbrev pub value : ℕ → Text → ℕ
value n [] = n
value n (c ∷ s) = value (n * 10 + (c - b'0')) s

value-append : (n : ℕ) (s t : Text) → value n (s ++ t) ≡ value (value n s) t
value-append n [] t = refl
value-append n (c ∷ s) t = value-append (n * 10 + (c - b'0')) s t

value-decimal_fuel : (f n : ℕ) → n ≤ f → value 0 (decimal_fuel f n) ≡ n
unfolding decimal_fuel
value-decimal_fuel zero n h = omega arith
value-decimal_fuel (suc f) n h = elim (Bool-cases (ltb n 10)) [
  | inl small ↦ rw small (omega arith)
  | inr big ↦ rw big (rw value-append (omega (arith, value-decimal_fuel f (n / 10))))
]

pub value-decimal : (n : ℕ) → value 0 (decimal n) ≡ n
unfolding decimal
value-decimal n = value-decimal_fuel n n (omega arith)
