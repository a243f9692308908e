-- ===== src/Bencode/Sound.antt =====
-- The reader never runs out of fuel, and what it accepts has rising keys.
use mathlib.Core.Path.{subst}
use eh_bot.Prelude.{
  ℕ, zero, suc, ◌+◌, ◌*◌, ◌≤◌, ◌<◌, ◌≡◌, ◌≢◌, refl, Bool, true, false, not, Option, none, some, [],
  ◌∷◌, arith, length, Text, Result, ok, err, ◌>>=◌, ◌>>◌, refuse_if, ltb, list_eq, if◌then◌else◌,
  ◌==◌, inl, inr, Option-cases,
}
use eh_bot.Prelude.Decimal.{py_int, is_digit}
use eh_bot.Bencode.{
  Value, bytes, max_torrent_bytes, Failure, invalid, value_error, out_of_fuel, find_mark, is_ascii,
  malformed, or_raise, parse_int, natural, split_at, parse_bytes, as_key, out_of_order, starts,
  tail, parse_value, parse_items, parse_fields, decode,
}
use eh_bot.Bencode.Order.{Follows, IsOrdered, ItemsOrdered, FieldsOrdered}

-- The run kept within its fuel, and `P` holds of what it returned, if it returned.
data Ends {A : Type 0} (P : A → Type 0) : Result Failure A → Type 0 where
  holds : {a : A} → P a → Ends P (ok a)
  refused : Ends P (err invalid)
  raised : Ends P (err value_error)

module _ {A : Type 0} {P : A → Type 0} where
  Ends-ok : {r : Result Failure A} {a : A} → Ends P r → r ≡ ok a → P a
  Ends-ok (holds h) e = subst P (cc) h
  Ends-ok refused e = cc
  Ends-ok raised e = cc

  Ends-out_of_fuel : {r : Result Failure A} → Ends P r → r ≢ err out_of_fuel
  Ends-out_of_fuel (holds h) = cc
  Ends-out_of_fuel refused = cc
  Ends-out_of_fuel raised = cc

  Ends-if :
      (b : Bool) {x y : Result Failure A}
      → (b ≡ true → Ends P x)
      → (b ≡ false → Ends P y)
      → Ends P (if b then x else y)
  Ends-if true hx hy = hx refl
  Ends-if false hx hy = hy refl

  Ends-refuse_if :
      (b : Bool) {k : Result Failure A} → (b ≡ false → Ends P k) → Ends P (refuse_if b invalid >> k)
  Ends-refuse_if true h = refused
  Ends-refuse_if false h = h refl

  Ends-bind :
      {B : Type 0} {Q : B → Type 0} {r : Result Failure B} {f : B → Result Failure A}
      → Ends Q r
      → ((b : B) → Q b → Ends P (f b))
      → Ends P (r >>= f)
  Ends-bind (holds {a} h) k = k a h
  Ends-bind refused k = refused
  Ends-bind raised k = raised

Ends-weaken :
    {A : Type 0} {P Q : A → Type 0} {r : Result Failure A}
    → Ends Q r
    → ((a : A) → Q a → P a)
    → Ends P r
Ends-weaken (holds {a} h) k = holds (k a h)
Ends-weaken refused k = refused
Ends-weaken raised k = raised

or_raise-Ends : {A : Type 0} (o : Option A) → Ends (λ a. o ≡ some a) (or_raise invalid o)
unfolding or_raise
or_raise-Ends none = refused
or_raise-Ends (some a) = holds refl

value_error-Ends : {A : Type 0} (o : Option A) → Ends (λ a. Unit {0}) (or_raise value_error o)
unfolding or_raise
value_error-Ends none = raised
value_error-Ends (some a) = holds tt

length-find_mark :
    (m : ℕ) (s : Text) (p : Text × Text) → find_mark m s ≡ some p → length p.1 < length s
unfolding find_mark
length-find_mark m [] p h = cc
length-find_mark m (c ∷ s) p h = elim (Option-cases (find_mark m s)) [
  | inl e ↦ ground arith
  | inr (q, e) ↦ ground (arith, length-find_mark m s q)
]

length-split_at :
    (n : ℕ) (s : Text) (p : Text × Text) → split_at n s ≡ some p → length p.1 ≤ length s
unfolding split_at
length-split_at zero s p h = ground arith
length-split_at (suc n) [] p h = cc
length-split_at (suc n) (c ∷ s) p h = elim (Option-cases (split_at n s)) [
  | inl e ↦ ground arith
  | inr (q, e) ↦ ground (arith, length-split_at n s q)
]

-- What is left is shorter than the text.
abbrev Shorter : {A : Type 0} → Text → A × Text → Type 0
Shorter s (a, rest) = length rest < length s

parse_int-Ends :
    (s : Text) → Ends (λ (v, rest). IsOrdered v × (length rest < length s)) (parse_int s)
unfolding parse_int
parse_int-Ends s = Ends-bind (or_raise-Ends (find_mark b'e' s)) λ (text, rest) e.
    Ends-refuse_if (not (is_ascii text)) λ _. Ends-refuse_if (malformed text) λ _.
      Ends-bind (value_error-Ends (py_int text))
        λ n _. holds (tt, length-find_mark b'e' s (text, rest) e)

parse_bytes-Ends : (s : Text) → Ends (λ (b, rest). length rest < length s) (parse_bytes s)
unfolding parse_bytes
parse_bytes-Ends s = Ends-bind (or_raise-Ends (find_mark b':' s)) λ (text, rest) e.
    Ends-bind (or_raise-Ends (py_int text)) λ z _. Ends-bind (or_raise-Ends (natural z)) λ n _.
      Ends-weaken (or_raise-Ends (split_at n rest))
        λ p e'. omega (arith, length-find_mark b':' s (text, rest) e, length-split_at n rest p e')

as_key-Ends : (v : Value) → Ends (λ _. Unit {0}) (as_key v)
unfolding as_key
as_key-Ends (bytes k) = holds tt
as_key-Ends _ = refused

Follows-in_order :
    (previous : Option Text) (k : Text) → out_of_order previous k ≡ false → Follows previous k
unfolding out_of_order
Follows-in_order none k h = tt
Follows-in_order (some p) k h = ground arith

starts→shorter : (m : ℕ) (s : Text) → starts m s ≡ true → length (tail s) < length s
unfolding starts
starts→shorter m [] h = cc
starts→shorter m (c ∷ s) h = omega arith

-- One induction on the fuel: each call leaves less than it was given.
mutual
  unfolding parse_value

  parse_value-Ends :
      (f : ℕ) (s : Text)
      → 2 * length s < f
      → Ends (λ (v, rest). IsOrdered v × (length rest < length s)) (parse_value f s)
  parse_value-Ends zero s h = absurd (omega arith)
  parse_value-Ends (suc f) [] h = refused
  parse_value-Ends (suc f) (marker ∷ s) h =
      Ends-if (marker == b'i') (λ _. Ends-weaken (parse_int-Ends s) λ _ (o, less). (o, omega arith))
        λ _.
          Ends-if (marker == b'l')
            (λ _.
              Ends-bind (parse_items-Ends f s (omega arith))
                λ (xs, rest) (o, less). holds (o, omega arith))
            λ _.
              Ends-if (marker == b'd')
                (λ _.
                  Ends-bind (parse_fields-Ends f none s (omega arith))
                    λ (fs, rest) (o, less). holds (o, omega arith))
                λ _.
                  Ends-if (is_digit marker)
                    (λ _.
                      Ends-bind (parse_bytes-Ends (marker ∷ s)) λ (b, rest) less. holds (tt, less))
                    λ _. refused

  parse_items-Ends :
      (f : ℕ) (s : Text)
      → suc (2 * length s) < f
      → Ends (λ (xs, rest). ItemsOrdered xs × (length rest < length s)) (parse_items f s)
  parse_items-Ends zero s h = absurd (omega arith)
  parse_items-Ends (suc f) s h =
      Ends-if (starts b'e' s) (λ e. holds (tt, starts→shorter b'e' s e))
        λ _. Ends-bind (parse_value-Ends f s (omega arith)) λ (v, s₁) (ov, l₁).
          Ends-bind (parse_items-Ends f s₁ (omega arith))
            λ (xs, s₂) (oxs, l₂). holds ((ov, oxs), omega arith)

  parse_fields-Ends :
      (f : ℕ) (previous : Option Text) (s : Text)
      → suc (2 * length s) < f
      → Ends
          (λ (fs, rest). FieldsOrdered fs previous × (length rest < length s))
          (parse_fields f previous s)
  parse_fields-Ends zero previous s h = absurd (omega arith)
  parse_fields-Ends (suc f) previous s h =
      Ends-if (starts b'e' s) (λ e. holds (tt, starts→shorter b'e' s e))
        λ _. Ends-bind (parse_value-Ends f s (omega arith)) λ (k, s₁) (_, l₁).
          Ends-bind (as_key-Ends k) λ key _. Ends-refuse_if (out_of_order previous key) λ in_order.
            Ends-bind (parse_value-Ends f s₁ (omega arith)) λ (v, s₂) (ov, l₂).
              Ends-bind (parse_fields-Ends f (some key) s₂ (omega arith)) λ (fs, s₃) (ofs, l₃).
                holds ((Follows-in_order previous key in_order, ov, ofs), omega arith)

decode-Ends : (s : Text) → Ends IsOrdered (decode s)
unfolding decode
decode-Ends s = Ends-refuse_if (list_eq s []) λ _.
    Ends-refuse_if (ltb max_torrent_bytes (length s)) λ _.
      Ends-bind (parse_value-Ends (2 * length s + 1) s (omega arith))
        λ (v, rest) (o, _). Ends-refuse_if (not (list_eq rest [])) λ _. holds o

-- `decode` ends on every input: the model's fuel is never used up.
pub decode-ne-out_of_fuel : (s : Text) → decode s ≢ err out_of_fuel
decode-ne-out_of_fuel s = Ends-out_of_fuel (decode-Ends s)

-- In what `decode` accepts, the keys of every dict rise strictly, at every depth.
pub decode-IsOrdered : (s : Text) (v : Value) → decode s ≡ ok v → IsOrdered v
decode-IsOrdered s v = Ends-ok (decode-Ends s)
