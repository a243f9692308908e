-- ===== src/Prelude/Results.antt =====
-- Exceptions as values: a function that may raise returns a `Result`.
use mathlib.Core.Path.{◌≡◌, refl, subst}
use mathlib.Core.Bool.{Bool, true, false}
use eh_bot.Prelude.Tests.{if◌then◌else◌}

pub data Result {ℓ} (E : Type 0) (A : Type ℓ) : Type ℓ where
  ok : A → Result E A
  err : E → Result E A

infixl 5 ◌>>=◌ ◌>>◌
abbrev pub ◌>>=◌ {ℓ κ} :
    {E : Type 0} {A : Type ℓ} {B : Type κ} → Result E A → (A → Result E B) → Result E B
ok a >>= f = f a
err e >>= f = err e

abbrev pub ◌>>◌ {ℓ} : {E : Type 0} {B : Type ℓ} → Result E (Unit {0}) → Result E B → Result E B
m >> k = m >>= λ _. k

-- `if test: raise error`
abbrev pub refuse_if : {E : Type 0} → Bool → E → Result E (Unit {0})
refuse_if true e = err e
refuse_if false e = ok tt

abbrev pub is_ok {ℓ} : {E : Type 0} {A : Type ℓ} → Result E A → Bool
is_ok (ok a) = true
is_ok (err e) = false

pub is_ok-bind {ℓ κ} :
    {E : Type 0} {A : Type ℓ} {B : Type κ} (r : Result E A) (f : A → Result E B)
    → is_ok r ≡ true
    → ((a : A) → is_ok (f a) ≡ true)
    → is_ok (r >>= f) ≡ true
is_ok-bind (ok a) f h k = k a
is_ok-bind (err e) f h k = cc

-- `P` holds of what the run returned, if it returned.
pub data IfOk {E A : Type 0} (P : A → Type 0) : Result E A → Type 0 where
  returned : {a : A} → P a → IfOk P (ok a)
  raised : {e : E} → IfOk P (err e)

module _ {E A : Type 0} {P : A → Type 0} where
  pub IfOk-ok : {r : Result E A} {a : A} → IfOk P r → r ≡ ok a → P a
  IfOk-ok (returned h) e = subst P (cc) h
  IfOk-ok raised e = cc

  pub IfOk-if :
      (b : Bool) {x y : Result E A}
      → (b ≡ true → IfOk P x)
      → (b ≡ false → IfOk P y)
      → IfOk P (if b then x else y)
  IfOk-if true hx hy = hx refl
  IfOk-if false hx hy = hy refl

  pub IfOk-refuse_if :
      (b : Bool) (e : E) {k : Result E A} → (b ≡ false → IfOk P k) → IfOk P (refuse_if b e >> k)
  IfOk-refuse_if true e h = raised
  IfOk-refuse_if false e h = h refl

  pub IfOk-bind :
      {B : Type 0} {Q : B → Type 0} {r : Result E B} {f : B → Result E A}
      → IfOk Q r
      → ((b : B) → Q b → IfOk P (f b))
      → IfOk P (r >>= f)
  IfOk-bind (returned {a} h) k = k a h
  IfOk-bind raised k = raised

pub IfOk-self : {E A : Type 0} (r : Result E A) → IfOk (λ a. r ≡ ok a) r
IfOk-self (ok a) = returned refl
IfOk-self (err e) = raised

pub IfOk-weaken :
    {E A : Type 0} {P Q : A → Type 0} {r : Result E A} → IfOk Q r → ((a : A) → Q a → P a) → IfOk P r
IfOk-weaken (returned {a} h) k = returned (k a h)
IfOk-weaken raised k = raised
