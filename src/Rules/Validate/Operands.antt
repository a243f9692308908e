-- ===== src/Rules/Validate/Operands.antt =====
-- The operand that validation gives a condition fits it.
use eh_bot.Prelude.{
  ◌≡◌, refl, true, false, not, ◌&&◌, Option, none, some, List, [], ◌∷◌, Text, list_eq, Result, IfOk,
  returned, raised, IfOk-if,
}
use eh_bot.Prelude.Strings.{trim}
use eh_bot.Rules.{
  Json, null, boolean, number, str, arr, obj, Host, Role, numeric, collection, text, Operator,
  Operand, is_existence, is_membership, is_comparison,
}
use eh_bot.Rules.Reading.{Refusal, to_text, to_float, clean_list, all_floats, is_nil}
use eh_bot.Rules.Validate.{
  one_tag, is_given, existence_value, list_value, text_value, compared, amount_of, word_value,
  plain_value, compare_value, condition_value,
}
use eh_bot.Rules.Shape.{
  has_boolean, is_some, ReadsFloats, existence_fits, list_fits, amount_fits, word_fits, fits,
}

module _ {Float : Type 0} (host : Host Float) (reads : ReadsFloats host) where
  to_float-to_text :
      (v : Json Float)
      → has_boolean v ≡ false
      → is_some (to_float host v) ≡ true
      → is_some (host.float_of_text (trim (to_text host v))) ≡ true
  unfolding has_boolean is_some to_float
  to_float-to_text null h g = cc
  to_float-to_text (boolean b) h g = cc
  to_float-to_text (number x) h g = reads.of_rendered x
  to_float-to_text (str t) h g = reads.of_trimmed t g
  to_float-to_text (arr vs) h g = cc
  to_float-to_text (obj ms) h g = cc

  one_tag-fits :
      (ts : List Text)
      → IfOk (λ operand. existence_fits host collection operand ≡ true) (one_tag host ts)
  unfolding one_tag existence_fits
  one_tag-fits [] = raised
  one_tag-fits (t ∷ []) = returned refl
  one_tag-fits (t ∷ u ∷ ts) = raised

  existence_value-fits :
      (role : Role) (raw : Option (Json Float))
      → IfOk (λ operand. existence_fits host role operand ≡ true) (existence_value host role raw)
  unfolding existence_value existence_fits
  existence_value-fits collection raw = one_tag-fits (clean_list host raw)
  existence_value-fits numeric raw =
      IfOk-if (is_given host raw && not (is_nil (clean_list host raw))) (λ _. raised)
        (λ _. returned refl)
  existence_value-fits text raw =
      IfOk-if (is_given host raw && not (is_nil (clean_list host raw))) (λ _. raised)
        (λ _. returned refl)

  list_value-fits :
      (role : Role) (ts : List Text)
      → IfOk (λ operand. list_fits host role operand ≡ true) (list_value host role ts)
  unfolding list_value list_fits
  list_value-fits role [] = raised
  list_value-fits numeric (t ∷ ts) =
      IfOk-if (all_floats host (t ∷ ts)) (λ h. returned h) (λ _. raised)
  list_value-fits collection (t ∷ ts) = returned refl
  list_value-fits text (t ∷ ts) = returned refl

  amount_of-fits :
      (x : Option Float) → IfOk (λ operand. amount_fits host operand ≡ true) (amount_of host x)
  unfolding amount_of amount_fits
  amount_of-fits none = raised
  amount_of-fits (some x) = returned refl

  text_value-fits :
      (role : Role) (v : Json Float)
      → has_boolean v ≡ false
      → (role ≡ numeric → is_some (to_float host v) ≡ true)
      → IfOk (λ operand. word_fits host role operand ≡ true) (text_value host v)
  unfolding text_value word_fits
  text_value-fits numeric v h g =
      IfOk-if (list_eq (trim (to_text host v)) []) (λ _. raised)
        (λ _. returned (to_float-to_text v h (g refl)))
  text_value-fits collection v h g =
      IfOk-if (list_eq (trim (to_text host v)) []) (λ _. raised) (λ _. returned refl)
  text_value-fits text v h g =
      IfOk-if (list_eq (trim (to_text host v)) []) (λ _. raised) (λ _. returned refl)

  is_some-eq : {A : Type 0} {o : Option A} {a : A} → o ≡ some a → is_some o ≡ true
  unfolding is_some
  is_some-eq e = rw (e) refl

  compared-fits :
      (x : Option Float) {r : Result Refusal (Operand Float)} {P : Operand Float → Type 0}
      → (is_some x ≡ true → IfOk P r)
      → IfOk P (compared host x r)
  unfolding compared is_some
  compared-fits none h = raised
  compared-fits (some x) h = h refl

  word_value-fits :
      (role : Role) (v : Json Float)
      → has_boolean v ≡ false
      → IfOk (λ operand. word_fits host role operand ≡ true) (word_value host role v)
  unfolding word_value
  word_value-fits numeric v h =
      compared-fits (to_float host v) λ g. text_value-fits numeric v h λ _. g
  word_value-fits collection v h = text_value-fits collection v h λ e. cc
  word_value-fits text v h = text_value-fits text v h λ e. cc

  plain_value-fits :
      (op : Operator) (role : Role) (v : Json Float)
      → is_existence op ≡ false
      → is_membership op ≡ false
      → has_boolean v ≡ false
      → IfOk (λ operand. fits host role op operand ≡ true) (plain_value host op role v)
  unfolding fits plain_value
  plain_value-fits op role v he hm h =
      rw (he, hm)
        (IfOk-if (is_comparison op) (λ c. rw (c) (amount_of-fits (to_float host v)))
          (λ c. rw (c) (word_value-fits role v h)))

  compare_value-fits :
      (op : Operator) (role : Role) (raw : Option (Json Float))
      → is_existence op ≡ false
      → is_membership op ≡ false
      → ((v : Json Float) → raw ≡ some v → has_boolean v ≡ false)
      → IfOk (λ operand. fits host role op operand ≡ true) (compare_value host op role raw)
  unfolding compare_value
  compare_value-fits op role none he hm h = raised
  compare_value-fits op role (some null) he hm h = raised
  compare_value-fits op role (some (boolean b)) he hm h =
      plain_value-fits op role (boolean b) he hm (h _ refl)
  compare_value-fits op role (some (number x)) he hm h =
      plain_value-fits op role (number x) he hm (h _ refl)
  compare_value-fits op role (some (str t)) he hm h =
      plain_value-fits op role (str t) he hm (h _ refl)
  compare_value-fits op role (some (arr vs)) he hm h =
      plain_value-fits op role (arr vs) he hm (h _ refl)
  compare_value-fits op role (some (obj ms)) he hm h =
      plain_value-fits op role (obj ms) he hm (h _ refl)

  existence-fits :
      (op : Operator) (role : Role) (raw : Option (Json Float))
      → is_existence op ≡ true
      → IfOk (λ operand. fits host role op operand ≡ true) (existence_value host role raw)
  unfolding fits
  existence-fits op role raw h = rw (h) (existence_value-fits role raw)

  list-fits :
      (op : Operator) (role : Role) (ts : List Text)
      → is_existence op ≡ false
      → is_membership op ≡ true
      → IfOk (λ operand. fits host role op operand ≡ true) (list_value host role ts)
  unfolding fits
  list-fits op role ts he h = rw (he, h) (list_value-fits role ts)

  pub condition_value-fits :
      (op : Operator) (role : Role) (raw : Option (Json Float))
      → ((v : Json Float) → raw ≡ some v → has_boolean v ≡ false)
      → IfOk (λ operand. fits host role op operand ≡ true) (condition_value host op role raw)
  unfolding condition_value
  condition_value-fits op role raw h = IfOk-if (is_existence op) (existence-fits op role raw) λ he.
      IfOk-if (is_membership op) (list-fits op role (clean_list host raw) he)
        λ hm. compare_value-fits op role raw he hm h
