-- ===== src/Rules/Evaluate/Leaves.antt =====
-- A condition that fits its field is evaluated without an exception.
use eh_bot.Prelude.{
  ◌≡◌, refl, Bool, true, false, List, [], ◌∷◌, arith, Text, is_ok, is_ok-bind, Option-cases, inl,
  inr,
}
use eh_bot.Prelude.Strings.{trim}
use eh_bot.Rules.{
  Host, numeric, collection, text, Operator, eq, ne, gt, ge, lt, le, like, not_like, in_list,
  not_in, exists, not_exists, unknown, Operand, absent, word, amount, choices, field_role,
  role_allows, is_existence, is_membership, is_comparison, is_like, is_equality,
}
use eh_bot.Rules.Reading.{all_floats}
use eh_bot.Rules.Shape.{is_some, existence_fits, list_fits, amount_fits, word_fits, fits}
use eh_bot.Rules.Evaluate.{
  Metadata, stored, tags, evaluate_collection, or_value_error, expected, float_member,
  compare_numbers, evaluate_numeric, evaluate_text, evaluate_stored, evaluate_condition,
}

module _ {Float : Type 0} (host : Host Float) where
  float_member-is_ok :
      (x : Float) (ts : List Text)
      → all_floats host ts ≡ true
      → is_ok (float_member host x ts) ≡ true
  unfolding float_member all_floats or_value_error
  float_member-is_ok x [] h = refl
  float_member-is_ok x (t ∷ ts) h = ground (arith, float_member-is_ok x ts)

  compare_numbers-is_ok :
      (op : Operator) (operand : Operand Float) (x : Float)
      → role_allows numeric op ≡ true
      → is_existence op ≡ false
      → fits host numeric op operand ≡ true
      → is_ok (compare_numbers host op operand x) ≡ true
  unfolding compare_numbers expected or_value_error role_allows is_existence is_membership
      is_comparison is_like is_equality fits list_fits amount_fits word_fits is_some
  compare_numbers-is_ok eq operand x ha he h = ground arith
  compare_numbers-is_ok ne operand x ha he h = ground arith
  compare_numbers-is_ok gt operand x ha he h = ground arith
  compare_numbers-is_ok ge operand x ha he h = ground arith
  compare_numbers-is_ok lt operand x ha he h = ground arith
  compare_numbers-is_ok le operand x ha he h = ground arith
  compare_numbers-is_ok like operand x ha he h = ground arith
  compare_numbers-is_ok not_like operand x ha he h = ground arith
  compare_numbers-is_ok exists operand x ha he h = ground arith
  compare_numbers-is_ok not_exists operand x ha he h = ground arith
  compare_numbers-is_ok (unknown t) operand x ha he h = ground arith
  compare_numbers-is_ok in_list absent x ha he h = ground arith
  compare_numbers-is_ok in_list (word t) x ha he h = ground arith
  compare_numbers-is_ok in_list (amount y) x ha he h = ground arith
  compare_numbers-is_ok not_in absent x ha he h = ground arith
  compare_numbers-is_ok not_in (word t) x ha he h = ground arith
  compare_numbers-is_ok not_in (amount y) x ha he h = ground arith
  compare_numbers-is_ok in_list (choices ts) x ha he h = float_member-is_ok x ts h
  compare_numbers-is_ok not_in (choices ts) x ha he h =
      is_ok-bind (float_member host x ts) _ (float_member-is_ok x ts h) λ found. refl

  evaluate_text-is_ok :
      (op : Operator) (operand : Operand Float) (actual : Text) (cs : Bool)
      → role_allows text op ≡ true
      → is_existence op ≡ false
      → fits host text op operand ≡ true
      → is_ok (evaluate_text host op operand actual cs) ≡ true
  unfolding evaluate_text role_allows is_existence is_membership is_comparison is_like is_equality
      fits list_fits amount_fits word_fits
  evaluate_text-is_ok op operand actual cs ha he h = ground arith

  evaluate_collection-is_ok :
      (op : Operator) (operand : Operand Float) (present : List Text) (cs : Bool)
      → role_allows collection op ≡ true
      → fits host collection op operand ≡ true
      → is_ok (evaluate_collection host op operand present cs) ≡ true
  unfolding evaluate_collection role_allows is_existence is_membership is_comparison is_like
      is_equality fits existence_fits list_fits amount_fits word_fits
  evaluate_collection-is_ok op operand present cs ha h = ground arith

  evaluate_numeric-is_ok :
      (op : Operator) (operand : Operand Float) (actual : Text)
      → role_allows numeric op ≡ true
      → is_existence op ≡ false
      → fits host numeric op operand ≡ true
      → is_ok (evaluate_numeric host op operand actual) ≡ true
  unfolding evaluate_numeric
  evaluate_numeric-is_ok op operand actual ha he h =
      elim (Option-cases (host.float_of_text actual)) [
        | inl e ↦ rw (is_ok, e) refl
        | inr (x, e) ↦ rw (is_ok, e) (compare_numbers-is_ok op operand x ha he h)
      ]

  evaluate_stored-numeric :
      (op : Operator) (operand : Operand Float) (actual : Text) (cs : Bool)
      → role_allows numeric op ≡ true
      → fits host numeric op operand ≡ true
      → is_ok (evaluate_stored host numeric op operand actual cs) ≡ true
  unfolding evaluate_stored is_existence
  evaluate_stored-numeric op operand actual cs ha h =
      ground (arith, evaluate_numeric-is_ok op operand actual)

  evaluate_stored-text :
      (op : Operator) (operand : Operand Float) (actual : Text) (cs : Bool)
      → role_allows text op ≡ true
      → fits host text op operand ≡ true
      → is_ok (evaluate_stored host text op operand actual cs) ≡ true
  unfolding evaluate_stored is_existence
  evaluate_stored-text op operand actual cs ha h =
      ground (arith, evaluate_text-is_ok op operand actual cs)

  pub evaluate_condition-is_ok :
      (field : Text) (op : Operator) (operand : Operand Float) (metadata : Metadata) (cs : Bool)
      → role_allows (field_role field) op ≡ true
      → fits host (field_role field) op operand ≡ true
      → is_ok (evaluate_condition host field op operand metadata cs) ≡ true
  unfolding evaluate_condition
  evaluate_condition-is_ok field op operand metadata cs ha h = ground (
    arith,
    evaluate_stored-text op operand (trim (stored metadata field)) cs,
    evaluate_stored-numeric op operand (trim (stored metadata field)) cs,
    evaluate_collection-is_ok op operand (tags host metadata cs) cs,
  )
