-- ===== src/Rules/Evaluate/Negation.antt =====
-- The negated operators of the rule language.
use eh_bot.Prelude.{
  ◌≡◌, refl, Bool, true, false, not, ◌&&◌, ◌||◌, none, List, [], arith, Text, list_eq, Result, ok,
  err, is_ok, Option-cases, inl, inr,
}
use eh_bot.Prelude.Strings.{trim}
use eh_bot.Rules.{
  Host, Role, numeric, collection, text, Operator, eq, ne, like, not_like, in_list, not_in, exists,
  not_exists, Operand, field_role, role_allows, is_existence, is_membership, is_comparison, is_like,
  is_equality,
}
use eh_bot.Rules.Shape.{is_some, fits}
use eh_bot.Rules.Evaluate.{
  Failure, Metadata, stored, tags, evaluate_collection, compare_numbers, evaluate_numeric,
  evaluate_text, evaluate_stored, evaluate_condition,
}
use eh_bot.Rules.Evaluate.Total.{outcome}
use eh_bot.Rules.Evaluate.Leaves.{evaluate_condition-is_ok}

unfoldable pub opposite : Operator → Operator
opposite eq = ne
opposite like = not_like
opposite in_list = not_in
opposite exists = not_exists
opposite op = op

-- The operators that have a negation of their own.
unfoldable pub is_positive : Operator → Bool
is_positive eq = true
is_positive like = true
is_positive in_list = true
is_positive exists = true
is_positive op = false

-- `not`, of a run that may fail.
flip : Result Failure Bool → Result Failure Bool
flip (ok b) = ok (not b)
flip (err e) = err e

module _ {Float : Type 0} (host : Host Float) where
  compare_numbers-opposite :
      (op : Operator) (operand : Operand Float) (x : Float)
      → is_positive op ≡ true
      → role_allows numeric op ≡ true
      → is_existence op ≡ false
      → compare_numbers host (opposite op) operand x ≡ flip (compare_numbers host op operand x)
  unfolding compare_numbers opposite flip is_positive role_allows is_existence is_membership is_like
      is_equality is_comparison
  compare_numbers-opposite op operand x h = ground arith

  evaluate_text-opposite :
      (op : Operator) (operand : Operand Float) (actual : Text) (cs : Bool)
      → is_positive op ≡ true
      → evaluate_text host (opposite op) operand actual cs
        ≡ flip (evaluate_text host op operand actual cs)
  unfolding evaluate_text opposite flip is_positive role_allows is_existence is_membership is_like
      is_equality is_comparison
  evaluate_text-opposite op operand actual cs h = ground arith

  evaluate_collection-opposite :
      (op : Operator) (operand : Operand Float) (present : List Text) (cs : Bool)
      → is_positive op ≡ true
      → evaluate_collection host (opposite op) operand present cs
        ≡ flip (evaluate_collection host op operand present cs)
  unfolding evaluate_collection opposite flip is_positive role_allows is_existence is_membership
      is_like is_equality is_comparison
  evaluate_collection-opposite op operand present cs h = ground arith

  -- The stored value says something of which both the operator and its negation speak.
  unfoldable pub speaks : Role → Operator → Text → Bool
  unfolding is_some
  speaks collection op actual = true
  speaks text op actual = is_existence op || not (list_eq actual [])
  speaks numeric op actual =
      is_existence op || not (list_eq actual []) && is_some (host.float_of_text actual)

  evaluate_numeric-opposite :
      (op : Operator) (operand : Operand Float) (actual : Text)
      → is_positive op ≡ true
      → role_allows numeric op ≡ true
      → is_existence op ≡ false
      → is_some (host.float_of_text actual) ≡ true
      → evaluate_numeric host (opposite op) operand actual
        ≡ flip (evaluate_numeric host op operand actual)
  unfolding evaluate_numeric is_some
  evaluate_numeric-opposite op operand actual hp ha he h =
      elim (Option-cases (host.float_of_text actual)) [
        | inl e ↦ ground arith
        | inr (x, e) ↦ rw (evaluate_numeric, e) (compare_numbers-opposite op operand x hp ha he)
      ]

  -- The outcome of a run, and `false` of one that raises.
  value : Result Failure Bool → Bool
  value (ok b) = b
  value (err e) = false

  text-opposite :
      (op : Operator) (operand : Operand Float) (actual : Text) (cs : Bool)
      → is_positive op ≡ true
      → role_allows text op ≡ true
      → is_ok (evaluate_stored host text op operand actual cs) ≡ true
      → value (evaluate_stored host text (opposite op) operand actual cs)
        ≡ (speaks text op actual && not (value (evaluate_stored host text op operand actual cs)))
  unfolding evaluate_stored speaks value flip is_positive opposite is_existence role_allows
      is_membership is_like is_equality is_comparison
  text-opposite op operand actual cs hp ha h =
      ground (arith, evaluate_text-opposite op operand actual cs hp)

  numeric-unread :
      (op : Operator) (operand : Operand Float) (actual : Text)
      → host.float_of_text actual ≡ none
      → evaluate_numeric host op operand actual ≡ ok false
  unfolding evaluate_numeric
  numeric-unread op operand actual e = rw (evaluate_numeric, e) refl

  numeric-opposite :
      (op : Operator) (operand : Operand Float) (actual : Text) (cs : Bool)
      → is_positive op ≡ true
      → role_allows numeric op ≡ true
      → is_ok (evaluate_stored host numeric op operand actual cs) ≡ true
      → value (evaluate_stored host numeric (opposite op) operand actual cs) ≡ (
          speaks numeric op actual
          && not (value (evaluate_stored host numeric op operand actual cs)))
  unfolding evaluate_stored speaks value flip is_positive opposite is_existence role_allows
      is_membership is_like is_equality is_comparison is_some
  numeric-opposite op operand actual cs hp ha h = elim (Option-cases (host.float_of_text actual)) [
    | inl e ↦
        ground
          (arith, numeric-unread op operand actual e, numeric-unread (opposite op) operand actual e)
    | inr (x, e) ↦ ground (arith, evaluate_numeric-opposite op operand actual hp ha)
  ]

  collection-opposite :
      (op : Operator) (operand : Operand Float) (present : List Text) (cs : Bool)
      → is_positive op ≡ true
      → role_allows collection op ≡ true
      → is_ok (evaluate_collection host op operand present cs) ≡ true
      → value (evaluate_collection host (opposite op) operand present cs)
        ≡ not (value (evaluate_collection host op operand present cs))
  unfolding value flip role_allows is_positive
  collection-opposite op operand present cs hp ha h =
      ground (arith, evaluate_collection-opposite op operand present cs)

  unfoldable pub is_settled : Text → Operator → Metadata → Bool
  unfolding speaks stored trim
  is_settled field op metadata = speaks (field_role field) op (trim (stored metadata field))

  opposite-by_role :
      (field : Text) (op : Operator) (operand : Operand Float) (metadata : Metadata) (cs : Bool)
      → is_positive op ≡ true
      → role_allows (field_role field) op ≡ true
      → is_ok (evaluate_condition host field op operand metadata cs) ≡ true
      → value (evaluate_condition host field (opposite op) operand metadata cs) ≡ (
          is_settled field op metadata
          && not (value (evaluate_condition host field op operand metadata cs)))
  unfolding evaluate_condition is_settled speaks
  opposite-by_role field op operand metadata cs hp ha h =
      let actual = trim (stored metadata field) in
      ground (
        arith,
        text-opposite op operand actual cs hp,
        numeric-opposite op operand actual cs hp,
        collection-opposite op operand (tags host metadata cs) cs hp,
      )

-- `NOT EXISTS`, `<>`, `NOT LIKE` and `NOT IN` against `EXISTS`, `=`, `LIKE` and `IN`, on an operand
-- that fits and a field whose role has the operator: the negated operator has the opposite outcome, except
-- that on a field of text or of numbers neither `<>`, `NOT LIKE` nor `NOT IN` matches where nothing is stored, or
-- where the value of a numeric field is no number. Tags have no exception.
pub outcome-opposite :
    {Float : Type 0} (host : Host Float) (field : Text) (op : Operator) (operand : Operand Float)
    (metadata : Metadata) (case_sensitive : Bool)
    → is_positive op ≡ true
    → role_allows (field_role field) op ≡ true
    → fits host (field_role field) op operand ≡ true
    → outcome host field (opposite op) operand metadata case_sensitive ≡ (
        is_settled host field op metadata
        && not (outcome host field op operand metadata case_sensitive))
unfolding outcome value
outcome-opposite host field op operand metadata case_sensitive hp ha h =
    opposite-by_role host field op operand metadata case_sensitive hp ha
      (evaluate_condition-is_ok host field op operand metadata case_sensitive ha h)
