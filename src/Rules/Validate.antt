-- ===== src/Rules/Validate.antt =====
-- `validate_rule_ast` of app/auto_approval/rules.py.
mod Operands
pub mod Sound
pub mod Loose
pub mod Samples
use eh_bot.Prelude.{
  ℕ, Bool, true, false, not, ◌&&◌, ◌||◌, Option, none, some, String, List, [], ◌∷◌, if◌then◌else◌,
  ltb, length, ◌==◌, Text, codes, list_eq, Result, ok, err, ◌>>=◌, ◌>>◌, refuse_if,
}
use eh_bot.Prelude.Strings.{trim, words, join_words}
use eh_bot.Rules.{
  Json, null, boolean, number, str, arr, obj, Jsons, nil, cons, Members, end, member, Host, Role,
  numeric, collection, text, Operator, eq, ne, gt, ge, lt, le, like, not_like, in_list, not_in,
  exists, not_exists, unknown, Junction, all_of, any_of, Operand, absent, word, amount, choices,
  Node, Nodes, group, condition, no_nodes, node, is_allowed_field, field_role, role_allows,
  is_existence, is_membership, is_comparison,
}
use eh_bot.Rules.Reading.{
  Refusal, not_an_object, regex_removed, bad_junction, no_children, bad_kind, bad_field,
  bad_operator, one_tag_wanted, no_value_wanted, values_wanted, not_a_number_list, value_wanted,
  not_a_number, empty_value, get, operator_of, junction_of, is_nil, to_text, truthy, text_or_empty,
  to_float, normalize_operator, clean_item, clean_items, clean_list, all_floats,
}

module _ {Float : Type 0} (host : Host Float) where
  -- `raw not in (None, "")`
  is_given : Option (Json Float) → Bool
  is_given none = false
  is_given (some null) = false
  is_given (some (str t)) = not (list_eq t [])
  is_given (some v) = true

  one_tag : List Text → Result Refusal (Operand Float)
  one_tag (t ∷ []) = ok (word t)
  one_tag _ = err one_tag_wanted

  existence_value : Role → Option (Json Float) → Result Refusal (Operand Float)
  unfolding is_given is_nil one_tag
  existence_value collection raw = one_tag (clean_list host raw)
  existence_value _ raw =
      if is_given raw && not (is_nil (clean_list host raw)) then err no_value_wanted else ok absent

  list_value : Role → List Text → Result Refusal (Operand Float)
  unfolding all_floats
  list_value role [] = err values_wanted
  list_value numeric ts = if all_floats host ts then ok (choices ts) else err not_a_number_list
  list_value _ ts = ok (choices ts)

  -- the last two checks of `_condition_value`
  text_value : Json Float → Result Refusal (Operand Float)
  unfolding trim
  text_value raw =
      if list_eq (trim (to_text host raw)) []
      then err empty_value
      else ok (word (trim (to_text host raw)))

  compared : Option Float → Result Refusal (Operand Float) → Result Refusal (Operand Float)
  compared none k = err not_a_number
  compared (some x) k = k

  amount_of : Option Float → Result Refusal (Operand Float)
  amount_of none = err not_a_number
  amount_of (some x) = ok (amount x)

  word_value : Role → Json Float → Result Refusal (Operand Float)
  unfolding to_float text_value compared
  word_value numeric raw = compared (to_float host raw) (text_value raw)
  word_value _ raw = text_value raw

  plain_value : Operator → Role → Json Float → Result Refusal (Operand Float)
  unfolding to_float word_value amount_of
  plain_value op role raw =
      if is_comparison op then amount_of (to_float host raw) else word_value role raw

  compare_value : Operator → Role → Option (Json Float) → Result Refusal (Operand Float)
  unfolding plain_value
  compare_value op role none = err value_wanted
  compare_value op role (some null) = err value_wanted
  compare_value op role (some raw) = plain_value op role raw

  -- `_condition_value`
  pub condition_value : Operator → Role → Option (Json Float) → Result Refusal (Operand Float)
  unfolding existence_value list_value compare_value
  condition_value op role raw =
      if is_existence op
      then existence_value role raw
      else if is_membership op
      then list_value role (clean_list host raw)
      else compare_value op role raw

  validate_condition : Members Float → Result Refusal (Node Float)
  unfolding get text_or_empty normalize_operator operator_of condition_value
  validate_condition value = do
    let field = text_or_empty host (get (codes "field") value)
    refuse_if (not (is_allowed_field field)) bad_field
    let op = operator_of (normalize_operator host (get (codes "operator") value))
    refuse_if (not (role_allows (field_role field) op)) bad_operator
    operand ← condition_value op (field_role field) (get (codes "value") value)
    ok (condition field op operand)

  -- A group, with what its children become; `none` if they are no list or an empty one.
  as_group : Option Junction → Option (Result Refusal (Nodes Float)) → Result Refusal (Node Float)
  as_group none children = err bad_junction
  as_group (some j) none = err no_children
  as_group (some j) (some validated) = do ns ← validated; ok (group j ns)

  validate_group :
      Members Float → Option (Result Refusal (Nodes Float)) → Result Refusal (Node Float)
  unfolding get normalize_operator junction_of as_group
  validate_group value children =
      as_group (junction_of (normalize_operator host (get (codes "operator") value))) children

  validate_object :
      Members Float → Option (Result Refusal (Nodes Float)) → Result Refusal (Node Float)
  unfolding get text_or_empty validate_condition validate_group
  validate_object value children =
      let kind = host.lower (text_or_empty host (get (codes "kind") value)) in
      if list_eq kind (codes "regex")
      then err regex_removed
      else if list_eq kind (codes "group")
      then validate_group value children
      else if list_eq kind (codes "condition")
      then validate_condition value
      else err bad_kind

  -- `validate_rule_ast`. The recursion goes to the members' values first, since `children` is found
  -- by its key; only a group looks at what comes of it.
  mutual
    unfolding validate_object

    pub validate : Json Float → Result Refusal (Node Float)
    validate (obj value) = validate_object value (validate_children value)
    validate _ = err not_an_object

    validate_children : Members Float → Option (Result Refusal (Nodes Float))
    validate_children end = none
    validate_children (member k v rest) =
        let here = as_children v in
        let later = validate_children rest in if list_eq k (codes "children") then here else later

    as_children : Json Float → Option (Result Refusal (Nodes Float))
    as_children (arr (cons v vs)) = some (do n ← validate v; ns ← validate_all vs; ok (node n ns))
    as_children _ = none

    validate_all : Jsons Float → Result Refusal (Nodes Float)
    validate_all nil = ok no_nodes
    validate_all (cons v vs) = do n ← validate v; ns ← validate_all vs; ok (node n ns)
