-- ===== src/Rules/Shape.antt =====
-- What the evaluation of a rule asks of its tree.
use eh_bot.Prelude.{◌≡◌, Bool, true, false, ◌||◌, Option, none, some, if◌then◌else◌, Text}
use eh_bot.Prelude.Strings.{trim}
use eh_bot.Rules.{
  Json, null, boolean, number, str, arr, obj, Jsons, nil, cons, Members, end, member, Host, Role,
  numeric, collection, text, Operator, Operand, absent, word, amount, choices, Node, Nodes, group,
  condition, no_nodes, node, is_allowed_field, field_role, role_allows, is_existence, is_membership,
  is_comparison,
}
use eh_bot.Rules.Reading.{all_floats}

-- No Boolean stands anywhere in the value.
unfoldable mutual
  pub has_boolean : {Float : Type 0} → Json Float → Bool
  has_boolean null = false
  has_boolean (boolean b) = true
  has_boolean (number x) = false
  has_boolean (str t) = false
  has_boolean (arr vs) = any_boolean vs
  has_boolean (obj ms) = member_boolean ms

  pub any_boolean : {Float : Type 0} → Jsons Float → Bool
  any_boolean nil = false
  any_boolean (cons v vs) = has_boolean v || any_boolean vs

  pub member_boolean : {Float : Type 0} → Members Float → Bool
  member_boolean end = false
  member_boolean (member k v ms) = has_boolean v || member_boolean ms

unfoldable pub is_some : {A : Type 0} → Option A → Bool
is_some none = false
is_some (some a) = true

-- What the code relies on of Python's `float`: it ignores the blanks around a text, and reads what
-- `str` writes for a number.
pub record ReadsFloats {Float : Type 0} (host : Host Float) : Type 0 where
  pub of_trimmed :
      (t : Text)
      → is_some (host.float_of_text t) ≡ true
      → is_some (host.float_of_text (trim t)) ≡ true
  pub of_rendered :
      (x : Float) → is_some (host.float_of_text (trim (host.render (number x)))) ≡ true

unfoldable pub has_children : {Float : Type 0} → Nodes Float → Bool
has_children no_nodes = false
has_children (node n ns) = true

module _ {Float : Type 0} (host : Host Float) where
  unfoldable pub existence_fits : Role → Operand Float → Bool
  existence_fits collection (word t) = true
  existence_fits text absent = true
  existence_fits numeric absent = true
  existence_fits _ _ = false

  unfoldable pub list_fits : Role → Operand Float → Bool
  unfolding all_floats
  list_fits numeric (choices ts) = all_floats host ts
  list_fits _ (choices ts) = true
  list_fits _ _ = false

  unfoldable pub amount_fits : Operand Float → Bool
  amount_fits (amount x) = true
  amount_fits _ = false

  unfoldable pub word_fits : Role → Operand Float → Bool
  unfolding is_some
  word_fits numeric (word t) = is_some (host.float_of_text t)
  word_fits _ (word t) = true
  word_fits _ _ = false

  -- The operand has the shape that the operator takes of such a field.
  unfoldable pub fits : Role → Operator → Operand Float → Bool
  unfolding existence_fits list_fits amount_fits word_fits
  fits role op operand =
      if is_existence op
      then existence_fits role operand
      else if is_membership op
      then list_fits role operand
      else if is_comparison op
      then amount_fits operand
      else word_fits role operand

  -- Every condition is of the language, and no group is empty.
  unfoldable mutual
    unfolding fits has_children

    pub IsRunnable : Node Float → Type 0
    IsRunnable (condition field op operand) =
        (is_allowed_field field ≡ true)
        × (role_allows (field_role field) op ≡ true)
        × (fits (field_role field) op operand ≡ true)
    IsRunnable (group j ns) = (has_children ns ≡ true) × AllRunnable ns

    pub AllRunnable : Nodes Float → Type 0
    AllRunnable no_nodes = Unit
    AllRunnable (node n ns) = IsRunnable n × AllRunnable ns
