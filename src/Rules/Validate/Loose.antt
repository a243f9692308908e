-- ===== src/Rules/Validate/Loose.antt =====
-- A Boolean passes for a number.
use eh_bot.Prelude.{◌≡◌, refl, Bool, false, String, [], codes, list_eq, ok}
use eh_bot.Prelude.Strings.{trim, words, join_words}
use eh_bot.Rules.{
  Json, boolean, str, obj, end, member, Host, word, eq, condition, numeric, field_role, is_one_of,
  is_allowed_field, role_allows, is_existence, is_membership, is_comparison, is_equality,
}
use eh_bot.Rules.Reading.{get, operator_of, truthy, text_or_empty, to_float, normalize_operator}
use eh_bot.Rules.Validate.{
  compared, text_value, word_value, plain_value, compare_value, condition_value, validate_condition,
  validate_object, validate,
}

-- `{"kind": "condition", "field": f, "operator": "=", "value": b}`
abbrev pub equals_boolean : {Float : Type 0} → String → Bool → Json Float
equals_boolean f b = obj (
    member (codes "kind") (str (codes "condition")) (
      member (codes "field") (str (codes f))
        (member (codes "operator") (str (codes "=")) (member (codes "value") (boolean b) end))))

module _ {Float : Type 0} (host : Host Float) where
  text_value-boolean :
      (b : Bool)
      → list_eq (trim (host.render (boolean b))) [] ≡ false
      → word_value host numeric (boolean b) ≡ ok (word (trim (host.render (boolean b))))
  unfolding word_value compared text_value to_float
  text_value-boolean b h = rw (h) refl

  pub validate-equals_boolean :
      (b : Bool)
      → host.lower (codes "condition") ≡ codes "condition"
      → host.upper (codes "=") ≡ codes "="
      → list_eq (trim (host.render (boolean b))) [] ≡ false
      → validate host (equals_boolean "Rating" b)
        ≡ ok (condition (codes "Rating") eq (word (trim (host.render (boolean b)))))
  unfolding validate validate_object validate_condition get truthy text_or_empty normalize_operator
      words join_words operator_of condition_value compare_value plain_value is_allowed_field
      field_role is_one_of role_allows is_existence is_membership is_comparison is_equality
  validate-equals_boolean b hl hu h = rw (hl, hu, text_value-boolean b h) refl
