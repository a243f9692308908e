-- ===== src/Rules/Samples.antt =====
-- The theorems on the evaluation, at concrete rules and metadata.
use eh_bot.Prelude.{ℕ, ◌≡◌, refl, true, false, not, ◌&&◌, [], ◌∷◌, codes, ok, err}
use eh_bot.Prelude.Dict
use eh_bot.Prelude.Strings.{trim}
use eh_bot.Rules.{
  like, word, Node, field_role, is_one_of, role_allows, is_existence, is_membership, is_comparison,
  is_equality, is_like,
}
use eh_bot.Rules.Validate.{validate}
use eh_bot.Rules.Validate.Loose.{equals_boolean}
use eh_bot.Rules.Validate.Sound.{validate-IsRunnable}
use eh_bot.Rules.Validate.Samples.{
  ascii, ascii-ReadsFloats, rule_json, rule_tree, rule_json-accepted, float_of_digits, are_digits,
  digits_value, render_json, each, small, large,
}
use eh_bot.Rules.Shape.{has_boolean, fits, word_fits}
use eh_bot.Rules.Evaluate.{Metadata, evaluate, value_error, stored}
use eh_bot.Rules.Evaluate.Total.{holds, report, outcome, evaluate-IsRunnable}
use eh_bot.Rules.Evaluate.Negation.{opposite, is_positive, is_settled, outcome-opposite}
use eh_bot.Rules.Accepted.{validate-evaluate, equals_boolean-raises}

abbrev metadata : Metadata
metadata =
    (codes "Pages", codes "24")
    ∷ (codes "Rating", codes "4")
    ∷ (codes "Tags", codes "glasses,Full Color")
    ∷ []

validate-evaluate_example :
    evaluate ascii rule_tree metadata false
    ≡ ok (holds ascii rule_tree metadata false, report ascii rule_tree metadata false)
validate-evaluate_example =
    validate-evaluate ascii ascii-ReadsFloats rule_json rule_tree metadata false
      (unfold has_boolean in refl) rule_json-accepted

evaluate-IsRunnable_example :
    evaluate ascii rule_tree metadata true
    ≡ ok (holds ascii rule_tree metadata true, report ascii rule_tree metadata true)
evaluate-IsRunnable_example = evaluate-IsRunnable ascii rule_tree metadata true (
    validate-IsRunnable ascii ascii-ReadsFloats rule_json rule_tree (unfold has_boolean in refl)
      rule_json-accepted)

outcome-opposite_example :
    outcome ascii (codes "Tags") (opposite like) (word (codes "%color")) metadata false ≡ (
      is_settled ascii (codes "Tags") like metadata
      && not (outcome ascii (codes "Tags") like (word (codes "%color")) metadata false))
unfolding is_positive field_role is_one_of role_allows is_existence is_membership is_comparison
    is_equality is_like fits word_fits
outcome-opposite_example =
    outcome-opposite ascii (codes "Tags") like (word (codes "%color")) metadata false refl refl refl

equals_boolean-raises_example :
    (n : Node ℕ) × (validate ascii (equals_boolean "Rating" true) ≡ ok n)
    × (evaluate ascii n metadata false ≡ err value_error)
unfolding ascii float_of_digits render_json each small large are_digits digits_value trim stored
    Dict.lookup
equals_boolean-raises_example =
    equals_boolean-raises ascii true 4 metadata false refl refl refl refl refl refl
