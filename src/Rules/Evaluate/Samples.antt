-- ===== src/Rules/Evaluate/Samples.antt =====
-- A rule and metadata on which it is evaluated.
use eh_bot.Prelude.{ℕ, ◌≡◌, refl, true, false, [], ◌∷◌, codes, ok, err}
use eh_bot.Prelude.Dict
use eh_bot.Prelude.Strings.{trim}
use eh_bot.Rules.{
  Node, condition, gt, eq, amount, word, field_role, is_one_of, is_allowed_field, role_allows,
  is_existence, is_membership, is_comparison, is_equality,
}
use eh_bot.Rules.Shape.{IsRunnable, fits, amount_fits}
use eh_bot.Rules.Validate.Samples.{ascii, float_of_digits, are_digits, digits_value}
use eh_bot.Rules.Evaluate.{
  Metadata, Condition, evaluate, evaluate_leaf, evaluate_condition, evaluate_stored,
  evaluate_numeric, compare_numbers, expected, or_value_error, is_known, stored, value_error,
}
use eh_bot.Rules.Render.{render_condition}

abbrev pub long_work : Node ℕ
long_work = condition (codes "Pages") gt (amount 19)

-- A Boolean that was stored as text.
abbrev pub broken_rating : Node ℕ
broken_rating = condition (codes "Rating") eq (word (codes "True"))

abbrev pub pages_24 : Metadata
pages_24 = (codes "Pages", codes "24") ∷ (codes "Rating", codes "4") ∷ []

abbrev pub long_work_condition : Condition
long_work_condition = record {
  dsl = render_condition ascii (codes "Pages") gt (amount 19);
  field = codes "Pages";
  operator = gt;
  matched = true;
}

pub long_work-matches :
    evaluate ascii long_work pages_24 false ≡ ok (true, long_work_condition ∷ [])
unfolding evaluate evaluate_leaf evaluate_condition evaluate_stored evaluate_numeric compare_numbers
    expected is_known stored Dict.lookup field_role is_one_of trim ascii float_of_digits are_digits
    digits_value
long_work-matches = refl

pub broken_rating-raises : evaluate ascii broken_rating pages_24 false ≡ err value_error
unfolding evaluate evaluate_leaf evaluate_condition evaluate_stored evaluate_numeric compare_numbers
    expected or_value_error is_known stored Dict.lookup field_role is_one_of trim ascii
    float_of_digits are_digits digits_value
broken_rating-raises = refl

pub long_work-IsRunnable : IsRunnable ascii long_work
unfolding IsRunnable fits amount_fits field_role is_one_of is_allowed_field role_allows is_existence
    is_membership is_comparison is_equality
long_work-IsRunnable = (refl, refl, refl)
