-- ===== src/Rules/Evaluate/Raising.antt =====
-- An accepted rule whose evaluation raises: a Boolean where a number is wanted.
use eh_bot.Prelude.{◌≡◌, refl, Bool, false, none, some, [], Text, list_eq, err}
use eh_bot.Prelude.Strings.{trim}
use eh_bot.Rules.{Host, word, eq, condition, numeric, field_role}
use eh_bot.Rules.Evaluate.{
  Metadata, stored, value_error, is_known, or_value_error, expected, compare_numbers,
  evaluate_numeric, evaluate_stored, evaluate_condition, evaluate_leaf, evaluate,
}

module _ {Float : Type 0} (host : Host Float) where
  evaluate_numeric-raises :
      (t actual : Text) (x : Float)
      → host.float_of_text t ≡ none
      → host.float_of_text actual ≡ some x
      → evaluate_numeric host eq (word t) actual ≡ err value_error
  unfolding evaluate_numeric compare_numbers expected or_value_error
  evaluate_numeric-raises t actual x ht ha = rw (evaluate_numeric, ha, expected, ht) refl

  pub evaluate-raises :
      (field t : Text) (x : Float) (metadata : Metadata) (cs : Bool)
      → field_role field ≡ numeric
      → host.float_of_text t ≡ none
      → list_eq (trim (stored metadata field)) [] ≡ false
      → host.float_of_text (trim (stored metadata field)) ≡ some x
      → evaluate host (condition field eq (word t)) metadata cs ≡ err value_error
  unfolding evaluate evaluate_leaf is_known evaluate_condition evaluate_stored
  evaluate-raises field t x metadata cs hf ht hn ha =
      rw
        (
          evaluate_condition,
          hf,
          evaluate_stored,
          hn,
          evaluate_numeric-raises t (trim (stored metadata field)) x ht ha,
        )
        refl
