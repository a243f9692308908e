-- ===== src/Rules/Accepted.antt =====
-- From the request to the evaluation: what an accepted rule does (`validate_rule_ast`, whose result
-- `matching_rule_in_transaction` of app/auto_approval/service.py hands to `evaluate_rule`).
use eh_bot.Prelude.{◌≡◌, refl, Bool, false, none, some, [], codes, list_eq, ok, err}
use eh_bot.Prelude.Strings.{trim}
use eh_bot.Rules.{Json, boolean, Host, word, eq, Node, condition, field_role, is_one_of}
use eh_bot.Rules.Validate.{validate}
use eh_bot.Rules.Validate.Sound.{validate-IsRunnable}
use eh_bot.Rules.Validate.Loose.{equals_boolean, validate-equals_boolean}
use eh_bot.Rules.Evaluate.Raising.{evaluate-raises}
use eh_bot.Rules.Shape.{has_boolean, ReadsFloats}
use eh_bot.Rules.Evaluate.{Metadata, stored, value_error, evaluate}
use eh_bot.Rules.Evaluate.Total.{holds, report, evaluate-IsRunnable}

-- Where `float` ignores the blanks around a text and reads what `str` writes for a number: a JSON
-- value without Booleans that passes validation is evaluated without an exception on whatever
-- metadata. It matches as the connectives of its tree say of the outcomes of its conditions, and it
-- reports every condition.
pub validate-evaluate :
    {Float : Type 0} (host : Host Float)
    → ReadsFloats host
    → (j : Json Float) (n : Node Float) (metadata : Metadata) (case_sensitive : Bool)
    → has_boolean j ≡ false
    → validate host j ≡ ok n
    → evaluate host n metadata case_sensitive
      ≡ ok (holds host n metadata case_sensitive, report host n metadata case_sensitive)
validate-evaluate host reads j n metadata case_sensitive h e =
    evaluate-IsRunnable host n metadata case_sensitive (validate-IsRunnable host reads j n h e)

-- A Boolean under `=` on the rating is accepted as the text that `str` makes of it, if that is not
-- blank and the case mappings leave `condition` and `=` as they are. Where `float`
-- does not read that text, the evaluation raises a `ValueError` on every
-- candidate whose rating is a number.
pub equals_boolean-raises :
    {Float : Type 0} (host : Host Float) (b : Bool) (x : Float) (metadata : Metadata)
    (case_sensitive : Bool)
    → host.lower (codes "condition") ≡ codes "condition"
    → host.upper (codes "=") ≡ codes "="
    → list_eq (trim (host.render (boolean b))) [] ≡ false
    → host.float_of_text (trim (host.render (boolean b))) ≡ none
    → list_eq (trim (stored metadata (codes "Rating"))) [] ≡ false
    → host.float_of_text (trim (stored metadata (codes "Rating"))) ≡ some x
    → (n : Node Float) × (validate host (equals_boolean "Rating" b) ≡ ok n)
      × (evaluate host n metadata case_sensitive ≡ err value_error)
unfolding field_role is_one_of
equals_boolean-raises host b x metadata case_sensitive hl hu ht hf hn ha = (
  condition (codes "Rating") eq (word (trim (host.render (boolean b)))),
  validate-equals_boolean host b hl hu ht,
  evaluate-raises host (codes "Rating") (trim (host.render (boolean b))) x metadata case_sensitive
      refl hf hn ha,
)
