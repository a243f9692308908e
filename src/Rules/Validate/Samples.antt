-- ===== src/Rules/Validate/Samples.antt =====
-- A host with natural numbers for floats, and a rule that is accepted on it.
use eh_bot.Prelude.{
  ℕ, ◌+◌, ◌*◌, ◌-◌, ◌≡◌, refl, Bool, true, false, ◌&&◌, Option, none, some, String, [], ◌∷◌,
  if◌then◌else◌, arith, leb, ltb, ◌==◌, Text, codes, All, ok,
}
use eh_bot.Prelude.Decimal.{decimal, decimal-IsDigit, decimal-Leads, Leads, IsDigit}
use eh_bot.Prelude.Strings.{trim, is_white, trim-black, words, join_words}
use eh_bot.Rules.{
  Json, boolean, number, str, arr, obj, nil, cons, end, member, Host, eq, gt, not_in, word, amount,
  choices, Node, group, condition, no_nodes, node, all_of,
}
use eh_bot.Rules.Shape.{has_boolean, is_some, ReadsFloats, IsRunnable}
use eh_bot.Rules.Reading.{
  junction_of, get, truthy, text_or_empty, normalize_operator, operator_of, to_float, clean_list,
  clean_items, clean_item, all_floats, is_nil,
}
use eh_bot.Rules.Validate.{
  validate, validate_object, validate_group, as_group, validate_condition, condition_value,
  compare_value, plain_value, amount_of, word_value, compared, text_value, list_value,
}
use eh_bot.Rules.Validate.Sound.{validate-IsRunnable}
use eh_bot.Rules.{
  is_allowed_field, field_role, is_one_of, role_allows, is_existence, is_membership, is_comparison,
  is_equality, is_like,
}

unfoldable pub are_digits : Text → Bool
are_digits [] = true
are_digits (c ∷ s) = leb b'0' c && leb c b'9' && are_digits s

unfoldable pub digits_value : ℕ → Text → ℕ
digits_value n [] = n
digits_value n (c ∷ s) = digits_value (n * 10 + (c - b'0')) s

-- A float is written with digits alone.
unfoldable pub float_of_digits : Text → Option ℕ
unfolding are_digits digits_value
float_of_digits [] = none
float_of_digits (c ∷ s) = if are_digits (c ∷ s) then some (digits_value 0 (c ∷ s)) else none

unfoldable pub render_json : Json ℕ → Text
unfolding decimal
render_json (boolean true) = codes "True"
render_json (boolean false) = codes "False"
render_json (number n) = decimal n
render_json v = codes "None"

unfoldable pub small : ℕ → ℕ
small c = if leb 65 c && leb c 90 then c + 32 else c

unfoldable pub large : ℕ → ℕ
large c = if leb 97 c && leb c 122 then c - 32 else c

unfoldable pub each : (ℕ → ℕ) → Text → Text
each f [] = []
each f (c ∷ s) = f c ∷ each f s

unfoldable pub ascii : Host ℕ
unfolding float_of_digits render_json small large each
ascii = record {
  float_of_text = float_of_digits;
  float_of_bool = λ b. if b then 1 else 0;
  is_zero = λ n. n == 0;
  float_eq = λ m n. m == n;
  float_lt = ltb;
  float_le = leb;
  render = render_json;
  upper = each large;
  lower = each small;
  casefold = each small;
  dumps = λ t. b'"' ∷ t;
}

are_digits-black : (s : Text) → are_digits s ≡ true → All (λ c. is_white c ≡ false) s
unfolding are_digits is_white
are_digits-black [] h = tt
are_digits-black (c ∷ s) h = (ground arith, are_digits-black s (ground arith))

IsDigit-are_digits : (s : Text) → All IsDigit s → are_digits s ≡ true
unfolding are_digits
IsDigit-are_digits [] h = refl
IsDigit-are_digits (c ∷ s) h = ground (arith, IsDigit-are_digits s h.1)

float_of_digits-are_digits : (s : Text) → is_some (float_of_digits s) ≡ true → are_digits s ≡ true
unfolding float_of_digits is_some
float_of_digits-are_digits [] h = cc
float_of_digits-are_digits (c ∷ s) h = ground arith

float_of_trimmed :
    (s : Text) → is_some (float_of_digits s) ≡ true → is_some (float_of_digits (trim s)) ≡ true
float_of_trimmed s h = rw (trim-black s (are_digits-black s (float_of_digits-are_digits s h))) h

float_of_decimal :
    (n : ℕ) (s : Text) → Leads n s → All IsDigit s → is_some (float_of_digits (trim s)) ≡ true
unfolding float_of_digits is_some
float_of_decimal n [] l h = absurd l
float_of_decimal n (c ∷ s) l h =
    rw
      (
        trim-black (c ∷ s) (are_digits-black (c ∷ s) (IsDigit-are_digits (c ∷ s) h)),
        IsDigit-are_digits (c ∷ s) h,
      )
      refl

pub ascii-ReadsFloats : ReadsFloats ascii
unfolding render_json ascii float_of_digits
ascii-ReadsFloats = record {
  of_trimmed = float_of_trimmed;
  of_rendered = λ n. float_of_decimal n (decimal n) (decimal-Leads n) (decimal-IsDigit n);
}

abbrev leaf_json : String → String → Json ℕ → Json ℕ
leaf_json f op v = obj (
    member (codes "kind") (str (codes "condition")) (
      member (codes "field") (str (codes f))
        (member (codes "operator") (str (codes op)) (member (codes "value") v end))))

-- Pages > 19 and (a tag or a rating)
abbrev pub rule_json : Json ℕ
rule_json = obj (
    member (codes "kind") (str (codes "group")) (
      member (codes "operator") (str (codes "and")) (
        member (codes "children")
          (arr (
            cons (leaf_json "Pages" ">" (number 19)) (
              cons (leaf_json "TAG" "not  in" (arr (cons (str (codes " full color ")) nil)))
                (cons (leaf_json "Rating" "=" (str (codes "4"))) nil))))
          end)))

abbrev pub rule_tree : Node ℕ
rule_tree = group all_of (
    node (condition (codes "Pages") gt (amount 19)) (
      node (condition (codes "TAG") not_in (choices (codes "full color" ∷ [])))
        (node (condition (codes "Rating") eq (word (codes "4"))) no_nodes)))

pub rule_json-accepted : validate ascii rule_json ≡ ok rule_tree
unfolding ascii render_json float_of_digits are_digits digits_value large small each validate
    validate_object validate_group as_group junction_of validate_condition get truthy text_or_empty
    normalize_operator words join_words operator_of condition_value compare_value plain_value
    amount_of word_value compared text_value to_float list_value clean_list clean_items clean_item
    all_floats trim is_nil is_allowed_field field_role is_one_of role_allows is_existence
    is_membership is_comparison is_equality is_like
rule_json-accepted = refl

validate-IsRunnable_example : IsRunnable ascii rule_tree
validate-IsRunnable_example =
    validate-IsRunnable ascii ascii-ReadsFloats rule_json rule_tree (unfold has_boolean in refl)
      rule_json-accepted
