-- ===== src/Rules/Reading.antt =====
-- How validation reads the JSON of a rule (app/auto_approval/rules.py): keys, operators, and texts,
-- numbers and lists from values of any kind.
use eh_bot.Prelude.{
  Bool, true, false, not, ◌||◌, Option, none, some, List, [], ◌∷◌, if◌then◌else◌, Text, codes,
  list_eq,
}
use eh_bot.Prelude.Strings.{trim, words, join_words}
use eh_bot.Rules.{
  Json, null, boolean, number, str, arr, obj, Jsons, nil, cons, Members, end, member, Host,
  Operator, eq, ne, gt, ge, lt, le, like, not_like, in_list, not_in, exists, not_exists, unknown,
  Junction, all_of, any_of,
}

-- One constructor for each `raise RuleValidationError`.
pub data Refusal : Type 0 where
  not_an_object regex_removed bad_junction no_children bad_kind : Refusal
  bad_field bad_operator one_tag_wanted no_value_wanted values_wanted : Refusal
  not_a_number_list value_wanted not_a_number empty_value : Refusal

-- `value.get(key)`
unfoldable pub get : {Float : Type 0} → Text → Members Float → Option (Json Float)
get key end = none
get key (member k v rest) = if list_eq k key then some v else get key rest

-- `_SPACED_TO_TOKEN`, and the tokens themselves
unfoldable pub operator_of : Text → Operator
operator_of t =
    if list_eq t (codes "=")
    then eq
    else if list_eq t (codes "<>")
    then ne
    else if list_eq t (codes ">")
    then gt
    else if list_eq t (codes ">=")
    then ge
    else if list_eq t (codes "<")
    then lt
    else if list_eq t (codes "<=")
    then le
    else if list_eq t (codes "LIKE")
    then like
    else if list_eq t (codes "NOT LIKE") || list_eq t (codes "NOT_LIKE")
    then not_like
    else if list_eq t (codes "IN")
    then in_list
    else if list_eq t (codes "NOT IN") || list_eq t (codes "NOT_IN")
    then not_in
    else if list_eq t (codes "EXISTS")
    then exists
    else if list_eq t (codes "NOT EXISTS") || list_eq t (codes "NOT_EXISTS")
    then not_exists
    else unknown t

unfoldable pub junction_of : Text → Option Junction
junction_of t =
    if list_eq t (codes "AND")
    then some all_of
    else if list_eq t (codes "OR")
    then some any_of
    else none

unfoldable pub is_nil : List Text → Bool
is_nil [] = true
is_nil (t ∷ ts) = false

module _ {Float : Type 0} (host : Host Float) where
  -- `str(v)`
  abbrev pub to_text : Json Float → Text
  to_text (str t) = t
  to_text v = host.render v

  unfoldable pub truthy : Json Float → Bool
  truthy null = false
  truthy (boolean b) = b
  truthy (number x) = not (host.is_zero x)
  truthy (str t) = not (list_eq t [])
  truthy (arr nil) = false
  truthy (arr (cons v vs)) = true
  truthy (obj end) = false
  truthy (obj (member k v rest)) = true

  -- `str(v or "")`, of a value that may be missing
  unfoldable pub text_or_empty : Option (Json Float) → Text
  unfolding truthy
  text_or_empty none = []
  text_or_empty (some v) = if truthy v then to_text v else []

  -- `float(v)`; `none` is a `TypeError` or a `ValueError`
  unfoldable pub to_float : Json Float → Option Float
  to_float (number x) = some x
  to_float (boolean b) = some (host.float_of_bool b)
  to_float (str t) = host.float_of_text t
  to_float _ = none

  -- `normalize_operator`; the table of spaced spellings is `operator_of`'s
  unfoldable pub normalize_operator : Option (Json Float) → Text
  unfolding text_or_empty words join_words
  normalize_operator raw = host.upper (join_words (words (text_or_empty raw)))

  -- One item of `_clean_list`.
  unfoldable pub clean_item : Json Float → List Text → List Text
  unfolding trim
  clean_item null cleaned = cleaned
  clean_item v cleaned =
      if list_eq (trim (to_text v)) [] then cleaned else trim (to_text v) ∷ cleaned

  unfoldable pub clean_items : Jsons Float → List Text
  clean_items nil = []
  clean_items (cons v vs) = clean_item v (clean_items vs)

  -- `_clean_list`, of a value that may be missing
  unfoldable pub clean_list : Option (Json Float) → List Text
  unfolding clean_item clean_items
  clean_list none = []
  clean_list (some (arr vs)) = clean_items vs
  clean_list (some v) = clean_item v []

  unfoldable pub all_floats : List Text → Bool
  all_floats [] = true
  all_floats (t ∷ ts) = elim (host.float_of_text t) [ none ↦ false | some x ↦ all_floats ts ]
