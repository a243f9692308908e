-- ===== src/Rules/Evaluate.antt =====
-- `evaluate_rule` and its helpers in app/auto_approval/rules.py.
mod Leaves
pub mod Total
pub mod Negation
pub mod Raising
pub mod Samples
use eh_bot.Prelude.{
  ℕ, Bool, true, false, not, ◌&&◌, ◌||◌, Option, none, some, String, List, [], ◌∷◌, ◌++◌,
  if◌then◌else◌, ◌==◌, Text, codes, list_eq, text_Eq, Result, ok, err, ◌>>=◌,
}
use eh_bot.Prelude.Dict
use eh_bot.Prelude.Dict.{Dict}
use eh_bot.Prelude.Strings.{trim, split_at_any}
use eh_bot.Rules.Render.{render_condition}
use eh_bot.Like.{fold, like_matches}
use eh_bot.Rules.{
  Json, number, Host, Role, numeric, collection, text, Operator, eq, ne, gt, ge, lt, le, like,
  not_like, in_list, not_in, exists, not_exists, unknown, Junction, all_of, any_of, Operand, absent,
  word, amount, choices, Node, Nodes, group, condition, no_nodes, node, field_role, is_existence,
}

-- `unknown_operator` is the `RuleValidationError` of the source, `value_error` a `ValueError` that it
-- does not catch. `bad_operand` is an operand of a shape that validation never gives the operator.
pub data Failure : Type 0 where
  unknown_operator value_error bad_operand : Failure

-- The stored metadata of one candidate.
abbrev pub Metadata : Type 0
Metadata = Dict Text Text

-- `metadata.get(field, "")`
abbrev or_empty : Option Text → Text
or_empty none = []
or_empty (some t) = t

unfoldable pub stored : Metadata → Text → Text
stored metadata field = or_empty (Dict.lookup field metadata)

-- One entry of the evaluation's report.
pub record Condition : Type 0 where
  pub dsl : Text
  pub field : Text
  pub operator : Operator
  pub matched : Bool

pub is_member : Text → List Text → Bool
is_member t [] = false
is_member t (u ∷ us) = list_eq t u || is_member t us

pub is_known : Operator → Bool
is_known (unknown t) = false
is_known _ = true

-- `all(outcomes)` or `any(outcomes)`
pub joined : Junction → List Bool → Bool
joined all_of [] = true
joined all_of (b ∷ bs) = b && joined all_of bs
joined any_of [] = false
joined any_of (b ∷ bs) = b || joined any_of bs

module _ {Float : Type 0} (host : Host Float) where
  clean_tags : Bool → List Text → List Text
  unfolding trim fold
  clean_tags case_sensitive [] = []
  clean_tags case_sensitive (t ∷ ts) =
      let rest = clean_tags case_sensitive ts in
      if list_eq (trim t) [] then rest else fold host.casefold case_sensitive (trim t) ∷ rest

  -- `_tags`: the set as a list, of which only membership is asked
  pub tags : Metadata → Bool → List Text
  unfolding clean_tags split_at_any stored
  tags metadata case_sensitive = clean_tags case_sensitive (
      split_at_any (λ c. c == b',' || c == 10) (stored metadata (codes "TagsRaw"))
      ++ split_at_any (λ c. c == b',' || c == 10) (stored metadata (codes "Tags")))

  any_member : Bool → List Text → List Text → Bool
  unfolding is_member fold
  any_member case_sensitive [] present = false
  any_member case_sensitive (t ∷ ts) present =
      is_member (fold host.casefold case_sensitive t) present
      || any_member case_sensitive ts present

  any_like : Bool → Text → List Text → Bool
  any_like case_sensitive pattern_text [] = false
  any_like case_sensitive pattern_text (t ∷ ts) =
      like_matches host.casefold pattern_text t case_sensitive
      || any_like case_sensitive pattern_text ts

  -- `_evaluate_collection`
  pub evaluate_collection : Operator → Operand Float → List Text → Bool → Result Failure Bool
  unfolding is_member any_member any_like fold
  evaluate_collection exists (word t) present cs = ok (is_member (fold host.casefold cs t) present)
  evaluate_collection not_exists (word t) present cs =
      ok (not (is_member (fold host.casefold cs t) present))
  evaluate_collection in_list (choices ts) present cs = ok (any_member cs ts present)
  evaluate_collection not_in (choices ts) present cs = ok (not (any_member cs ts present))
  evaluate_collection like (word t) present cs = ok (any_like cs t present)
  evaluate_collection not_like (word t) present cs = ok (not (any_like cs t present))
  evaluate_collection _ _ present cs = err bad_operand

  or_value_error : Option Float → Result Failure Float
  or_value_error none = err value_error
  or_value_error (some x) = ok x

  -- `float(expected)`
  expected : Operand Float → Result Failure Float
  unfolding or_value_error
  expected (word t) = or_value_error (host.float_of_text t)
  expected (amount x) = ok x
  expected _ = err bad_operand

  -- `actual_number in {float(item) for item in expected}`; every item is converted
  float_member : Float → List Text → Result Failure Bool
  unfolding or_value_error
  float_member x [] = ok false
  float_member x (t ∷ ts) = do
    y ← or_value_error (host.float_of_text t)
    found ← float_member x ts
    ok (host.float_eq x y || found)

  compare_numbers : Operator → Operand Float → Float → Result Failure Bool
  unfolding expected float_member
  compare_numbers in_list (choices ts) x = float_member x ts
  compare_numbers not_in (choices ts) x = do found ← float_member x ts; ok (not found)
  compare_numbers eq operand x = do y ← expected operand; ok (host.float_eq x y)
  compare_numbers ne operand x = do y ← expected operand; ok (not (host.float_eq x y))
  compare_numbers gt operand x = do y ← expected operand; ok (host.float_lt y x)
  compare_numbers ge operand x = do y ← expected operand; ok (host.float_le y x)
  compare_numbers lt operand x = do y ← expected operand; ok (host.float_lt x y)
  compare_numbers le operand x = do y ← expected operand; ok (host.float_le x y)
  compare_numbers _ operand x = err bad_operand

  -- `_evaluate_numeric`: an actual value that is no number matches nothing
  pub evaluate_numeric : Operator → Operand Float → Text → Result Failure Bool
  unfolding compare_numbers
  evaluate_numeric op operand actual = elim (host.float_of_text actual) [
    | none ↦ ok false
    | some x ↦ compare_numbers op operand x
  ]

  folded : Bool → List Text → List Text
  unfolding fold
  folded cs [] = []
  folded cs (t ∷ ts) = fold host.casefold cs t ∷ folded cs ts

  -- `_evaluate_text`
  pub evaluate_text : Operator → Operand Float → Text → Bool → Result Failure Bool
  unfolding fold is_member folded
  evaluate_text like (word t) actual cs = ok (like_matches host.casefold t actual cs)
  evaluate_text not_like (word t) actual cs = ok (not (like_matches host.casefold t actual cs))
  evaluate_text in_list (choices ts) actual cs =
      ok (is_member (fold host.casefold cs actual) (folded cs ts))
  evaluate_text not_in (choices ts) actual cs =
      ok (not (is_member (fold host.casefold cs actual) (folded cs ts)))
  evaluate_text eq (word t) actual cs =
      ok (list_eq (fold host.casefold cs actual) (fold host.casefold cs t))
  evaluate_text ne (word t) actual cs =
      ok (not (list_eq (fold host.casefold cs actual) (fold host.casefold cs t)))
  evaluate_text _ _ actual cs = err bad_operand

  -- the tests of a field that is no collection, once its value is known
  pub evaluate_stored : Role → Operator → Operand Float → Text → Bool → Result Failure Bool
  unfolding evaluate_numeric evaluate_text
  evaluate_stored role exists operand actual cs = ok (not (list_eq actual []))
  evaluate_stored role not_exists operand actual cs = ok (list_eq actual [])
  evaluate_stored numeric op operand actual cs =
      if list_eq actual [] then ok false else evaluate_numeric op operand actual
  evaluate_stored _ op operand actual cs =
      if list_eq actual [] then ok false else evaluate_text op operand actual cs

  -- `_evaluate_condition`
  pub evaluate_condition : Text → Operator → Operand Float → Metadata → Bool → Result Failure Bool
  unfolding evaluate_collection evaluate_stored tags stored trim
  evaluate_condition field op operand metadata cs = elim (field_role field) [
    | collection ↦ evaluate_collection op operand (tags metadata cs) cs
    | numeric ↦ evaluate_stored numeric op operand (trim (stored metadata field)) cs
    | text ↦ evaluate_stored text op operand (trim (stored metadata field)) cs
  ]

  evaluate_leaf :
      Text → Operator → Operand Float → Metadata → Bool → Result Failure (Bool × List Condition)
  unfolding is_known evaluate_condition render_condition
  evaluate_leaf field op operand metadata cs =
      if is_known op
      then (do
        matched ← evaluate_condition field op operand metadata cs
        ok (
          matched,
          record {
            dsl = render_condition host field op operand;
            field = field;
            operator = op;
            matched = matched;
          }
              ∷ [],
        ))
      else err unknown_operator

  -- `evaluate_rule`: whether the rule matched, and the conditions in the order of their evaluation.
  -- Every child of a group is evaluated.
  mutual
    unfolding evaluate_leaf joined

    pub evaluate : Node Float → Metadata → Bool → Result Failure (Bool × List Condition)
    evaluate (condition field op operand) metadata cs = evaluate_leaf field op operand metadata cs
    evaluate (group j ns) metadata cs = do
      (outcomes, conditions) ← evaluate_all ns metadata cs
      ok (joined j outcomes, conditions)

    pub evaluate_all : Nodes Float → Metadata → Bool → Result Failure (List Bool × List Condition)
    evaluate_all no_nodes metadata cs = ok ([], [])
    evaluate_all (node n ns) metadata cs = do
      (b, here) ← evaluate n metadata cs
      (bs, rest) ← evaluate_all ns metadata cs
      ok (b ∷ bs, here ++ rest)
