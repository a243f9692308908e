-- ===== src/Rules/Evaluate/Total.antt =====
-- A rule of the right shape is evaluated without an exception, to the meaning of its tree.
use eh_bot.Prelude.{
  ◌≡◌, refl, Bool, true, false, ◌&&◌, ◌||◌, List, [], ◌∷◌, ◌++◌, arith, Text, ok, err, is_ok,
}
use eh_bot.Rules.{
  Host, Role, Operator, all_of, any_of, Operand, Node, Nodes, group, condition, no_nodes, node,
  field_role, role_allows, is_existence, is_membership, is_comparison, is_like, is_equality,
}
use eh_bot.Rules.Render.{render_condition}
use eh_bot.Rules.Shape.{fits, IsRunnable, AllRunnable}
use eh_bot.Rules.Evaluate.{
  Metadata, Condition, is_known, joined, evaluate_condition, evaluate_leaf, evaluate, evaluate_all,
}
use eh_bot.Rules.Evaluate.Leaves.{evaluate_condition-is_ok}

module _ {Float : Type 0} (host : Host Float) where
  -- `evaluate_condition` of a fitting condition.
  unfoldable pub outcome : Text → Operator → Operand Float → Metadata → Bool → Bool
  unfolding evaluate_condition
  outcome field op operand metadata cs =
      elim (evaluate_condition host field op operand metadata cs) [ ok b ↦ b | err e ↦ false ]

  evaluate_condition-outcome :
      (field : Text) (op : Operator) (operand : Operand Float) (metadata : Metadata) (cs : Bool)
      → is_ok (evaluate_condition host field op operand metadata cs) ≡ true
      → evaluate_condition host field op operand metadata cs
        ≡ ok (outcome field op operand metadata cs)
  unfolding outcome
  evaluate_condition-outcome field op operand metadata cs h = ground arith

  -- What a tree means: a condition its outcome, `AND` and `OR` the connectives.
  mutual
    unfolding outcome

    pub holds : Node Float → Metadata → Bool → Bool
    holds (condition field op operand) metadata cs = outcome field op operand metadata cs
    holds (group all_of ns) metadata cs = all_hold ns metadata cs
    holds (group any_of ns) metadata cs = some_holds ns metadata cs

    all_hold : Nodes Float → Metadata → Bool → Bool
    all_hold no_nodes metadata cs = true
    all_hold (node n ns) metadata cs = holds n metadata cs && all_hold ns metadata cs

    some_holds : Nodes Float → Metadata → Bool → Bool
    some_holds no_nodes metadata cs = false
    some_holds (node n ns) metadata cs = holds n metadata cs || some_holds ns metadata cs

  -- One entry for each condition, from left to right.
  mutual
    unfolding outcome

    pub report : Node Float → Metadata → Bool → List Condition
    report (condition field op operand) metadata cs =
        record {
          dsl = render_condition host field op operand;
          field = field;
          operator = op;
          matched = outcome field op operand metadata cs;
        }
        ∷ []
    report (group j ns) metadata cs = report_all ns metadata cs

    report_all : Nodes Float → Metadata → Bool → List Condition
    report_all no_nodes metadata cs = []
    report_all (node n ns) metadata cs = report n metadata cs ++ report_all ns metadata cs

  outcomes : Nodes Float → Metadata → Bool → List Bool
  outcomes no_nodes metadata cs = []
  outcomes (node n ns) metadata cs = holds n metadata cs ∷ outcomes ns metadata cs

  joined-all_hold :
      (ns : Nodes Float) (metadata : Metadata) (cs : Bool)
      → joined all_of (outcomes ns metadata cs) ≡ all_hold ns metadata cs
  unfolding joined outcomes holds
  joined-all_hold no_nodes metadata cs = refl
  joined-all_hold (node n ns) metadata cs = ground (arith, joined-all_hold ns metadata cs)

  joined-some_holds :
      (ns : Nodes Float) (metadata : Metadata) (cs : Bool)
      → joined any_of (outcomes ns metadata cs) ≡ some_holds ns metadata cs
  unfolding joined outcomes holds
  joined-some_holds no_nodes metadata cs = refl
  joined-some_holds (node n ns) metadata cs = ground (arith, joined-some_holds ns metadata cs)

  is_known-role_allows :
      (role : Role) (op : Operator) → role_allows role op ≡ true → is_known op ≡ true
  unfolding role_allows is_known is_existence is_membership is_like is_equality is_comparison
  is_known-role_allows role op h = ground arith

  evaluate_leaf-fits :
      (field : Text) (op : Operator) (operand : Operand Float) (metadata : Metadata) (cs : Bool)
      → role_allows (field_role field) op ≡ true
      → fits host (field_role field) op operand ≡ true
      → evaluate_leaf host field op operand metadata cs
        ≡ ok (
          holds (condition field op operand) metadata cs,
          report (condition field op operand) metadata cs,
        )
  unfolding evaluate_leaf holds report
  evaluate_leaf-fits field op operand metadata cs ha h =
      rw
        (
          is_known-role_allows (field_role field) op ha,
          evaluate_condition-outcome field op operand metadata cs
              (evaluate_condition-is_ok host field op operand metadata cs ha h),
        )
        refl

  mutual
    unfolding evaluate holds report outcomes IsRunnable

    evaluate-holds :
        (n : Node Float) (metadata : Metadata) (cs : Bool)
        → IsRunnable host n
        → evaluate host n metadata cs ≡ ok (holds n metadata cs, report n metadata cs)
    evaluate-holds (condition field op operand) metadata cs h =
        evaluate_leaf-fits field op operand metadata cs h.1 h.2
    evaluate-holds (group all_of ns) metadata cs h =
        rw (evaluate_all-holds ns metadata cs h.1, joined-all_hold ns metadata cs) refl
    evaluate-holds (group any_of ns) metadata cs h =
        rw (evaluate_all-holds ns metadata cs h.1, joined-some_holds ns metadata cs) refl

    evaluate_all-holds :
        (ns : Nodes Float) (metadata : Metadata) (cs : Bool)
        → AllRunnable host ns
        → evaluate_all host ns metadata cs ≡ ok (outcomes ns metadata cs, report_all ns metadata cs)
    evaluate_all-holds no_nodes metadata cs h = refl
    evaluate_all-holds (node n ns) metadata cs h =
        rw (evaluate-holds n metadata cs h.0, evaluate_all-holds ns metadata cs h.1) refl

-- A rule of the right shape is evaluated without an exception, whatever the metadata: it matches
-- as the connectives of its tree say of the outcomes of its conditions, and the report has one
-- entry for each condition, from left to right, those included that could not change the result.
pub evaluate-IsRunnable :
    {Float : Type 0} (host : Host Float) (n : Node Float) (metadata : Metadata)
    (case_sensitive : Bool)
    → IsRunnable host n
    → evaluate host n metadata case_sensitive
      ≡ ok (holds host n metadata case_sensitive, report host n metadata case_sensitive)
evaluate-IsRunnable host n metadata case_sensitive h =
    evaluate-holds host n metadata case_sensitive h
