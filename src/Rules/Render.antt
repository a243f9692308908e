-- ===== src/Rules/Render.antt =====
-- `render_rule_dsl` of app/auto_approval/rules.py.
use eh_bot.Prelude.{List, [], ◌∷◌, ◌++◌, if◌then◌else◌, Text, codes, list_eq}
use eh_bot.Rules.{
  number, Host, Operator, eq, ne, gt, ge, lt, le, like, not_like, in_list, not_in, exists,
  not_exists, unknown, Junction, all_of, any_of, Operand, absent, word, amount, choices, Node,
  Nodes, group, condition, no_nodes, node, is_existence,
}

pub operator_text : Operator → Text
operator_text eq = codes "="
operator_text ne = codes "<>"
operator_text gt = codes ">"
operator_text ge = codes ">="
operator_text lt = codes "<"
operator_text le = codes "<="
operator_text like = codes "LIKE"
operator_text not_like = codes "NOT LIKE"
operator_text in_list = codes "IN"
operator_text not_in = codes "NOT IN"
operator_text exists = codes "EXISTS"
operator_text not_exists = codes "NOT EXISTS"
operator_text (unknown t) = t

junction_text : Junction → Text
junction_text all_of = codes " AND "
junction_text any_of = codes " OR "

module _ {Float : Type 0} (host : Host Float) where
  join_dumped : List Text → Text
  join_dumped [] = []
  join_dumped (t ∷ []) = host.dumps t
  join_dumped (t ∷ u ∷ ts) = host.dumps t ++ codes ", " ++ join_dumped (u ∷ ts)

  operand_text : Operand Float → Text
  unfolding join_dumped
  operand_text absent = codes "None"
  operand_text (word t) = host.dumps t
  operand_text (amount x) = host.render (number x)
  operand_text (choices ts) = b'(' ∷ (join_dumped ts ++ b')' ∷ [])

  -- `render_rule_dsl` of a condition
  unfoldable pub render_condition : Text → Operator → Operand Float → Text
  unfolding operator_text operand_text
  render_condition field op operand =
      let head = b'{' ∷ (field ++ b'}' ∷ 32 ∷ operator_text op) in
      if is_existence op
      then (if list_eq field (codes "TAG")
          then head ++ b'(' ∷ (operand_text operand ++ b')' ∷ [])
          else head)
      else head ++ 32 ∷ operand_text operand

  mutual
    unfolding render_condition junction_text

    pub render_rule : Node Float → Text
    render_rule (condition field op operand) = render_condition field op operand
    render_rule (group j ns) = b'(' ∷ (render_joined j ns ++ b')' ∷ [])

    render_joined : Junction → Nodes Float → Text
    render_joined j no_nodes = []
    render_joined j (node n ns) = render_rule n ++ render_rest j ns

    render_rest : Junction → Nodes Float → Text
    render_rest j no_nodes = []
    render_rest j (node n ns) = junction_text j ++ render_rule n ++ render_rest j ns
