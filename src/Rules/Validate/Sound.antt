-- ===== src/Rules/Validate/Sound.antt =====
-- Validation gives a rule that can be evaluated, and nothing else.
use eh_bot.Prelude.{
  ◌≡◌, refl, Bool, true, false, not, Option, none, some, if◌then◌else◌, arith, Text, codes, list_eq,
  Result, ok, Bool-cases, inl, inr, IfOk, returned, raised, IfOk-ok, IfOk-if, IfOk-refuse_if,
  IfOk-bind,
}
use eh_bot.Rules.{
  Json, null, boolean, number, str, arr, obj, Jsons, nil, cons, Members, end, member, Host,
  Junction, Node, Nodes, is_allowed_field, field_role, role_allows,
}
use eh_bot.Rules.Reading.{
  Refusal, bad_field, bad_operator, get, operator_of, normalize_operator, text_or_empty,
  junction_of,
}
use eh_bot.Rules.Validate.{
  as_group, validate_condition, validate_group, validate_object, validate, validate_children,
  as_children, validate_all,
}
use eh_bot.Rules.Shape.{
  has_boolean, any_boolean, member_boolean, ReadsFloats, IsRunnable, AllRunnable, has_children,
}
use eh_bot.Rules.Validate.Operands.{condition_value-fits}

module _ {Float : Type 0} (host : Host Float) (reads : ReadsFloats host) where
  get-has_boolean :
      (key : Text) (ms : Members Float)
      → member_boolean ms ≡ false
      → (v : Json Float) → get key ms ≡ some v
      → has_boolean v ≡ false
  unfolding get has_boolean
  get-has_boolean key end h v e = cc
  get-has_boolean key (member k u ms) h v e = elim (Bool-cases (list_eq k key)) [
    | inl m ↦ ground arith
    | inr m ↦ get-has_boolean key ms (ground arith) v (ground arith)
  ]

  validate_condition-IsRunnable :
      (ms : Members Float)
      → member_boolean ms ≡ false
      → IfOk (IsRunnable host) (validate_condition host ms)
  unfolding validate_condition IsRunnable
  validate_condition-IsRunnable ms h =
      IfOk-refuse_if (not (is_allowed_field (text_or_empty host (get (codes "field") ms))))
        bad_field
        λ allowed.
          IfOk-refuse_if
            (not (
              role_allows (field_role (text_or_empty host (get (codes "field") ms)))
                (operator_of (normalize_operator host (get (codes "operator") ms)))))
            bad_operator
            λ fitting.
              IfOk-bind
                (condition_value-fits host reads
                  (operator_of (normalize_operator host (get (codes "operator") ms)))
                  (field_role (text_or_empty host (get (codes "field") ms)))
                  (get (codes "value") ms) (get-has_boolean (codes "value") ms h))
                λ operand fit. returned (ground arith, ground arith, fit)

  -- What the members' values become is runnable, if they become anything.
  Good : Option (Result Refusal (Nodes Float)) → Type 0
  Good none = Unit
  Good (some r) = IfOk (λ ns. (has_children ns ≡ true) × AllRunnable host ns) r

  Good-if :
      (b : Bool) (x y : Option (Result Refusal (Nodes Float)))
      → Good x
      → Good y
      → Good (if b then x else y)
  Good-if true x y hx hy = hx
  Good-if false x y hx hy = hy

  as_group-IsRunnable :
      (j : Option Junction) (children : Option (Result Refusal (Nodes Float)))
      → Good children
      → IfOk (IsRunnable host) (as_group host j children)
  unfolding as_group Good IsRunnable
  as_group-IsRunnable none children h = raised
  as_group-IsRunnable (some j) none h = raised
  as_group-IsRunnable (some j) (some r) h = IfOk-bind h λ ns g. returned g

  validate_object-IsRunnable :
      (ms : Members Float) (children : Option (Result Refusal (Nodes Float)))
      → member_boolean ms ≡ false
      → Good children
      → IfOk (IsRunnable host) (validate_object host ms children)
  unfolding validate_object validate_group
  validate_object-IsRunnable ms children h g =
      let kind = host.lower (text_or_empty host (get (codes "kind") ms)) in
      IfOk-if (list_eq kind (codes "regex")) (λ _. raised)
        λ _.
          IfOk-if (list_eq kind (codes "group"))
            (λ _.
              as_group-IsRunnable
                (junction_of (normalize_operator host (get (codes "operator") ms))) children g)
            λ _.
              IfOk-if (list_eq kind (codes "condition")) (λ _. validate_condition-IsRunnable ms h)
                (λ _. raised)

  mutual
    unfolding validate has_boolean Good IsRunnable has_children

    validate-IfOk :
        (j : Json Float) → has_boolean j ≡ false → IfOk (IsRunnable host) (validate host j)
    validate-IfOk null h = raised
    validate-IfOk (boolean b) h = raised
    validate-IfOk (number x) h = raised
    validate-IfOk (str t) h = raised
    validate-IfOk (arr vs) h = raised
    validate-IfOk (obj ms) h =
        validate_object-IsRunnable ms (validate_children host ms) h (validate_children-Good ms h)

    validate_children-Good :
        (ms : Members Float) → member_boolean ms ≡ false → Good (validate_children host ms)
    validate_children-Good end h = tt
    validate_children-Good (member k v ms) h =
        Good-if (list_eq k (codes "children")) (as_children host v) (validate_children host ms)
          (as_children-Good v (ground arith)) (validate_children-Good ms (ground arith))

    as_children-Good : (v : Json Float) → has_boolean v ≡ false → Good (as_children host v)
    as_children-Good null h = tt
    as_children-Good (boolean b) h = tt
    as_children-Good (number x) h = tt
    as_children-Good (str t) h = tt
    as_children-Good (arr nil) h = tt
    as_children-Good (arr (cons v vs)) h =
        IfOk-bind (validate-IfOk v (ground arith))
          λ n g. IfOk-bind (validate_all-IfOk vs (ground arith)) λ ns gs. returned (refl, (g, gs))
    as_children-Good (obj ms) h = tt

    validate_all-IfOk :
        (vs : Jsons Float) → any_boolean vs ≡ false → IfOk (AllRunnable host) (validate_all host vs)
    validate_all-IfOk nil h = returned tt
    validate_all-IfOk (cons v vs) h =
        IfOk-bind (validate-IfOk v (ground arith))
          λ n g. IfOk-bind (validate_all-IfOk vs (ground arith)) λ ns gs. returned (g, gs)

-- Where `float` ignores the blanks around a text and reads what `str` writes for a number: a JSON
-- value without Booleans that passes validation becomes a tree in which every field is
-- allowed, every operator is one of its field's role, every operand has the shape that the
-- operator takes (a number in every operand of a numeric field), and no group is empty.
pub validate-IsRunnable :
    {Float : Type 0} (host : Host Float)
    → ReadsFloats host
    → (j : Json Float) (n : Node Float) → has_boolean j ≡ false
    → validate host j ≡ ok n
    → IsRunnable host n
validate-IsRunnable host reads j n h e = IfOk-ok (validate-IfOk host reads j h) e
