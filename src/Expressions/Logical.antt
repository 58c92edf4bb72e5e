-- ===== src/Expressions/Logical.antt =====
-- What the logical operators do with the values of their operands (LogicalOperators.cpp,
-- UnaryOperators.cpp).
use tentris_lib.Prelude.{Bool, true, false, not, ◌&&◌, ◌||◌, List, [], ◌∷◌, if◌then◌else◌}
use tentris_lib.Rdf.{Rdf, PartialOrdering, less, equivalent, greater}
use tentris_lib.Expressions.Ast.{
  ComparisonOp, equals, not_equals, lt, gt, less_equals, greater_equals,
}
pub mod Kleene
pub mod Comparison

abbrev pub is_equivalent : PartialOrdering → Bool
is_equivalent equivalent = true
is_equivalent _ = false

abbrev pub is_less : PartialOrdering → Bool
is_less less = true
is_less _ = false

abbrev pub is_greater : PartialOrdering → Bool
is_greater greater = true
is_greater _ = false

module _ (r : Rdf) where
  open r use {
    Node, null_node, is_null, ebv, make_boolean, same_handle, as_literal, compare_literals,
    compare_nodes,
  }

  -- The loop of `LogicalAndExpression::evaluate`.
  unfoldable pub and_from : Bool → List Node → Node
  and_from contains_error [] = if contains_error then null_node else make_boolean true
  and_from contains_error (value ∷ values) =
      let with_error = and_from true values in
      let onward = and_from contains_error values in
      if is_null value then with_error else if not (ebv value) then make_boolean false else onward

  unfoldable pub evaluate_and : List Node → Node
  unfolding and_from
  evaluate_and = and_from false

  -- The loop of `LogicalOrExpression::evaluate`.
  unfoldable pub or_from : Bool → List Node → Node
  or_from contains_error [] = if contains_error then null_node else make_boolean false
  or_from contains_error (value ∷ values) =
      let with_error = or_from true values in
      let onward = or_from contains_error values in
      if is_null value then with_error else if ebv value then make_boolean true else onward

  unfoldable pub evaluate_or : List Node → Node
  unfolding or_from
  evaluate_or = or_from false

  unfoldable pub compare_impl : Node → Node → PartialOrdering
  compare_impl lhs rhs =
      let lhs_lit = as_literal lhs in
      let rhs_lit = as_literal rhs in
      if not (is_null lhs_lit) && not (is_null rhs_lit)
      then compare_literals lhs_lit rhs_lit
      else compare_nodes lhs rhs

  -- What each of the six comparison classes makes of the ordering.
  abbrev pub accepts : ComparisonOp → PartialOrdering → Bool
  accepts equals p_ordering = is_equivalent p_ordering
  accepts not_equals p_ordering = not (is_equivalent p_ordering)
  accepts lt p_ordering = is_less p_ordering
  accepts gt p_ordering = is_greater p_ordering
  accepts less_equals p_ordering = is_equivalent p_ordering || is_less p_ordering
  accepts greater_equals p_ordering = is_equivalent p_ordering || is_greater p_ordering

  unfoldable pub evaluate_comparison : ComparisonOp → Node → Node → Node
  unfolding compare_impl
  evaluate_comparison op lhs rhs = make_boolean (accepts op (compare_impl lhs rhs))

  -- The search of `InExpressionList::evaluate`.
  unfoldable pub is_in : Node → List Node → Bool
  is_in lhs_result [] = false
  is_in lhs_result (value ∷ values) =
      let later = is_in lhs_result values in if same_handle lhs_result value then true else later

  unfoldable pub evaluate_in : Bool → Node → List Node → Node
  unfolding is_in
  evaluate_in not_in lhs_result values =
      let found = is_in lhs_result values in
      if not not_in && found || not_in && not found then make_boolean true else make_boolean false

  -- `NotExpression::evaluate`
  unfoldable pub evaluate_not : Node → Node
  evaluate_not expr_result =
      if is_null expr_result
      then null_node
      else if not (ebv expr_result)
      then make_boolean true
      else make_boolean false
