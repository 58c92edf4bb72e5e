-- ===== src/Expressions/Grouped/Sums.antt =====
-- SUM, SUM DISTINCT and AVG over a group.
use tentris_lib.Prelude.{
  ℕ, ◌^◌, ◌<◌, ◌≡◌, refl, sym, ◌∙◌, Bool, false, List, [], ◌∷◌, map, arith, length, length-map,
  if◌then◌else◌, ◌==◌,
}
use tentris_lib.Rdf.{Rdf}
use tentris_lib.Expressions.Ast.{Expr, count, sum, sum_distinct, avg}
use tentris_lib.Expressions.Aggregates.{update_sum, update_sum_distinct, contains, evaluate_avg}
use tentris_lib.Expressions.Clone.{HasNoNotIn, clone-eq}
use tentris_lib.Expressions.Evaluate.{evaluate, update_value, make_avg}
use tentris_lib.Expressions.Grouped.{
  IsPlain, update_each, value_at, update_value-IsPlain, values-update,
}
use tentris_lib.Expressions.Grouped.Counts.{bound_values, bound_values-le, evaluate-count}
use tentris_lib.Expressions.Grouped.Steps.{update-sum, update-sum_distinct, update-avg}

-- Addition gives nothing back once the sum is an error, as the library documents of null literals.
abbrev pub KeepsErrors : Rdf → Type 0
KeepsErrors r = (l v : r.Node) → r.is_null l ≡ Bool.true → r.add l v ≡ l

-- The sum of the literals among the values, from left to right.
abbrev pub sum_values : (r : Rdf) → r.Node → List r.Node → r.Node
sum_values r l [] = l
sum_values r l (v ∷ vs) = sum_values r (r.add l (r.as_literal v)) vs

module _ (r : Rdf) where
  open r use {Node, Variable, is_null, integer_value, make_integer, as_literal, null_node, div}

  sum_values-null :
      KeepsErrors r → (l : Node) (vs : List Node) → is_null l ≡ Bool.true → sum_values r l vs ≡ l
  sum_values-null keeps l [] h = refl
  sum_values-null keeps l (v ∷ vs) h = rw (keeps l (as_literal v) h) (sum_values-null keeps l vs h)

  evaluate-sum_state : (e : Expr Node Variable) (l : Node) → evaluate r (sum e l) ≡ l
  unfolding evaluate
  evaluate-sum_state e l = refl

  evaluate-sum_distinct_state :
      (e : Expr Node Variable) (l : Node) (ls : List Node) → evaluate r (sum_distinct e l ls) ≡ l
  unfolding evaluate
  evaluate-sum_distinct_state e l ls = refl

  update_sum_lem : (v l : Node) → update_sum r v l ≡ r.add l (as_literal v)
  unfolding update_sum
  update_sum_lem v l = refl

  update_sum_distinct_lem : (v l : Node) → update_sum_distinct r v l [] ≡ r.add l (as_literal v)
  unfolding update_sum_distinct contains
  update_sum_distinct_lem v l = refl

  -- SUM of an expression without aggregates is the sum of its values at the solutions, if errors
  -- absorb; the early return at an error makes no difference.
  pub evaluate-sum :
      KeepsErrors r
      → (e : Expr Node Variable) (l : Node) (keys : List (List Node)) → IsPlain e
      → evaluate r (update_each r (sum e l) keys) ≡ sum_values r l (map (value_at r e) keys)
  unfolding update_each
  evaluate-sum keeps e l [] plain = evaluate-sum_state e l
  evaluate-sum keeps e l (k ∷ keys) plain =
      let e' = update_value r e k in
      ground (
        arith,
        update-sum r k e l,
        update_sum_lem (evaluate r e') l,
        values-update r e k keys plain,
        sum_values-null keeps l (map (value_at r e) (k ∷ keys)),
        sum_values-null keeps l (map (value_at r e) keys),
        evaluate-sum keeps e l keys plain,
        evaluate-sum keeps e' (r.add l (as_literal (evaluate r e'))) keys
            (update_value-IsPlain r e k plain),
      )

  -- SUM DISTINCT never records a literal, so over every group, and for every expression, it gives
  -- what SUM gives.
  pub sum_distinct-eq-sum :
      (e : Expr Node Variable) (l : Node) (keys : List (List Node))
      → evaluate r (update_each r (sum_distinct e l []) keys)
        ≡ evaluate r (update_each r (sum e l) keys)
  unfolding update_each
  sum_distinct-eq-sum e l [] = evaluate-sum_distinct_state e l [] ∙ sym (evaluate-sum_state e l)
  sum_distinct-eq-sum e l (k ∷ keys) =
      let e' = update_value r e k in
      ground (
        arith,
        update-sum r k e l,
        update-sum_distinct r k e l [],
        update_sum_lem (evaluate r e') l,
        update_sum_distinct_lem (evaluate r e') l,
        sum_distinct-eq-sum e l keys,
        sum_distinct-eq-sum e' (r.add l (as_literal (evaluate r e'))) keys,
      )

  evaluate-avg_state :
      (e s c : Expr Node Variable)
      → evaluate r (avg e s c) ≡ evaluate_avg r (evaluate r c) (evaluate r s)
  unfolding evaluate
  evaluate-avg_state e s c = refl

  evaluate-update_avg :
      (e s c : Expr Node Variable) (keys : List (List Node))
      → evaluate r (update_each r (avg e s c) keys)
        ≡ evaluate_avg r (evaluate r (update_each r c keys)) (evaluate r (update_each r s keys))
  unfolding update_each
  evaluate-update_avg e s c [] = evaluate-avg_state e s c
  evaluate-update_avg e s c (k ∷ keys) =
      rw (update-avg r k e s c)
        (evaluate-update_avg e (update_value r s k) (update_value r c k) keys)

  -- AVG, as it is constructed without DISTINCT over an expression with no aggregate and no NOT IN,
  -- is 0 for a group at which the expression is always an error, an error if the sum is one, and
  -- else the sum divided by the number of values that are no error.
  pub evaluate-make_avg :
      KeepsErrors r
      → ((n : ℕ) → as_literal (make_integer n) ≡ make_integer n)
      → ((n : ℕ) → n < 2 ^ 64 → integer_value (make_integer n) ≡ n)
      → (e : Expr Node Variable) (keys : List (List Node)) → IsPlain e
      → HasNoNotIn e
      → length keys < 2 ^ 64
      → evaluate r (update_each r (make_avg r e false) keys) ≡ (
          let values = map (value_at r e) keys in
          let total = as_literal (sum_values r (make_integer 0) values) in
          if bound_values r values == 0
          then make_integer 0
          else if is_null total
          then null_node
          else div total (make_integer (bound_values r values)))
  unfolding make_avg evaluate_avg
  evaluate-make_avg keeps literal value e keys plain no_not_in fits =
      let values = map (value_at r e) keys in
      rw (clone-eq r e no_not_in) (
        ground (
          arith,
          evaluate-update_avg e (sum e (make_integer 0)) (count e 0) keys,
          evaluate-sum keeps e (make_integer 0) keys plain,
          evaluate-count r e 0 keys plain,
          literal (bound_values r values),
          value (bound_values r values),
          bound_values-le r values,
          length-map (value_at r e) keys,
        ))
