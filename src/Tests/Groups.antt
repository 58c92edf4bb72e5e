-- ===== src/Tests/Groups.antt =====
-- Aggregates over a group of solutions.
use tentris_lib.Prelude.{
  ℕ, ◌+◌, ◌≡◌, refl, false, ◌||◌, ◌⊎◌, List, [], ◌∷◌, map, arith, length, if◌then◌else◌, ◌==◌,
}
use tentris_lib.Expressions.Ast.{
  Expr, var_expr, arithmetic, addition, count, count_distinct, sum, sum_distinct, minimum, maximum,
}
use tentris_lib.Expressions.Aggregates.{same_node, contains}
use tentris_lib.Expressions.Evaluate.{evaluate, make_avg}
use tentris_lib.Expressions.Grouped.{update_each, value_at}
use tentris_lib.Expressions.Grouped.Counts.{bound_values, evaluate-count}
use tentris_lib.Expressions.Grouped.Sums.{
  sum_values, evaluate-sum, sum_distinct-eq-sum, evaluate-make_avg,
}
use tentris_lib.Expressions.Grouped.Distinct.{IsDistinct, non_null, evaluate-count_distinct}
use tentris_lib.Expressions.Grouped.Extremes.{
  BoundsBelow, BoundsAbove, IsOneOf, AllNull, evaluate-minimum, evaluate-maximum,
}
use tentris_lib.Tests.Toy.{
  Term, error, integer, toy, toy-KeepsErrors, toy-NodeOrder, toy-IsEquivalence,
}

-- `?x + ?y`
abbrev plus_y : Expr Term ℕ
plus_y = arithmetic addition (var_expr 0 error 1) (var_expr 1 error 2)

-- Three solutions; `?y` is unbound in the second.
abbrev group : List (List Term)
group = (integer 1 ∷ integer 6 ∷ []) ∷ (integer 5 ∷ error ∷ []) ∷ (integer 3 ∷ integer 4 ∷ []) ∷ []

abbrev values : List Term
values = map (value_at toy plus_y) group

evaluate-count_example :
    evaluate toy (update_each toy (count plus_y 0) group) ≡ integer (0 + bound_values toy values)
evaluate-count_example = evaluate-count toy plus_y 0 group (tt, tt) (omega arith)

evaluate-count_distinct_example :
    (all : List Term) × (evaluate toy (update_each toy (count_distinct plus_y []) group)
      ≡ integer (length all))
    × IsDistinct (same_node toy) all
    × ((a : Term)
        → contains (same_node toy) a all
          ≡ (contains (same_node toy) a (non_null toy values) || contains (same_node toy) a []))
evaluate-count_distinct_example =
    evaluate-count_distinct toy toy-IsEquivalence plus_y [] group (tt, tt) tt

evaluate-sum_example :
    evaluate toy (update_each toy (sum plus_y (integer 0)) group)
    ≡ sum_values toy (integer 0) values
evaluate-sum_example = evaluate-sum toy toy-KeepsErrors plus_y (integer 0) group (tt, tt)

-- 1 + 6 and 3 + 4 are one value, which SUM(DISTINCT ...) adds twice.
abbrev twice : List (List Term)
twice = (integer 1 ∷ integer 6 ∷ []) ∷ (integer 3 ∷ integer 4 ∷ []) ∷ []

sum_distinct-eq-sum_example :
    evaluate toy (update_each toy (sum_distinct plus_y (integer 0) []) twice)
    ≡ evaluate toy (update_each toy (sum plus_y (integer 0)) twice)
sum_distinct-eq-sum_example = sum_distinct-eq-sum toy plus_y (integer 0) twice

evaluate-make_avg_example : evaluate toy (update_each toy (make_avg toy plus_y false) twice) ≡ (
    let values = map (value_at toy plus_y) twice in
    let total = toy.as_literal (sum_values toy (integer 0) values) in
    if bound_values toy values == 0
    then integer 0
    else if toy.is_null total
    then error
    else toy.div total (integer (bound_values toy values)))
evaluate-make_avg_example =
    evaluate-make_avg toy toy-KeepsErrors (λ n. refl) (λ n h. refl) plus_y twice (tt, tt) (tt, tt)
      (omega arith)

evaluate-minimum_example :
    let m = evaluate toy (update_each toy (minimum plus_y error) group) in
    BoundsBelow toy m values
    × ((toy.is_null m ≡ false) × IsOneOf toy m values ⊎ AllNull toy values × (m ≡ error))
evaluate-minimum_example = evaluate-minimum toy toy-NodeOrder plus_y error group (tt, tt) refl

evaluate-maximum_example :
    let m = evaluate toy (update_each toy (maximum plus_y error) group) in
    BoundsAbove toy m values
    × ((toy.is_null m ≡ false) × IsOneOf toy m values ⊎ AllNull toy values × (m ≡ error))
evaluate-maximum_example = evaluate-maximum toy toy-NodeOrder plus_y error group (tt, tt) refl
