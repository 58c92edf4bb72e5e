-- ===== src/Tests/Values.antt =====
-- Logical operators, comparisons, copies and variables of small expressions.
use mathlib.Core.List.{Perm}
use tentris_lib.Prelude.{ℕ, ◌≡◌, refl, true, false, ◌++◌, List, [], ◌∷◌, map, none, some}
use tentris_lib.Expressions.Ast.{
  Expr, var_expr, literal_expr, in_list, arithmetic, addition, sum, count_star, Exprs, nil, cons,
}
use tentris_lib.Expressions.Logical.{evaluate_and, evaluate_or, evaluate_not, and_from}
use tentris_lib.Expressions.Logical.Kleene.{truth, all_of, any_of, truth-and_or}
use tentris_lib.Expressions.Evaluate.{evaluate, clone}
use tentris_lib.Expressions.Clone.{clone-eq, clone-not_in}
use tentris_lib.Expressions.Variables.{
  variables, aggregated_variables, non_aggregated_variables, collect,
}
use tentris_lib.Expressions.Variables.Partition.{variables-perm}
use tentris_lib.Tests.Toy.{Term, error, boolean, integer, toy, toy-BooleanLaws}

abbrev three_values : List Term
three_values = boolean true ∷ error ∷ integer 0 ∷ []

-- A false operand after an error decides a conjunction.
false_after_error : evaluate_and toy three_values ≡ boolean false
unfolding evaluate_and and_from
false_after_error = refl

truth-and_or_example :
    (truth toy (evaluate_and toy three_values) ≡ all_of (map (truth toy) three_values))
    × (truth toy (evaluate_or toy three_values) ≡ any_of (map (truth toy) three_values))
truth-and_or_example = truth-and_or toy toy-BooleanLaws three_values

-- `?x`, with the value 5.
abbrev variable_x : Expr Term ℕ
variable_x = var_expr 0 (integer 5) 1

abbrev two_or_five : Exprs Term ℕ
two_or_five = cons (literal_expr (integer 2)) (cons (literal_expr (integer 5)) nil)

-- `SUM(?x) + ?y IN (2, 5)`
abbrev sum_in : Expr Term ℕ
sum_in =
    in_list (arithmetic addition (sum variable_x (integer 4)) (var_expr 1 error 2)) two_or_five
      false

clone-eq_example : clone toy sum_in ≡ sum_in
clone-eq_example = clone-eq toy sum_in ((tt, tt), (tt, (tt, tt)), refl)

clone-not_in_example :
    evaluate toy (clone toy (in_list variable_x two_or_five true))
    ≡ evaluate_not toy (evaluate toy (in_list variable_x two_or_five true))
clone-not_in_example = clone-not_in toy toy-BooleanLaws variable_x two_or_five tt (tt, (tt, tt))

-- The variables of COUNT(*) inside an expression are read through a null pointer.
count_star_variables : aggregated_variables {N = Term} {V = ℕ} (count_star 0) ≡ none
unfolding aggregated_variables collect
count_star_variables = refl

aggregated_sum_in : aggregated_variables sum_in ≡ some (1 ∷ [])
unfolding aggregated_variables collect
aggregated_sum_in = refl

variables-perm_example :
    (vs : List ℕ) × (ys : List ℕ) × (variables sum_in ≡ some vs)
    × (non_aggregated_variables sum_in ≡ some ys)
    × Perm vs ((1 ∷ []) ++ ys)
variables-perm_example = variables-perm sum_in (1 ∷ []) aggregated_sum_in
