-- ===== src/Tests/Grouped.antt =====
-- GROUP BY, HAVING and ORDER BY over a few entries.
use mathlib.Core.List.{Perm}
use tentris_lib.Prelude.{ℕ, ◌≡◌, refl, true, List, [], ◌∷◌, map, if◌then◌else◌, ◌==◌}
use tentris_lib.Prelude.Sets.{count}
use tentris_lib.Expressions.Ast.{Expr, var_expr, sum, count_star}
use tentris_lib.Prelude.Words.{add64}
use tentris_lib.Expressions.Aggregates.{update_sum}
use tentris_lib.Expressions.Evaluate.{evaluate, update_value, clone}
use tentris_lib.Expressions.Grouped.{update_each}
use tentris_lib.Query.Entry.{CountedEntry, expand}
use tentris_lib.Query.Ordering.Sorted.{IsOrdered}
use tentris_lib.Query.Grouping.{Clauses, evaluate_groups, evaluate_group}
use tentris_lib.Query.Grouping.States.{occurs}
use tentris_lib.Query.Grouping.Found.{as_count}
use tentris_lib.Query.Grouping.Yields.{keep, satisfies_having, group_before, solution_of}
use tentris_lib.Query.Grouping.Correct.{evaluate_groups_correct}
use tentris_lib.Query.Grouping.Single.{evaluate_group_correct}
use tentris_lib.Tests.Toy.{Term, error, integer, toy, toy-NodeOrder}

abbrev var_x : Expr Term ℕ
var_x = var_expr 0 error 1

abbrev var_y : Expr Term ℕ
var_y = var_expr 1 error 2

abbrev row : ℕ → ℕ → ℕ → CountedEntry (List Term)
row x y n = record { key = integer x ∷ integer y ∷ []; value = n }

abbrev rows : List (CountedEntry (List Term))
rows = row 1 5 2 ∷ row 2 7 1 ∷ row 1 4 1 ∷ row 3 0 1 ∷ []

-- `SELECT ?x (COUNT(*)) (SUM(?y)) ... GROUP BY ?x HAVING (SUM(?y)) ORDER BY DESC(?x)`
abbrev clauses : Clauses toy
clauses = record {
  solution_mapping = var_x ∷ count_star 0 ∷ sum var_y (integer 0) ∷ [];
  solution_filters = sum var_y (integer 0) ∷ [];
  order_by_expressions = var_x ∷ [];
  ordering_type = true ∷ [];
  grouping_key = var_x ∷ [];
}

-- The group of 3 has the sum 0, which HAVING takes for false.
groups_run :
    evaluate_groups toy clauses rows
    ≡ record { key = integer 2 ∷ integer 1 ∷ integer 7 ∷ []; value = 1 }
      ∷ record { key = integer 1 ∷ integer 3 ∷ integer 14 ∷ []; value = 1 }
      ∷ []
unfolding evaluate_groups evaluate update_value clone update_sum add64
groups_run = refl

evaluate_groups_correct_example :
    (all sorted : List ℕ) × ((h : ℕ) → count h all ≡ as_count (occurs toy (var_x ∷ []) h rows))
    × Perm (keep (satisfies_having toy clauses rows) all) sorted
    × IsOrdered (group_before toy clauses rows) sorted
    × (evaluate_groups toy clauses rows ≡ map (solution_of toy clauses rows) sorted)
evaluate_groups_correct_example = evaluate_groups_correct toy toy-NodeOrder clauses rows (tt, tt)

evaluate_group_correct_example :
    evaluate_group toy (count_star 0 ∷ []) 1 rows
    ≡ record {
      key =
          map
            (λ e. evaluate toy (update_each toy (clone toy e) (if 1 == 0 then [] else expand rows)))
            (count_star 0 ∷ []);
      value = 1;
    }
      ∷ []
evaluate_group_correct_example = evaluate_group_correct toy (count_star 0 ∷ []) 1 rows
