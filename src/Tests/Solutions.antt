-- ===== src/Tests/Solutions.antt =====
-- Ordering and projection of a few solutions.
use mathlib.Core.List.{Perm}
use tentris_lib.Prelude.{ℕ, ◌≡◌, refl, true, false, List, [], ◌∷◌, map, arith, ltb}
use tentris_lib.Expressions.Ast.{Expr, var_expr, arithmetic, addition}
use tentris_lib.Expressions.Evaluate.{update_value, evaluate}
use tentris_lib.Query.Entry.{CountedEntry}
use tentris_lib.Query.Ordering.{incremental_less, compare_round, multiset_insert_all}
use tentris_lib.Query.Ordering.Weak.{StrictWeak, incremental_less-StrictWeak}
use tentris_lib.Query.Ordering.Sorted.{IsOrdered, equivalent_to}
use tentris_lib.Query.Project.{copy, generated, entry_less, project}
use tentris_lib.Query.Project.Order.{Entries, entries_of, solution, project_correct}
use tentris_lib.Tests.Toy.{Term, error, integer, toy, toy-NodeOrder}

-- `?x`, and `?x + ?y`
abbrev var_x : Expr Term ℕ
var_x = var_expr 0 error 1

abbrev x_plus_y : Expr Term ℕ
x_plus_y = arithmetic addition var_x (var_expr 1 error 2)

abbrev row : ℕ → ℕ → ℕ → CountedEntry (List Term)
row x y n = record { key = integer x ∷ integer y ∷ []; value = n }

abbrev rows : Entries toy
rows = row 1 5 2 ∷ row 3 0 1 ∷ row 1 4 1 ∷ []

-- `ORDER BY DESC(?x)` keeps the two rows with the same `?x` as they come.
descending :
    multiset_insert_all (entry_less toy (var_x ∷ []) (true ∷ [])) rows []
    ≡ row 3 0 1 ∷ row 1 5 2 ∷ row 1 4 1 ∷ []
unfolding multiset_insert_all incremental_less compare_round update_value evaluate
descending = refl

ltb-StrictWeak : StrictWeak ltb
ltb-StrictWeak = record {
  irreflexive = λ a. ground arith;
  asymmetric = λ a b h. ground arith;
  transitive = λ a b c h k. ground arith;
}

incremental_less-StrictWeak_example :
    StrictWeak (incremental_less toy (x_plus_y ∷ var_x ∷ []) (true ∷ false ∷ []))
incremental_less-StrictWeak_example =
    incremental_less-StrictWeak toy toy-NodeOrder (x_plus_y ∷ var_x ∷ []) (true ∷ false ∷ [])
      ((tt, tt), (tt, tt))

-- The ORDER BY expressions of a group, after its solutions.
abbrev of_group : ℕ → List (Expr Term ℕ)
of_group n = var_expr 0 (integer n) 1 ∷ []

project_correct_example :
    (sorted : Entries toy) × (project toy (x_plus_y ∷ []) (var_x ∷ []) (true ∷ []) (generated rows)
      ≡ map (solution toy (copy toy (x_plus_y ∷ []))) sorted)
    × Perm (entries_of (generated rows)) sorted
    × IsOrdered (entry_less toy (copy toy (var_x ∷ [])) (true ∷ [])) sorted
    × ((p : CountedEntry (List Term))
        → equivalent_to (entry_less toy (copy toy (var_x ∷ [])) (true ∷ [])) p sorted
          ≡ equivalent_to
              (entry_less toy (copy toy (var_x ∷ [])) (true ∷ []))
              p
              (entries_of (generated rows)))
project_correct_example =
    project_correct toy toy-NodeOrder (x_plus_y ∷ []) (var_x ∷ []) (true ∷ []) ((tt, tt), tt)
      (tt, tt) (generated rows)
