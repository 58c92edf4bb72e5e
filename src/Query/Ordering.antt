-- ===== src/Query/Ordering.antt =====
-- The comparators of ORDER BY (libs/query/src/dice/query/operators/Operator_predeclare.hpp), and the
-- multisets that are sorted by them.
use tentris_lib.Prelude.{Bool, true, false, List, [], ◌∷◌, if◌then◌else◌}
use tentris_lib.Rdf.{Rdf}
use tentris_lib.Expressions.Ast.{Expr}
use tentris_lib.Expressions.Logical.{is_less, is_greater}
use tentris_lib.Expressions.Evaluate.{evaluate, update_value}
pub mod Weak
pub mod Sorted

-- What the Boost library documents of `multiset::insert`: an element goes behind those that are
-- equivalent to it.
module _ {A : Type 0} (less : A → A → Bool) where
  unfoldable pub multiset_insert : A → List A → List A
  multiset_insert a [] = a ∷ []
  multiset_insert a (x ∷ xs) =
      let later = multiset_insert a xs in if less a x then a ∷ x ∷ xs else x ∷ later

  -- The loop that inserts what a generator yields.
  unfoldable pub multiset_insert_all : List A → List A → List A
  unfolding multiset_insert
  multiset_insert_all [] sorted = sorted
  multiset_insert_all (x ∷ xs) sorted = multiset_insert_all xs (multiset_insert x sorted)

module _ (r : Rdf) where
  open r use {Node, Variable, compare_nodes}

  -- One round of either comparator on the values of one expression, and what the rounds after it
  -- say.
  unfoldable pub compare_round : Bool → Node → Node → Bool → Bool
  compare_round desc lhs_value rhs_value later =
      if desc
      then (if is_greater (compare_nodes lhs_value rhs_value)
          then true
          else if is_less (compare_nodes lhs_value rhs_value)
          then false
          else later)
      else (if is_less (compare_nodes lhs_value rhs_value)
          then true
          else if is_greater (compare_nodes lhs_value rhs_value)
          then false
          else later)

  -- `IncrementalSolutionOrdering::operator()` on the keys of two entries. The wrappers are shared, so
  -- the second `update_value` works on what the first left. Every call starts from the expressions of
  -- the query here; an expression without aggregates keeps nothing of earlier calls.
  unfoldable pub incremental_less :
      List (Expr Node Variable) → List Bool → List Node → List Node → Bool
  unfolding compare_round
  incremental_less (expr ∷ exprs) (desc ∷ ordering) lhs rhs =
      let with_lhs = update_value r expr lhs in
      let with_rhs = update_value r with_lhs rhs in
      let later = incremental_less exprs ordering lhs rhs in
      compare_round desc (evaluate r with_lhs) (evaluate r with_rhs) later
  incremental_less _ _ lhs rhs = false

  -- `GroupedSolutionOrdering::operator()` on the expressions of two groups.
  unfoldable pub grouped_less :
      List Bool → List (Expr Node Variable) → List (Expr Node Variable) → Bool
  unfolding compare_round
  grouped_less (desc ∷ ordering) (lhs_expr ∷ lhs_exprs) (rhs_expr ∷ rhs_exprs) =
      let later = grouped_less ordering lhs_exprs rhs_exprs in
      compare_round desc (evaluate r lhs_expr) (evaluate r rhs_expr) later
  grouped_less _ _ _ = false
