-- ===== src/Query/Project.antt =====
-- The projection of solutions (libs/query/src/dice/query/operators/ProjectOperator.hpp).
use tentris_lib.Prelude.{Bool, List, [], ◌∷◌, map}
use tentris_lib.Rdf.{Rdf}
use tentris_lib.Expressions.Ast.{Expr}
use tentris_lib.Expressions.Evaluate.{evaluate, update_value, clone}
use tentris_lib.Query.Entry.{CountedEntry}
use tentris_lib.Query.Ordering.{multiset_insert_all, incremental_less}
pub mod Order

-- What the sub-operator gives: a single entry if all tracked variables are done, else a generator.
pub data SubResult (K : Type 0) : Type 0 where
  done : CountedEntry K → SubResult K
  generated : List (CountedEntry K) → SubResult K

module _ (r : Rdf) where
  open r use {Node, Variable}

  abbrev pub Mapping : Type 0
  Mapping = List (Expr Node Variable)

  -- A copy of a vector of `ExpressionWrapper`, which clones every expression.
  abbrev pub copy : Mapping → Mapping
  copy exprs = map (clone r) exprs

  -- The loops over `solution_mapping`: every expression is told of the key, and then evaluated into
  -- its position of the solution.
  unfoldable pub update_mapping : Mapping → List Node → Mapping
  update_mapping [] key = []
  update_mapping (expr ∷ mapping) key = update_value r expr key ∷ update_mapping mapping key

  unfoldable pub evaluate_mapping : Mapping → List Node
  evaluate_mapping [] = []
  evaluate_mapping (expr ∷ mapping) = evaluate r expr ∷ evaluate_mapping mapping

  -- The loop over the entries; the expressions keep the state that the entries before leave.
  unfoldable pub project_from :
      Mapping → List (CountedEntry (List Node)) → List (CountedEntry (List Node))
  unfolding update_mapping evaluate_mapping
  project_from mapping [] = []
  project_from mapping (entry ∷ entries) =
      let updated = update_mapping mapping entry.key in
      record { key = evaluate_mapping updated; value = entry.value } ∷ project_from updated entries

  -- The comparator on entries.
  abbrev pub entry_less :
      Mapping → List Bool → CountedEntry (List Node) → CountedEntry (List Node) → Bool
  entry_less order_by ordering lhs rhs = incremental_less r order_by ordering lhs.key rhs.key

  -- `ProjectOperator::evaluate`, from its copy of `solution_mapping` and the comparator's copy of the
  -- ORDER BY expressions. Copying the comparator again changes nothing, since a clone is its own.
  unfoldable pub project_copies :
      Mapping → Mapping → List Bool → SubResult (List Node) → List (CountedEntry (List Node))
  unfolding project_from multiset_insert_all incremental_less
  project_copies mapping order_by ordering (done entry) = project_from mapping (entry ∷ [])
  project_copies mapping order_by [] (generated entries) = project_from mapping entries
  project_copies mapping order_by (desc ∷ ordering) (generated entries) =
      project_from mapping (multiset_insert_all (entry_less order_by (desc ∷ ordering)) entries [])

  unfoldable pub project :
      Mapping → Mapping → List Bool → SubResult (List Node) → List (CountedEntry (List Node))
  unfolding project_copies
  project mapping order_by ordering sub = project_copies (copy mapping) (copy order_by) ordering sub
