-- ===== src/Query/Grouping.antt =====
-- GROUP BY and HAVING (libs/query/src/dice/query/operators/ExplicitAggregationOperator.hpp), and the
-- single group of a query that only aggregates (ImplicitAggerationOperator.hpp there). A hash map is
-- an association list; its iteration order, which the code leaves to the map, is that of the list.
use tentris_lib.Prelude.{
  ℕ, zero, suc, Bool, true, false, not, List, [], ◌∷◌, map, Option, none, some, if◌then◌else◌, ◌==◌,
}
use tentris_lib.Prelude.Maps.{find, is_found}
use tentris_lib.Rdf.{Rdf}
use tentris_lib.Expressions.Ast.{Expr}
use tentris_lib.Expressions.Evaluate.{evaluate, clone}
use tentris_lib.Query.Entry.{CountedEntry}
use tentris_lib.Query.Ordering.{multiset_insert_all, grouped_less}
use tentris_lib.Query.Project.{Mapping, copy, update_mapping, evaluate_mapping}
pub mod Maps
pub mod States
pub mod Folds
pub mod Yields
pub mod Found
pub mod Everywhere
pub mod Correct
pub mod Single

-- The map with a value changed in place or, where the key is missing, with a fresh value that is
-- changed at once.
abbrev pub upsert : {A : Type 0} → ℕ → A → (A → A) → List (ℕ × A) → List (ℕ × A)
upsert h fresh change [] = (h, change fresh) ∷ []
upsert h fresh change ((key, value) ∷ entries) =
    if key == h then (key, change value) ∷ entries else (key, value) ∷ upsert h fresh change entries

abbrev pub or_empty : {A : Type 0} → Option (List A) → List A
or_empty none = []
or_empty (some xs) = xs

abbrev pub is_empty : {A : Type 0} → List A → Bool
is_empty [] = true
is_empty (x ∷ xs) = false

module _ (r : Rdf) where
  open r use {Node, Variable, ebv, hash_key}

  -- The clauses of the query that the operator reads.
  pub record Clauses : Type 0 where
    pub solution_mapping : Mapping r
    pub solution_filters : Mapping r
    pub order_by_expressions : Mapping r
    pub ordering_type : List Bool
    pub grouping_key : Mapping r

  -- The three maps, from the hash of a grouping key to the group's expressions.
  pub record Groups : Type 0 where
    pub grouped_solutions : List (ℕ × Mapping r)
    pub grouped_filters : List (ℕ × Mapping r)
    pub grouped_orderings : List (ℕ × Mapping r)

  -- `while (cardinality > 0)`
  unfoldable pub update_times : ℕ → Mapping r → List Node → Mapping r
  unfolding update_mapping
  update_times zero exprs key = exprs
  update_times (suc cardinality) exprs key =
      update_times cardinality (update_mapping r exprs key) key

  -- The loop over the filters of a group.
  unfoldable pub filters_satisfied : Mapping r → Bool
  filters_satisfied [] = true
  filters_satisfied (expr ∷ exprs) =
      let later = filters_satisfied exprs in if not (ebv (evaluate r expr)) then false else later

  abbrev pub solution_entry : Mapping r → CountedEntry (List Node)
  solution_entry group_solution = record { key = evaluate_mapping r group_solution; value = 1 }

  -- The loop over the multiset.
  abbrev pub yield_ordered : Groups → List (ℕ × Mapping r) → List (CountedEntry (List Node))
  yield_ordered groups pairs =
      map (λ pair. solution_entry (or_empty (find pair.0 groups.grouped_solutions))) pairs

  module _ (query : Clauses) where
    abbrev pub has_filters : Bool
    has_filters = not (is_empty query.solution_filters)

    abbrev pub has_ordering : Bool
    has_ordering = not (is_empty query.ordering_type)

    -- The body of the loop over the entries, on the expressions of the grouping key and the maps.
    unfoldable pub add_to_group : CountedEntry (List Node) → Mapping r → Groups → Mapping r × Groups
    unfolding update_times update_mapping evaluate_mapping
    add_to_group entry grouping_key groups =
        let updated_key = update_mapping r grouping_key entry.key in
        let gk_hash = hash_key (evaluate_mapping r updated_key) in
        let found = is_found (find gk_hash groups.grouped_solutions) in
        let change = λ (exprs : Mapping r). update_times entry.value exprs entry.key in
        let absent = λ (exprs : Mapping r). if found then [] else copy r exprs in
        (
          updated_key,
          record {
            grouped_solutions =
                upsert gk_hash (copy r query.solution_mapping) change groups.grouped_solutions;
            grouped_filters =
                if has_filters
                then upsert gk_hash (absent query.solution_filters) change groups.grouped_filters
                else groups.grouped_filters;
            grouped_orderings =
                if has_ordering
                then upsert gk_hash (absent query.order_by_expressions) change
                    groups.grouped_orderings
                else groups.grouped_orderings;
          },
        )

    unfoldable pub group_from : List (CountedEntry (List Node)) → Mapping r → Groups → Groups
    unfolding add_to_group
    group_from [] grouping_key groups = groups
    group_from (entry ∷ entries) grouping_key groups =
        let (updated_key, updated) = add_to_group entry grouping_key groups in
        group_from entries updated_key updated

    abbrev pub passes : Groups → ℕ → Bool
    passes groups key =
        if has_filters then filters_satisfied (or_empty (find key groups.grouped_filters)) else true

    -- The loop that yields the groups in the order of the map.
    unfoldable pub yield_groups : Groups → List (ℕ × Mapping r) → List (CountedEntry (List Node))
    unfolding filters_satisfied evaluate_mapping
    yield_groups groups [] = []
    yield_groups groups ((key, group_solution) ∷ rest) =
        let later = yield_groups groups rest in
        if not (passes groups key) then later else solution_entry group_solution ∷ later

    -- The loop that collects the groups that pass, with their ORDER BY expressions.
    unfoldable pub group_keys : Groups → List (ℕ × Mapping r) → List (ℕ × Mapping r)
    unfolding filters_satisfied
    group_keys groups [] = []
    group_keys groups ((key, group_solution) ∷ rest) =
        let later = group_keys groups rest in
        if not (passes groups key)
        then later
        else (key, copy r (or_empty (find key groups.grouped_orderings))) ∷ later

    -- `GroupedSolutionOrdering` compares the second components.
    abbrev pub group_less : ℕ × Mapping r → ℕ × Mapping r → Bool
    group_less lhs rhs = grouped_less r query.ordering_type lhs.1 rhs.1

    -- `ExplicitAggregationOperator::evaluate`
    unfoldable pub evaluate_groups :
        List (CountedEntry (List Node)) → List (CountedEntry (List Node))
    unfolding group_from yield_groups group_keys multiset_insert_all grouped_less evaluate_mapping
    evaluate_groups entries =
        let groups =
          group_from entries query.grouping_key
            (record { grouped_solutions = []; grouped_filters = []; grouped_orderings = [] }) in
        if has_ordering
        then yield_ordered groups
            (multiset_insert_all group_less (group_keys groups groups.grouped_solutions) [])
        else yield_groups groups groups.grouped_solutions

  -- The loop over the entries of the only group.
  unfoldable pub update_entries : Mapping r → List (CountedEntry (List Node)) → Mapping r
  unfolding update_times
  update_entries exprs [] = exprs
  update_entries exprs (entry ∷ entries) =
      update_entries (update_times entry.value exprs entry.key) entries

  -- `ImplicitAggregationOperator::evaluate`, on the number of vertices of the graph.
  unfoldable pub evaluate_group :
      Mapping r → ℕ → List (CountedEntry (List Node)) → List (CountedEntry (List Node))
  unfolding update_entries evaluate_mapping
  evaluate_group solution_mapping size entries =
      let solution_expressions = copy r solution_mapping in
      let updated =
        if size == 0 then solution_expressions else update_entries solution_expressions entries in
      record { key = evaluate_mapping r updated; value = 1 } ∷ []
