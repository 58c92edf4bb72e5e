-- ===== src/Query/Grouping/Correct.antt =====
-- The solutions that the grouping operator yields.
use mathlib.Core.List.{Perm}
use mathlib.Core.List.Perm
use tentris_lib.Prelude.{
  choose_true, choose_false, ℕ, ◌≡◌, refl, ap, sym, ◌∙◌, Bool, true, false, not, List, [], ◌∷◌, map,
  some, arith, length, length-map, Bool-cases, inl, inr,
}
use tentris_lib.Prelude.Sets.{count}
use tentris_lib.Rdf.{Rdf}
use tentris_lib.Expressions.Grouped.Extremes.{NodeOrder}
use tentris_lib.Expressions.Evaluate.{clone}
use tentris_lib.Query.Entry.{CountedEntry}
use tentris_lib.Query.Ordering.{multiset_insert_all, grouped_less}
use tentris_lib.Query.Ordering.Weak.{AllPlain, StrictWeak, grouped_less_correct}
use tentris_lib.Query.Ordering.Sorted.{IsOrdered, multiset_insert_all_correct}
use tentris_lib.Query.Project.{copy, Mapping}
use tentris_lib.Prelude.Maps.{find}
use tentris_lib.Query.Grouping.{
  is_empty, or_empty, Clauses, has_ordering, solution_entry, yield_groups, group_keys, group_less,
  yield_ordered, evaluate_groups,
}
use tentris_lib.Query.Grouping.Maps.{keys, AllEntries-map, entries_found}
use tentris_lib.Query.Grouping.States.{rows_of, occurs, evaluate-update_rows, length-update_rows}
use tentris_lib.Query.Grouping.Yields.{
  groups, with_order, state_of, group_solution, solution_of, satisfies_having, group_before, keep,
  map-multiset_insert_all, yield_groups-map, group_keys-map,
}
use tentris_lib.Query.Grouping.Found.{
  as_count, known_grown, grown_here, found_solution, distinct, all_groups, all_orderings,
  count_of_group_keys,
}
use tentris_lib.Query.Grouping.Everywhere.{
  AllOf, all_alike, keep-AllOf, keys-AllOf, multiset_insert_all-AllOf,
}

module _ (r : Rdf) where
  open r use {Node, Variable}

  unordered_less :
      (ordering : List Bool) (ls rs : Mapping r)
      → not (is_empty ordering) ≡ false
      → grouped_less r ordering ls rs ≡ false
  unfolding grouped_less
  unordered_less [] ls rs h = refl
  unordered_less (d ∷ ds) ls rs h = absurd (ground (arith, h))

  module _ (query : Clauses r) (entries : List (CountedEntry (List Node))) where
    solutions_alone :
        (hs : List ℕ)
        → map (group_solution r query entries) hs ≡ map (solution_of r query entries) hs
    solutions_alone [] = refl
    solutions_alone (k ∷ hs) = cc (
      evaluate-update_rows r query.solution_mapping (rows_of r query.grouping_key k entries),
      solutions_alone hs,
    )

    length-orderings :
        (h : ℕ)
        → length (copy r (state_of r query entries query.order_by_expressions h))
          ≡ length query.order_by_expressions
    length-orderings h =
        length-map (clone r) (state_of r query entries query.order_by_expressions h)
        ∙ length-update_rows r (copy r query.order_by_expressions)
            (rows_of r query.grouping_key h entries)
        ∙ length-map (clone r) query.order_by_expressions

    same_length :
        (h k : ℕ)
        → length (copy r (state_of r query entries query.order_by_expressions h))
          ≡ length (copy r (state_of r query entries query.order_by_expressions k))
    same_length h k = length-orderings h ∙ sym (length-orderings k)

    compared :
        NodeOrder r
        → (a b c : ℕ)
        → (group_before r query entries a a ≡ false)
          × (group_before r query entries a b ≡ true → group_before r query entries b a ≡ false)
          × (group_before r query entries a b ≡ false
              → group_before r query entries b c ≡ false
              → group_before r query entries a c ≡ false)
    compared order a b c =
        grouped_less_correct r order query.ordering_type _ _ _ (same_length a b) (same_length b c)

    no_order : has_ordering r query ≡ false → (a b : ℕ) → group_before r query entries a b ≡ false
    no_order h a b = unordered_less query.ordering_type _ _ h

    group_before-StrictWeak : NodeOrder r → StrictWeak (group_before r query entries)
    group_before-StrictWeak order = record {
      irreflexive = λ a. (compared order a a a).0;
      asymmetric = λ a b. (compared order a b b).1;
      transitive = λ a b c. (compared order a b c).2;
    }

    module _ (plain : AllPlain query.grouping_key) where
      kept : List ℕ
      kept =
          keep (satisfies_having r query entries) (keys (groups r query entries).grouped_solutions)

      kept_occur : AllOf (λ h. occurs r query.grouping_key h entries ≡ true) kept
      unfolding kept
      kept_occur = keep-AllOf _ (satisfies_having r query entries) _ (
          keys-AllOf _ (groups r query entries).grouped_solutions (
            AllEntries-map (λ k v. find k (groups r query entries).grouped_solutions ≡ some v) _
              (λ k v found.
                (known_grown r query entries (copy r query.solution_mapping) v k
                  (sym (found_solution r query entries plain k) ∙ found)).0)
              (groups r query entries).grouped_solutions
              (entries_found (groups r query entries).grouped_solutions
                (distinct r query entries plain))))

      yield_ordered-map :
          (hs : List ℕ)
          → AllOf (λ h. occurs r query.grouping_key h entries ≡ true) hs
          → yield_ordered r (groups r query entries) (map (with_order r query entries) hs)
            ≡ map (group_solution r query entries) hs
      yield_ordered-map [] h = refl
      yield_ordered-map (k ∷ hs) h = cc (
        ap (λ o. solution_entry r (or_empty o))
            (found_solution r query entries plain k
              ∙ grown_here r query entries (copy r query.solution_mapping) k h.0),
        yield_ordered-map hs h.1,
      )

      ordered_result :
          has_ordering r query ≡ true
          → evaluate_groups r query entries
            ≡ map
                (solution_of r query entries)
                (multiset_insert_all (group_before r query entries) kept [])
      unfolding evaluate_groups kept
      ordered_result h =
          let less = group_before r query entries in
          choose_true _ _
            (yield_groups r query (groups r query entries)
              (groups r query entries).grouped_solutions)
            h
          ∙ ap
              (λ pairs.
                yield_ordered r (groups r query entries)
                  (multiset_insert_all (group_less r query) pairs []))
              (group_keys-map r query entries (groups r query entries).grouped_solutions
                (all_groups r query entries plain) (all_orderings r query entries plain h))
          ∙ ap (yield_ordered r (groups r query entries))
              (map-multiset_insert_all (with_order r query entries) (group_less r query) kept [])
          ∙ yield_ordered-map (multiset_insert_all less kept [])
              (multiset_insert_all-AllOf _ less kept [] kept_occur tt)
          ∙ solutions_alone (multiset_insert_all less kept [])

      unordered_result :
          has_ordering r query ≡ false
          → evaluate_groups r query entries ≡ map (solution_of r query entries) kept
      unfolding evaluate_groups kept
      unordered_result h =
          choose_false _
            (yield_ordered r (groups r query entries) (
              multiset_insert_all (group_less r query)
                (group_keys r query (groups r query entries)
                  (groups r query entries).grouped_solutions)
                []))
            _ h
          ∙ yield_groups-map r query entries (groups r query entries).grouped_solutions
              (all_groups r query entries plain)
          ∙ solutions_alone kept

  -- If the grouping key's expressions have no aggregates, the operator yields, once each, the groups
  -- that satisfy HAVING, out of the groups that occur among the entries. The value of a projected
  -- expression in a group is what it evaluates to when it is told of the group's solutions alone,
  -- each as often as it occurs, and HAVING and ORDER BY read expressions that are told of the same.
  -- No group comes before an earlier one by ORDER BY, if the order of nodes is a strict weak order.
  pub evaluate_groups_correct :
      NodeOrder r
      → (query : Clauses r) (entries : List (CountedEntry (List Node)))
      → AllPlain query.grouping_key
      → (all sorted : List ℕ) × ((h : ℕ)
          → count h all ≡ as_count (occurs r query.grouping_key h entries))
        × Perm (keep (satisfies_having r query entries) all) sorted
        × IsOrdered (group_before r query entries) sorted
        × (evaluate_groups r query entries ≡ map (solution_of r query entries) sorted)
  unfolding kept
  evaluate_groups_correct order query entries plain =
      let all = keys (groups r query entries).grouped_solutions in
      let some_groups = kept query entries plain in
      let less = group_before r query entries in
      elim (Bool-cases (has_ordering r query)) [
        | inl ordered ↦
            let (perm, sorted, stable) =
              multiset_insert_all_correct less (group_before-StrictWeak query entries order)
                some_groups in
            (
              all,
              multiset_insert_all less some_groups [],
              count_of_group_keys r query entries plain,
              perm,
              sorted,
              ordered_result query entries plain ordered,
            )
        | inr unordered ↦ (
          all,
          some_groups,
          count_of_group_keys r query entries plain,
          Perm.refl some_groups,
          all_alike less (no_order query entries unordered) some_groups,
          unordered_result query entries plain unordered,
        )
      ]
