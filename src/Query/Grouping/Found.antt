-- ===== src/Query/Grouping/Found.antt =====
-- The group that each key is mapped to, in all three maps.
use tentris_lib.Prelude.{
  choose_true, choose_false, ℕ, ◌≡◌, subst, refl, ap, sym, ◌∙◌, Bool, true, false, not, List, [],
  ◌∷◌, none, some, if◌then◌else◌, arith, Bool-cases, inl, inr,
}
use tentris_lib.Prelude.Sets.{count}
use tentris_lib.Rdf.{Rdf}
use tentris_lib.Query.Entry.{CountedEntry}
use tentris_lib.Query.Ordering.Weak.{AllPlain}
use tentris_lib.Query.Project.{copy, Mapping}
use tentris_lib.Prelude.Maps.{find, is_found}
use tentris_lib.Query.Grouping.{
  is_empty, or_empty, Clauses, has_filters, has_ordering, filters_satisfied, passes,
}
use tentris_lib.Query.Grouping.Maps.{
  keys, AllEntries, AllEntries-map, HasDistinctKeys, count-keys, entries_found,
}
use tentris_lib.Query.Grouping.States.{
  rows_of, occurs, update_rows, grown, update_rows-nil, find-fold_map, fold_map-HasDistinctKeys,
}
use tentris_lib.Query.Grouping.Folds.{solutions_fold, filters_fold, orderings_fold}
use tentris_lib.Query.Grouping.Yields.{start, groups, GroupIs, state_of, satisfies_having}

-- How often a group stands among the groups.
abbrev pub as_count : Bool → ℕ
as_count b = if b then 1 else 0

module _ (r : Rdf) where
  open r use {Node, Variable}

  no_filters :
      (exprs : Mapping r) (rows : List (List Node))
      → not (is_empty exprs) ≡ false
      → filters_satisfied r (update_rows r (copy r exprs) rows) ≡ true
  unfolding filters_satisfied
  no_filters [] rows h = ap (filters_satisfied r) (update_rows-nil r rows)
  no_filters (e ∷ exprs) rows h = absurd (ground (arith, h))

  module _ (query : Clauses r) (entries : List (CountedEntry (List Node))) where
    pub known_grown :
        (fresh exprs : Mapping r) (h : ℕ)
        → grown r query.grouping_key fresh h entries none ≡ some exprs
        → (occurs r query.grouping_key h entries ≡ true)
          × (exprs ≡ update_rows r fresh (rows_of r query.grouping_key h entries))
    known_grown fresh exprs h e = ground (arith, e)

    pub grown_here :
        (fresh : Mapping r) (h : ℕ)
        → occurs r query.grouping_key h entries ≡ true
        → grown r query.grouping_key fresh h entries none
          ≡ some (update_rows r fresh (rows_of r query.grouping_key h entries))
    grown_here fresh h here = ground (arith, here)

    grown_count :
        (fresh : Mapping r) (h : ℕ)
        → as_count (is_found (grown r query.grouping_key fresh h entries none))
          ≡ as_count (occurs r query.grouping_key h entries)
    grown_count fresh h = ground arith

    module _ (plain : AllPlain query.grouping_key) where
      pub found_solution :
          (h : ℕ)
          → find h (groups r query entries).grouped_solutions
            ≡ grown r query.grouping_key (copy r query.solution_mapping) h entries none
      found_solution h =
          ap (find h) (solutions_fold r query entries query.grouping_key (start r query entries))
          ∙ find-fold_map r query.grouping_key _ h entries [] plain

      pub found_ordering :
          (h : ℕ)
          → has_ordering r query ≡ true
          → find h (groups r query entries).grouped_orderings
            ≡ grown r query.grouping_key (copy r query.order_by_expressions) h entries none
      found_ordering h ordered =
          ap (find h) (
            orderings_fold r query entries query.grouping_key (start r query entries) ordered
              (λ k. refl))
          ∙ find-fold_map r query.grouping_key _ h entries [] plain

      found_filter :
          (h : ℕ)
          → has_filters r query ≡ true
          → find h (groups r query entries).grouped_filters
            ≡ grown r query.grouping_key (copy r query.solution_filters) h entries none
      found_filter h filtered =
          ap (find h) (
            filters_fold r query entries query.grouping_key (start r query entries) filtered
              (λ k. refl))
          ∙ find-fold_map r query.grouping_key _ h entries [] plain

      passes_having :
          (h : ℕ)
          → occurs r query.grouping_key h entries ≡ true
          → passes r query (groups r query entries) h ≡ satisfies_having r query entries h
      passes_having h here = elim (Bool-cases (has_filters r query)) [
        | inl filtered ↦
            choose_true _ _ true filtered
            ∙ ap (λ o. filters_satisfied r (or_empty o))
                (found_filter h filtered ∙ grown_here (copy r query.solution_filters) h here)
        | inr unfiltered ↦
            choose_false _ _ true unfiltered
            ∙ sym (
                no_filters query.solution_filters (rows_of r query.grouping_key h entries)
                  unfiltered)
      ]

      pub distinct : HasDistinctKeys (groups r query entries).grouped_solutions
      distinct =
          subst HasDistinctKeys
            (sym (solutions_fold r query entries query.grouping_key (start r query entries)))
            (fold_map-HasDistinctKeys r query.grouping_key _ entries [] tt)

      pub all_groups :
          AllEntries (GroupIs r query entries) (groups r query entries).grouped_solutions
      all_groups =
          AllEntries-map (λ k v. find k (groups r query entries).grouped_solutions ≡ some v)
            (GroupIs r query entries)
            (λ k v found.
              let (here, state) =
                known_grown (copy r query.solution_mapping) v k (sym (found_solution k) ∙ found) in
              (state, passes_having k here))
            (groups r query entries).grouped_solutions
            (entries_found (groups r query entries).grouped_solutions distinct)

      pub all_orderings :
          has_ordering r query ≡ true
          → AllEntries
              (λ h exprs.
                find h (groups r query entries).grouped_orderings
                ≡ some (state_of r query entries query.order_by_expressions h))
              (groups r query entries).grouped_solutions
      all_orderings ordered =
          AllEntries-map (λ k v. find k (groups r query entries).grouped_solutions ≡ some v) _
            (λ k v found.
              found_ordering k ordered
              ∙ grown_here (copy r query.order_by_expressions) k
                  (known_grown (copy r query.solution_mapping) v k
                    (sym (found_solution k) ∙ found)).0)
            (groups r query entries).grouped_solutions
            (entries_found (groups r query entries).grouped_solutions distinct)

      pub count_of_group_keys :
          (h : ℕ)
          → count h (keys (groups r query entries).grouped_solutions)
            ≡ as_count (occurs r query.grouping_key h entries)
      count_of_group_keys h =
          count-keys h (groups r query entries).grouped_solutions distinct
          ∙ ap (λ o. as_count (is_found o)) (found_solution h)
          ∙ grown_count (copy r query.solution_mapping) h
