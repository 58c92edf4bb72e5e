-- ===== src/Query/Grouping/Folds.antt =====
-- How the three maps grow: each as one map alone would.
use tentris_lib.Prelude.{
  choose_true, ℕ, ◌≡◌, refl, ap, sym, ◌∙◌, true, List, [], ◌∷◌, if◌then◌else◌, arith,
}
use tentris_lib.Rdf.{Rdf}
use tentris_lib.Query.Entry.{CountedEntry}
use tentris_lib.Query.Project.{copy, Mapping, update_mapping, evaluate_mapping}
use tentris_lib.Prelude.Maps.{find, is_found}
use tentris_lib.Query.Grouping.{
  upsert, Clauses, Groups, has_filters, has_ordering, add_to_group, group_from,
}
use tentris_lib.Query.Grouping.Maps.{find-upsert, upsert-fresh}
use tentris_lib.Query.Grouping.States.{told, fold_map}

module _ (r : Rdf) where
  open r use {Node, Variable, hash_key}

  abbrev HaveSameKeys : List (ℕ × Mapping r) → List (ℕ × Mapping r) → Type 0
  HaveSameKeys m m' = (h : ℕ) → is_found (find h m) ≡ is_found (find h m')

  upsert-HaveSameKeys :
      (k : ℕ) (fresh fresh' : Mapping r) (change : Mapping r → Mapping r)
      (m m' : List (ℕ × Mapping r))
      → HaveSameKeys m m'
      → HaveSameKeys (upsert k fresh change m) (upsert k fresh' change m')
  upsert-HaveSameKeys k fresh fresh' change m m' same h =
      ground (arith, find-upsert h k fresh change m, find-upsert h k fresh' change m', same h)

  module _ (query : Clauses r) where
    pub solutions_fold :
        (es : List (CountedEntry (List Node))) (gk : Mapping r) (gs : Groups r)
        → (group_from r query es gk gs).grouped_solutions
          ≡ fold_map r gk (copy r query.solution_mapping) es gs.grouped_solutions
    unfolding group_from add_to_group
    solutions_fold [] gk gs = refl
    solutions_fold (e ∷ es) gk gs =
        let (gk', gs') = add_to_group r query e gk gs in solutions_fold es gk' gs'

    absent_fresh :
        (k : ℕ) (m m' : List (ℕ × Mapping r)) (fresh : Mapping r) (change : Mapping r → Mapping r)
        → HaveSameKeys m m'
        → upsert k (if is_found (find k m) then [] else fresh) change m' ≡ upsert k fresh change m'
    absent_fresh k m m' fresh change same =
        upsert-fresh k _ fresh change m' (λ e. ground (arith, same k))

    filters_step :
        (e : CountedEntry (List Node)) (gk : Mapping r) (gs : Groups r)
        → has_filters r query ≡ true
        → HaveSameKeys gs.grouped_solutions gs.grouped_filters
        → (add_to_group r query e gk gs).1.grouped_filters
          ≡ upsert
              (hash_key (evaluate_mapping r (update_mapping r gk e.key)))
              (copy r query.solution_filters)
              (told r e)
              gs.grouped_filters
    unfolding add_to_group
    filters_step e gk gs h same =
        choose_true _ _ gs.grouped_filters h
        ∙ absent_fresh _ gs.grouped_solutions gs.grouped_filters (copy r query.solution_filters)
            (told r e) same

    filters_keys :
        (e : CountedEntry (List Node)) (gk : Mapping r) (gs : Groups r)
        → has_filters r query ≡ true
        → HaveSameKeys gs.grouped_solutions gs.grouped_filters
        → HaveSameKeys
            (add_to_group r query e gk gs).1.grouped_solutions
            (add_to_group r query e gk gs).1.grouped_filters
    unfolding add_to_group
    filters_keys e gk gs h same k =
        upsert-HaveSameKeys _ (copy r query.solution_mapping) (copy r query.solution_filters)
          (told r e) gs.grouped_solutions gs.grouped_filters same k
        ∙ ap (λ m. is_found (find k m)) (sym (filters_step e gk gs h same))

    pub filters_fold :
        (es : List (CountedEntry (List Node))) (gk : Mapping r) (gs : Groups r)
        → has_filters r query ≡ true
        → HaveSameKeys gs.grouped_solutions gs.grouped_filters
        → (group_from r query es gk gs).grouped_filters
          ≡ fold_map r gk (copy r query.solution_filters) es gs.grouped_filters
    unfolding group_from
    filters_fold [] gk gs h same = refl
    filters_fold (e ∷ es) gk gs h same =
        filters_fold es (update_mapping r gk e.key) (add_to_group r query e gk gs).1 h
          (filters_keys e gk gs h same)
        ∙ ap (fold_map r (update_mapping r gk e.key) _ es) (filters_step e gk gs h same)

    orderings_step :
        (e : CountedEntry (List Node)) (gk : Mapping r) (gs : Groups r)
        → has_ordering r query ≡ true
        → HaveSameKeys gs.grouped_solutions gs.grouped_orderings
        → (add_to_group r query e gk gs).1.grouped_orderings
          ≡ upsert
              (hash_key (evaluate_mapping r (update_mapping r gk e.key)))
              (copy r query.order_by_expressions)
              (told r e)
              gs.grouped_orderings
    unfolding add_to_group
    orderings_step e gk gs h same =
        choose_true _ _ gs.grouped_orderings h
        ∙ absent_fresh _ gs.grouped_solutions gs.grouped_orderings
            (copy r query.order_by_expressions) (told r e) same

    orderings_keys :
        (e : CountedEntry (List Node)) (gk : Mapping r) (gs : Groups r)
        → has_ordering r query ≡ true
        → HaveSameKeys gs.grouped_solutions gs.grouped_orderings
        → HaveSameKeys
            (add_to_group r query e gk gs).1.grouped_solutions
            (add_to_group r query e gk gs).1.grouped_orderings
    unfolding add_to_group
    orderings_keys e gk gs h same k =
        upsert-HaveSameKeys _ (copy r query.solution_mapping) (copy r query.order_by_expressions)
          (told r e) gs.grouped_solutions gs.grouped_orderings same k
        ∙ ap (λ m. is_found (find k m)) (sym (orderings_step e gk gs h same))

    pub orderings_fold :
        (es : List (CountedEntry (List Node))) (gk : Mapping r) (gs : Groups r)
        → has_ordering r query ≡ true
        → HaveSameKeys gs.grouped_solutions gs.grouped_orderings
        → (group_from r query es gk gs).grouped_orderings
          ≡ fold_map r gk (copy r query.order_by_expressions) es gs.grouped_orderings
    unfolding group_from
    orderings_fold [] gk gs h same = refl
    orderings_fold (e ∷ es) gk gs h same =
        orderings_fold es (update_mapping r gk e.key) (add_to_group r query e gk gs).1 h
          (orderings_keys e gk gs h same)
        ∙ ap (fold_map r (update_mapping r gk e.key) _ es) (orderings_step e gk gs h same)
