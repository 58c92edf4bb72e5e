-- ===== src/Query/Project/Order.antt =====
-- What the projection yields.
use mathlib.Core.List.{Perm}
use mathlib.Core.List.Perm
use tentris_lib.Prelude.{Bool, ◌≡◌, refl, List, [], ◌∷◌, map}
use tentris_lib.Rdf.{Rdf}
use tentris_lib.Expressions.Grouped.{update_again, update_value-IsPlain, clone-IsPlain}
use tentris_lib.Expressions.Grouped.Extremes.{NodeOrder}
use tentris_lib.Query.Entry.{CountedEntry}
use tentris_lib.Query.Ordering.{multiset_insert_all, incremental_less}
use tentris_lib.Query.Ordering.Weak.{AllPlain, StrictWeak, values_at, incremental_less-StrictWeak}
use tentris_lib.Query.Ordering.Sorted.{
  NoneBefore, IsOrdered, equivalent_to, multiset_insert_all_correct,
}
use tentris_lib.Query.Project.{
  SubResult, done, generated, Mapping, update_mapping, evaluate_mapping, project_from, entry_less,
  copy, project_copies, project,
}

-- The entries of a sub-operator.
abbrev pub entries_of : {K : Type 0} → SubResult K → List (CountedEntry K)
entries_of (done entry) = entry ∷ []
entries_of (generated entries) = entries

module _ (r : Rdf) where
  open r use {Node, Variable}

  abbrev pub Entries : Type 0
  Entries = List (CountedEntry (List Node))

  -- The solution of one entry: the values of the projected expressions at its key.
  abbrev pub solution : Mapping r → CountedEntry (List Node) → CountedEntry (List Node)
  solution mapping entry = record { key = values_at r mapping entry.key; value = entry.value }

  pub evaluate-update_mapping :
      (mapping : Mapping r) (key : List Node)
      → evaluate_mapping r (update_mapping r mapping key) ≡ values_at r mapping key
  unfolding update_mapping evaluate_mapping
  evaluate-update_mapping [] key = refl
  evaluate-update_mapping (e ∷ es) key = rw (evaluate-update_mapping es key) refl

  pub update_mapping-AllPlain :
      (mapping : Mapping r) (key : List Node)
      → AllPlain mapping
      → AllPlain (update_mapping r mapping key)
  unfolding update_mapping
  update_mapping-AllPlain [] key plain = tt
  update_mapping-AllPlain (e ∷ es) key plain =
      (update_value-IsPlain r e key plain.0, update_mapping-AllPlain es key plain.1)

  pub values_at-update_mapping :
      (mapping : Mapping r) (key key' : List Node)
      → AllPlain mapping
      → values_at r (update_mapping r mapping key) key' ≡ values_at r mapping key'
  unfolding update_mapping
  values_at-update_mapping [] key key' plain = refl
  values_at-update_mapping (e ∷ es) key key' plain =
      cc (update_again r e key key' plain.0, values_at-update_mapping es key key' plain.1)

  solution-update_mapping :
      (mapping : Mapping r) (key : List Node) (entries : Entries)
      → AllPlain mapping
      → map (solution (update_mapping r mapping key)) entries ≡ map (solution mapping) entries
  solution-update_mapping mapping key [] plain = refl
  solution-update_mapping mapping key (e ∷ es) plain = cc (
    values_at-update_mapping mapping key e.key plain,
    solution-update_mapping mapping key es plain,
  )

  project_from-map :
      (mapping : Mapping r) (entries : Entries)
      → AllPlain mapping
      → project_from r mapping entries ≡ map (solution mapping) entries
  unfolding project_from
  project_from-map mapping [] plain = refl
  project_from-map mapping (e ∷ es) plain =
      let rest =
        project_from-map (update_mapping r mapping e.key) es
          (update_mapping-AllPlain mapping e.key plain) in
      cc (
        evaluate-update_mapping mapping e.key,
        rest,
        solution-update_mapping mapping e.key es plain,
      )

  entry_less-StrictWeak :
      NodeOrder r
      → (order_by : Mapping r) (ordering : List Bool) → AllPlain order_by
      → StrictWeak (entry_less r order_by ordering)
  entry_less-StrictWeak order order_by ordering plain =
      let weak = incremental_less-StrictWeak r order order_by ordering plain in
      record {
        irreflexive = λ a. weak.irreflexive a.key;
        asymmetric = λ a b. weak.asymmetric a.key b.key;
        transitive = λ a b c. weak.transitive a.key b.key c.key;
      }

  less-nil :
      (order_by : Mapping r) (lhs rhs : List Node)
      → incremental_less r order_by [] lhs rhs ≡ Bool.false
  unfolding incremental_less
  less-nil [] lhs rhs = refl
  less-nil (e ∷ es) lhs rhs = refl

  nil-NoneBefore :
      (order_by : Mapping r) (e : CountedEntry (List Node)) (entries : Entries)
      → NoneBefore (entry_less r order_by []) e entries
  nil-NoneBefore order_by e [] = tt
  nil-NoneBefore order_by e (x ∷ xs) = (less-nil order_by x.key e.key, nil-NoneBefore order_by e xs)

  nil-IsOrdered :
      (order_by : Mapping r) (entries : Entries) → IsOrdered (entry_less r order_by []) entries
  nil-IsOrdered order_by [] = tt
  nil-IsOrdered order_by (e ∷ es) = (nil-NoneBefore order_by e es, nil-IsOrdered order_by es)

  pub copy-AllPlain : (mapping : Mapping r) → AllPlain mapping → AllPlain (copy r mapping)
  copy-AllPlain [] plain = tt
  copy-AllPlain (e ∷ es) plain = (clone-IsPlain r e plain.0, copy-AllPlain es plain.1)

  copies_correct :
      NodeOrder r
      → (mapping order_by : Mapping r) (ordering : List Bool) → AllPlain mapping
      → AllPlain order_by
      → (sub : SubResult (List Node))
      → (sorted : Entries) × (project_copies r mapping order_by ordering sub
          ≡ map (solution mapping) sorted)
        × Perm (entries_of sub) sorted
        × IsOrdered (entry_less r order_by ordering) sorted
        × ((p : CountedEntry (List Node))
            → equivalent_to (entry_less r order_by ordering) p sorted
              ≡ equivalent_to (entry_less r order_by ordering) p (entries_of sub))
  unfolding project_copies
  copies_correct order mapping order_by ordering plain plain' (done e) =
      (e ∷ [], project_from-map mapping (e ∷ []) plain, Perm.refl (e ∷ []), (tt, tt), λ p. refl)
  copies_correct order mapping order_by [] plain plain' (generated es) =
      (es, project_from-map mapping es plain, Perm.refl es, nil-IsOrdered order_by es, λ p. refl)
  copies_correct order mapping order_by (d ∷ ds) plain plain' (generated es) =
      let less = entry_less r order_by (d ∷ ds) in
      let (perm, ordered, stable) =
        multiset_insert_all_correct less (entry_less-StrictWeak order order_by (d ∷ ds) plain')
          es in
      let sorted = multiset_insert_all less es [] in
      (sorted, project_from-map mapping sorted plain, perm, ordered, stable)

  -- With projected and ORDER BY expressions that have no aggregates, the projection yields, with
  -- their counts, the values of the projected expressions' clones at the entries of the
  -- sub-operator, in an order in which no entry is before an earlier one by the clones of the ORDER BY
  -- expressions, and in which equivalent entries stand as the sub-operator yields them, if the order
  -- of nodes is a strict weak order.
  pub project_correct :
      NodeOrder r
      → (mapping order_by : Mapping r) (ordering : List Bool) → AllPlain mapping
      → AllPlain order_by
      → (sub : SubResult (List Node))
      → (sorted : Entries) × (project r mapping order_by ordering sub
          ≡ map (solution (copy r mapping)) sorted)
        × Perm (entries_of sub) sorted
        × IsOrdered (entry_less r (copy r order_by) ordering) sorted
        × ((p : CountedEntry (List Node))
            → equivalent_to (entry_less r (copy r order_by) ordering) p sorted
              ≡ equivalent_to (entry_less r (copy r order_by) ordering) p (entries_of sub))
  unfolding project
  project_correct order mapping order_by ordering plain plain' sub =
      copies_correct order (copy r mapping) (copy r order_by) ordering (copy-AllPlain mapping plain)
        (copy-AllPlain order_by plain') sub
