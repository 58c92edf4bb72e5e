-- ===== src/Query/Operators/Union.antt =====
-- The union of components (UnionOperator.hpp). A component is a graph with the positions of its
-- operands.
use tentris_lib.Prelude.{ℕ, not, List, [], ◌∷◌, ◌++◌, if◌then◌else◌, ◌==◌}
use tentris_lib.Prelude.Words.{add64}
use tentris_lib.Rdf.{Rdf}
use tentris_lib.Graph.Components.{Labelling, union_components}
use tentris_lib.Query.Registry.{Tracker}
use tentris_lib.Query.Operators.{
  Tries, Entry, QueryGraph, SubOperators, extract_operands, done, clear_used_entry_poss, with_value,
  yield_counted,
}

module _ (r : Rdf) (tries : Tries r.Node) (S : Type 0) (sub : SubOperators r tries S) where
  open r use {Node, Variable}
  open tries use {Trie, is_empty, depth, hash_join, hash_join_optional}

  module _ (tracker : Tracker) (operands : List Trie) where
    unfoldable pub union_rounds :
        List (QueryGraph r tries S × List ℕ)
        → Entry r tries S
        → List (Entry r tries S) × Entry r tries S
    unfolding extract_operands clear_used_entry_poss
    union_rounds [] entry = ([], entry)
    union_rounds ((component, positions) ∷ components) entry =
        let sub_operands = extract_operands r tries S positions operands in
        let (yielded, left) = sub.yields component sub_operands entry in
        let counted = sub.result component sub_operands entry in
        let (after_yield, last_yield) =
          union_rounds components (clear_used_entry_poss r tries S tracker component left) in
        let (after_count, last_count) =
          union_rounds components (clear_used_entry_poss r tries S tracker component counted) in
        if not (done r tries S tracker component)
        then (yielded ++ after_yield, last_yield)
        else (yield_counted r tries S counted ++ after_count, last_count)

    unfoldable pub union_counts :
        List (QueryGraph r tries S × List ℕ) → ℕ → Entry r tries S → ℕ × Entry r tries S
    unfolding extract_operands
    union_counts [] value entry = (value, entry)
    union_counts ((component, positions) ∷ components) value entry =
        let counted = sub.result component (extract_operands r tries S positions operands) entry in
        union_counts components
          (if not (counted.value == 0) then add64 value counted.value else value) counted

  module _ (boost : Labelling) (tracker : Tracker) where
    -- `UnionOperator::evaluate`
    unfoldable pub evaluate_union :
        QueryGraph r tries S
        → List Trie
        → Entry r tries S
        → List (Entry r tries S) × Entry r tries S
    unfolding union_rounds union_components clear_used_entry_poss
    evaluate_union g operands entry =
        union_rounds tracker operands (union_components boost g)
          (clear_used_entry_poss r tries S tracker g entry)

    -- The variant that only counts.
    unfoldable pub count_union :
        QueryGraph r tries S → List Trie → Entry r tries S → Entry r tries S
    unfolding union_counts union_components clear_used_entry_poss
    count_union g operands entry =
        let (value, left) =
          union_counts tracker operands (union_components boost g) 0
            (clear_used_entry_poss r tries S tracker g entry) in
        with_value r tries S value left
