-- ===== src/Query/Operators/Filter.antt =====
-- The two filter operators (FilterOperator.hpp).
use tentris_lib.Prelude.{
  ℕ, Bool, true, false, not, List, [], ◌∷◌, Option, none, some, if◌then◌else◌, ◌==◌, length,
}
use tentris_lib.Rdf.{Rdf}
use tentris_lib.Expressions.Ast.{Expr}
use tentris_lib.Graph.{size, vertex_at, range_from}
use tentris_lib.Graph.Prune.{kept_vertices}
use tentris_lib.Graph.Remove.{remove_vertices}
use tentris_lib.Graph.Variables.{filters_for_evaluation}
use tentris_lib.Graph.Components.{Labelling, isc_operands}
use tentris_lib.Query.Registry.{Tracker}
use tentris_lib.Query.Operators.{
  Tries, Entry, QueryGraph, SubOperators, extract_operands, clear_used_entry_poss, with_value,
  filter_holds,
}

module _ (r : Rdf) (tries : Tries r.Node) (S : Type 0) (sub : SubOperators r tries S) where
  open r use {Node, Variable}
  open tries use {Trie, is_empty, depth, hash_join, hash_join_optional}

  -- The loop over the filters.
  abbrev pub holds_at : Option (Expr Node Variable) → List Node → Bool
  holds_at none key = false
  holds_at (some f) key = filter_holds r tries S f key

  unfoldable pub filters_hold : QueryGraph r tries S → List ℕ → List Node → Bool
  filters_hold g [] key = true
  filters_hold g (filter_pos ∷ filters) key =
      let later = filters_hold g filters key in
      if holds_at (vertex_at g.vertices filter_pos).filter_expression key then later else false

  -- What is left without the filters.
  abbrev pub kept_operands : QueryGraph r tries S → List ℕ → List Trie → List Trie
  kept_operands g filters operands =
      extract_operands r tries S (kept_vertices filters (range_from 0 (size g))) operands

  -- The loop over the entries of the optional part.
  unfoldable pub keep_satisfying :
      QueryGraph r tries S → List ℕ → List (Entry r tries S) → List (Entry r tries S)
  unfolding filters_hold
  keep_satisfying g filters [] = []
  keep_satisfying g filters (entry ∷ entries) =
      let later = keep_satisfying g filters entries in
      if filters_hold g filters entry.key then entry ∷ later else later

  module _ (boost : Labelling) (tracker : Tracker) where
    abbrev pub ready_filters : QueryGraph r tries S → List ℕ
    ready_filters g = filters_for_evaluation g (isc_operands boost g)

    -- `FilterOperator::evaluate`
    unfoldable pub evaluate_filter :
        QueryGraph r tries S
        → List Trie
        → Entry r tries S
        → List (Entry r tries S) × Entry r tries S
    unfolding filters_hold
    evaluate_filter g operands entry =
        let filters = ready_filters g in
        if not (filters_hold g filters entry.key)
        then ([], entry)
        else sub.yields (remove_vertices g filters) (kept_operands g filters operands) entry

    -- The variant that only counts.
    unfoldable pub count_filter :
        QueryGraph r tries S → List Trie → Entry r tries S → Entry r tries S
    unfolding filters_hold
    count_filter g operands entry =
        let filters = ready_filters g in
        if not (filters_hold g filters entry.key)
        then with_value r tries S 0 entry
        else sub.result (remove_vertices g filters) (kept_operands g filters operands) entry

    -- The operator for filters whose variables are in optional parts only.
    unfoldable pub evaluate_filter_alt :
        QueryGraph r tries S
        → List Trie
        → Entry r tries S
        → List (Entry r tries S) × Entry r tries S
    unfolding keep_satisfying clear_used_entry_poss
    evaluate_filter_alt g operands entry =
        let filters = isc_operands boost g in
        let sub_odg = remove_vertices g filters in
        let (yielded, left) = sub.yields sub_odg (kept_operands g filters operands) entry in
        let cleared = clear_used_entry_poss r tries S tracker sub_odg left in
        let alone = with_value r tries S 1 cleared in
        if length yielded == 0
        then (if filters_hold g filters cleared.key then (alone ∷ [], alone) else ([], cleared))
        else (keep_satisfying g filters yielded, left)

    -- Its variant that only counts.
    unfoldable pub count_filter_alt :
        QueryGraph r tries S → List Trie → Entry r tries S → Entry r tries S
    unfolding filters_hold
    count_filter_alt g operands entry =
        let filters = isc_operands boost g in
        let counted =
          sub.result (remove_vertices g filters) (kept_operands g filters operands) entry in
        if not (filters_hold g filters counted.key) then with_value r tries S 0 counted else counted
