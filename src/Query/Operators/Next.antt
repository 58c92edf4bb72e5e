-- ===== src/Query/Operators/Next.antt =====
-- Which operator evaluates a graph (`next_op` of Operator.hpp), and the operators on a single operand
-- or none (ResolveOperator.hpp, CountOperator.hpp, EntryGeneratorOperator.hpp).
use tentris_lib.Prelude.{
  ℕ, suc, Bool, true, false, not, ◌&&◌, List, [], ◌∷◌, map, Option, none, some, if◌then◌else◌, ◌==◌,
  ltb, length, set, ◌*◌, ◌%◌, ◌^◌,
}
use tentris_lib.Rdf.{Rdf}
use tentris_lib.Graph.{size, is_expression, is_assignment, operand_var_ids, range_from}
use tentris_lib.Graph.Prune.{kept_vertices}
use tentris_lib.Graph.Remove.{remove_vertices}
use tentris_lib.Graph.Variables.{
  operands_var_ids_set, assignments_for_evaluation, filters_for_evaluation,
  non_optional_var_ids_set,
}
use tentris_lib.Graph.Components.{Labelling, union_components, cartesian_components, isc_operands}
use tentris_lib.Query.Registry.{Tracker, is_var_tracked, tracked_var_position}
use tentris_lib.Query.Operators.{
  Tries, Entry, QueryGraph, operand_at, extract_operands, done, clear_used_entry_poss, with_value,
}

pub data Operation : Type 0 where
  no_op join left_join union cartesian assignment filter filter_alt resolve count entry_generator :
      Operation

abbrev pub is_nil : {A : Type 0} → List A → Bool
is_nil [] = true
is_nil (x ∷ xs) = false

-- `std::none_of` and `std::all_of`
abbrev pub none_of : (ℕ → Bool) → List ℕ → Bool
none_of test [] = true
none_of test (v ∷ vs) = not (test v) && none_of test vs

abbrev pub all_of : (ℕ → Bool) → List ℕ → Bool
all_of test [] = true
all_of test (v ∷ vs) = test v && all_of test vs

module _ (r : Rdf) (tries : Tries r.Node) (S : Type 0) where
  open r use {Node, null_node}
  open tries use {Trie, trie_size, entries}

  -- A graph with one vertex.
  unfoldable pub next_op_single : Tracker → QueryGraph r tries S → Operation
  next_op_single tracker g =
      let vars = operands_var_ids_set g in
      if is_expression g 0
      then (if is_assignment g 0 then assignment else filter)
      else if length vars == length (operand_var_ids g 0)
      then (if none_of (is_var_tracked tracker) vars
          then count
          else if all_of (is_var_tracked tracker) vars
          then resolve
          else join)
      else join

  module _ (boost : Labelling) where
    unfoldable pub next_op : Tracker → QueryGraph r tries S → Operation
    unfolding next_op_single
    next_op tracker g =
        let isc_ops = isc_operands boost g in
        if size g == 0
        then entry_generator
        else if size g == 1
        then next_op_single tracker g
        else if ltb 1 (length (union_components boost g))
        then union
        else if not (is_nil (assignments_for_evaluation g isc_ops))
        then assignment
        else if not (is_nil (filters_for_evaluation g isc_ops))
        then filter
        else if ltb 1 (length (cartesian_components boost g))
        then cartesian
        else if ltb (length isc_ops) (size g)
        then (if is_nil (non_optional_var_ids_set g isc_ops) then filter_alt else left_join)
        else join

  -- The loop of `ResolveOperator` that writes the parts of a key.
  unfoldable pub write_parts : List ℕ → List Node → List Node → List Node
  write_parts [] parts key = key
  write_parts (pos ∷ positions) [] key = key
  write_parts (pos ∷ positions) (part ∷ parts) key = write_parts positions parts (set key pos part)

  unfoldable pub resolve_entries :
      List ℕ → List (List Node) → Entry r tries S → List (Entry r tries S) × Entry r tries S
  unfolding write_parts
  resolve_entries vars_positions [] entry = ([], entry)
  resolve_entries vars_positions (operand_entry ∷ rest) entry =
      let written : Entry r tries S = record {
        key = write_parts vars_positions operand_entry entry.key;
        value = 1;
      } in
      let (yielded, left) = resolve_entries vars_positions rest written in (written ∷ yielded, left)

  -- A variable without a position has no defined behaviour, and is written at the first one.
  abbrev pub position_or_first : Option ℕ → ℕ
  position_or_first none = 0
  position_or_first (some pos) = pos

  -- `ResolveOperator::evaluate`
  unfoldable pub evaluate_resolve :
      Tracker
      → QueryGraph r tries S
      → List Trie
      → Entry r tries S
      → List (Entry r tries S) × Entry r tries S
  unfolding resolve_entries clear_used_entry_poss
  evaluate_resolve tracker g operands entry =
      let vars_positions =
        map (λ var. position_or_first (tracked_var_position tracker var)) (operand_var_ids g 0) in
      resolve_entries vars_positions (entries (operand_at r tries S operands 0))
        (clear_used_entry_poss r tries S tracker g entry)

  -- `CountOperator::evaluate` and `EntryGeneratorOperator::evaluate`, on a graph without tracked
  -- variables.
  abbrev pub evaluate_count : List Trie → Entry r tries S → Entry r tries S
  evaluate_count operands entry =
      with_value r tries S (trie_size (operand_at r tries S operands 0)) entry

  abbrev pub generate_entry : Entry r tries S → Entry r tries S
  generate_entry entry = with_value r tries S 1 entry

  -- `eliminate_counts`: the cartesian components that are a single operand without tracked
  -- variables. The size that is multiplied is that of the operand at the index of the component.
  abbrev pub first_of : List ℕ → ℕ
  first_of [] = 0
  first_of (p ∷ ps) = p

  unfoldable pub count_components :
      Tracker → List Trie → ℕ → List (QueryGraph r tries S × List ℕ) → ℕ → ℕ × List ℕ
  count_components tracker operands pos [] counts_result = (counts_result, [])
  count_components tracker operands pos ((cart_comp, positions) ∷ parts) counts_result =
      let multiplied = (counts_result * trie_size (operand_at r tries S operands pos)) % 2 ^ 64 in
      let (counted, vertices) = count_components tracker operands (suc pos) parts multiplied in
      let skipped = count_components tracker operands (suc pos) parts counts_result in
      if (size cart_comp == 1) && done r tries S tracker cart_comp
      then (counted, first_of positions ∷ vertices)
      else skipped

  -- `none` if there is no such component.
  unfoldable pub eliminate_counts :
      Labelling
      → Tracker
      → QueryGraph r tries S
      → List Trie
      → ℕ
      → Option (QueryGraph r tries S × List Trie × ℕ)
  unfolding count_components extract_operands
  eliminate_counts boost tracker g operands counts_result =
      let (product, vertices_to_remove) =
        count_components tracker operands 0 (cartesian_components boost g) counts_result in
      if is_nil vertices_to_remove
      then none
      else some (
        remove_vertices g vertices_to_remove,
        extract_operands r tries S
            (kept_vertices vertices_to_remove (range_from 0 (length operands))) operands,
        product,
      )
