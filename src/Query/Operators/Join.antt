-- ===== src/Query/Operators/Join.antt =====
-- The join over one variable (JoinOperator.hpp).
use tentris_lib.Prelude.{ℕ, Bool, true, List, [], ◌∷◌, ◌++◌, Option, if◌then◌else◌}
use tentris_lib.Prelude.Words.{add64}
use tentris_lib.Rdf.{Rdf}
use tentris_lib.Graph.Remove.{remove_var_id}
use tentris_lib.Graph.Variables.{var_ids_positions_in_operands}
use tentris_lib.Graph.Components.{Labelling, part, isc_operands}
use tentris_lib.Query.Registry.{Tracker, tracked_var_position}
use tentris_lib.Query.Operators.{
  Tries, Entry, QueryGraph, SubOperators, done, clear_used_entry_poss, write_part, with_value,
  yield_counted,
}
use tentris_lib.Query.Operators.Cardinality.{Doubles, min_card_label}

module _ (r : Rdf) (tries : Tries r.Node) (S : Type 0) (sub : SubOperators r tries S) where
  open r use {Node, Variable}
  open tries use {Trie, is_empty, depth, hash_join, hash_join_optional}

  -- The loop over the key parts.
  unfoldable pub join_rounds :
      QueryGraph r tries S
      → Bool
      → Option ℕ
      → List (Node × List Trie)
      → Entry r tries S
      → List (Entry r tries S) × Entry r tries S
  join_rounds sub_odg sub_done proj_var_pos [] entry = ([], entry)
  join_rounds sub_odg sub_done proj_var_pos ((part, sub_operands) ∷ rounds) entry =
      let written = write_part r tries S proj_var_pos part entry in
      let counted = sub.result sub_odg sub_operands written in
      let (yielded, left) = sub.yields sub_odg sub_operands written in
      let (after_count, last_count) = join_rounds sub_odg sub_done proj_var_pos rounds counted in
      let (after_yield, last_yield) = join_rounds sub_odg sub_done proj_var_pos rounds left in
      if sub_done
      then (yield_counted r tries S counted ++ after_count, last_count)
      else (yielded ++ after_yield, last_yield)

  -- The loop of the variant that only counts.
  unfoldable pub join_counts :
      QueryGraph r tries S → List (Node × List Trie) → ℕ → Entry r tries S → ℕ × Entry r tries S
  join_counts sub_odg [] value entry = (value, entry)
  join_counts sub_odg ((part, sub_operands) ∷ rounds) value entry =
      let counted = sub.result sub_odg sub_operands entry in
      join_counts sub_odg rounds (add64 value counted.value) counted

  module _ (doubles : Doubles) (boost : Labelling) (tracker : Tracker) where
    abbrev pub join_var : QueryGraph r tries S → List Trie → ℕ
    join_var g operands = min_card_label r tries S doubles g operands tracker (isc_operands boost g)

    -- `JoinOperator::evaluate`
    unfoldable pub evaluate_join :
        QueryGraph r tries S
        → List Trie
        → Entry r tries S
        → List (Entry r tries S) × Entry r tries S
    unfolding join_rounds clear_used_entry_poss min_card_label
    evaluate_join g operands entry =
        let eval_var = join_var g operands in
        let sub_odg = remove_var_id g eval_var true in
        join_rounds sub_odg (done r tries S tracker sub_odg) (tracked_var_position tracker eval_var)
          (hash_join operands (var_ids_positions_in_operands g eval_var))
          (clear_used_entry_poss r tries S tracker g entry)

    -- The variant that only counts.
    unfoldable pub count_join : QueryGraph r tries S → List Trie → Entry r tries S → Entry r tries S
    unfolding join_counts clear_used_entry_poss min_card_label
    count_join g operands entry =
        let eval_var = join_var g operands in
        let sub_odg = remove_var_id g eval_var true in
        let (value, left) =
          join_counts sub_odg (hash_join operands (var_ids_positions_in_operands g eval_var)) 0
            (clear_used_entry_poss r tries S tracker g entry) in
        with_value r tries S value left
