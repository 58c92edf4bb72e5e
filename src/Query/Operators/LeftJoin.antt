-- ===== src/Query/Operators/LeftJoin.antt =====
-- The left join over one variable (LeftJoinOperator.hpp).
use tentris_lib.Prelude.{
  ℕ, suc, Bool, true, false, not, ◌&&◌, ◌||◌, List, [], ◌∷◌, ◌++◌, Option, none, some,
  if◌then◌else◌, ◌==◌, ltb, length,
}
use tentris_lib.Prelude.Words.{add64}
use tentris_lib.Prelude.Sets.{set_insert_all}
use tentris_lib.Rdf.{Rdf}
use tentris_lib.Graph.{is_expression, operand_var_ids}
use tentris_lib.Graph.Prune.{prune_graph}
use tentris_lib.Graph.Remove.{remove_var_id}
use tentris_lib.Graph.Variables.{var_ids_positions_in_operands}
use tentris_lib.Graph.Components.{Labelling, part, isc_operands}
use tentris_lib.Query.Registry.{Tracker, tracked_var_position}
use tentris_lib.Query.Operators.{
  Tries, Entry, QueryGraph, SubOperators, operand_at, done, clear_used_entry_poss, write_part,
  with_value,
}
use tentris_lib.Query.Operators.Cardinality.{Doubles, min_card_label_optional}

-- `front` of a vector that is not empty.
abbrev pub front : List ℕ → ℕ
front [] = 0
front (x ∷ xs) = x

module _ (r : Rdf) (tries : Tries r.Node) (S : Type 0) (sub : SubOperators r tries S) where
  open r use {Node, Variable}
  open tries use {Trie, is_empty, depth, hash_join, hash_join_optional}

  -- The positions of the empty operands.
  unfoldable pub empty_positions : ℕ → List Trie → List ℕ
  empty_positions pos [] = []
  empty_positions pos (operand ∷ operands) =
      let rest = empty_positions (suc pos) operands in if is_empty operand then pos ∷ rest else rest

  -- The fuel of `prune_graph` never runs out.
  abbrev pub or_nothing : Option (List ℕ) → List ℕ
  or_nothing none = []
  or_nothing (some positions) = positions

  unfoldable pub kept_tries : QueryGraph r tries S → List Trie → List ℕ → List Trie
  kept_tries g operands [] = []
  kept_tries g operands (pos ∷ positions) =
      let rest = kept_tries g operands positions in
      let operand = operand_at r tries S operands pos in
      if ltb 0 (depth operand) || is_expression g pos then operand ∷ rest else rest

  -- `prune_empty`: the graph without what depends on empty operands, and its operands.
  unfoldable pub prune_empty : QueryGraph r tries S → List Trie → QueryGraph r tries S × List Trie
  unfolding empty_positions kept_tries
  prune_empty g operands =
      let positions = or_nothing (prune_graph g (empty_positions 0 operands)) in
      ((part g positions).0, kept_tries g operands positions)

  -- The loop of `non_opt_evaluated`.
  unfoldable pub at_most_one_var : QueryGraph r tries S → List ℕ → List ℕ → Bool
  at_most_one_var g [] vars = true
  at_most_one_var g (pos ∷ positions) vars =
      let more = set_insert_all (operand_var_ids g pos) vars in
      let later = at_most_one_var g positions more in if ltb 1 (length more) then false else later

  module _ (doubles : Doubles) (boost : Labelling) (tracker : Tracker) where
    abbrev pub non_opt_evaluated : QueryGraph r tries S → Bool
    non_opt_evaluated g = at_most_one_var g (isc_operands boost g) []

    module _ (g : QueryGraph r tries S) (eval_var : ℕ) (evaluated : Bool) where
      -- `clear_used_entry_poss` and `set_value(1)` at the end of a round.
      abbrev pub reset : Entry r tries S → Entry r tries S
      reset entry = with_value r tries S 1 (clear_used_entry_poss r tries S tracker g entry)

      -- What one round yields, and the entry that it leaves.
      unfoldable pub left_join_round :
          Node → List Trie → Entry r tries S → List (Entry r tries S) × Entry r tries S
      unfolding prune_empty
      left_join_round part sub_operands entry =
          let written = write_part r tries S (tracked_var_position tracker eval_var) part entry in
          let (pruned_odg, pruned_operands) = prune_empty g sub_operands in
          let sub_odg = remove_var_id pruned_odg eval_var true in
          let counted = sub.result sub_odg pruned_operands written in
          let (yielded, left) = sub.yields sub_odg pruned_operands written in
          let counted_alone = with_value r tries S 1 counted in
          let left_alone = with_value r tries S 1 left in
          if done r tries S tracker sub_odg
          then (if not (counted.value == 0)
              then (counted ∷ [], counted)
              else if evaluated
              then (counted_alone ∷ [], counted_alone)
              else ([], counted))
          else if (length yielded == 0) && evaluated
          then (left_alone ∷ [], left_alone)
          else (yielded, left)

      unfoldable pub left_join_rounds :
          List (Node × List Trie) → Entry r tries S → List (Entry r tries S) × Entry r tries S
      unfolding left_join_round clear_used_entry_poss
      left_join_rounds [] entry = ([], entry)
      left_join_rounds ((part, sub_operands) ∷ rounds) entry =
          let (yielded, left) = left_join_round part sub_operands entry in
          let (later, last) = left_join_rounds rounds (reset left) in (yielded ++ later, last)

      -- The loop of the variant that only counts: the operands are those before pruning.
      unfoldable pub left_join_counts :
          List (Node × List Trie) → ℕ → Entry r tries S → ℕ × Entry r tries S
      unfolding prune_empty
      left_join_counts [] value entry = (value, entry)
      left_join_counts ((part, sub_operands) ∷ rounds) value entry =
          let (pruned_odg, pruned_operands) = prune_empty g sub_operands in
          let sub_odg = remove_var_id pruned_odg eval_var true in
          let counted = sub.result sub_odg sub_operands entry in
          left_join_counts rounds (add64 value counted.value) counted

    -- `LeftJoinOperator::evaluate`
    unfoldable pub evaluate_left_join :
        QueryGraph r tries S
        → List Trie
        → Entry r tries S
        → List (Entry r tries S) × Entry r tries S
    unfolding left_join_rounds at_most_one_var clear_used_entry_poss min_card_label_optional
    evaluate_left_join g operands entry =
        let isc_ops = isc_operands boost g in
        let eval_var = min_card_label_optional r tries S doubles g operands tracker isc_ops in
        left_join_rounds g eval_var (non_opt_evaluated g)
          (hash_join_optional operands (var_ids_positions_in_operands g eval_var) isc_ops)
          (clear_used_entry_poss r tries S tracker g entry)

    -- The first variable of the first operand of the component.
    abbrev pub front_var : QueryGraph r tries S → ℕ
    front_var g = front (operand_var_ids g (front (isc_operands boost g)))

    -- The variant that only counts.
    unfoldable pub count_left_join :
        QueryGraph r tries S → List Trie → Entry r tries S → Entry r tries S
    unfolding left_join_counts at_most_one_var clear_used_entry_poss
    count_left_join g operands entry =
        let isc_ops = isc_operands boost g in
        let eval_var = front_var g in
        let (value, left) =
          left_join_counts g eval_var (non_opt_evaluated g)
            (hash_join_optional operands (var_ids_positions_in_operands g eval_var) isc_ops) 0
            (clear_used_entry_poss r tries S tracker g entry) in
        with_value r tries S (if (left.value == 0) && non_opt_evaluated g then 1 else value) left
