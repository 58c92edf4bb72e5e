-- ===== src/Query/Operators.antt =====
-- What the operators on dependency graphs share (libs/query/src/dice/query/operators/Operator.hpp).
-- An operator yields entries and leaves the shared entry changed; an operator that only counts gives
-- the shared entry back. The operator that evaluates what is left of the graph is an argument.
use tentris_lib.Prelude.{
  ◌%◌, ◌^◌, ℕ, Bool, true, false, not, ◌&&◌, List, [], ◌∷◌, ◌++◌, Option, none, some, if◌then◌else◌,
  ◌==◌, set, get_or,
}
use tentris_lib.Rdf.{Rdf}
use tentris_lib.Expressions.Ast.{Expr}
use tentris_lib.Expressions.Evaluate.{evaluate, update_value, clone}
use tentris_lib.Graph.{Graph}
use tentris_lib.Graph.Variables.{operands_var_ids_set}
use tentris_lib.Query.Entry.{CountedEntry}
use tentris_lib.Query.Registry.{Tracker, positions_of_tracked, all_tracked_vars_done}
pub mod Cardinality
pub mod Next
pub mod Join
pub mod LeftJoin
pub mod Union
pub mod Filter
pub mod Done
pub mod Agreement
pub mod Optional
pub mod Alone
pub mod Dispatch

-- What the operators use of the hypertrie library, over the key parts.
pub record Tries (Node : Type 0) : Type 1 where
  pub Trie : Type 0
  pub scalar : Bool → Trie
  pub is_empty : Trie → Bool
  pub depth : Trie → ℕ
  pub trie_size : Trie → ℕ
  pub entries : Trie → List (List Node)
  pub trie_hash : Trie → ℕ
  -- the cardinalities of the dimensions at the positions
  pub get_cards : Trie → List ℕ → List ℕ
  -- the key parts of a join with the operands that are left at each, from the positions of the
  -- joined variable in every operand; the other join keeps key parts that optional operands lack
  pub hash_join : List Trie → List (List ℕ) → List (Node × List Trie)
  pub hash_join_optional : List Trie → List (List ℕ) → List ℕ → List (Node × List Trie)

module _ (r : Rdf) (tries : Tries r.Node) (S : Type 0) where
  open r use {Node, Variable, null_node, ebv}
  open tries use {Trie, scalar}

  abbrev pub Entry : Type 0
  Entry = CountedEntry (List Node)

  abbrev pub QueryGraph : Type 0
  QueryGraph = Graph (Expr Node Variable) S

  -- `get_sub_operator` for graphs with tracked variables, and without.
  pub record SubOperators : Type 0 where
    pub yields : QueryGraph → List Trie → Entry → List Entry × Entry
    pub result : QueryGraph → List Trie → Entry → Entry

  -- `operands[pos]`, with the true scalar where the code has no defined behaviour.
  abbrev pub operand_at : List Trie → ℕ → Trie
  operand_at operands pos = get_or operands pos (scalar true)

  -- `extract_operands`, from the original positions of a component.
  unfoldable pub extract_operands : List ℕ → List Trie → List Trie
  extract_operands [] operands = []
  extract_operands (original_op_pos ∷ positions) operands =
      operand_at operands original_op_pos ∷ extract_operands positions operands

  abbrev pub done : Tracker → QueryGraph → Bool
  done tracker g = all_tracked_vars_done (operands_var_ids_set g) tracker.tracked_vars

  unfoldable pub clear_positions : List ℕ → List Node → List Node
  clear_positions [] key = key
  clear_positions (result_pos ∷ positions) key =
      clear_positions positions (set key result_pos null_node)

  unfoldable pub clear_used_entry_poss : Tracker → QueryGraph → Entry → Entry
  unfolding clear_positions positions_of_tracked operands_var_ids_set
  clear_used_entry_poss tracker g entry = record entry {
    key =
        clear_positions (positions_of_tracked (operands_var_ids_set g) tracker.tracked_vars_pos)
          entry.key;
  }

  -- `entry_arg[proj_var_pos] = current_key_part`, for a variable that has a position, which is put in
  -- a `uint8_t`.
  abbrev pub write_part : Option ℕ → Node → Entry → Entry
  write_part none part entry = entry
  write_part (some pos) part entry = record entry { key = set entry.key (pos % 2 ^ 8) part }

  abbrev pub with_value : ℕ → Entry → Entry
  with_value value entry = record entry { value = value }

  -- `if (entry.value()) co_yield entry`
  abbrev pub yield_counted : Entry → List Entry
  yield_counted entry = if entry.value == 0 then [] else entry ∷ []

  -- A filter at a key. The operators copy the `FilterExpression`, which shares the expression; a filter
  -- has no aggregates, so that what it was told of before makes no difference.
  abbrev pub filter_holds : Expr Node Variable → List Node → Bool
  filter_holds f key = ebv (evaluate r (update_value r f key))
