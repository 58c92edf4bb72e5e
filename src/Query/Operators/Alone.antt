-- ===== src/Query/Operators/Alone.antt =====
-- The left join where the optional part never has a solution.
use tentris_lib.Prelude.{
  ℕ, ◌^◌, ◌<◌, ◌≡◌, Bool, true, not, ◌&&◌, List, [], ◌∷◌, Option, none, some, if◌then◌else◌, ◌==◌,
  length, set,
}
use tentris_lib.Rdf.{Rdf}
use tentris_lib.Graph.Components.{Labelling}
use tentris_lib.Query.Registry.{Tracker}
use tentris_lib.Query.Operators.{Tries, Entry, QueryGraph, SubOperators, with_value}
use tentris_lib.Query.Operators.Cardinality.{Doubles}

-- The positions fit in a `uint8_t`.
abbrev pub AllNarrow : List (ℕ × ℕ) → Type 0
AllNarrow [] = Unit
AllNarrow ((var, pos) ∷ positions) = (pos < 2 ^ 8) × AllNarrow positions

module _ (r : Rdf) (tries : Tries r.Node) (S : Type 0) where
  open r use {Node, null_node}

  -- A key with a part at the position of a variable, if it has one.
  abbrev pub at_position : Option ℕ → Node → List Node → List Node
  at_position none part key = key
  at_position (some pos) part key = set key pos part

  -- One solution, of the part alone.
  abbrev pub alone : Option ℕ → List Node → Node × List tries.Trie → Entry r tries S
  alone position key round = record { key = at_position position round.0 key; value = 1 }

  module _ (sub : SubOperators r tries S) (doubles : Doubles) (boost : Labelling)
      (tracker : Tracker) where
    open tries use {Trie, hash_join_optional}

    -- No optional part has a solution: nothing is yielded, and 0 is counted.
    pub record FindsNothing : Type 0 where
      pub yields_nothing :
          (g : QueryGraph r tries S) (operands : List Trie) (entry : Entry r tries S)
          → sub.yields g operands entry ≡ ([], entry)
      pub counts_nothing :
          (g : QueryGraph r tries S) (operands : List Trie) (entry : Entry r tries S)
          → sub.result g operands entry ≡ with_value r tries S 0 entry

    abbrev round_of :
        Bool
        → Entry r tries S
        → List (Entry r tries S) × Entry r tries S
        → List (Entry r tries S) × Entry r tries S
    round_of all_done counted (yielded, left) =
        if all_done
        then (if not (counted.value == 0)
            then (counted ∷ [], counted)
            else if true
            then (with_value r tries S 1 counted ∷ [], with_value r tries S 1 counted)
            else ([], counted))
        else if (length yielded == 0) && true
        then (with_value r tries S 1 left ∷ [], with_value r tries S 1 left)
        else (yielded, left)
