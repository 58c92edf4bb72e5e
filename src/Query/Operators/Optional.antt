-- ===== src/Query/Operators/Optional.antt =====
-- Solutions whose optional part has no solution.
use tentris_lib.Prelude.{ℕ, true, List}
use tentris_lib.Rdf.{Rdf}
use tentris_lib.Graph.Remove.{remove_var_id}
use tentris_lib.Graph.Components.{Labelling}
use tentris_lib.Query.Registry.{Tracker}
use tentris_lib.Query.Operators.{Tries, QueryGraph, SubOperators}
use tentris_lib.Query.Operators.Cardinality.{Doubles}
use tentris_lib.Query.Operators.LeftJoin.{prune_empty}

module _ (r : Rdf) (tries : Tries r.Node) (S : Type 0) (sub : SubOperators r tries S) where
  open r use {Node}
  open tries use {Trie, hash_join_optional}

  module _ (doubles : Doubles) (boost : Labelling) (tracker : Tracker) where
    -- What is left of a round of the counting variant.
    abbrev pub left_of_round : QueryGraph r tries S → ℕ → List Trie → QueryGraph r tries S
    left_of_round g v operands = remove_var_id (prune_empty r tries S sub g operands).0 v true
