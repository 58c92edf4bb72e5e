-- ===== src/Tests/Optionals.antt =====
-- The operators on graphs with an optional part that has no solution.
use tentris_lib.Prelude.{ℕ, zero, suc, ◌≡◌, true, List, [], ◌∷◌, ◌<◌, arith}
use tentris_lib.Prelude.Sets.{mem}
use tentris_lib.Graph.{AllEdges, size}
use tentris_lib.Graph.Components.{isc_operands, union_components, ends, label_of}
use tentris_lib.Graph.Components.Partition.{
  AreConnected, vertex_count, edge_count, union_components_partition,
}
use tentris_lib.Graph.Components.Independent.{isc_operands-IsIndependent}
use tentris_lib.Query.Operators.{QueryGraph}
use tentris_lib.Query.Registry.{Tracker}
use tentris_lib.Query.Operators.{SubOperators}
use tentris_lib.Tests.Toy.{integer, toy}
use tentris_lib.Tests.Library.{Table, toy_tries, toy_boost}
use tentris_lib.Tests.Operators.{operand, apart}

-- An operand, and an optional one that depends on it.
abbrev optional : QueryGraph toy toy_tries ℕ
optional = record {
  vertices = operand (1 ∷ []) ∷ operand (1 ∷ 2 ∷ []) ∷ [];
  edges = (record { source = 0; target = 1; var_id = 1; is_opt = true }) ∷ [];
  removed_var_ids = [];
}

-- The optional operand has a solution at 7, none at 9.
abbrev tables : List Table
tables = ((integer 7 ∷ []) ∷ (integer 9 ∷ []) ∷ []) ∷ ((integer 7 ∷ integer 1 ∷ []) ∷ []) ∷ []

apart-AreConnected : AreConnected toy_boost apart
apart-AreConnected = record { few = omega arith; labels = labels; edges = tt }
  where
    labels :
        let (num, components) = toy_boost.connected_components (size apart) (ends apart.edges) in
        (v : ℕ) → v < size apart → label_of components v < num
    labels zero lt = omega arith
    labels (suc zero) lt = omega arith
    labels (suc (suc v)) lt = absurd (omega (arith, lt))

union_components_partition_example :
    (vertex_count 1 (union_components toy_boost apart) ≡ 1)
    × (edge_count (union_components toy_boost apart) ≡ 0)
union_components_partition_example =
    union_components_partition toy_boost apart 1 apart-AreConnected (omega arith) (omega arith)

isc_operands-IsIndependent_example :
    AllEdges
      (λ e.
        mem e.target (isc_operands toy_boost optional) ≡ true
        → mem e.source (isc_operands toy_boost optional) ≡ true)
      optional.edges
isc_operands-IsIndependent_example =
    isc_operands-IsIndependent toy_boost optional (omega arith) (omega arith, tt)

-- The variable 1 is tracked, and no optional part has a solution.
abbrev tracks_1 : Tracker
tracks_1 = record { tracked_vars = 1 ∷ []; tracked_vars_pos = (1, 0) ∷ [] }

abbrev finds_nothing : SubOperators toy toy_tries ℕ
finds_nothing = record {
  yields = λ g operands entry. ([], entry);
  result = λ g operands entry. record entry { value = 0 };
}
