-- ===== src/Tests/Graphs.antt =====
-- A graph of three operands and a filter.
use tentris_lib.Prelude.{
  get_elem?, not, ltb, ◌⊎◌, ℕ, ◌+◌, ◌<◌, ◌≡◌, refl, ◌↔◌, Bool, true, false, ◌&&◌, List, [], ◌∷◌,
  map, some, arith, ◌==◌,
}
use tentris_lib.Prelude.Sets.{set_insert, set_erase, mem, count, IsSorted}
use tentris_lib.Graph.{
  Graph, Vertex, Edge, AllEdges, size, vertex_at, operand_var_ids, no_vertex, is_filter,
  is_assignment,
}
use tentris_lib.Graph.Prune.{prune_graph, dependents, pushed}
use tentris_lib.Graph.Prune.Correct.{Depends, prune_graph_correct}
use tentris_lib.Graph.Build.{add_assignment, merge_graphs}
use tentris_lib.Graph.Build.Merge.{merge_graphs_lem}
use tentris_lib.Graph.Variables.{
  positions_from, lonely_var_ids, filters_for_evaluation, assignments_for_evaluation,
}
use tentris_lib.Graph.Variables.Ready.{
  OnlyInFilters, OnlyResult, NoneInOperands, filters_for_evaluation_correct,
  assignments_for_evaluation_correct,
}
use tentris_lib.Graph.Prune.Correct.{Leads}
use tentris_lib.Graph.Remove.{positions_after, remove_vertices}
use tentris_lib.Graph.Remove.Correct.{remove_vertices_correct}
use tentris_lib.Graph.Variables.Lonely.{all_var_ids, lonely_var_ids_lem}

abbrev operand : List ℕ → Vertex ℕ ℕ
operand var_ids =
    let v : Vertex ℕ ℕ = no_vertex in record v { var_ids = var_ids; slice_key = some 0 }

abbrev filter : List ℕ → Vertex ℕ ℕ
filter var_ids =
    let v : Vertex ℕ ℕ = no_vertex in record v { var_ids = var_ids; filter_expression = some 0 }

abbrev edge : ℕ → ℕ → ℕ → Bool → Edge
edge s t x opt = record { source = s; target = t; var_id = x; is_opt = opt }

-- The first two operands join on 101, the third is optional, and the filter reads 102.
abbrev graph : Graph ℕ ℕ
graph = record {
  vertices =
      operand (101 ∷ 102 ∷ [])
      ∷ operand (101 ∷ [])
      ∷ operand (101 ∷ 103 ∷ [])
      ∷ filter (102 ∷ [])
      ∷ [];
  edges = edge 0 1 101 false ∷ edge 1 0 101 false ∷ edge 0 2 101 true ∷ edge 0 3 102 false ∷ [];
  removed_var_ids = [];
}

-- The same graph and an assignment to 104.
abbrev with_assignment : Graph ℕ ℕ
with_assignment =
    (add_assignment graph (104 ∷ []) (record { expression = 0; result_var_id = 104 })).0

-- Without the second operand, the first one and its filter go; the optional edge keeps the third.
pruned : prune_graph graph (1 ∷ []) ≡ some (2 ∷ [])
unfolding prune_graph pushed
pruned = refl

lonely : lonely_var_ids graph ≡ 103 ∷ []
unfolding lonely_var_ids set_insert set_erase
lonely = refl

edges_inside : AllEdges (λ e. e.target < size graph) graph.edges
edges_inside = (omega arith, (omega arith, (omega arith, (omega arith, tt))))

prune_graph_correct_example :
    (kept : List ℕ) × (prune_graph graph (1 ∷ []) ≡ some kept)
    × ((v : ℕ) → (mem v kept ≡ true) ↔ ((v < size graph) × ¬ Depends graph.edges (1 ∷ []) v))
prune_graph_correct_example = prune_graph_correct graph (1 ∷ []) (omega arith) edges_inside

merge_graphs_lem_example :
    ((v : ℕ)
      → v < size graph
      → (vertex_at (merge_graphs graph graph).vertices v ≡ vertex_at graph.vertices v)
        × (dependents (merge_graphs graph graph).edges v ≡ dependents graph.edges v))
    × ((v : ℕ)
        → (vertex_at (merge_graphs graph graph).vertices (size graph + v)
            ≡ vertex_at graph.vertices v)
          × (dependents (merge_graphs graph graph).edges (size graph + v)
              ≡ map (◌+◌ (size graph)) (dependents graph.edges v)))
merge_graphs_lem_example = merge_graphs_lem graph graph (ground arith)

lonely_var_ids_lem_example :
    IsSorted (lonely_var_ids graph)
    × ((x : ℕ) → mem x (lonely_var_ids graph) ≡ (count x (all_var_ids graph.vertices) == 1))
lonely_var_ids_lem_example = lonely_var_ids_lem graph

filters_for_evaluation_correct_example :
    (mem 3 (filters_for_evaluation graph (0 ∷ 1 ∷ 3 ∷ [])) ≡ true) ↔ (
      (mem 3 (0 ∷ 1 ∷ 3 ∷ []) ≡ true)
      × (is_filter graph 3 ≡ true)
      × ((x : ℕ) → mem x (operand_var_ids graph 3) ≡ true → OnlyInFilters graph x))
filters_for_evaluation_correct_example =
    filters_for_evaluation_correct graph (0 ∷ 1 ∷ 3 ∷ []) 3 (omega arith)

assignments_for_evaluation_correct_example :
    (mem 4 (assignments_for_evaluation with_assignment (0 ∷ 4 ∷ [])) ≡ true) ↔ (
      (mem 4 (0 ∷ 4 ∷ []) ≡ true)
      × (is_assignment with_assignment 4 ≡ true)
      × (OnlyResult with_assignment 4
          ⊎ NoneInOperands with_assignment (operand_var_ids with_assignment 4)))
assignments_for_evaluation_correct_example =
    assignments_for_evaluation_correct with_assignment (0 ∷ 4 ∷ []) 4

-- Without 101, the second operand is gone.
after_101 : positions_after graph 101 true ≡ 0 ∷ 2 ∷ 3 ∷ []
unfolding positions_after positions_from
after_101 = refl

remove_vertices_correct_example :
    (kept : List ℕ) × ((p : ℕ) → mem p kept ≡ (ltb p (size graph) && not (mem p (1 ∷ []))))
    × ((i p : ℕ)
        → get_elem? kept i ≡ some p
        → vertex_at (remove_vertices graph (1 ∷ [])).vertices i ≡ vertex_at graph.vertices p)
    × ((i j p q : ℕ)
        → get_elem? kept i ≡ some p
        → get_elem? kept j ≡ some q
        → Leads (remove_vertices graph (1 ∷ [])).edges i j ↔ Leads graph.edges p q)
remove_vertices_correct_example = remove_vertices_correct graph (1 ∷ [])
