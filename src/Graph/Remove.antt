-- ===== src/Graph/Remove.antt =====
-- Graphs without some of the vertices or without a variable. The new graph is made through
-- subgraphs, which keep the vertices' order and every edge between vertices that are kept. The
-- graph is taken to have no parent, so that its local and its global descriptors agree.
use tentris_lib.Prelude.{
  ℕ, suc, Bool, not, ◌||◌, List, [], ◌∷◌, map, Option, none, some, if◌then◌else◌, ◌==◌,
}
use tentris_lib.Prelude.Sets.{set_insert}
use tentris_lib.Graph.{Graph, Vertex, Edge, size, vertex_at, is_expression_vertex, range_from}
use tentris_lib.Graph.Prune.{kept_vertices}
use tentris_lib.Graph.Variables.{positions_from}
pub mod Positions
pub mod Correct

-- The descriptor that a vertex gets in the subgraph: its place among the vertices that are kept.
abbrev pub place_of : ℕ → List ℕ → Option ℕ
place_of v [] = none
place_of v (x ∷ xs) = let later = place_of v xs in if v == x then some 0 else next_place later
  where
    next_place : Option ℕ → Option ℕ
    next_place none = none
    next_place (some i) = some (suc i)

-- An edge is kept if both its ends are.
abbrev pub keep_edge : Edge → Option ℕ → Option ℕ → List Edge → List Edge
keep_edge e (some source) (some target) rest =
    record { source = source; target = target; var_id = e.var_id; is_opt = e.is_opt } ∷ rest
keep_edge e _ _ rest = rest

unfoldable pub induced_edges : List ℕ → List Edge → List Edge
induced_edges kept [] = []
induced_edges kept (e ∷ es) =
    keep_edge e (place_of e.source kept) (place_of e.target kept) (induced_edges kept es)

-- `std::erase_if` on the variables of a vertex.
unfoldable pub erase_var : ℕ → List ℕ → List ℕ
erase_var var_id [] = []
erase_var var_id (v ∷ vs) = let rest = erase_var var_id vs in if v == var_id then rest else v ∷ rest

-- `std::any_of`: a variable other than the one that is removed.
unfoldable pub any_other : ℕ → List ℕ → Bool
any_other var_id [] = Bool.false
any_other var_id (v ∷ vs) = not (v == var_id) || any_other var_id vs

abbrev pub clear_label : ℕ → Edge → Edge
clear_label var_id e = record e { var_id = if e.var_id == var_id then 0 else e.var_id }

module _ {F S : Type 0} where
  unfoldable pub remove_vertices : Graph F S → List ℕ → Graph F S
  unfolding kept_vertices induced_edges
  remove_vertices g vertices =
      let kept = kept_vertices vertices (range_from 0 (size g)) in
      record {
        vertices = map (vertex_at g.vertices) kept;
        edges = induced_edges kept g.edges;
        removed_var_ids = [];
      }

  abbrev pub stays : ℕ → Bool → Vertex F S → Bool
  stays var_id remove_op_vertices v =
      not remove_op_vertices || (is_expression_vertex v || any_other var_id v.var_ids)

  -- The original positions of the new graph's vertices.
  unfoldable pub positions_after : Graph F S → ℕ → Bool → List ℕ
  unfolding any_other
  positions_after g var_id remove_op_vertices =
      positions_from (stays var_id remove_op_vertices) 0 g.vertices

  abbrev pub without_var : ℕ → Vertex F S → Vertex F S
  without_var var_id v = record v { var_ids = erase_var var_id v.var_ids }

  unfoldable pub remove_var_id : Graph F S → ℕ → Bool → Graph F S
  unfolding positions_after induced_edges
  remove_var_id g var_id remove_op_vertices =
      let kept = positions_after g var_id remove_op_vertices in
      record {
        vertices = map (λ p. without_var var_id (vertex_at g.vertices p)) kept;
        edges = map (clear_label var_id) (induced_edges kept g.edges);
        removed_var_ids = set_insert var_id g.removed_var_ids;
      }
