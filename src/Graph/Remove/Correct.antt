-- ===== src/Graph/Remove/Correct.antt =====
-- What is left of a graph without a variable.
use tentris_lib.Prelude.{
  ℕ, zero, suc, ◌≡◌, ◌≢◌, ap, ◌↔◌, not, ◌&&◌, List, [], ◌∷◌, map, some, arith, get_elem?, ltb,
}
use tentris_lib.Prelude.Sets.{mem}
use tentris_lib.Graph.{Graph, Vertex, Edge, size, vertex_at, range_from}
use tentris_lib.Graph.Prune.{kept_vertices}
use tentris_lib.Graph.Prune.Correct.{Leads, mem-kept_vertices, mem-range_from}
use tentris_lib.Graph.Remove.{remove_vertices}
use tentris_lib.Graph.Remove.Positions.{kept_vertices-IsSorted, Leads-induced_edges}

-- No edge has the label.
abbrev pub NoLabel : ℕ → List Edge → Type 0
NoLabel x [] = Unit
NoLabel x (e ∷ es) = (e.var_id ≢ x) × NoLabel x es

vertex_at-map :
    {F S : Type 0} (f : ℕ → Vertex F S) (ps : List ℕ) (i p : ℕ)
    → get_elem? ps i ≡ some p
    → vertex_at (map f ps) i ≡ f p
vertex_at-map f [] i p e = absurd (ground arith)
vertex_at-map f (x ∷ xs) zero p e = let same : x ≡ p = ground arith in ap f same
vertex_at-map f (x ∷ xs) (suc i) p e = vertex_at-map f xs i p e

-- Removing vertices keeps the others, with their properties, and two vertices that are kept depend
-- on one another as before.
pub remove_vertices_correct :
    {F S : Type 0} (g : Graph F S) (vertices : List ℕ)
    → (kept : List ℕ) × ((p : ℕ) → mem p kept ≡ (ltb p (size g) && not (mem p vertices)))
      × ((i p : ℕ)
          → get_elem? kept i ≡ some p
          → vertex_at (remove_vertices g vertices).vertices i ≡ vertex_at g.vertices p)
      × ((i j p q : ℕ)
          → get_elem? kept i ≡ some p
          → get_elem? kept j ≡ some q
          → Leads (remove_vertices g vertices).edges i j ↔ Leads g.edges p q)
unfolding remove_vertices
remove_vertices_correct g vertices =
    let kept = kept_vertices vertices (range_from 0 (size g)) in
    (
      kept,
      λ p. ground (
        arith,
        mem-kept_vertices p vertices (range_from 0 (size g)),
        mem-range_from p 0 (size g),
      ),
      λ i p e. vertex_at-map (vertex_at g.vertices) kept i p e,
      λ i j p q a b.
          Leads-induced_edges kept g.edges i j p q (kept_vertices-IsSorted vertices 0 (size g)) a b,
    )
