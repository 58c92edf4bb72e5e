-- ===== src/Graph/Build/Merge.antt =====
-- The merged graph holds both graphs side by side.
use tentris_lib.Prelude.{
  ℕ, zero, suc, ◌+◌, ◌<◌, ◌≡◌, refl, ◌∙◌, ap, List, [], ◌∷◌, ◌++◌, map, arith, length, append-nil,
}
use tentris_lib.Graph.{Graph, Vertex, Edge, size, vertex_at}
use tentris_lib.Graph.Build.{shift_edge, merge_graphs}
use tentris_lib.Graph.Prune.{dependents}

vertex_at-left :
    {F S : Type 0} (vs ws : List (Vertex F S)) (i : ℕ)
    → i < length vs
    → vertex_at (vs ++ ws) i ≡ vertex_at vs i
vertex_at-left [] ws i h = absurd (omega arith)
vertex_at-left (v ∷ vs) ws zero h = refl
vertex_at-left (v ∷ vs) ws (suc i) h = vertex_at-left vs ws i (omega arith)

vertex_at-right :
    {F S : Type 0} (vs ws : List (Vertex F S)) (i : ℕ)
    → vertex_at (vs ++ ws) (length vs + i) ≡ vertex_at ws i
vertex_at-right [] ws i = ap (vertex_at ws) (omega arith)
vertex_at-right (v ∷ vs) ws i =
    ap (vertex_at (v ∷ (vs ++ ws))) (suc_out (length vs) i) ∙ vertex_at-right vs ws i
  where
    suc_out : (n m : ℕ) → suc n + m ≡ suc (n + m)
    suc_out n m = omega arith

-- Every edge starts and ends at a vertex of the graph.
abbrev pub InRange : ℕ → List Edge → Type 0
InRange n [] = Unit
InRange n (e ∷ es) = (e.source < n) × (e.target < n) × InRange n es

dependents-append :
    (es fs : List Edge) (v : ℕ) → dependents (es ++ fs) v ≡ dependents es v ++ dependents fs v
unfolding dependents
dependents-append [] fs v = refl
dependents-append (e ∷ es) fs v = ground (arith, dependents-append es fs v)

dependents-out : (n v : ℕ) (es : List Edge) → InRange n es → dependents es (n + v) ≡ []
unfolding dependents
dependents-out n v [] h = refl
dependents-out n v (e ∷ es) h = ground (arith, dependents-out n v es h.2)

dependents-shift :
    (n v : ℕ) (es : List Edge)
    → dependents (map (shift_edge n) es) (n + v) ≡ map (◌+◌ n) (dependents es v)
unfolding dependents
dependents-shift n v [] = refl
dependents-shift n v (e ∷ es) = ground (arith, dependents-shift n v es)

dependents-below : (n v : ℕ) (es : List Edge) → v < n → dependents (map (shift_edge n) es) v ≡ []
unfolding dependents
dependents-below n v [] h = refl
dependents-below n v (e ∷ es) h = ground (arith, dependents-below n v es h)

module _ {F S : Type 0} (first second : Graph F S) (ok : InRange (size first) first.edges) where
  -- If the edges of the first graph stay within it, a vertex of the merged graph has the properties
  -- and the dependents that it has in the graph it comes from; those of the second graph are
  -- numbered after those of the first.
  pub merge_graphs_lem :
      ((v : ℕ)
        → v < size first
        → (vertex_at (merge_graphs first second).vertices v ≡ vertex_at first.vertices v)
          × (dependents (merge_graphs first second).edges v ≡ dependents first.edges v))
      × ((v : ℕ)
          → (vertex_at (merge_graphs first second).vertices (size first + v)
              ≡ vertex_at second.vertices v)
            × (dependents (merge_graphs first second).edges (size first + v)
                ≡ map (◌+◌ (size first)) (dependents second.edges v)))
  unfolding merge_graphs
  merge_graphs_lem = (
    λ v h. (
      vertex_at-left first.vertices second.vertices v h,
      dependents-append first.edges (map (shift_edge (size first)) second.edges) v
          ∙ ap (λ l. dependents first.edges v ++ l) (dependents-below (size first) v second.edges h)
          ∙ append-nil (dependents first.edges v),
    ),
    λ v. (
      vertex_at-right first.vertices second.vertices v,
      dependents-append first.edges (map (shift_edge (size first)) second.edges) (size first + v)
          ∙ ap (λ l. l ++ dependents (map (shift_edge (size first)) second.edges) (size first + v))
              (dependents-out (size first) v first.edges ok)
          ∙ dependents-shift (size first) v second.edges,
    ),
  )
