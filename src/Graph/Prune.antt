-- ===== src/Graph/Prune.antt =====
-- `prune_graph`: the operands that are empty, and those that depend on them, are dropped.
use mathlib.Core.Option
use tentris_lib.Prelude.{
  ℕ, zero, suc, Bool, not, ◌&&◌, List, [], ◌∷◌, ◌++◌, Option, none, some, if◌then◌else◌, ◌==◌,
  length, ◌+◌,
}
use tentris_lib.Prelude.Sets.{mem}
use tentris_lib.Graph.{Graph, Edge, size, range_from, narrow}
pub mod Fuel
pub mod Correct

-- The vertices that depend on `v` directly: the targets of the edges out of it that are not optional.
unfoldable pub dependents : List Edge → ℕ → List ℕ
dependents [] v = []
dependents (e ∷ es) v =
    if e.source == v && not e.is_opt then e.target ∷ dependents es v else dependents es v

-- The loop over the edges out of `v`: what it puts in the deque.
unfoldable pub pushed : List Edge → ℕ → List ℕ
pushed [] v = []
pushed (e ∷ es) v =
    if e.source == v && not e.is_opt then narrow e.target ∷ pushed es v else pushed es v

-- The `while` loop: `to_check` is the deque, `pruned` the set of visited vertices. `none` means that
-- the fuel ran out.
unfoldable pub prune_loop : List Edge → ℕ → List ℕ → List ℕ → Option (List ℕ)
prune_loop es fuel pruned [] = some pruned
prune_loop es zero pruned (operand ∷ to_check) = none
prune_loop es (suc fuel) pruned (operand ∷ to_check) =
    let skip = prune_loop es fuel pruned to_check in
    let visit = prune_loop es fuel (operand ∷ pruned) (to_check ++ pushed es operand) in
    if mem operand pruned then skip else visit

-- The vertices of the new graph, which are those not in the list.
unfoldable pub kept_vertices : List ℕ → List ℕ → List ℕ
kept_vertices pruned [] = []
kept_vertices pruned (v ∷ vs) =
    let rest = kept_vertices pruned vs in if not (mem v pruned) then v ∷ rest else rest

-- The second loop: the vertices of the new graph, which are those not pruned; the set looks for a
-- `uint8_t`.
unfoldable pub not_pruned_of : List ℕ → List ℕ → List ℕ
not_pruned_of pruned [] = []
not_pruned_of pruned (v ∷ vs) =
    let rest = not_pruned_of pruned vs in if not (mem (narrow v) pruned) then v ∷ rest else rest

module _ {F S : Type 0} where
  -- The positions that stay, in order, after the loops; the fuel is the number of vertices that the
  -- call names and of the graph's edges, which is enough (`prune_loop-total`).
  unfoldable pub prune_graph : Graph F S → List ℕ → Option (List ℕ)
  unfolding prune_loop not_pruned_of
  prune_graph g empty_operands =
      Option.map (λ pruned. not_pruned_of pruned (range_from 0 (size g)))
        (prune_loop g.edges (length empty_operands + length g.edges) [] empty_operands)
