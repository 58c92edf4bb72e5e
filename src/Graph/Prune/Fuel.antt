-- ===== src/Graph/Prune/Fuel.antt =====
-- The loop of `prune_graph` ends.
use tentris_lib.Prelude.{
  ℕ, zero, suc, ◌+◌, ◌≤◌, ◌≡◌, refl, false, not, ◌&&◌, List, [], ◌∷◌, ◌++◌, some, arith, length,
  length-append, if◌then◌else◌, Bool-cases, inl, inr,
}
use tentris_lib.Prelude.Sets.{mem}
use tentris_lib.Graph.{Edge}
use tentris_lib.Graph.Prune.{pushed, prune_loop}

-- The edges that can still add to the deque.
abbrev pub unexpanded : List Edge → List ℕ → ℕ
unexpanded [] pruned = 0
unexpanded (e ∷ es) pruned =
    if not (mem e.source pruned) && not e.is_opt
    then suc (unexpanded es pruned)
    else unexpanded es pruned

unexpanded-visit :
    (es : List Edge) (pruned : List ℕ) (v : ℕ)
    → mem v pruned ≡ false
    → length (pushed es v) + unexpanded es (v ∷ pruned) ≡ unexpanded es pruned
unfolding pushed
unexpanded-visit [] pruned v h = omega arith
unexpanded-visit (e ∷ es) pruned v h = ground (arith, unexpanded-visit es pruned v h)

unexpanded-nil : (es : List Edge) → unexpanded es [] ≤ length es
unexpanded-nil [] = omega arith
unexpanded-nil (e ∷ es) = ground (arith, unexpanded-nil es)

-- Whatever was visited before, the loop returns if its fuel is the number of waiting vertices and of
-- edges that can still add one.
prune_loop-ends :
    (es : List Edge) (fuel : ℕ) (pruned to_check : List ℕ)
    → length to_check + unexpanded es pruned ≤ fuel
    → (all : List ℕ) × (prune_loop es fuel pruned to_check ≡ some all)
unfolding prune_loop
prune_loop-ends es fuel pruned [] h = (pruned, refl)
prune_loop-ends es zero pruned (v ∷ vs) h = absurd (omega arith)
prune_loop-ends es (suc fuel) pruned (v ∷ vs) h = elim (Bool-cases (mem v pruned)) [
  | inl seen ↦ rw (seen, prune_loop) (prune_loop-ends es fuel pruned vs (omega arith))
  | inr new ↦
      rw (new, prune_loop)
        (prune_loop-ends es fuel (v ∷ pruned) (vs ++ pushed es v)
          (omega (arith, length-append vs (pushed es v), unexpanded-visit es pruned v new)))
]

pub prune_loop-total :
    (es : List Edge) (starts : List ℕ)
    → (all : List ℕ) × (prune_loop es (length starts + length es) [] starts ≡ some all)
prune_loop-total es starts =
    prune_loop-ends es (length starts + length es) [] starts (omega (arith, unexpanded-nil es))
