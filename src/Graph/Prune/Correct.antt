-- ===== src/Graph/Prune/Correct.antt =====
-- Which vertices `prune_graph` drops.
use tentris_lib.Prelude.{
  ℕ, zero, suc, ◌+◌, ◌<◌, ◌≡◌, refl, ◌↔◌, Bool, true, false, not, ◌&&◌, ◌||◌, List, [], ◌∷◌, ◌++◌,
  some, arith, length, ◌==◌, Bool-cases, ◌⊎◌, inl, inr, ltb, leb, ◌≤◌, ◌^◌,
}
use tentris_lib.Prelude.Sets.{mem, mem-append}
use tentris_lib.Graph.{Graph, Edge, AllEdges, AllEdges-map, size, range_from}
use tentris_lib.Graph.Narrow.{narrow-small}
use tentris_lib.Graph.Prune.{pushed, prune_loop, kept_vertices, not_pruned_of, prune_graph}
use tentris_lib.Graph.Prune.Fuel.{prune_loop-total}

-- There is an edge from `u` to `v` that is not optional.
abbrev pub Leads : List Edge → ℕ → ℕ → Type 0
Leads [] u v = ⊥
Leads (e ∷ es) u v = (e.source ≡ u) × (e.target ≡ v) × (e.is_opt ≡ false) ⊎ Leads es u v

-- The vertices that depend on the given ones: along edges that are not optional, in any number of
-- steps.
pub data Depends (es : List Edge) (starts : List ℕ) : ℕ → Type 0 where
  start : {v : ℕ} → mem v starts ≡ true → Depends es starts v
  step : {u v : ℕ} → Depends es starts u → Leads es u v → Depends es starts v

mem-pushed :
    (es : List Edge) (u v : ℕ)
    → AllEdges (λ e. e.target < 2 ^ 8) es
    → mem v (pushed es u) ≡ true
    → Leads es u v
unfolding pushed
mem-pushed [] u v small h = absurd (ground arith)
mem-pushed (e ∷ es) u v small h =
    ground (arith, narrow-small e.target small.0, mem-pushed es u v small.1)

pushed-mem :
    (es : List Edge) (u v : ℕ)
    → AllEdges (λ e. e.target < 2 ^ 8) es
    → Leads es u v
    → mem v (pushed es u) ≡ true
unfolding pushed
pushed-mem [] u v small h = absurd h
pushed-mem (e ∷ es) u v small h =
    ground (arith, narrow-small e.target small.0, pushed-mem es u v small.1)

or_regroup : (p q r s : Bool) → (p || (q || r)) ≡ true → ((q || p) || (r || s)) ≡ true
or_regroup p q r s h = ground arith

or_last : (p q r : Bool) → r ≡ true → (p || (q || r)) ≡ true
or_last p q r h = ground arith

module _ (es : List Edge) (small : AllEdges (λ e. e.target < 2 ^ 8) es) where
  sound :
      (starts : List ℕ) (fuel : ℕ) (pruned to_check all : List ℕ)
      → prune_loop es fuel pruned to_check ≡ some all
      → ((v : ℕ) → mem v pruned ≡ true → Depends es starts v)
      → ((v : ℕ) → mem v to_check ≡ true → Depends es starts v)
      → (x : ℕ) → mem x all ≡ true
      → Depends es starts x
  unfolding prune_loop
  sound starts fuel pruned [] all e p q x m = p x (ground arith)
  sound starts zero pruned (v ∷ vs) all e p q x m = absurd (ground arith)
  sound starts (suc fuel) pruned (v ∷ vs) all e p q x m = elim (Bool-cases (mem v pruned)) [
    | inl seen ↦
        sound starts fuel pruned vs all (rw (seen, prune_loop) at e) p (λ w h. q w (ground arith)) x
          m
    | inr new ↦
        let here = q v (ground arith) in
        sound starts fuel (v ∷ pruned) (vs ++ pushed es v) all (rw (new, prune_loop) at e)
          (λ w h. ground (arith, p w, here))
          (λ w h.
            ground (
              arith,
              mem-append w vs (pushed es v),
              q w,
              step {v = w} here,
              mem-pushed es v w small,
            ))
          x m
  ]

  -- Everything that a visited vertex leads to is visited or waits.
  abbrev Closed : List ℕ → List ℕ → Type 0
  Closed pruned to_check =
      (u w : ℕ)
      → mem u pruned ≡ true
      → mem w (pushed es u) ≡ true
      → (mem w pruned || mem w to_check) ≡ true

  mem-cons : (u v : ℕ) (xs : List ℕ) → mem u (v ∷ xs) ≡ true → (u ≡ v) ⊎ (mem u xs ≡ true)
  mem-cons u v xs h = ground arith

  Closed-visit :
      (pruned to_check : List ℕ) (v : ℕ)
      → Closed pruned (v ∷ to_check)
      → Closed (v ∷ pruned) (to_check ++ pushed es v)
  Closed-visit pruned vs v c u w h k = elim (mem-cons u v pruned h) [
    | inl same ↦
        let now : mem w (pushed es v) ≡ true = cc in
        rw mem-append (or_last (mem w (v ∷ pruned)) (mem w vs) (mem w (pushed es v)) now)
    | inr before ↦
        rw mem-append
          (or_regroup (mem w pruned) (w == v) (mem w vs) (mem w (pushed es v)) (c u w before k))
  ]

  complete :
      (fuel : ℕ) (pruned to_check all : List ℕ)
      → prune_loop es fuel pruned to_check ≡ some all
      → Closed pruned to_check
      → Closed all [] × ((x : ℕ) → (mem x pruned || mem x to_check) ≡ true → mem x all ≡ true)
  unfolding prune_loop
  complete fuel pruned [] all e c = (λ u w h k. ground (arith, c u w), λ x h. ground arith)
  complete zero pruned (v ∷ vs) all e c = absurd (ground arith)
  complete (suc fuel) pruned (v ∷ vs) all e c = elim (Bool-cases (mem v pruned)) [
    | inl seen ↦
        let (closed, has) =
          complete fuel pruned vs all (rw (seen, prune_loop) at e)
            (λ u w h k. ground (arith, c u w)) in
        (closed, λ x h. ground (arith, has x))
    | inr new ↦
        let (closed, has) =
          complete fuel (v ∷ pruned) (vs ++ pushed es v) all (rw (new, prune_loop) at e)
            (Closed-visit pruned vs v c) in
        (
          closed,
          λ x h. has x (
              rw mem-append
                (or_regroup (mem x pruned) (x == v) (mem x vs) (mem x (pushed es v)) h)),
        )
  ]

  Depends-mem :
      (starts all : List ℕ)
      → Closed all []
      → ((x : ℕ) → (mem x [] || mem x starts) ≡ true → mem x all ≡ true)
      → {v : ℕ} → Depends es starts v
      → mem v all ≡ true
  Depends-mem starts all closed has (start {v} h) = has v h
  Depends-mem starts all closed has (step {u} {v} d h) =
      ground (arith, closed u v (Depends-mem starts all closed has d) (pushed-mem es u v small h))

not_pruned : {b : Bool} {P : Type 0} → (b ≡ true → P) → ¬ P → b ≡ false
not_pruned {b = true} f no_p = absurd (no_p (f refl))
not_pruned {b = false} f no_p = refl

pub mem-range_from : (v i n : ℕ) → mem v (range_from i n) ≡ (leb i v && ltb v (i + n))
mem-range_from v i zero = ground arith
mem-range_from v i (suc n) = ground (arith, mem-range_from v (suc i) n)

pub mem-kept_vertices :
    (v : ℕ) (pruned vs : List ℕ)
    → mem v (kept_vertices pruned vs) ≡ (mem v vs && not (mem v pruned))
unfolding kept_vertices
mem-kept_vertices v pruned [] = refl
mem-kept_vertices v pruned (w ∷ ws) = ground (arith, mem-kept_vertices v pruned ws)

-- Below 256 vertices, the set finds what it was given.
not_pruned_of-kept_vertices :
    (pruned : List ℕ) (i n : ℕ)
    → i + n ≤ 2 ^ 8
    → not_pruned_of pruned (range_from i n) ≡ kept_vertices pruned (range_from i n)
unfolding not_pruned_of kept_vertices
not_pruned_of-kept_vertices pruned i zero h = refl
not_pruned_of-kept_vertices pruned i (suc n) h = ground (
  arith,
  h,
  narrow-small i (omega (arith, h)),
  not_pruned_of-kept_vertices pruned (suc i) n (omega (arith, h)),
)

-- On a graph of at most 256 vertices, whose edges lead to vertices of it, the loops end, with cycles
-- or without, and the vertices that `prune_graph` leaves are those of the graph that depend on none
-- of the empty operands.
pub prune_graph_correct :
    {F S : Type 0} (g : Graph F S) (empty_operands : List ℕ)
    → size g ≤ 2 ^ 8
    → AllEdges (λ e. e.target < size g) g.edges
    → (kept : List ℕ) × (prune_graph g empty_operands ≡ some kept)
      × ((v : ℕ) → (mem v kept ≡ true) ↔ ((v < size g) × ¬ Depends g.edges empty_operands v))
unfolding prune_graph
prune_graph_correct g starts few inside =
    let small =
      AllEdges-map (λ e. e.target < size g) (λ e. e.target < 2 ^ 8) (λ e h. omega (arith, h, few))
        g.edges inside in
    let (all, e) = prune_loop-total g.edges starts in
    let fuel = length starts + length g.edges in
    let down = sound g.edges small starts fuel [] starts all e (λ v h. cc) (λ v h. start h) in
    let (closed, has) = complete g.edges small fuel [] starts all e (λ u w h k. cc) in
    (
      kept_vertices all (range_from 0 (size g)),
      rw (e, not_pruned_of-kept_vertices all 0 (size g) (omega (arith, few))) refl,
      λ v. (
        λ h.
            let m : (v < size g) × (mem v all ≡ false) = ground (
              arith,
              mem-kept_vertices v all (range_from 0 (size g)),
              mem-range_from v 0 (size g),
            ) in
            (m.0, λ d. cc (m.1, Depends-mem g.edges small starts all closed has d)),
        λ (lt, free).
            let m : mem v all ≡ false = not_pruned (down v) free in
            ground
              (arith, mem-kept_vertices v all (range_from 0 (size g)), mem-range_from v 0 (size g)),
      ),
    )
