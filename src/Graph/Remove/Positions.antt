-- ===== src/Graph/Remove/Positions.antt =====
-- Descriptors in a graph and in its subgraph.
use tentris_lib.Prelude.{
  ℕ, zero, suc, ◌<◌, ◌≡◌, sym, ap, ◌∙◌, ◌↔◌, ◌⊎◌, inl, inr, Bool, false, List, [], ◌∷◌, Option,
  none, some, arith, get_elem?,
}
use tentris_lib.Prelude.Sets.{Above, IsSorted}
use tentris_lib.Graph.{Vertex, Edge, range_from}
use tentris_lib.Graph.Prune.{kept_vertices}
use tentris_lib.Graph.Variables.{positions_from}
use tentris_lib.Graph.Prune.Correct.{Leads}
use tentris_lib.Graph.Remove.{place_of, keep_edge, induced_edges}

module _ {F S : Type 0} (test : Vertex F S → Bool) where
  positions_from-Above :
      (i j : ℕ) (vs : List (Vertex F S)) → j < i → Above j (positions_from test i vs)
  unfolding positions_from
  positions_from-Above i j [] lt = tt
  positions_from-Above i j (v ∷ vs) lt = ground (arith, positions_from-Above (suc i) j vs)

  pub positions_from-IsSorted :
      (i : ℕ) (vs : List (Vertex F S)) → IsSorted (positions_from test i vs)
  unfolding positions_from
  positions_from-IsSorted i [] = tt
  positions_from-IsSorted i (v ∷ vs) =
      ground (arith, positions_from-Above (suc i) i vs, positions_from-IsSorted (suc i) vs)

get_elem-Above :
    (x i p : ℕ) (xs : List ℕ) → Above x xs → IsSorted xs → get_elem? xs i ≡ some p → x < p
get_elem-Above x i p [] h k e = absurd (ground arith)
get_elem-Above x zero p (y ∷ ys) h k e = ground arith
get_elem-Above x (suc i) p (y ∷ ys) h k e = ground (arith, get_elem-Above y i p ys k.0 k.1 e)

place_of-get_elem : (v i : ℕ) (xs : List ℕ) → place_of v xs ≡ some i → get_elem? xs i ≡ some v
place_of-get_elem v i [] e = absurd (ground arith)
place_of-get_elem v zero (x ∷ xs) e = ground arith
place_of-get_elem v (suc i) (x ∷ xs) e = ground (arith, place_of-get_elem v i xs)

get_elem-place_of :
    (v i : ℕ) (xs : List ℕ) → IsSorted xs → get_elem? xs i ≡ some v → place_of v xs ≡ some i
get_elem-place_of v i [] h e = absurd (ground arith)
get_elem-place_of v zero (x ∷ xs) h e = ground arith
get_elem-place_of v (suc i) (x ∷ xs) h e =
    ground (arith, get_elem-Above x i v xs h.0 h.1 e, get_elem-place_of v i xs h.1 e)

place_of_iff :
    (kept : List ℕ) (i p v : ℕ)
    → IsSorted kept
    → get_elem? kept i ≡ some p
    → (place_of v kept ≡ some i) ↔ (v ≡ p)
place_of_iff kept i p v h a = (
  λ e. some_injective (sym (place_of-get_elem v i kept e) ∙ a),
  λ e. ap (λ w. place_of w kept) e ∙ get_elem-place_of p i kept h a,
)
  where
    some_injective : {v p : ℕ} → some v ≡ some p → v ≡ p
    some_injective e = ground arith

Leads-keep_edge :
    (e : Edge) (a b : Option ℕ) (rest : List Edge) (i j : ℕ)
    → Leads (keep_edge e a b rest) i j
      ↔ ((a ≡ some i) × (b ≡ some j) × (e.is_opt ≡ false) ⊎ Leads rest i j)
Leads-keep_edge e (some s) (some t) rest i j = (λ h. ground arith, λ h. ground arith)
Leads-keep_edge e (some s) none rest i j = (λ h. inr h, λ h. ground arith)
Leads-keep_edge e none b rest i j = (λ h. inr h, λ h. ground arith)

-- Between vertices that are kept, the subgraph has the edges of the graph.
pub Leads-induced_edges :
    (kept : List ℕ) (es : List Edge) (i j p q : ℕ)
    → IsSorted kept
    → get_elem? kept i ≡ some p
    → get_elem? kept j ≡ some q
    → Leads (induced_edges kept es) i j ↔ Leads es p q
unfolding induced_edges
Leads-induced_edges kept [] i j p q h a b = (λ l. l, λ l. l)
Leads-induced_edges kept (e ∷ es) i j p q h a b =
    let rest = Leads-induced_edges kept es i j p q h a b in
    let here =
      Leads-keep_edge e (place_of e.source kept) (place_of e.target kept) (induced_edges kept es) i
        j in
    let (s_to, s_from) = place_of_iff kept i p e.source h a in
    let (t_to, t_from) = place_of_iff kept j q e.target h b in
    (
      λ l. elim (here.0 l) [
        | inl new ↦ inl (s_to new.0, t_to new.1, new.2)
        | inr later ↦ inr (rest.0 later)
      ],
      λ l. elim l [
        | inl old ↦ here.1 (inl (s_from old.0, t_from old.1, old.2))
        | inr later ↦ here.1 (inr (rest.1 later))
      ],
    )

kept_vertices-Above :
    (removed : List ℕ) (i n j : ℕ) → j < i → Above j (kept_vertices removed (range_from i n))
unfolding kept_vertices
kept_vertices-Above removed i zero j lt = tt
kept_vertices-Above removed i (suc n) j lt = ground (arith, kept_vertices-Above removed (suc i) n j)

pub kept_vertices-IsSorted :
    (removed : List ℕ) (i n : ℕ) → IsSorted (kept_vertices removed (range_from i n))
unfolding kept_vertices
kept_vertices-IsSorted removed i zero = tt
kept_vertices-IsSorted removed i (suc n) =
    ground
      (arith, kept_vertices-Above removed (suc i) n i, kept_vertices-IsSorted removed (suc i) n)
