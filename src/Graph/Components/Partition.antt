-- ===== src/Graph/Components/Partition.antt =====
-- The union components share no vertex, and leave no vertex and no edge out.
use tentris_lib.Prelude.{
  ℕ, zero, suc, ◌+◌, ◌<◌, ◌≡◌, refl, ap, sym, subst, map, ◌≤◌, ◌∙◌, Bool, ◌&&◌, List, [], ◌∷◌,
  Option, none, some, if◌then◌else◌, ◌==◌, ltb, leb, arith, length, Bool-cases, inl, inr,
  choose_true, choose_false, ==_iff,
}
use tentris_lib.Prelude.Sets.{mem, count}
use tentris_lib.Prelude.Maps.{is_found}
use tentris_lib.Graph.{Graph, Edge, AllEdges, AllEdges-map, size, range_from, narrow}
use tentris_lib.Graph.Narrow.{narrow-small, get_or-narrow}
use tentris_lib.Graph.Prune.Correct.{mem-range_from}
use tentris_lib.Graph.Remove.{place_of, keep_edge, induced_edges}
use tentris_lib.Graph.Components.{
  Labelling, label_of, ends, members, Part, sub_odg, union_components,
}

count-range_from :
    (v i n : ℕ) → count v (range_from i n) ≡ (if leb i v && ltb v (i + n) then 1 else 0)
count-range_from v i zero = ground arith
count-range_from v i (suc n) = ground (arith, count-range_from v (suc i) n)

count-members :
    (components : List ℕ) (c v : ℕ) (vs : List ℕ)
    → count v (members components c vs) ≡ (if label_of components v == c then count v vs else 0)
unfolding members
count-members components c v [] = ground arith
count-members components c v (x ∷ xs) = elim (Bool-cases (v == x)) [
  | inl same ↦
      let label = ap (label_of components) ((==_iff v x).0 same) in
      ground (arith, same, label, count-members components c v xs)
  | inr other ↦ ground (arith, other, count-members components c v xs)
]

mem-members :
    (components : List ℕ) (c v : ℕ) (vs : List ℕ)
    → mem v (members components c vs) ≡ (label_of components v == c && mem v vs)
unfolding members
mem-members components c v [] = ground arith
mem-members components c v (x ∷ xs) = elim (Bool-cases (v == x)) [
  | inl same ↦
      let label = ap (label_of components) ((==_iff v x).0 same) in
      ground (arith, same, label, mem-members components c v xs)
  | inr other ↦ ground (arith, other, mem-members components c v xs)
]

found-place_of : (v : ℕ) (xs : List ℕ) → is_found (place_of v xs) ≡ mem v xs
found-place_of v [] = refl
found-place_of v (x ∷ xs) = ground (arith, found-place_of v xs)

length-keep_edge :
    (e : Edge) (a b : Option ℕ) (rest : List Edge)
    → length (keep_edge e a b rest)
      ≡ (if is_found a && is_found b then suc (length rest) else length rest)
length-keep_edge e none b rest = refl
length-keep_edge e (some i) none rest = refl
length-keep_edge e (some i) (some j) rest = refl

-- How many of the edges start in the component.
edges_in : List ℕ → ℕ → List Edge → ℕ
edges_in components c [] = 0
edges_in components c (e ∷ es) =
    let rest = edges_in components c es in
    if label_of components e.source == c then suc rest else rest

abbrev pub StaysInside : List ℕ → ℕ → Edge → Type 0
StaysInside components n e =
    (e.source < n) × (e.target < n) × (label_of components e.source ≡ label_of components e.target)

in_range : (here : Bool) (v n : ℕ) → v < n → (here && mem v (range_from 0 n)) ≡ here
in_range here v n lt = ground (arith, mem-range_from v 0 n, lt)

edge_kept :
    (ls lt c : ℕ) (a b : Bool) (m n : ℕ)
    → ls ≡ lt
    → a ≡ (ls == c)
    → b ≡ (lt == c)
    → m ≡ n
    → (if a && b then suc m else m) ≡ (if ls == c then suc n else n)
edge_kept ls lt c a b m n same e f h = ground (arith, same, e, f, h)

length-induced_edges :
    (components : List ℕ) (c n : ℕ) (es : List Edge)
    → AllEdges (StaysInside components n) es
    → length (induced_edges (members components c (range_from 0 n)) es) ≡ edges_in components c es
unfolding induced_edges edges_in
length-induced_edges components c n [] h = refl
length-induced_edges components c n (e ∷ es) h =
    let vs = members components c (range_from 0 n) in
    let source = e.source in
    let target = e.target in
    length-keep_edge e (place_of source vs) (place_of target vs) (induced_edges vs es)
    ∙ edge_kept (label_of components source) (label_of components target) c
        (is_found (place_of source vs)) (is_found (place_of target vs)) _ _ h.0.2
        (found-place_of source vs
          ∙ mem-members components c source (range_from 0 n)
          ∙ in_range (label_of components source == c) source n h.0.0)
        (found-place_of target vs
          ∙ mem-members components c target (range_from 0 n)
          ∙ in_range (label_of components target == c) target n h.0.1)
        (length-induced_edges components c n es h.1)

-- Sums over the components.
abbrev pub vertex_count : {F S : Type 0} → ℕ → List (Part F S) → ℕ
vertex_count v [] = 0
vertex_count v (p ∷ ps) = count v p.1 + vertex_count v ps

abbrev pub edge_count : {F S : Type 0} → List (Part F S) → ℕ
edge_count [] = 0
edge_count (p ∷ ps) = length p.0.edges + edge_count ps

vertex_count-sub_odg :
    {F S : Type 0} (g : Graph F S) (components cs : List ℕ) (v : ℕ)
    → v < size g
    → vertex_count v (sub_odg g components cs) ≡ count (label_of components v) cs
unfolding sub_odg
vertex_count-sub_odg g components [] v lt = refl
vertex_count-sub_odg g components (c ∷ cs) v lt = ground (
  arith,
  lt,
  count-members components c v (range_from 0 (size g)),
  count-range_from v 0 (size g),
  vertex_count-sub_odg g components cs v,
)

-- The edges of several components.
edges_of : List ℕ → List ℕ → List Edge → ℕ
edges_of components [] es = 0
edges_of components (c ∷ cs) es = edges_in components c es + edges_of components cs es

edge_count-sub_odg :
    {F S : Type 0} (g : Graph F S) (components cs : List ℕ)
    → AllEdges (StaysInside components (size g)) g.edges
    → edge_count (sub_odg g components cs) ≡ edges_of components cs g.edges
unfolding sub_odg edges_of
edge_count-sub_odg g components [] h = refl
edge_count-sub_odg g components (c ∷ cs) h = omega (
  arith,
  length-induced_edges components c (size g) g.edges h,
  edge_count-sub_odg g components cs h,
)

edges_of-cons :
    (components cs : List ℕ) (e : Edge) (es : List Edge)
    → edges_of components cs (e ∷ es)
      ≡ count (label_of components e.source) cs + edges_of components cs es
unfolding edges_of edges_in
edges_of-cons components [] e es = refl
edges_of-cons components (c ∷ cs) e es = ground (arith, edges_of-cons components cs e es)

edges_of-nil : (components cs : List ℕ) → edges_of components cs [] ≡ 0
unfolding edges_of edges_in
edges_of-nil components [] = refl
edges_of-nil components (c ∷ cs) = omega (arith, edges_of-nil components cs)

edges_of-length :
    (components : List ℕ) (num n : ℕ) (es : List Edge)
    → ((v : ℕ) → v < n → label_of components v < num)
    → AllEdges (StaysInside components n) es
    → edges_of components (range_from 0 num) es ≡ length es
edges_of-length components num n [] labels h = edges_of-nil components (range_from 0 num)
edges_of-length components num n (e ∷ es) labels h =
    edges_of-cons components (range_from 0 num) e es
    ∙ ground (
      arith,
      count-range_from (label_of components e.source) 0 num,
      labels e.source h.0.0,
      edges_of-length components num n es labels h.1,
    )

-- What the graph library documents of the labels of connected components.
pub record AreConnected {F S : Type 0} (boost : Labelling) (g : Graph F S) : Type 0 where
  pub few :
      let (num, components) = boost.connected_components (size g) (ends g.edges) in num ≤ size g
  pub labels :
      let (num, components) = boost.connected_components (size g) (ends g.edges) in
      (v : ℕ) → v < size g → label_of components v < num
  pub edges :
      let (num, components) = boost.connected_components (size g) (ends g.edges) in
      AllEdges (StaysInside components (size g)) g.edges

narrow_label :
    (labels : List ℕ) (num n v : ℕ)
    → num ≤ n
    → n ≤ 255
    → label_of labels v < num
    → label_of (map narrow labels) v ≡ label_of labels v
narrow_label labels num n v few small lt =
    get_or-narrow labels v ∙ narrow-small (label_of labels v) (omega (arith, few, small, lt))

narrow_edges :
    (labels : List ℕ) (num n : ℕ) (es : List Edge)
    → num ≤ n
    → n ≤ 255
    → ((v : ℕ) → v < n → label_of labels v < num)
    → AllEdges (StaysInside labels n) es
    → AllEdges (StaysInside (map narrow labels) n) es
narrow_edges labels num n es few small low =
    AllEdges-map (StaysInside labels n) (StaysInside (map narrow labels) n)
      (λ e h. (
        h.0,
        h.1,
        narrow_label labels num n e.source few small (low e.source h.0)
            ∙ h.2
            ∙ sym (narrow_label labels num n e.target few small (low e.target h.1)),
      ))
      es

module _ {F S : Type 0} (boost : Labelling) where
  -- On a graph of at most 255 vertices, every vertex is in exactly one union component, and the union
  -- components have as many edges together as the graph, if the edges are between vertices of the
  -- graph, and the graph library gives labels below their number, which is at most that of the
  -- vertices, equal at both ends of an edge.
  pub union_components_partition :
      (g : Graph F S) (v : ℕ)
      → AreConnected boost g
      → size g ≤ 255
      → v < size g
      → (vertex_count v (union_components boost g) ≡ 1)
        × (edge_count (union_components boost g) ≡ length g.edges)
  unfolding union_components
  union_components_partition g v h small lt =
      let (num, labels) = boost.connected_components (size g) (ends g.edges) in
      let components = map narrow labels in
      let low : (w : ℕ) → w < size g → label_of components w < num = λ w k.
        subst (λ l. l < num) (sym (narrow_label labels num (size g) w h.few small (h.labels w k)))
          (h.labels w k) in
      let inside = narrow_edges labels num (size g) g.edges h.few small h.labels h.edges in
      let all : List (Part F S) = (g, range_from 0 (size g)) ∷ [] in
      let parts : List (Part F S) = sub_odg g components (range_from 0 num) in
      elim (Bool-cases (num == 1)) [
        | inl one ↦ (
          ap (vertex_count v) (choose_true (num == 1) all parts one)
              ∙ ground (arith, count-range_from v 0 (size g), lt),
          ap edge_count (choose_true (num == 1) all parts one) ∙ omega arith,
        )
        | inr many ↦ (
          ap (vertex_count v) (choose_false (num == 1) all parts many)
              ∙ vertex_count-sub_odg g components (range_from 0 num) v lt
              ∙ ground (arith, count-range_from (label_of components v) 0 num, low v lt),
          ap edge_count (choose_false (num == 1) all parts many)
              ∙ edge_count-sub_odg g components (range_from 0 num) inside
              ∙ edges_of-length components num (size g) g.edges low inside,
        )
      ]
