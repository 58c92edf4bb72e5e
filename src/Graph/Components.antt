-- ===== src/Graph/Components.antt =====
-- The components of a graph: `sub_odg`, `union_components`, `cartesian_components` and
-- `isc_operands`. The component labels come from the Boost graph library, which is a parameter.
use tentris_lib.Prelude.{
  ℕ, zero, suc, Bool, true, false, not, ◌&&◌, ◌||◌, List, [], ◌∷◌, ◌++◌, map, if◌then◌else◌, ◌==◌,
  get_or,
}
use tentris_lib.Prelude.Sets.{mem}
use tentris_lib.Graph.{Graph, Edge, size, vertex_at, range_from, narrow}
use tentris_lib.Graph.Remove.{induced_edges}
pub mod Partition
pub mod Independent

-- `boost::connected_components` and `boost::strong_components`, from the number of vertices and the
-- edges: how many components there are, and the component of every vertex.
pub record Labelling : Type 0 where
  pub connected_components : ℕ → List (ℕ × ℕ) → ℕ × List ℕ
  pub strong_components : ℕ → List (ℕ × ℕ) → ℕ × List ℕ

-- The component of a vertex.
abbrev pub label_of : List ℕ → ℕ → ℕ
label_of components v = get_or components v 0

-- The vertices of one component, in order.
unfoldable pub members : List ℕ → ℕ → List ℕ → List ℕ
members components c [] = []
members components c (vertex ∷ vertices) =
    let rest = members components c vertices in
    if label_of components vertex == c then vertex ∷ rest else rest

abbrev pub ends : List Edge → List (ℕ × ℕ)
ends [] = []
ends (e ∷ es) = (e.source, e.target) ∷ ends es

-- `candidates.erase`
abbrev pub drop_label : ℕ → List ℕ → List ℕ
drop_label c [] = []
drop_label c (x ∷ xs) = let rest = drop_label c xs in if x == c then rest else x ∷ rest

-- The loops that erase the components with an edge from another component.
unfoldable pub erase_entered : List ℕ → List Edge → List ℕ → List ℕ
erase_entered components [] candidates = candidates
erase_entered components (e ∷ es) candidates = erase_entered components es (
    if not (label_of components e.target == label_of components e.source)
    then drop_label (label_of components e.target) candidates
    else candidates)

unfoldable pub in_candidates : List ℕ → List ℕ → List ℕ → List ℕ
in_candidates components candidates [] = []
in_candidates components candidates (vertex ∷ vertices) =
    let rest = in_candidates components candidates vertices in
    if mem (label_of components vertex) candidates then vertex ∷ rest else rest

-- `edge_filter`
unfoldable pub filtered_ends : List ℕ → List Edge → List (ℕ × ℕ)
filtered_ends isc_ops [] = []
filtered_ends isc_ops (e ∷ es) =
    let rest = filtered_ends isc_ops es in
    if not (mem e.target isc_ops) || not (e.var_id == 0) then (e.source, e.target) ∷ rest else rest

-- The flag that `edge_filter` sets.
unfoldable pub optional_cartesian : List ℕ → List Edge → Bool
optional_cartesian isc_ops [] = false
optional_cartesian isc_ops (e ∷ es) =
    (mem e.target isc_ops && e.is_opt) || optional_cartesian isc_ops es

-- `boost::edge`
abbrev pub has_edge : List Edge → ℕ → ℕ → Bool
has_edge [] v w = false
has_edge (e ∷ es) v w = (e.source == v && (e.target == w)) || has_edge es v w

-- The temporary edges between vertices of the component that have none.
unfoldable pub edges_from : List Edge → ℕ → List ℕ → List (ℕ × ℕ)
edges_from es first [] = []
edges_from es first (second ∷ isc_ops) =
    let rest = edges_from es first isc_ops in
    if not (has_edge es first second) then (first, second) ∷ rest else rest

unfoldable pub temporary_edges : List Edge → List ℕ → List ℕ → List (ℕ × ℕ)
unfolding edges_from
temporary_edges es [] isc_ops = []
temporary_edges es (first ∷ firsts) isc_ops =
    edges_from es first isc_ops ++ temporary_edges es firsts isc_ops

-- A graph with the positions of its vertices in the graph that it is a part of.
abbrev pub Part : Type 0 → Type 0 → Type 0
Part F S = Graph F S × List ℕ

module _ {F S : Type 0} where
  abbrev pub part : Graph F S → List ℕ → Part F S
  part g positions = (
    record {
      vertices = map (vertex_at g.vertices) positions;
      edges = induced_edges positions g.edges;
      removed_var_ids = g.removed_var_ids;
    },
    positions,
  )

  -- The vertices are counted in a `uint8_t`, so that with more than 255 vertices the loop of the code
  -- never ends; this is what it does with fewer.
  unfoldable pub sub_odg : Graph F S → List ℕ → List ℕ → List (Part F S)
  unfolding members induced_edges
  sub_odg g components [] = []
  sub_odg g components (c ∷ cs) =
      part g (members components c (range_from 0 (size g))) ∷ sub_odg g components cs

  module _ (boost : Labelling) where
    unfoldable pub union_components : Graph F S → List (Part F S)
    unfolding sub_odg
    union_components g =
        let (num_components, labels) = boost.connected_components (size g) (ends g.edges) in
        let components = map narrow labels in
        if num_components == 1
        then (g, range_from 0 (size g)) ∷ []
        else sub_odg g components (range_from 0 num_components)

    unfoldable pub isc_operands : Graph F S → List ℕ
    unfolding erase_entered in_candidates
    isc_operands g =
        let (num_components, labels) = boost.strong_components (size g) (ends g.edges) in
        let components = map narrow labels in
        let all = range_from 0 (size g) in
        if num_components == 1
        then map narrow all
        else map narrow (
            in_candidates components
              (erase_entered components g.edges (map narrow (range_from 0 num_components))) all)

    unfoldable pub cartesian_components : Graph F S → List (Part F S)
    unfolding isc_operands filtered_ends temporary_edges sub_odg
    cartesian_components g =
        let isc_ops = isc_operands g in
        let (num_components, labels) =
          boost.connected_components (size g)
            (filtered_ends isc_ops g.edges ++ temporary_edges g.edges isc_ops isc_ops) in
        let components = map narrow labels in sub_odg g components (range_from 0 num_components)
