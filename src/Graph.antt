-- ===== src/Graph.antt =====
-- The operand dependency graph (libs/query/src/dice/query/OperandDependencyGraph.hpp): its vertices
-- are the operands, filters and assignments of a query, its edges say which depend on which.
-- Vertices, variables and identifiers are numbers; '\0', the label of an unlabelled edge, is 0. The
-- graph is a `boost::subgraph<adjacency_list<vecS, vecS, directedS>>`: vertices are numbered in the
-- order in which they are added, and edges are kept in the order in which they are added.
use tentris_lib.Prelude.{
  ℕ, suc, ◌+◌, ◌%◌, ◌^◌, Bool, true, false, not, ◌&&◌, ◌||◌, List, [], ◌∷◌, ◌++◌, map, Option, none,
  some, if◌then◌else◌, ◌==◌, length, get_elem?,
}
use tentris_lib.Prelude.Sets.{mem, set_insert}
pub mod Narrow
pub mod Build
pub mod Prune
pub mod Remove
pub mod Components
pub mod Variables

-- `Vertex`: what a `uint8_t` keeps of a number. Where the code puts a vertex or the label of a component
-- in one, it is narrowed.
abbrev pub narrow : ℕ → ℕ
narrow v = v % 2 ^ 8

-- `AssignmentExpression`: an expression and the variable that it defines.
pub record Assignment (F : Type 0) : Type 0 where
  pub expression : F
  pub result_var_id : ℕ

-- `VertexProperties`; a null pointer or an empty optional is `none`.
pub record Vertex (F S : Type 0) : Type 0 where
  pub var_ids : List ℕ
  pub filter_expression : Option F
  pub assignment_expression : Option (Assignment F)
  pub slice_key : Option S
  pub subquery_id : Option ℕ
  pub inline_data_id : Option ℕ

-- An edge with its `EdgeProperties`.
pub record Edge : Type 0 where
  pub source : ℕ
  pub target : ℕ
  pub var_id : ℕ
  pub is_opt : Bool

pub record Graph (F S : Type 0) : Type 0 where
  pub vertices : List (Vertex F S)
  pub edges : List Edge
  pub removed_var_ids : List ℕ

-- Every edge has the property.
abbrev pub AllEdges : (Edge → Type 0) → List Edge → Type 0
AllEdges P [] = Unit
AllEdges P (e ∷ es) = P e × AllEdges P es

pub AllEdges-map :
    (P Q : Edge → Type 0)
    → ((e : Edge) → P e → Q e)
    → (es : List Edge) → AllEdges P es
    → AllEdges Q es
AllEdges-map P Q f [] h = tt
AllEdges-map P Q f (e ∷ es) h = (f e h.0, AllEdges-map P Q f es h.1)

abbrev pub is_some : {A : Type 0} → Option A → Bool
is_some none = false
is_some (some a) = true

module _ {F S : Type 0} where
  abbrev pub is_filter_vertex : Vertex F S → Bool
  is_filter_vertex v = is_some v.filter_expression

  abbrev pub is_assignment_vertex : Vertex F S → Bool
  is_assignment_vertex v = is_some v.assignment_expression

  abbrev pub is_expression_vertex : Vertex F S → Bool
  is_expression_vertex v = is_filter_vertex v || is_assignment_vertex v

  -- `size`
  abbrev pub size : Graph F S → ℕ
  size g = length g.vertices

  -- The property maps are indexed without a check; a descriptor out of range has no defined
  -- behaviour and reads as a vertex without properties.
  abbrev pub no_vertex : Vertex F S
  no_vertex = record {
    var_ids = [];
    filter_expression = none;
    assignment_expression = none;
    slice_key = none;
    subquery_id = none;
    inline_data_id = none;
  }

  abbrev pub vertex_at : List (Vertex F S) → ℕ → Vertex F S
  vertex_at [] i = no_vertex
  vertex_at (v ∷ vs) ℕ.zero = v
  vertex_at (v ∷ vs) (suc i) = vertex_at vs i

  abbrev pub operand_var_ids : Graph F S → ℕ → List ℕ
  operand_var_ids g operand = (vertex_at g.vertices operand).var_ids

  abbrev pub is_expression : Graph F S → ℕ → Bool
  is_expression g v = is_expression_vertex (vertex_at g.vertices v)

  abbrev pub is_filter : Graph F S → ℕ → Bool
  is_filter g v = is_filter_vertex (vertex_at g.vertices v)

  abbrev pub is_assignment : Graph F S → ℕ → Bool
  is_assignment g v = is_assignment_vertex (vertex_at g.vertices v)

-- The numbers from `i` on, `n` of them: a loop over the vertices.
abbrev pub range_from : ℕ → ℕ → List ℕ
range_from i ℕ.zero = []
range_from i (suc n) = i ∷ range_from (suc i) n
