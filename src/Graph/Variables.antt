-- ===== src/Graph/Variables.antt =====
-- Which vertices have which variables. The methods keep their results in caches; here they are what
-- the first call computes.
use tentris_lib.Prelude.{
  ℕ, zero, suc, Bool, true, false, not, ◌&&◌, ◌||◌, List, [], ◌∷◌, ◌++◌, map, Option, none, some,
  if◌then◌else◌, ◌==◌,
}
use tentris_lib.Prelude.Sets.{mem, set_insert, set_insert_all, set_erase}
use tentris_lib.Graph.{
  Graph, Vertex, Assignment, vertex_at, narrow, is_expression_vertex, is_filter_vertex,
  is_assignment_vertex, is_filter,
}
pub mod Lonely
pub mod Lookup
pub mod Ready

-- The positions of a variable among those of one vertex.
unfoldable pub var_positions : ℕ → ℕ → List ℕ → List ℕ
var_positions var_id pos [] = []
var_positions var_id pos (v ∷ vs) =
    let rest = var_positions var_id (suc pos) vs in if v == var_id then pos ∷ rest else rest

-- All variables are in no operand.
unfoldable pub in_no_operand : List ℕ → List ℕ → Bool
in_no_operand operands_vars [] = true
in_no_operand operands_vars (var_id ∷ var_ids) =
    not (mem var_id operands_vars) && in_no_operand operands_vars var_ids

-- `var_ids.size() == 1 and var_ids[0] == result_var_id()`
abbrev pub only_result : {F : Type 0} → List ℕ → Option (Assignment F) → Bool
only_result (v ∷ []) (some a) = v == a.result_var_id
only_result _ _ = false

module _ {F S : Type 0} where
  -- The loops that collect the positions of the vertices that pass a test, counting from `i`.
  unfoldable pub positions_from : (Vertex F S → Bool) → ℕ → List (Vertex F S) → List ℕ
  positions_from test i [] = []
  positions_from test i (v ∷ vs) =
      let rest = positions_from test (suc i) vs in if test v then i ∷ rest else rest

  abbrev pub has_var : ℕ → Vertex F S → Bool
  has_var var_id v = mem var_id v.var_ids

  abbrev pub is_operand_with : ℕ → Vertex F S → Bool
  is_operand_with var_id v =
      not (is_filter_vertex v) && (not (is_assignment_vertex v) && has_var var_id v)

  unfoldable pub vertices_with_var_id : Graph F S → ℕ → List ℕ
  unfolding positions_from
  vertices_with_var_id g var_id = map narrow (positions_from (has_var var_id) 0 g.vertices)

  unfoldable pub operands_with_var_id : Graph F S → ℕ → List ℕ
  unfolding positions_from
  operands_with_var_id g var_id = map narrow (positions_from (is_operand_with var_id) 0 g.vertices)

  unfoldable pub assignments_with_var_id : Graph F S → ℕ → List ℕ
  unfolding positions_from
  assignments_with_var_id g var_id =
      map narrow (positions_from (λ v. is_assignment_vertex v && has_var var_id v) 0 g.vertices)

  -- The loop of `operands_var_ids_set`.
  unfoldable pub collect_operands_vars : List (Vertex F S) → List ℕ → List ℕ
  collect_operands_vars [] s = s
  collect_operands_vars (v ∷ vs) s = collect_operands_vars vs (
      if is_filter_vertex v
      then s
      else if is_assignment_vertex v
      then s
      else set_insert_all v.var_ids s)

  unfoldable pub operands_var_ids_set : Graph F S → List ℕ
  unfolding collect_operands_vars
  operands_var_ids_set g = collect_operands_vars g.vertices []

  -- The loop of `non_optional_var_ids_set`, over the positions of the independent strong component.
  unfoldable pub collect_isc_vars : List (Vertex F S) → List ℕ → List ℕ → List ℕ
  collect_isc_vars vs [] s = s
  collect_isc_vars vs (isc_op ∷ isc_ops) s = collect_isc_vars vs isc_ops (
      if is_filter_vertex (vertex_at vs isc_op)
      then s
      else if is_assignment_vertex (vertex_at vs isc_op)
      then s
      else set_insert_all (vertex_at vs isc_op).var_ids s)

  unfoldable pub non_optional_var_ids_set : Graph F S → List ℕ → List ℕ
  unfolding collect_isc_vars
  non_optional_var_ids_set g isc_ops = collect_isc_vars g.vertices isc_ops []

  unfoldable pub var_ids_positions_in_operands : Graph F S → ℕ → List (List ℕ)
  unfolding var_positions
  var_ids_positions_in_operands g var_id =
      map
        (λ (v : Vertex F S).
          if is_expression_vertex v then [] else var_positions var_id 0 v.var_ids)
        g.vertices

-- The two sets of `lonely_var_ids`: the lonely variables, and those visited.
abbrev pub LonelySets : Type 0
LonelySets = List ℕ × List ℕ

unfoldable pub see_var : ℕ → LonelySets → LonelySets
see_var var_id (lonely, visited) =
    if mem var_id lonely
    then (set_erase var_id lonely, visited)
    else if not (mem var_id visited)
    then (set_insert var_id lonely, set_insert var_id visited)
    else (lonely, visited)

unfoldable pub see_vars : List ℕ → LonelySets → LonelySets
unfolding see_var
see_vars [] sets = sets
see_vars (var_id ∷ var_ids) sets = see_vars var_ids (see_var var_id sets)

module _ {F S : Type 0} where
  unfoldable pub see_vertices : List (Vertex F S) → LonelySets → LonelySets
  unfolding see_vars
  see_vertices [] sets = sets
  see_vertices (v ∷ vs) sets = see_vertices vs (see_vars v.var_ids sets)

  unfoldable pub lonely_var_ids : Graph F S → List ℕ
  unfolding see_vertices
  lonely_var_ids g = (see_vertices g.vertices ([], [])).0

  -- The lambda of `filters_for_evaluation`: all vertices with the variable are filters.
  unfoldable pub all_filters : Graph F S → List ℕ → Bool
  all_filters g [] = true
  all_filters g (vertex ∷ vertices) = is_filter g vertex && all_filters g vertices

  unfoldable pub only_in_filters : Graph F S → List ℕ → Bool
  unfolding all_filters vertices_with_var_id
  only_in_filters g [] = true
  only_in_filters g (var_id ∷ var_ids) =
      all_filters g (vertices_with_var_id g var_id) && only_in_filters g var_ids

  -- `filters_for_evaluation`, over the positions of the independent strong component.
  unfoldable pub filters_for_evaluation : Graph F S → List ℕ → List ℕ
  unfolding only_in_filters
  filters_for_evaluation g [] = []
  filters_for_evaluation g (isc_op ∷ isc_ops) =
      let rest = filters_for_evaluation g isc_ops in
      if not (is_filter g isc_op)
      then rest
      else if only_in_filters g (vertex_at g.vertices isc_op).var_ids
      then isc_op ∷ rest
      else rest

  unfoldable pub assignments_for_evaluation : Graph F S → List ℕ → List ℕ
  unfolding in_no_operand operands_var_ids_set
  assignments_for_evaluation g [] = []
  assignments_for_evaluation g (isc_op ∷ isc_ops) =
      let rest = assignments_for_evaluation g isc_ops in
      let v = vertex_at g.vertices isc_op in
      if not (is_assignment_vertex v)
      then rest
      else if only_result v.var_ids v.assignment_expression
      then isc_op ∷ rest
      else if in_no_operand (operands_var_ids_set g) v.var_ids
      then isc_op ∷ rest
      else rest

  unfoldable pub var_id_in_expression : Graph F S → List ℕ → ℕ → Bool
  var_id_in_expression g [] var_id = false
  var_id_in_expression g (isc_op ∷ isc_ops) var_id =
      let later = var_id_in_expression g isc_ops var_id in
      let v = vertex_at g.vertices isc_op in
      if not (is_expression_vertex v) then later else if has_var var_id v then true else later
