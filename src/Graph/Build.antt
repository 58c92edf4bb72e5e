-- ===== src/Graph/Build.antt =====
-- Graph manipulation: adding operands, expressions and edges, and merging graphs.
use tentris_lib.Prelude.{
  ℕ, ◌+◌, Bool, true, false, List, [], ◌∷◌, ◌++◌, map, Option, none, some, if◌then◌else◌, ◌==◌,
}
use tentris_lib.Prelude.Sets.{mem, set_insert}
use tentris_lib.Graph.{
  Graph, Vertex, Edge, Assignment, size, no_vertex, operand_var_ids, is_expression_vertex,
}
pub mod Edges
pub mod Merge

-- The sub-operands that both have, as the `flat_set` that the loop fills.
unfoldable pub shared_vars : List ℕ → List ℕ → List ℕ → List ℕ
shared_vars target_var_ids [] shared = shared
shared_vars target_var_ids (source_var ∷ source_vars) shared =
    shared_vars target_var_ids source_vars
      (if mem source_var target_var_ids then set_insert source_var shared else shared)

-- `boost::copy_graph` of a second graph numbers its vertices after those of the first.
abbrev pub shift_edge : ℕ → Edge → Edge
shift_edge n e = record {
  source = n + e.source;
  target = n + e.target;
  var_id = e.var_id;
  is_opt = e.is_opt;
}

module _ {F S : Type 0} where
  -- `boost::add_vertex`, and the properties that the caller fills.
  abbrev pub add_vertex : Graph F S → Vertex F S → Graph F S × ℕ
  add_vertex g v = (record g { vertices = g.vertices ++ (v ∷ []) }, size g)

  unfoldable pub add_operand : Graph F S → List ℕ → S → Graph F S × ℕ
  add_operand g var_ids slice_key =
      let v : Vertex F S = no_vertex in
      add_vertex g (record v { var_ids = var_ids; slice_key = some slice_key })

  unfoldable pub add_filter : Graph F S → List ℕ → F → Graph F S × ℕ
  add_filter g var_ids f_expr =
      let v : Vertex F S = no_vertex in
      add_vertex g (record v { var_ids = var_ids; filter_expression = some f_expr })

  unfoldable pub add_assignment : Graph F S → List ℕ → Assignment F → Graph F S × ℕ
  add_assignment g var_ids a_expr =
      let v : Vertex F S = no_vertex in
      add_vertex g (record v { var_ids = var_ids; assignment_expression = some a_expr })

  unfoldable pub add_subquery : Graph F S → List ℕ → ℕ → Graph F S × ℕ
  add_subquery g var_ids subquery_id =
      let v : Vertex F S = no_vertex in
      add_vertex g (record v { var_ids = var_ids; subquery_id = some subquery_id })

  unfoldable pub add_inline_data : Graph F S → List ℕ → ℕ → Graph F S × ℕ
  add_inline_data g var_ids inline_data_id =
      let v : Vertex F S = no_vertex in
      add_vertex g (record v { var_ids = var_ids; inline_data_id = some inline_data_id })

  abbrev pub add_edge : Graph F S → Edge → Graph F S
  add_edge g e = record g { edges = g.edges ++ (e ∷ []) }

  unfoldable pub add_dependency : Graph F S → ℕ → ℕ → ℕ → Graph F S
  add_dependency g source target var_id =
      add_edge g (record { source = source; target = target; var_id = var_id; is_opt = false })

  unfoldable pub add_connection : Graph F S → ℕ → ℕ → ℕ → Graph F S
  add_connection g source target var_id =
      add_edge g (record { source = source; target = target; var_id = var_id; is_opt = true })

  -- One round of the loops of `add_dependencies`; an unlabelled edge has label 0.
  abbrev pub add_both : Graph F S → ℕ → ℕ → Bool → ℕ → Graph F S
  add_both g source target bidirectional var =
      let there = add_dependency g source target var in
      if bidirectional then add_dependency there target source var else there

  unfoldable pub add_labelled : Graph F S → ℕ → ℕ → Bool → List ℕ → Graph F S
  unfolding add_dependency
  add_labelled g source target bidirectional [] = g
  add_labelled g source target bidirectional (var ∷ vars) =
      add_labelled (add_both g source target bidirectional var) source target bidirectional vars

  -- The two branches of `add_dependencies`.
  unfoldable pub add_by_shared : Graph F S → ℕ → ℕ → Bool → List ℕ → Graph F S
  unfolding add_labelled add_dependency
  add_by_shared g source target bidirectional [] = add_both g source target bidirectional 0
  add_by_shared g source target bidirectional (var ∷ vars) =
      add_labelled g source target bidirectional (var ∷ vars)

  unfoldable pub add_dependencies : Graph F S → ℕ → ℕ → Bool → Graph F S
  unfolding add_by_shared shared_vars
  add_dependencies g source target bidirectional =
      let shared = shared_vars (operand_var_ids g target) (operand_var_ids g source) [] in
      add_by_shared g source target bidirectional shared

  unfoldable pub merge_graphs : Graph F S → Graph F S → Graph F S
  merge_graphs first second = record {
    vertices = first.vertices ++ second.vertices;
    edges = first.edges ++ map (shift_edge (size first)) second.edges;
    removed_var_ids = [];
  }

-- `flat_map::find`
unfoldable pub replacement : List (ℕ × ℕ) → ℕ → ℕ
replacement [] var_id = var_id
replacement ((from, to) ∷ more) var_id = if from == var_id then to else replacement more var_id

module _ {F S : Type 0} where
  abbrev pub replace_in_vertex : List (ℕ × ℕ) → Vertex F S → Vertex F S
  replace_in_vertex replacements v =
      if is_expression_vertex v
      then v
      else record v { var_ids = map (replacement replacements) v.var_ids }

  unfoldable pub replace_var_ids_in_operands : List (ℕ × ℕ) → Graph F S → Graph F S
  unfolding replacement
  replace_var_ids_in_operands replacements g = record g {
    vertices = map (replace_in_vertex replacements) g.vertices;
  }
