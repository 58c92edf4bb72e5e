-- ===== src/Query/Registry.antt =====
-- The variables that a query keeps (libs/query/src/dice/query/Query.hpp, and SPARQLQuery.cpp with
-- SPARQLQuery.hpp in libs/sparql/src/dice/sparql): identifiers, positions in the entries and
-- positions in the solutions. A `char` is its bit pattern, a number below 256, whether it has a sign or
-- not; a variable is a number.
use tentris_lib.Prelude.{
  ℕ, suc, ◌+◌, ◌-◌, ◌%◌, Bool, true, false, not, ◌&&◌, List, [], ◌∷◌, ◌++◌, map, Option, none, some,
  if◌then◌else◌, ◌==◌, length, ◌>>=◌,
}
use tentris_lib.Prelude.Sets.{mem}
use tentris_lib.Prelude.Maps.{find, is_found, assign}
pub mod Tracked
pub mod Templates
pub mod Identifiers

-- `tracked_vars_` and `tracked_vars_pos_` of `Query`.
pub record Tracker : Type 0 where
  pub tracked_vars : List ℕ
  pub tracked_vars_pos : List (ℕ × ℕ)

abbrev pub is_var_tracked : Tracker → ℕ → Bool
is_var_tracked t var = is_found (find var t.tracked_vars_pos)

-- The iterator is dereferenced without a check; a variable that is not tracked has no position.
abbrev pub tracked_var_position : Tracker → ℕ → Option ℕ
tracked_var_position t var = find var t.tracked_vars_pos

-- `Query::track_variable`
unfoldable pub track_var : ℕ → Tracker → Tracker
track_var var t =
    if is_var_tracked t var
    then t
    else (let tracked_vars = t.tracked_vars ++ (var ∷ []) in
        record {
          tracked_vars = tracked_vars;
          tracked_vars_pos = assign var (length tracked_vars - 1) t.tracked_vars_pos;
        })

-- The loop of `get_odg_tracked_vars_positions`, over the variables of the operands.
unfoldable pub positions_of_tracked : List ℕ → List (ℕ × ℕ) → List ℕ
positions_of_tracked odg_vars_set [] = []
positions_of_tracked odg_vars_set ((var, pos) ∷ tracked_vars_pos) =
    let rest = positions_of_tracked odg_vars_set tracked_vars_pos in
    if mem var odg_vars_set then pos ∷ rest else rest

-- `all_tracked_vars_done`, over the variables of the operands.
unfoldable pub all_tracked_vars_done : List ℕ → List ℕ → Bool
all_tracked_vars_done vars_in_operands [] = true
all_tracked_vars_done vars_in_operands (proj_var ∷ tracked_vars) =
    not (mem proj_var vars_in_operands) && all_tracked_vars_done vars_in_operands tracked_vars

-- An expression of the solution: a variable with the position that it reads, or any other expression,
-- by a number.
pub data Binding : Type 0 where
  primary_var : (variable pos : ℕ) → Binding
  other_expression : ℕ → Binding

-- What `SPARQLQuery` keeps of its variables, and the raw query's expressions of the solution.
pub record Registry : Type 0 where
  pub tracker : Tracker
  pub solution_mapping : List Binding
  pub variable_to_id : List (ℕ × ℕ)
  pub next_variable_id : ℕ
  pub templates_variables_positions : List (ℕ × ℕ)

-- A new query; 97 is 'a'.
abbrev pub empty_registry : Registry
empty_registry = record {
  tracker = record { tracked_vars = []; tracked_vars_pos = [] };
  solution_mapping = [];
  variable_to_id = [];
  next_variable_id = 97;
  templates_variables_positions = [];
}

unfoldable pub register_variable : ℕ → Registry → Registry
register_variable var q = if is_found (find var q.variable_to_id) then q else record q {
  variable_to_id = assign var q.next_variable_id q.variable_to_id;
  next_variable_id = (q.next_variable_id + 1) % 256;
}

-- `track_variable`; its assertion fails on a variable that is not registered.
unfoldable pub track_variable : ℕ → Registry → Option Registry
unfolding track_var
track_variable variable q = do
  id ← find variable q.variable_to_id
  some (record q { tracker = track_var id q.tracker })

abbrev pub position_in : Tracker → Option ℕ → Option ℕ
position_in t none = none
position_in t (some id) = tracked_var_position t id

unfoldable pub tracked_variable_position : ℕ → Registry → Option ℕ
tracked_variable_position variable q = position_in q.tracker (find variable q.variable_to_id)

unfoldable pub track_quad_template_variable : ℕ → Registry → Option Registry
unfolding tracked_variable_position
track_quad_template_variable variable q =
    if is_found (find variable q.templates_variables_positions) then some q else (do
      pos ← tracked_variable_position variable q
      some (record q {
        templates_variables_positions =
            assign variable (length q.solution_mapping) q.templates_variables_positions;
        solution_mapping = q.solution_mapping ++ (primary_var variable pos ∷ []);
      }))

unfoldable pub add_solution_binding : Binding → Registry → Registry
add_solution_binding expression q = record q {
  solution_mapping = q.solution_mapping ++ (expression ∷ []);
}

unfoldable pub quad_template_variable_position : ℕ → Registry → Option ℕ
quad_template_variable_position variable q = find variable q.templates_variables_positions
