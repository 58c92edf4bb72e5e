-- ===== src/Tests/Registered.antt =====
-- The variables of a query after a few calls.
use tentris_lib.Prelude.{ℕ, ◌<◌, ◌≤◌, ◌≡◌, refl, List, [], ◌∷◌, some, length, arith}
use tentris_lib.Prelude.Maps.{find}
use tentris_lib.Query.Registry.{
  primary_var, other_expression, add_solution_binding, Registry, empty_registry, register_variable,
  track_variable, track_quad_template_variable,
}
use tentris_lib.Query.Registry.Templates.{
  Op, register, track, track_template, bind, run, IsValid, run-IsValid,
}
use tentris_lib.Query.Registry.Identifiers.{register_all, register_all-distinct}

-- Two variables of which the second is tracked, and used by a template.
abbrev ops : List Op
ops = register 10 ∷ register 20 ∷ track 20 ∷ bind (other_expression 0) ∷ track_template 20 ∷ []

abbrev after_ops : Registry
after_ops = record {
  tracker = record { tracked_vars = 98 ∷ []; tracked_vars_pos = (98, 0) ∷ [] };
  solution_mapping = other_expression 0 ∷ primary_var 20 0 ∷ [];
  variable_to_id = (10, 97) ∷ (20, 98) ∷ [];
  next_variable_id = 99;
  templates_variables_positions = (20, 1) ∷ [];
}

calls_end : run ops empty_registry ≡ some after_ops
unfolding register_variable track_variable track_quad_template_variable add_solution_binding
calls_end = refl

run-IsValid_example : IsValid after_ops
run-IsValid_example = run-IsValid ops after_ops calls_end

few_ids : length (register_all (10 ∷ 20 ∷ []) empty_registry).variable_to_id ≤ 159
unfolding register_variable
few_ids = omega arith

abbrev second : ℕ
second = 20

found_id : find second (register_all (10 ∷ 20 ∷ []) empty_registry).variable_to_id ≡ some 98
unfolding register_variable
found_id = refl

register_all-distinct_example : (0 < 98) × (98 < 256) × (second ≡ second)
register_all-distinct_example =
    register_all-distinct (10 ∷ 20 ∷ []) few_ids second second 98 found_id found_id
