-- ===== src/Tests/Operators.antt =====
-- The operators on a graph of two operands.
use tentris_lib.Prelude.{
  ℕ, zero, suc, ◌*◌, ◌≡◌, refl, true, false, List, [], ◌∷◌, some, arith, length, if◌then◌else◌,
  ◌==◌,
}
use tentris_lib.Prelude.Sets.{set_insert, set_insert_all, set_erase}
use tentris_lib.Expressions.Ast.{Expr}
use tentris_lib.Graph.{Vertex, Edge, no_vertex}
use tentris_lib.Graph.Variables.{
  operands_var_ids_set, collect_operands_vars, var_ids_positions_in_operands, lonely_var_ids,
  operands_with_var_id,
}
use tentris_lib.Graph.Remove.{remove_var_id, erase_var}
use tentris_lib.Graph.Components.{isc_operands}
use tentris_lib.Query.Entry.{total}
use tentris_lib.Query.Registry.{Tracker, all_tracked_vars_done}
use tentris_lib.Query.Registry.Tracked.{IsConsistent}
use tentris_lib.Query.Operators.{Entry, QueryGraph, SubOperators, done}
use tentris_lib.Query.Operators.Next.{next_op}
use tentris_lib.Query.Operators.Join.{evaluate_join, count_join}
use tentris_lib.Query.Operators.Union.{evaluate_union, count_union}
use tentris_lib.Query.Operators.Agreement.{Counts, total-evaluate_join}
use tentris_lib.Query.Operators.Agreement.Unions.{total-evaluate_union}
use tentris_lib.Query.Operators.Dispatch.{IsUsable, next_op-variant}
use tentris_lib.Tests.Toy.{Term, error, integer, toy}
use tentris_lib.Tests.Library.{Table, toy_tries, toy_doubles, toy_boost}

abbrev pub operand : List ℕ → Vertex (Expr Term ℕ) ℕ
operand var_ids =
    let v : Vertex (Expr Term ℕ) ℕ = no_vertex in record v { var_ids = var_ids; slice_key = some 0 }

abbrev edge : ℕ → ℕ → ℕ → Edge
edge s t x = record { source = s; target = t; var_id = x; is_opt = false }

-- Two operands that share the variable 1.
abbrev joined : QueryGraph toy toy_tries ℕ
joined = record {
  vertices = operand (1 ∷ 2 ∷ []) ∷ operand (1 ∷ []) ∷ [];
  edges = edge 0 1 1 ∷ edge 1 0 1 ∷ [];
  removed_var_ids = [];
}

-- Two operands that share none.
abbrev pub apart : QueryGraph toy toy_tries ℕ
apart = record {
  vertices = operand (1 ∷ 2 ∷ []) ∷ operand (3 ∷ []) ∷ [];
  edges = [];
  removed_var_ids = [];
}

abbrev tables : List Table
tables =
    ((integer 7 ∷ integer 1 ∷ [])
      ∷ (integer 7 ∷ integer 2 ∷ [])
      ∷ (integer 8 ∷ integer 1 ∷ [])
      ∷ [])
    ∷ ((integer 7 ∷ []) ∷ (integer 9 ∷ []) ∷ [])
    ∷ []

-- No variable of the operands is tracked; the variable 200 is, at the position 0.
abbrev pub tracker : Tracker
tracker = record { tracked_vars = 200 ∷ []; tracked_vars_pos = (200, 0) ∷ [] }

abbrev pub blank : Entry toy toy_tries ℕ
blank = record { key = error ∷ []; value = 1 }

abbrev product : List Table → ℕ
product [] = 1
product (rows ∷ others) = length rows * product others

-- The sizes multiplied.
abbrev pub sizes : SubOperators toy toy_tries ℕ
sizes = record {
  yields = λ g operands entry.
      let counted = record entry { value = product operands } in
      (if product operands == 0 then [] else counted ∷ [], counted);
  result = λ g operands entry. record entry { value = product operands };
}

sizes-Counts : Counts toy toy_tries ℕ sizes tracker
sizes-Counts = record {
  number = λ g operands key. product operands;
  counted = λ g operands entry h. refl;
  kept = λ g operands entry h. refl;
}

tracker-IsConsistent : IsConsistent tracker
tracker-IsConsistent v zero = (λ h. ground (arith, h), λ h. ground (arith, h))
tracker-IsConsistent v (suc p) = (λ h. absurd (ground (arith, h)), λ h. absurd (ground (arith, h)))

all_done_when_joined : done toy toy_tries ℕ tracker joined ≡ true
unfolding all_tracked_vars_done operands_var_ids_set collect_operands_vars set_insert_all set_insert
all_done_when_joined = refl

joined_vars : length (operands_var_ids_set joined) ≡ 2
unfolding operands_var_ids_set collect_operands_vars set_insert_all set_insert
joined_vars = refl

join_run :
    total (evaluate_join toy toy_tries ℕ sizes toy_doubles toy_boost tracker joined tables blank).0
    ≡ 2
unfolding evaluate_join remove_var_id isc_operands var_ids_positions_in_operands set_insert_all
    set_insert lonely_var_ids set_erase operands_with_var_id all_tracked_vars_done erase_var
join_run = refl

total-evaluate_join_example :
    total (evaluate_join toy toy_tries ℕ sizes toy_doubles toy_boost tracker joined tables blank).0
    ≡ (count_join toy toy_tries ℕ sizes toy_doubles toy_boost tracker joined tables blank).value
total-evaluate_join_example =
    total-evaluate_join toy toy_tries ℕ sizes tracker sizes-Counts toy_doubles toy_boost joined
      tables blank tracker-IsConsistent all_done_when_joined (omega (arith, joined_vars))
      (omega (arith, join_run))

all_done_when_apart : done toy toy_tries ℕ tracker apart ≡ true
unfolding all_tracked_vars_done operands_var_ids_set collect_operands_vars set_insert_all set_insert
all_done_when_apart = refl

union_run : total (evaluate_union toy toy_tries ℕ sizes toy_boost tracker apart tables blank).0 ≡ 5
unfolding evaluate_union all_tracked_vars_done set_insert_all set_insert
union_run = refl

total-evaluate_union_example :
    total (evaluate_union toy toy_tries ℕ sizes toy_boost tracker apart tables blank).0
    ≡ (count_union toy toy_tries ℕ sizes toy_boost tracker apart tables blank).value
total-evaluate_union_example =
    total-evaluate_union toy toy_tries ℕ sizes tracker sizes-Counts toy_boost apart tables blank
      tracker-IsConsistent all_done_when_apart (omega (arith, union_run))

next_op-variant_example :
    IsUsable
      (next_op toy toy_tries ℕ toy_boost tracker joined)
      (done toy toy_tries ℕ tracker joined)
next_op-variant_example =
    next_op-variant toy toy_tries ℕ toy_boost tracker joined tracker-IsConsistent
