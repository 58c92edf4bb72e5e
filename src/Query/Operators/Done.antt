-- ===== src/Query/Operators/Done.antt =====
-- Graphs that have no tracked variable keep having none as operators take them apart.
use tentris_lib.Prelude.{
  ℕ, zero, suc, ◌≡◌, refl, ap, sym, ◌∙◌, Bool, true, false, not, ◌&&◌, ◌||◌, List, [], ◌∷◌, map,
  none, if◌then◌else◌, arith, Bool-cases, inl, inr, Option-cases,
}
use tentris_lib.Prelude.Sets.{mem, mem-set_insert_all}
use tentris_lib.Prelude.Maps.{find, is_found}
use tentris_lib.Rdf.{Rdf}
use tentris_lib.Expressions.Ast.{Expr}
use tentris_lib.Graph.{Vertex, vertex_at, is_filter_vertex, is_assignment_vertex}
use tentris_lib.Graph.Remove.{erase_var, without_var, remove_var_id, positions_after}
use tentris_lib.Graph.Variables.{operands_var_ids_set, collect_operands_vars}
use tentris_lib.Graph.Components.{part}
use tentris_lib.Query.Registry.{
  Tracker, tracked_var_position, all_tracked_vars_done, positions_of_tracked,
}
use tentris_lib.Query.Registry.Tracked.{IsConsistent, mem-tracked_vars}
use tentris_lib.Query.Operators.{
  Tries, Entry, QueryGraph, done, clear_used_entry_poss, clear_positions,
}
use tentris_lib.Query.Operators.Dispatch.{all_done, done_outside}

module _ {F S : Type 0} where
  abbrev pub operand_has : ℕ → Vertex F S → Bool
  operand_has x v = not (is_filter_vertex v) && (not (is_assignment_vertex v) && mem x v.var_ids)

  abbrev pub some_operand_has : ℕ → List (Vertex F S) → Bool
  some_operand_has x [] = false
  some_operand_has x (v ∷ vs) = operand_has x v || some_operand_has x vs

  pub mem-collect :
      (x : ℕ) (vs : List (Vertex F S)) (s : List ℕ)
      → mem x (collect_operands_vars vs s) ≡ (some_operand_has x vs || mem x s)
  unfolding collect_operands_vars
  mem-collect x [] s = refl
  mem-collect x (v ∷ vs) s =
      mem-collect x vs _
      ∙ collected (is_filter_vertex v) (is_assignment_vertex v) (some_operand_has x vs)
          (mem x v.var_ids) (mem x s) s _ refl (mem-set_insert_all x v.var_ids s)
    where
      collected :
          (f a later here before : Bool) (s t : List ℕ)
          → mem x s ≡ before
          → mem x t ≡ (here || before)
          → (later || mem x (if f then s else if a then s else t))
            ≡ ((not f && (not a && here)) || later || before)
      collected f a later here before s t e k = ground (arith, e, k)

  has-vertex_at :
      (x p : ℕ) (vs : List (Vertex F S))
      → operand_has x (vertex_at vs p) ≡ true
      → some_operand_has x vs ≡ true
  has-vertex_at x p [] h = absurd (ground (arith, h))
  has-vertex_at x zero (v ∷ vs) h = ground (arith, h)
  has-vertex_at x (suc p) (v ∷ vs) h = ground (arith, has-vertex_at x p vs h)

  pub has-selected :
      (f : Vertex F S → Vertex F S)
      → ((x : ℕ) (v : Vertex F S) → operand_has x (f v) ≡ true → operand_has x v ≡ true)
      → (x : ℕ) (vs : List (Vertex F S)) (positions : List ℕ)
      → some_operand_has x (map (λ p. f (vertex_at vs p)) positions) ≡ true
      → some_operand_has x vs ≡ true
  has-selected f shrinks x vs [] h = absurd (ground (arith, h))
  has-selected f shrinks x vs (p ∷ positions) h =
      elim (Bool-cases (operand_has x (f (vertex_at vs p)))) [
        | inl here ↦ has-vertex_at x p vs (shrinks x (vertex_at vs p) here)
        | inr later ↦ has-selected f shrinks x vs positions (ground (arith, h, later))
      ]

pub mem-erase_var : (x v : ℕ) (vs : List ℕ) → mem x (erase_var v vs) ≡ true → mem x vs ≡ true
unfolding erase_var
mem-erase_var x v [] h = h
mem-erase_var x v (y ∷ ys) h = ground (arith, h, mem-erase_var x v ys)

pub still_done :
    (tracked vars vars' : List ℕ)
    → ((x : ℕ) → mem x vars' ≡ true → mem x vars ≡ true)
    → all_tracked_vars_done vars tracked ≡ true
    → all_tracked_vars_done vars' tracked ≡ true
still_done tracked vars vars' fewer h = all_done vars' tracked (λ v inside.
    elim (Bool-cases (mem v vars')) [
      | inl both ↦ absurd (ground (arith, fewer v both, done_outside vars tracked h v inside))
      | inr outside ↦ outside
    ])

module _ (r : Rdf) (tries : Tries r.Node) (S : Type 0) (tracker : Tracker) where
  fewer_vars :
      (vs vs' : List (Vertex (Expr r.Node r.Variable) S))
      → ((x : ℕ) → some_operand_has x vs' ≡ true → some_operand_has x vs ≡ true)
      → (x : ℕ) → mem x (collect_operands_vars vs' []) ≡ true
      → mem x (collect_operands_vars vs []) ≡ true
  fewer_vars vs vs' h x inside =
      ground (arith, inside, mem-collect x vs [], mem-collect x vs' [], h x)

  pub remove_var_id-done :
      (g : QueryGraph r tries S) (v : ℕ)
      → done r tries S tracker g ≡ true
      → done r tries S tracker (remove_var_id g v true) ≡ true
  unfolding operands_var_ids_set remove_var_id
  remove_var_id-done g v h =
      still_done tracker.tracked_vars _ _
        (fewer_vars g.vertices (remove_var_id g v true).vertices (λ x.
          has-selected (without_var v) (λ y w e. ground (arith, e, mem-erase_var y v w.var_ids)) x
            g.vertices (positions_after g v true)))
        h

  pub part-done :
      (g : QueryGraph r tries S) (positions : List ℕ)
      → done r tries S tracker g ≡ true
      → done r tries S tracker (part g positions).0 ≡ true
  unfolding operands_var_ids_set
  part-done g positions h =
      still_done tracker.tracked_vars _ _
        (fewer_vars g.vertices (part g positions).0.vertices
          (λ x. has-selected (λ w. w) (λ y w e. e) x g.vertices positions))
        h

  -- A variable of the operands has no position.
  pub no_position :
      (g : QueryGraph r tries S) (v : ℕ)
      → IsConsistent tracker
      → done r tries S tracker g ≡ true
      → mem v (operands_var_ids_set g) ≡ true
      → tracked_var_position tracker v ≡ none
  no_position g v consistent h inside = elim (Option-cases (tracked_var_position tracker v)) [
    | inl missed ↦ missed
    | inr (p, found) ↦
        let tracked : mem v tracker.tracked_vars ≡ true =
          sym (mem-tracked_vars tracker v consistent) ∙ ap is_found found in
        absurd (
          ground
            (arith, inside, done_outside (operands_var_ids_set g) tracker.tracked_vars h v tracked))
  ]

  no_positions :
      (vars : List ℕ) (m : List (ℕ × ℕ))
      → ((v : ℕ) → is_found (find v m) ≡ true → mem v vars ≡ false)
      → positions_of_tracked vars m ≡ []
  unfolding positions_of_tracked
  no_positions vars [] h = refl
  no_positions vars ((var, pos) ∷ m) h =
      let here = h var (ground arith) in
      let later = no_positions vars m (λ v found. h v (ground (arith, found))) in
      ground (arith, here, later)

  -- So nothing is cleared.
  pub clear-done :
      (g : QueryGraph r tries S) (entry : Entry r tries S)
      → IsConsistent tracker
      → done r tries S tracker g ≡ true
      → (clear_used_entry_poss r tries S tracker g entry).key ≡ entry.key
  unfolding clear_used_entry_poss clear_positions
  clear-done g entry consistent h =
      ap (λ ps. clear_positions r tries S ps entry.key)
        (no_positions (operands_var_ids_set g) tracker.tracked_vars_pos (λ v found.
          done_outside (operands_var_ids_set g) tracker.tracked_vars h v
            (sym (mem-tracked_vars tracker v consistent) ∙ found)))
