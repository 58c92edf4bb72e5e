-- ===== src/Graph/Variables/Lookup.antt =====
-- What the lookups by variable find.
use tentris_lib.Prelude.{
  ℕ, zero, suc, ◌+◌, ◌<◌, ◌≡◌, ◌↔◌, refl, ◌∙◌, ap, sym, ◌^◌, ◌≤◌, map, Bool, true, false, not, ◌&&◌,
  ◌||◌, List, [], ◌∷◌, arith, length, ◌==◌, ltb,
}
use tentris_lib.Prelude.Sets.{mem, set_insert_all, mem-set_insert_all}
use tentris_lib.Graph.{
  Graph, Vertex, size, narrow, vertex_at, operand_var_ids, is_expression, is_assignment,
  is_filter_vertex, is_assignment_vertex,
}
use tentris_lib.Graph.Narrow.{map-narrow}
use tentris_lib.Graph.Variables.{
  is_operand_with, positions_from, has_var, vertices_with_var_id, operands_with_var_id,
  assignments_with_var_id, collect_operands_vars, operands_var_ids_set,
}

abbrev pub is_empty : List ℕ → Bool
is_empty [] = true
is_empty (x ∷ xs) = false

is_empty-narrow : (vs : List ℕ) → is_empty (map narrow vs) ≡ is_empty vs
is_empty-narrow [] = refl
is_empty-narrow (v ∷ vs) = refl

empty-each : (vs : List ℕ) (p : ℕ) → is_empty vs ≡ true → mem p vs ≡ false
empty-each [] p h = refl
empty-each (v ∷ vs) p h = absurd (ground (arith, h))

each-empty : (vs : List ℕ) → ((p : ℕ) → mem p vs ≡ false) → is_empty vs ≡ true
each-empty [] h = refl
each-empty (v ∷ vs) h = absurd (ground (arith, h v))

module _ {F S : Type 0} where
  positions_from-below :
      (test : Vertex F S → Bool) (i q : ℕ) (vs : List (Vertex F S))
      → q < i
      → mem q (positions_from test i vs) ≡ false
  unfolding positions_from
  positions_from-below test i q [] lt = refl
  positions_from-below test i q (v ∷ vs) lt = ground (arith, positions_from-below test (suc i) q vs)

  positions_from-mem :
      (test : Vertex F S → Bool) (i p : ℕ) (vs : List (Vertex F S))
      → mem (i + p) (positions_from test i vs) ≡ (ltb p (length vs) && test (vertex_at vs p))
  unfolding positions_from
  positions_from-mem test i p [] = ground arith
  positions_from-mem test i zero (v ∷ vs) =
      ground (arith, positions_from-below test (suc i) (i + 0) vs)
  positions_from-mem test i (suc p) (v ∷ vs) =
      let moved : i + suc p ≡ suc i + p = omega arith in
      let here : (i + suc p == i) ≡ false = ground arith in
      ground (
        arith,
        here,
        ap (λ n. mem n (positions_from test (suc i) vs)) moved,
        positions_from-mem test (suc i) p vs,
      )

  pub positions-mem :
      (test : Vertex F S → Bool) (p : ℕ) (vs : List (Vertex F S))
      → mem p (positions_from test 0 vs) ≡ (ltb p (length vs) && test (vertex_at vs p))
  positions-mem test p vs =
      ap (λ n. mem n (positions_from test 0 vs)) (omega arith) ∙ positions_from-mem test 0 p vs

  positions_from-range :
      (test : Vertex F S → Bool) (i q : ℕ) (vs : List (Vertex F S))
      → mem q (positions_from test i vs) ≡ true
      → q < i + length vs
  unfolding positions_from
  positions_from-range test i q [] m = absurd (ground (arith, m))
  positions_from-range test i q (v ∷ vs) m =
      ground (arith, m, positions_from-range test (suc i) q vs)

  -- Below 256 vertices, the positions fit in a vertex.
  pub narrow_positions :
      (g : Graph F S) (test : Vertex F S → Bool)
      → size g ≤ 2 ^ 8
      → map narrow (positions_from test 0 g.vertices) ≡ positions_from test 0 g.vertices
  narrow_positions g test few =
      map-narrow (positions_from test 0 g.vertices)
        (λ v m. omega (arith, few, positions_from-range test 0 v g.vertices m))

  -- On a graph of at most 256 vertices, a position is among the vertices with a variable exactly if
  -- it is a vertex of the graph that has the variable; among the operands with it, if the vertex is
  -- no filter and no assignment besides; among the assignments with it, if the vertex is an
  -- assignment besides.
  pub with_var_id_correct :
      (g : Graph F S) (var_id p : ℕ)
      → size g ≤ 2 ^ 8
      → (mem p (vertices_with_var_id g var_id)
          ≡ (ltb p (size g) && mem var_id (operand_var_ids g p)))
        × (mem p (operands_with_var_id g var_id)
            ≡ (ltb p (size g) && (not (is_expression g p) && mem var_id (operand_var_ids g p))))
        × (mem p (assignments_with_var_id g var_id)
            ≡ (ltb p (size g) && (is_assignment g p && mem var_id (operand_var_ids g p))))
  unfolding vertices_with_var_id operands_with_var_id assignments_with_var_id
  with_var_id_correct g x p few =
      let wide = λ (test : Vertex F S → Bool).
        ap (mem p) (narrow_positions g test few) ∙ positions-mem test p g.vertices in
      (
        wide (has_var x),
        wide (is_operand_with x) ∙ ground arith,
        wide (λ v. is_assignment_vertex v && has_var x v),
      )

  collect_operands_vars-mem :
      (x i : ℕ) (vs : List (Vertex F S)) (s : List ℕ)
      → mem x (collect_operands_vars vs s) ≡ (
          mem x s
          || not (
              is_empty (
                positions_from
                  (λ v. not (is_filter_vertex v) && (not (is_assignment_vertex v) && has_var x v))
                  i
                  vs)))
  unfolding collect_operands_vars positions_from
  collect_operands_vars-mem x i [] s = ground arith
  collect_operands_vars-mem x i (v ∷ vs) s = ground (
    arith,
    collect_operands_vars-mem x (suc i) vs s,
    collect_operands_vars-mem x (suc i) vs (set_insert_all v.var_ids s),
    mem-set_insert_all x v.var_ids s,
  )

  -- A variable is in the set of the operands' variables exactly if some operand has it.
  pub operands_var_ids_set-operands :
      (g : Graph F S) (x : ℕ)
      → mem x (operands_var_ids_set g) ≡ not (is_empty (operands_with_var_id g x))
  unfolding operands_var_ids_set operands_with_var_id
  operands_var_ids_set-operands g x =
      collect_operands_vars-mem x 0 g.vertices []
      ∙ ap not (sym (is_empty-narrow (positions_from (is_operand_with x) 0 g.vertices)))

  -- A variable is missing in the set of the operands' variables exactly if no operand has it.
  pub operands_var_ids_set-absent :
      (g : Graph F S) (x : ℕ)
      → (mem x (operands_var_ids_set g) ≡ false)
        ↔ ((q : ℕ) → q < size g → is_expression g q ≡ false → mem x (operand_var_ids g q) ≡ false)
  unfolding operands_var_ids_set
  operands_var_ids_set-absent g x =
      let found = positions_from (is_operand_with x) 0 g.vertices in
      let in_set = collect_operands_vars-mem x 0 g.vertices [] in
      (
        λ h q lt operand.
            let none = empty-each found q (ground (arith, in_set, h)) in
            ground (arith, positions-mem (is_operand_with x) q g.vertices, none, lt, operand),
        λ h.
            let none =
              each-empty found
                (λ q. ground (arith, positions-mem (is_operand_with x) q g.vertices, h q)) in
            ground (arith, in_set, none),
      )
