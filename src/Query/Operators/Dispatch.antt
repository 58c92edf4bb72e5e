-- ===== src/Query/Operators/Dispatch.antt =====
-- Which variant of an operator a graph is given to.
use tentris_lib.Prelude.{
  ℕ, ◌≡◌, refl, ap, sym, ◌∙◌, Bool, true, false, not, List, [], ◌∷◌, if◌then◌else◌, ◌==◌, ltb,
  arith, length, Bool-cases, inl, inr, ==_iff,
}
use tentris_lib.Prelude.Sets.{mem}
use tentris_lib.Rdf.{Rdf}
use tentris_lib.Graph.{Vertex, size, is_expression, is_assignment, operand_var_ids}
use tentris_lib.Graph.Variables.{
  operands_var_ids_set, collect_operands_vars, assignments_for_evaluation, filters_for_evaluation,
  non_optional_var_ids_set,
}
use tentris_lib.Graph.Components.{Labelling, isc_operands, union_components, cartesian_components}
use tentris_lib.Query.Registry.{Tracker, is_var_tracked, all_tracked_vars_done}
use tentris_lib.Query.Registry.Tracked.{IsConsistent, mem-tracked_vars}
use tentris_lib.Query.Operators.{Tries, QueryGraph, done}
use tentris_lib.Query.Operators.Next.{
  Operation, no_op, join, left_join, union, cartesian, assignment, filter, filter_alt, resolve,
  count, entry_generator, none_of, all_of, is_nil, next_op_single, next_op,
}

pub not_done :
    (v : ℕ) (vars tracked : List ℕ)
    → mem v tracked ≡ true
    → mem v vars ≡ true
    → all_tracked_vars_done vars tracked ≡ false
unfolding all_tracked_vars_done
not_done v vars [] h k = absurd (ground (arith, h))
not_done v vars (x ∷ xs) h k = elim (Bool-cases (v == x)) [
  | inl same ↦
      let here = ap (λ w. mem w vars) (sym ((==_iff v x).0 same)) ∙ k in ground (arith, here)
  | inr other ↦ ground (arith, h, other, not_done v vars xs)
]

pub all_done :
    (vars tracked : List ℕ)
    → ((v : ℕ) → mem v tracked ≡ true → mem v vars ≡ false)
    → all_tracked_vars_done vars tracked ≡ true
unfolding all_tracked_vars_done
all_done vars [] h = refl
all_done vars (x ∷ xs) h =
    let here = h x (ground arith) in
    let later = all_done vars xs (λ v inside. h v (ground (arith, inside))) in
    ground (arith, here, later)

pub done_outside :
    (vars tracked : List ℕ)
    → all_tracked_vars_done vars tracked ≡ true
    → (v : ℕ) → mem v tracked ≡ true
    → mem v vars ≡ false
done_outside vars tracked h v inside = elim (Bool-cases (mem v vars)) [
  | inl both ↦ absurd (ground (arith, h, not_done v vars tracked inside both))
  | inr outside ↦ outside
]

none_of-mem :
    (test : ℕ → Bool) (v : ℕ) (vars : List ℕ)
    → none_of test vars ≡ true
    → mem v vars ≡ true
    → test v ≡ false
none_of-mem test v [] h k = absurd (ground (arith, k))
none_of-mem test v (x ∷ xs) h k = elim (Bool-cases (v == x)) [
  | inl same ↦ let here : test v ≡ test x = ap test ((==_iff v x).0 same) in ground (arith, h, here)
  | inr other ↦ ground (arith, h, k, other, none_of-mem test v xs)
]

abbrev pick_single : Bool → Bool → Bool → Bool → Bool → Operation
pick_single e a l n m =
    if e
    then (if a then assignment else filter)
    else if l
    then (if n then count else if m then resolve else join)
    else join

single_count : (e a l n m : Bool) → pick_single e a l n m ≡ count → n ≡ true
single_count e a l n m h = ground (arith, h)

single_resolve : (e a l n m : Bool) → pick_single e a l n m ≡ resolve → (n ≡ false) × (m ≡ true)
single_resolve e a l n m h = ground (arith, h)

single_generator : (e a l n m : Bool) → pick_single e a l n m ≡ entry_generator → ⊥
single_generator e a l n m h = ground (arith, h)

abbrev pick :
    (none one unions assigns filters cartesians optional opt_only : Bool) → Operation → Operation
pick b0 b1 u a f c o p single =
    if b0
    then entry_generator
    else if b1
    then single
    else if u
    then union
    else if a
    then assignment
    else if f
    then filter
    else if c
    then cartesian
    else if o
    then (if p then filter_alt else left_join)
    else join

pick_of_single :
    (b0 b1 u a f c o p : Bool) (single : Operation)
    → (pick b0 b1 u a f c o p single ≡ count → single ≡ count)
      × (pick b0 b1 u a f c o p single ≡ resolve → single ≡ resolve)
      × (pick b0 b1 u a f c o p single ≡ entry_generator
          → (single ≡ entry_generator → ⊥)
          → b0 ≡ true)
pick_of_single b0 b1 u a f c o p single =
    (λ h. ground (arith, h), λ h. ground (arith, h), λ h k. ground (arith, h, k))

empty_done :
    {F S : Type 0} (vs : List (Vertex F S)) (tracked : List ℕ)
    → (length vs == 0) ≡ true
    → all_tracked_vars_done (collect_operands_vars vs []) tracked ≡ true
unfolding collect_operands_vars
empty_done [] tracked h = all_done [] tracked (λ v inside. refl)
empty_done (v ∷ vs) tracked h = absurd (ground (arith, h))

tracked_first :
    (test : ℕ → Bool) (vars : List ℕ)
    → none_of test vars ≡ false
    → all_of test vars ≡ true
    → (v : ℕ) × (mem v vars ≡ true) × (test v ≡ true)
tracked_first test [] h k = absurd (ground (arith, h))
tracked_first test (v ∷ vs) h k = (v, ground arith, ground (arith, k))

untracked :
    (tracker : Tracker)
    → IsConsistent tracker
    → (vars : List ℕ) → none_of (is_var_tracked tracker) vars ≡ true
    → (v : ℕ) → mem v tracker.tracked_vars ≡ true
    → mem v vars ≡ false
untracked tracker consistent vars free v inside = elim (Bool-cases (mem v vars)) [
  | inl both ↦
      let off = none_of-mem (is_var_tracked tracker) v vars free both in
      absurd (ground (arith, off, mem-tracked_vars tracker v consistent, inside))
  | inr outside ↦ outside
]

-- What an operator needs of its graph, by whether that has tracked variables: some variants assert
-- that they are never used.
abbrev pub IsUsable : Operation → Bool → Type 0
IsUsable count no_tracked = no_tracked ≡ true
IsUsable entry_generator no_tracked = no_tracked ≡ true
IsUsable resolve no_tracked = no_tracked ≡ false
IsUsable _ no_tracked = Unit

usable :
    (op : Operation) (no_tracked : Bool)
    → (op ≡ count → no_tracked ≡ true)
    → (op ≡ entry_generator → no_tracked ≡ true)
    → (op ≡ resolve → no_tracked ≡ false)
    → IsUsable op no_tracked
usable count b on_count on_entry on_resolve = on_count refl
usable entry_generator b on_count on_entry on_resolve = on_entry refl
usable resolve b on_count on_entry on_resolve = on_resolve refl
usable no_op b on_count on_entry on_resolve = tt
usable join b on_count on_entry on_resolve = tt
usable left_join b on_count on_entry on_resolve = tt
usable union b on_count on_entry on_resolve = tt
usable cartesian b on_count on_entry on_resolve = tt
usable assignment b on_count on_entry on_resolve = tt
usable filter b on_count on_entry on_resolve = tt
usable filter_alt b on_count on_entry on_resolve = tt

module _ (r : Rdf) (tries : Tries r.Node) (S : Type 0) (boost : Labelling) where
  -- The operator that only counts and the one that generates an entry are chosen only for graphs
  -- without tracked variables, and the operator that resolves an operand only for graphs with one, if
  -- the positions and the tracked variables of the query are inverse to each other. So where the
  -- caller takes the counting variant exactly for graphs without tracked variables, these operators
  -- run in the variant that they have. (The operator for a single group takes the other one always.)
  pub next_op-variant :
      (tracker : Tracker) (g : QueryGraph r tries S)
      → IsConsistent tracker
      → IsUsable (next_op r tries S boost tracker g) (done r tries S tracker g)
  unfolding next_op next_op_single operands_var_ids_set
  next_op-variant tracker g consistent =
      let vars = operands_var_ids_set g in
      let isc_ops = isc_operands boost g in
      let chosen =
        pick_of_single (size g == 0) (size g == 1) (ltb 1 (length (union_components boost g)))
          (not (is_nil (assignments_for_evaluation g isc_ops)))
          (not (is_nil (filters_for_evaluation g isc_ops)))
          (ltb 1 (length (cartesian_components boost g))) (ltb (length isc_ops) (size g))
          (is_nil (non_optional_var_ids_set g isc_ops)) (next_op_single r tries S tracker g) in
      let one_var = length vars == length (operand_var_ids g 0) in
      let free = none_of (is_var_tracked tracker) vars in
      let all = all_of (is_var_tracked tracker) vars in
      usable _ _
        (λ h. all_done vars tracker.tracked_vars (
          untracked tracker consistent vars
            (single_count (is_expression g 0) (is_assignment g 0) one_var free all (chosen.0 h))))
        (λ h.
          empty_done g.vertices tracker.tracked_vars (
            chosen.2 h (single_generator (is_expression g 0) (is_assignment g 0) one_var free all)))
        (λ h.
          let (any, every) =
            single_resolve (is_expression g 0) (is_assignment g 0) one_var free all (chosen.1 h) in
          let (v, inside, tracked) = tracked_first (is_var_tracked tracker) vars any every in
          not_done v vars tracker.tracked_vars
            (sym (mem-tracked_vars tracker v consistent) ∙ tracked) inside)
