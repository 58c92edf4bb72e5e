-- ===== src/Graph/Variables/Ready.antt =====
-- Which filters and assignments are ready for evaluation.
use tentris_lib.Prelude.{
  ℕ, ◌<◌, ◌≡◌, refl, sym, ap, ◌↔◌, Bool, true, false, not, ◌||◌, ◌==◌, if◌then◌else◌, ◌&&◌, List,
  [], ◌∷◌, arith, inl, inr, ◌⊎◌, ◌≤◌, ◌^◌, ◌∙◌, Option, none, some, none-neq-some, some_injective,
  ==_iff, get_or,
}
use tentris_lib.Prelude.Sets.{mem}
use tentris_lib.Graph.{
  Graph, Assignment, size, operand_var_ids, is_filter, is_assignment, is_expression, vertex_at,
}
use tentris_lib.Graph.Variables.{
  vertices_with_var_id, all_filters, only_in_filters, filters_for_evaluation, in_no_operand,
  only_result, operands_var_ids_set, assignments_for_evaluation,
}
use tentris_lib.Graph.Variables.Lookup.{with_var_id_correct, operands_var_ids_set-absent}

mem-cons : (v w : ℕ) (ws : List ℕ) → mem v (w ∷ ws) ≡ true → (v ≡ w) ⊎ (mem v ws ≡ true)
mem-cons v w ws h = ground arith

all_three : (a b c : Bool) → (a && (b && c)) ≡ true → (a ≡ true) × (b ≡ true) × (c ≡ true)
all_three a b c h = ground (arith, h)

either_test : (a b : Bool) → (a || b) ≡ true → (a ≡ true) ⊎ (b ≡ true)
either_test a b h = ground (arith, h)

three_all : (a b c d : Bool) → a ≡ true → b ≡ true → c ≡ true → (a && (b && (c || d))) ≡ true
three_all a b c d h k l = ground (arith, h, k, l)

three_all_later : (a b c d : Bool) → a ≡ true → b ≡ true → d ≡ true → (a && (b && (c || d))) ≡ true
three_all_later a b c d h k l = ground (arith, h, k, l)

keep_ready :
    (p q : ℕ) (fq oq fp op m : Bool) (rest : List ℕ)
    → (p ≡ q → fq ≡ fp)
    → (p ≡ q → oq ≡ op)
    → mem p rest ≡ (m && (fp && op))
    → mem p (if not fq then rest else if oq then q ∷ rest else rest) ≡ ((p == q || m) && (fp && op))
keep_ready p q fq oq fp op m rest e e' h = ground arith

-- None of the variables is in the set.
abbrev pub NoneIn : List ℕ → List ℕ → Type 0
NoneIn set [] = Unit
NoneIn set (x ∷ xs) = (mem x set ≡ false) × NoneIn set xs

module _ {F S : Type 0} (g : Graph F S) where
  all_filters-each :
      (vs : List ℕ) → all_filters g vs ≡ true → (v : ℕ) → mem v vs ≡ true → is_filter g v ≡ true
  unfolding all_filters
  all_filters-each [] h v m = absurd (ground arith)
  all_filters-each (w ∷ ws) h v m = elim (mem-cons v w ws m) [
    | inl same ↦ let first : is_filter g w ≡ true = ground arith in rw same first
    | inr later ↦ all_filters-each ws (ground arith) v later
  ]

  each-all_filters :
      (vs : List ℕ) → ((v : ℕ) → mem v vs ≡ true → is_filter g v ≡ true) → all_filters g vs ≡ true
  unfolding all_filters
  each-all_filters [] h = refl
  each-all_filters (w ∷ ws) h = ground (arith, h w, each-all_filters ws (λ v m. h v (ground arith)))

  -- All vertices that have the variable are filters.
  abbrev pub OnlyInFilters : ℕ → Type 0
  OnlyInFilters x = (q : ℕ) → q < size g → mem x (operand_var_ids g q) ≡ true → is_filter g q ≡ true

  only_in_filters-each :
      size g ≤ 2 ^ 8
      → (xs : List ℕ) → only_in_filters g xs ≡ true
      → (x : ℕ) → mem x xs ≡ true
      → OnlyInFilters x
  unfolding only_in_filters
  only_in_filters-each few [] h x m q lt has = absurd (ground arith)
  only_in_filters-each few (y ∷ ys) h x m q lt has = elim (mem-cons x y ys m) [
    | inl same ↦
        let all : all_filters g (vertices_with_var_id g y) ≡ true = ground arith in
        let has' : mem y (operand_var_ids g q) ≡ true = rw same at has in
        all_filters-each (vertices_with_var_id g y) all q
          (ground (arith, (with_var_id_correct g y q few).0))
    | inr later ↦ only_in_filters-each few ys (ground arith) x later q lt has
  ]

  each-only_in_filters :
      size g ≤ 2 ^ 8
      → (xs : List ℕ) → ((x : ℕ) → mem x xs ≡ true → OnlyInFilters x)
      → only_in_filters g xs ≡ true
  unfolding only_in_filters
  each-only_in_filters few [] h = refl
  each-only_in_filters few (y ∷ ys) h =
      let first = each-all_filters (vertices_with_var_id g y) (λ q m.
        h y (ground arith) q (ground (arith, (with_var_id_correct g y q few).0))
          (ground (arith, (with_var_id_correct g y q few).0))) in
      ground (arith, first, each-only_in_filters few ys (λ x m. h x (ground arith)))

  filters_for_evaluation-mem :
      (isc_ops : List ℕ) (p : ℕ)
      → mem p (filters_for_evaluation g isc_ops)
        ≡ (mem p isc_ops && (is_filter g p && only_in_filters g (operand_var_ids g p)))
  unfolding filters_for_evaluation
  filters_for_evaluation-mem [] p = refl
  filters_for_evaluation-mem (q ∷ qs) p =
      keep_ready p q (is_filter g q) (only_in_filters g (operand_var_ids g q)) (is_filter g p)
        (only_in_filters g (operand_var_ids g p)) (mem p qs) (filters_for_evaluation g qs)
        (λ e. ap (is_filter g) (sym e))
        (λ e. ap (λ v. only_in_filters g (operand_var_ids g v)) (sym e))
        (filters_for_evaluation-mem qs p)

  -- On a graph of at most 256 vertices, a vertex is among the filters for evaluation exactly if it
  -- belongs to the independent strong component, is a filter, and each of its variables occurs in filters only.
  pub filters_for_evaluation_correct :
      (isc_ops : List ℕ) (p : ℕ)
      → size g ≤ 2 ^ 8
      → (mem p (filters_for_evaluation g isc_ops) ≡ true) ↔ (
          (mem p isc_ops ≡ true)
          × (is_filter g p ≡ true)
          × ((x : ℕ) → mem x (operand_var_ids g p) ≡ true → OnlyInFilters x))
  filters_for_evaluation_correct isc_ops p few = (
    λ h.
        let ready : (mem p isc_ops ≡ true)
            × (is_filter g p ≡ true)
            × (only_in_filters g (operand_var_ids g p) ≡ true) =
          ground (arith, filters_for_evaluation-mem isc_ops p) in
        (ready.0, ready.1, only_in_filters-each few (operand_var_ids g p) ready.2),
    λ (m, f, each).
        let only = each-only_in_filters few (operand_var_ids g p) each in
        ground (arith, filters_for_evaluation-mem isc_ops p),
  )

  in_no_operand-NoneIn : (set xs : List ℕ) → (in_no_operand set xs ≡ true) ↔ NoneIn set xs
  unfolding in_no_operand
  in_no_operand-NoneIn set [] = (λ h. tt, λ h. refl)
  in_no_operand-NoneIn set (x ∷ xs) =
      let rest = in_no_operand-NoneIn set xs in
      (λ h. ground (arith, rest.0), λ h. ground (arith, rest.1 h.1))

  -- The code's test of an assignment.
  abbrev ready_assignment : ℕ → Bool
  ready_assignment p =
      let v = vertex_at g.vertices p in
      only_result v.var_ids v.assignment_expression
      || in_no_operand (operands_var_ids_set g) v.var_ids

  keep_assignment :
      (p q : ℕ) (aq oq iq bp rp m : Bool) (rest : List ℕ)
      → (p ≡ q → aq ≡ bp)
      → (p ≡ q → (oq || iq) ≡ rp)
      → mem p rest ≡ (m && (bp && rp))
      → mem p (if not aq then rest else if oq then q ∷ rest else if iq then q ∷ rest else rest)
        ≡ ((p == q || m) && (bp && rp))
  keep_assignment p q aq oq iq bp rp m rest e e' h = ground arith

  assignments_for_evaluation-mem :
      (isc_ops : List ℕ) (p : ℕ)
      → mem p (assignments_for_evaluation g isc_ops)
        ≡ (mem p isc_ops && (is_assignment g p && ready_assignment p))
  unfolding assignments_for_evaluation
  assignments_for_evaluation-mem [] p = refl
  assignments_for_evaluation-mem (q ∷ qs) p =
      let v = vertex_at g.vertices q in
      keep_assignment p q (is_assignment g q) (only_result v.var_ids v.assignment_expression)
        (in_no_operand (operands_var_ids_set g) v.var_ids) (is_assignment g p) (ready_assignment p)
        (mem p qs) (assignments_for_evaluation g qs) (λ e. ap (is_assignment g) (sym e))
        (λ e. ap ready_assignment (sym e)) (assignments_for_evaluation-mem qs p)

  -- No operand has the variable.
  abbrev pub InNoOperand : ℕ → Type 0
  InNoOperand x =
      (q : ℕ) → q < size g → is_expression g q ≡ false → mem x (operand_var_ids g q) ≡ false

  -- No operand has any of the variables.
  abbrev pub NoneInOperands : List ℕ → Type 0
  NoneInOperands [] = Unit
  NoneInOperands (x ∷ xs) = InNoOperand x × NoneInOperands xs

  -- The assignment's result variable is the only variable that the vertex has left.
  abbrev pub OnlyResult : ℕ → Type 0
  OnlyResult p =
      (a : Assignment F) × ((vertex_at g.vertices p).assignment_expression ≡ some a)
      × (operand_var_ids g p ≡ a.result_var_id ∷ [])

  only_result-alone :
      (xs : List ℕ) (o : Option (Assignment F))
      → (only_result xs o ≡ true)
        ↔ ((a : Assignment F) × (o ≡ some a) × (xs ≡ a.result_var_id ∷ []))
  only_result-alone [] o =
      (λ h. absurd (ground (arith, h)), λ (a, e, same). absurd (ground (arith, same)))
  only_result-alone (x ∷ []) none =
      (λ h. absurd (ground (arith, h)), λ (a, e, same). absurd (none-neq-some e))
  only_result-alone (x ∷ []) (some b) = (
    λ h. (b, refl, ap (λ y. y ∷ []) ((==_iff x b.result_var_id).0 h)),
    λ (a, e, same).
        let here : b ≡ a = some_injective e in
        let id : a.result_var_id ≡ b.result_var_id = ap (λ c. c.result_var_id) (sym here) in
        let first : x ≡ a.result_var_id = ap (λ ys. get_or ys 0 0) same in
        (==_iff x b.result_var_id).1 (first ∙ id),
  )
  only_result-alone (x ∷ y ∷ xs) o =
      (λ h. absurd (ground (arith, h)), λ (a, e, same). absurd (ground (arith, same)))

  none-operands : (xs : List ℕ) → NoneIn (operands_var_ids_set g) xs ↔ NoneInOperands xs
  none-operands [] = (λ h. tt, λ h. tt)
  none-operands (x ∷ xs) =
      let first = operands_var_ids_set-absent g x in
      let rest = none-operands xs in
      (λ h. (first.0 h.0, rest.0 h.1), λ h. (first.1 h.0, rest.1 h.1))

  -- A vertex is among the assignments for evaluation exactly if it belongs to the independent strong
  -- component, is an assignment, and either its result variable is the only one it has left, or no
  -- vertex that is neither a filter nor an assignment has any of its variables.
  pub assignments_for_evaluation_correct :
      (isc_ops : List ℕ) (p : ℕ)
      → (mem p (assignments_for_evaluation g isc_ops) ≡ true) ↔ (
          (mem p isc_ops ≡ true)
          × (is_assignment g p ≡ true)
          × (OnlyResult p ⊎ NoneInOperands (operand_var_ids g p)))
  assignments_for_evaluation_correct isc_ops p =
      let vars = operand_var_ids g p in
      let none = in_no_operand-NoneIn (operands_var_ids_set g) vars in
      let operands = none-operands vars in
      let alone = only_result-alone vars (vertex_at g.vertices p).assignment_expression in
      let here = assignments_for_evaluation-mem isc_ops p in
      (
        λ h.
            let (inside, assigns, ready) = all_three _ _ _ (sym here ∙ h) in
            (
              inside,
              assigns,
              elim (either_test _ _ ready) [
                | inl only ↦ inl (alone.0 only)
                | inr free ↦ inr (operands.0 (none.0 free))
              ],
            ),
        λ (inside, assigns, ready). elim ready [
          | inl only ↦ here ∙ three_all _ _ _ _ inside assigns (alone.1 only)
          | inr free ↦ here ∙ three_all_later _ _ _ _ inside assigns (none.1 (operands.1 free))
        ],
      )
