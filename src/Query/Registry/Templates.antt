-- ===== src/Query/Registry/Templates.antt =====
-- The variables of templates (CONSTRUCT, DELETE, INSERT) over any sequence of calls.
use tentris_lib.Prelude.{
  ℕ, zero, suc, ◌+◌, ◌≡◌, refl, ap, sym, ◌∙◌, true, false, List, [], ◌∷◌, ◌++◌, Option, none, some,
  ◌==◌, arith, length, get_elem?, Bool-cases, inl, inr, choose_true, choose_false, subst,
  some_injective, >>=-eq-some, ◌>>=◌, ==_iff, ◌%◌,
}
use tentris_lib.Prelude.Maps.{find, is_found, assign, find-assign}
use tentris_lib.Query.Registry.{
  Tracker, is_var_tracked, tracked_var_position, track_var, Registry, empty_registry,
  register_variable, track_variable, position_in, tracked_variable_position,
  track_quad_template_variable, Binding, primary_var, add_solution_binding,
}
use tentris_lib.Query.Registry.Tracked.{IsConsistent, track_var-IsConsistent}

-- A call that changes the variables of a query.
pub data Op : Type 0 where
  register track track_template : ℕ → Op
  bind : Binding → Op

abbrev pub apply : Op → Registry → Option Registry
apply (register v) q = some (register_variable v q)
apply (track v) q = track_variable v q
apply (track_template v) q = track_quad_template_variable v q
apply (bind expression) q = some (add_solution_binding expression q)

-- A sequence of calls; `none` if an assertion fails.
abbrev pub run : List Op → Registry → Option Registry
run [] q = some q
run (op ∷ ops) q = apply op q >>= run ops

-- The solution that a template's variable is read from is the expression of that variable, at the
-- position at which the variable is tracked.
abbrev pub TemplateIs : Registry → ℕ → ℕ → Type 0
TemplateIs q v p =
    (pos : ℕ) × (get_elem? q.solution_mapping p ≡ some (primary_var v pos))
    × (tracked_variable_position v q ≡ some pos)

pub record IsValid (q : Registry) : Type 0 where
  pub consistent : IsConsistent q.tracker
  pub templates : (v p : ℕ) → find v q.templates_variables_positions ≡ some p → TemplateIs q v p

position_found :
    (t : Tracker) (o : Option ℕ) (pos : ℕ) → position_in t o ≡ some pos → is_found o ≡ true
position_found t none pos h = ground (arith, h)
position_found t (some id) pos h = refl

other_key :
    (w v : ℕ) (ids : List (ℕ × ℕ))
    → is_found (find w ids) ≡ false
    → is_found (find v ids) ≡ true
    → (w == v) ≡ false
other_key w v ids new known = elim (Bool-cases (w == v)) [
  | inl same ↦
      absurd
        (ground (arith, sym new ∙ ap (λ k. is_found (find k ids)) ((==_iff w v).0 same) ∙ known))
  | inr other ↦ other
]

registered_position :
    (v w n : ℕ) (ids : List (ℕ × ℕ)) (t : Tracker) (pos : ℕ)
    → is_found (find w ids) ≡ false
    → position_in t (find v ids) ≡ some pos
    → position_in t (find v (assign w n ids)) ≡ some pos
registered_position v w n ids t pos new h =
    let known = position_found t (find v ids) pos h in
    ap (position_in t)
      (find-assign v w n ids ∙ choose_false (w == v) _ _ (other_key w v ids new known))
    ∙ h

-- A call that leaves the templates alone and keeps the positions of variables.
keeps_templates :
    (q q' : Registry)
    → q'.templates_variables_positions ≡ q.templates_variables_positions
    → q'.solution_mapping ≡ q.solution_mapping
    → ((v pos : ℕ)
        → tracked_variable_position v q ≡ some pos
        → tracked_variable_position v q' ≡ some pos)
    → IsValid q
    → (v p : ℕ) → find v q'.templates_variables_positions ≡ some p
    → TemplateIs q' v p
keeps_templates q q' e f keep h v p found =
    let (pos, here, tracked) = h.templates v p (ap (find v) (sym e) ∙ found) in
    (pos, ap (λ sm. get_elem? sm p) f ∙ here, keep v pos tracked)

registered : ℕ → Registry → Registry
registered w q = record q {
  variable_to_id = assign w q.next_variable_id q.variable_to_id;
  next_variable_id = (q.next_variable_id + 1) % 256;
}

register_variable-IsValid : (w : ℕ) (q : Registry) → IsValid q → IsValid (register_variable w q)
unfolding register_variable tracked_variable_position registered
register_variable-IsValid w q h = elim (Bool-cases (is_found (find w q.variable_to_id))) [
  | inl known ↦ subst IsValid (sym (choose_true _ q _ known)) h
  | inr new ↦ subst IsValid (sym (choose_false _ q _ new)) (record {
    consistent = h.consistent;
    templates =
        keeps_templates q (registered w q) refl refl
          (λ v pos. registered_position v w q.next_variable_id q.variable_to_id q.tracker pos new)
          h;
  })
]

-- A position that is given stays.
track_var_keeps :
    (var : ℕ) (t : Tracker) (id pos : ℕ)
    → tracked_var_position t id ≡ some pos
    → tracked_var_position (track_var var t) id ≡ some pos
unfolding track_var
track_var_keeps var t id pos h = elim (Bool-cases (is_var_tracked t var)) [
  | inl tracked ↦ ap (λ t'. tracked_var_position t' id) (choose_true _ t _ tracked) ∙ h
  | inr new ↦
      ap (λ t'. tracked_var_position t' id) (choose_false _ t _ new)
      ∙ find-assign id var _ t.tracked_vars_pos
      ∙ choose_false (var == id) _ _ (other_key var id t.tracked_vars_pos new (ap is_found h))
      ∙ h
]

track_position :
    (var : ℕ) (t : Tracker) (o : Option ℕ) (pos : ℕ)
    → position_in t o ≡ some pos
    → position_in (track_var var t) o ≡ some pos
track_position var t none pos h = h
track_position var t (some id) pos h = track_var_keeps var t id pos h

abbrev tracking : ℕ → Registry → Registry
tracking id q = record q { tracker = track_var id q.tracker }

tracking-IsValid : (id : ℕ) (q : Registry) → IsValid q → IsValid (tracking id q)
unfolding tracked_variable_position
tracking-IsValid id q h = record {
  consistent = track_var-IsConsistent id q.tracker h.consistent;
  templates =
      keeps_templates q (tracking id q) refl refl
        (λ v pos. track_position id q.tracker (find v q.variable_to_id) pos) h;
}

abbrev templated : ℕ → ℕ → Registry → Registry
templated w pos q = record q {
  templates_variables_positions =
      assign w (length q.solution_mapping) q.templates_variables_positions;
  solution_mapping = q.solution_mapping ++ (primary_var w pos ∷ []);
}

-- Earlier solutions stay where they are.
get_elem?-before :
    {A : Type 0} (xs : List A) (a b : A) (p : ℕ)
    → get_elem? xs p ≡ some b
    → get_elem? (xs ++ (a ∷ [])) p ≡ some b
get_elem?-before [] a b p h = absurd (ground (arith, h))
get_elem?-before (x ∷ xs) a b zero h = h
get_elem?-before (x ∷ xs) a b (suc p) h = get_elem?-before xs a b p h

get_elem?-last :
    {A : Type 0} (xs : List A) (a : A) → get_elem? (xs ++ (a ∷ [])) (length xs) ≡ some a
get_elem?-last [] a = refl
get_elem?-last (x ∷ xs) a = get_elem?-last xs a

templated-IsValid :
    (w pos : ℕ) (q : Registry)
    → tracked_variable_position w q ≡ some pos
    → IsValid q
    → IsValid (templated w pos q)
unfolding tracked_variable_position
templated-IsValid w pos q tracked h = record { consistent = h.consistent; templates = templates }
  where
    templates :
        (v p : ℕ)
        → find v (templated w pos q).templates_variables_positions ≡ some p
        → TemplateIs (templated w pos q) v p
    templates v p found = elim (Bool-cases (w == v)) [
      | inl same ↦
          let wv = (==_iff w v).0 same in
          let last = some_injective (
            sym (choose_true (w == v) (some (length q.solution_mapping)) _ same)
            ∙ sym (find-assign v w (length q.solution_mapping) q.templates_variables_positions)
            ∙ found) in
          (
            pos,
            ap (get_elem? (q.solution_mapping ++ (primary_var w pos ∷ []))) (sym last)
                ∙ get_elem?-last q.solution_mapping (primary_var w pos)
                ∙ ap (λ k. some (primary_var k pos)) wv,
            ap (λ k. position_in q.tracker (find k q.variable_to_id)) (sym wv) ∙ tracked,
          )
      | inr other ↦
          let (pos', here, tracked') = h.templates v p (
            sym (choose_false (w == v) (some (length q.solution_mapping)) _ other)
            ∙ sym (find-assign v w (length q.solution_mapping) q.templates_variables_positions)
            ∙ found) in
          (
            pos',
            get_elem?-before q.solution_mapping (primary_var w pos) (primary_var v pos') p here,
            tracked',
          )
    ]

bound-IsValid : (b : Binding) (q : Registry) → IsValid q → IsValid (add_solution_binding b q)
unfolding add_solution_binding tracked_variable_position
bound-IsValid b q h = record {
  consistent = h.consistent;
  templates = λ v p found.
      let (pos, here, tracked) = h.templates v p found in
      (pos, get_elem?-before q.solution_mapping b (primary_var v pos) p here, tracked);
}

apply-IsValid : (op : Op) (q q' : Registry) → IsValid q → apply op q ≡ some q' → IsValid q'
unfolding track_variable track_quad_template_variable
apply-IsValid (register v) q q' h e =
    subst IsValid (some_injective e) (register_variable-IsValid v q h)
apply-IsValid (track v) q q' h e =
    let (id, found, same) = >>=-eq-some (find v q.variable_to_id) _ e in
    subst IsValid (some_injective same) (tracking-IsValid id q h)
apply-IsValid (bind b) q q' h e = subst IsValid (some_injective e) (bound-IsValid b q h)
apply-IsValid (track_template v) q q' h e =
    elim (Bool-cases (is_found (find v q.templates_variables_positions))) [
      | inl known ↦ subst IsValid (some_injective (sym (choose_true _ (some q) _ known) ∙ e)) h
      | inr new ↦
          let (pos, found, same) =
            >>=-eq-some (tracked_variable_position v q) _
              (sym (choose_false _ (some q) _ new) ∙ e) in
          subst IsValid (some_injective same) (templated-IsValid v pos q found h)
    ]

run-IsValid_from : (ops : List Op) (q q' : Registry) → IsValid q → run ops q ≡ some q' → IsValid q'
run-IsValid_from [] q q' h e = subst IsValid (some_injective e) h
run-IsValid_from (op ∷ ops) q q' h e =
    let (q'', first, rest) = >>=-eq-some (apply op q) (run ops) e in
    run-IsValid_from ops q'' q' (apply-IsValid op q q'' h first) rest

-- After any calls on a new query that register or track a variable, add an expression to the
-- solution or track a variable of a template, in any order, none of whose assertions fails, the positions of
-- tracked variables and the variables at the positions are inverse to each other, and the
-- solution at the position of a template's variable is that variable, read from the position at
-- which it is tracked.
pub run-IsValid : (ops : List Op) (q : Registry) → run ops empty_registry ≡ some q → IsValid q
run-IsValid ops q e = run-IsValid_from ops empty_registry q new e
  where
    new : IsValid empty_registry
    new = record {
      consistent = λ v p. ground arith;
      templates = λ v p found. absurd (ground (arith, found));
    }
