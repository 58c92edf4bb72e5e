-- ===== src/Storage/Changes.antt =====
-- Inserting adds a row.
use tentris_lib.Prelude.{
  >>=-eq-some, ℕ, suc, ◌<◌, ◌^◌, ◌≡◌, refl, ap, sym, ◌∙◌, false, List, [], ◌∷◌, Option, none, some,
  ◌==◌, leb, arith, Bool-cases, inl, inr, some_injective, none-neq-some, choose_true, choose_false,
  ◌⊎◌,
}
use tentris_lib.Storage.{Views, Storage, find_id, insert_missing, insert}
use tentris_lib.Storage.Rows.{Row, AllRows, AllRows-map, Decides, Represents, find_id-rows}
use tentris_lib.Storage.Inverse.{by_view-none, differ}

module _ (views : Views) where
  open views use {View, same_view, width}

  -- The row of a view that is inserted.
  abbrev pub new_row : View → Storage View → Row View
  new_row v s = record { id = s.next_id; address = s.next_address; view = v }

  abbrev grown : View → Storage View → Storage View
  grown view s = record {
    id2data = (s.next_id, s.next_address) ∷ s.id2data;
    data2id = (s.next_address, s.next_id) ∷ s.data2id;
    next_id = suc s.next_id;
    backends = (s.next_address, view) ∷ s.backends;
    next_address = suc s.next_address;
  }

  all_new :
      (v : View) (s : Storage View) (ws : List (Row View))
      → Decides views
      → AllRows (λ w. (w.id < s.next_id) × (w.address < s.next_address)) ws
      → AllRows (λ u. same_view v u.view ≡ false) ws
      → AllRows
          (λ u.
            ((u.id == s.next_id) ≡ false)
            × ((u.address == s.next_address) ≡ false)
            × (same_view v u.view ≡ false)
            × (same_view u.view v ≡ false))
          ws
  all_new v s [] decides h k = tt
  all_new v s (w ∷ ws) decides h k = (
    (ground (arith, h.0.0), ground (arith, h.0.1), k.0, differ views decides v w.view k.0),
    all_new v s ws decides h.1 k.1,
  )

  pub grown-Represents :
      (v : View) (ws : List (Row View)) (s : Storage View)
      → Decides views
      → find_id views v s ≡ some none
      → Represents views ws s
      → Represents views (new_row v s ∷ ws) (grown v s)
  grown-Represents v ws s decides missing h = record {
    same_ids = ap (λ m. (s.next_id, s.next_address) ∷ m) h.same_ids;
    same_data = ap (λ m. (s.next_address, s.next_id) ∷ m) h.same_data;
    same_memory = ap (λ m. (s.next_address, v) ∷ m) h.same_memory;
    fresh = (
      (omega arith, omega arith),
      AllRows-map _ _ (λ w k. (omega (arith, k.0), omega (arith, k.1))) ws h.fresh,
    );
    distinct = (
      all_new v s ws decides h.fresh
          (by_view-none views v ws (some_injective (sym (find_id-rows views v ws s h) ∙ missing))),
      h.distinct,
    );
  }

  missing-cases :
      (v : View) (s s' : Storage View) (i : ℕ) (o : Option ℕ)
      → insert_missing views v s o ≡ some (s', i)
      → ((o ≡ some i) × (s' ≡ s)) ⊎ ((o ≡ none) × (s' ≡ grown v s) × (i ≡ s.next_id))
  missing-cases v s s' i (some id) e =
      let same = some_injective e in
      inl (ap (λ p. some p.1) same, sym (ap (λ (p : Storage View × ℕ). p.0) same))
  missing-cases v s s' i none e = elim (Bool-cases (leb (2 ^ width) s.next_id)) [
    | inl full ↦ absurd (none-neq-some (sym (choose_true _ _ _ full) ∙ e))
    | inr room ↦
        let same : (grown v s, s.next_id) ≡ (s', i) =
          some_injective (sym (choose_false _ none _ room) ∙ e) in
        inr (refl, sym (ap (λ (p : Storage View × ℕ). p.0) same), sym (ap (λ p. p.1) same))
  ]

  -- What is inserted was there, or is a new row.
  pub insert-cases :
      (v : View) (s s' : Storage View) (i : ℕ)
      → insert views v s ≡ some (s', i)
      → ((find_id views v s ≡ some (some i)) × (s' ≡ s))
        ⊎ ((find_id views v s ≡ some none) × (s' ≡ grown v s) × (i ≡ s.next_id))
  unfolding insert
  insert-cases v s s' i e =
      let (o, found, missing) = >>=-eq-some (find_id views v s) (insert_missing views v s) e in
      elim (missing-cases v s s' i o missing) [
        | inl known ↦ inl (found ∙ ap (λ x. some x) known.0, known.1)
        | inr new ↦ inr (found ∙ ap (λ x. some x) new.0, new.1, new.2)
      ]
