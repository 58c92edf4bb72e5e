-- ===== src/Storage/Erasing.antt =====
-- Erasing drops a row.
use tentris_lib.Prelude.{
  ◌>>=◌, if◌then◌else◌, Bool, true, ℕ, ◌≡◌, refl, ap, sym, ◌∙◌, false, List, [], ◌∷◌, Option, none,
  some, ◌==◌, arith, Bool-cases, inl, inr, some_injective, none-neq-some, ==_iff, choose_true,
  choose_false, subst,
}
use tentris_lib.Prelude.Maps.{find}
use tentris_lib.Storage.{Views, Storage, erase_key, points_to, erase_data, erase_at, erase}
use tentris_lib.Storage.Rows.{
  Row, ids, data_ids, memory, AllRows, AllRows-map, by_id, drop_row, Decides, AreDistinct,
  Represents, memory_found,
}
use tentris_lib.Storage.Inverse.{by_id-AllRows, drop_row-AllRows}

erase_key-ids :
    {V : Type 0} (i : ℕ) (ws : List (Row V)) → erase_key i (ids ws) ≡ ids (drop_row i ws)
erase_key-ids i [] = refl
erase_key-ids i (w ∷ ws) = elim (Bool-cases (w.id == i)) [
  | inl same ↦ choose_true _ _ _ same ∙ ap ids (sym (choose_true _ ws (w ∷ drop_row i ws) same))
  | inr other ↦
      choose_false _ (ids ws) _ other
      ∙ ap (λ m. (w.id, w.address) ∷ m) (erase_key-ids i ws)
      ∙ ap ids (sym (choose_false _ ws (w ∷ drop_row i ws) other))
]

-- The address of a row is not one that all rows differ from.
other_address :
    {V : Type 0} (x i a : ℕ) (ws : List (Row V))
    → AllRows (λ u. (u.address == x) ≡ false) ws
    → find i (ids ws) ≡ some a
    → (x == a) ≡ false
other_address x i a [] h e = absurd (none-neq-some e)
other_address x i a (w ∷ ws) h e = elim (Bool-cases (w.id == i)) [
  | inl same ↦
      let here : w.address ≡ a = some_injective (sym (choose_true _ _ _ same) ∙ e) in
      ground (arith, h.0, here)
  | inr other ↦ other_address x i a ws h.1 (sym (choose_false _ (some w.address) _ other) ∙ e)
]

module _ (views : Views) where
  open views use {View, same_view, width}

  erase_key-memory :
      (i a : ℕ) (ws : List (Row View))
      → AreDistinct views ws
      → find i (ids ws) ≡ some a
      → erase_key a (memory ws) ≡ memory (drop_row i ws)
  erase_key-memory i a [] d e = refl
  erase_key-memory i a (w ∷ ws) d e = elim (Bool-cases (w.id == i)) [
    | inl same ↦
        let here : w.address ≡ a = some_injective (sym (choose_true _ _ _ same) ∙ e) in
        choose_true _ _ _ ((==_iff w.address a).1 here)
        ∙ ap memory (sym (choose_true _ ws (w ∷ drop_row i ws) same))
    | inr other ↦
        let rest = sym (choose_false _ (some w.address) _ other) ∙ e in
        let differs = other_address w.address i a ws (AllRows-map _ _ (λ u h. h.1) ws d.0) rest in
        choose_false _ (memory ws) _ differs
        ∙ ap (λ m. (w.address, w.view) ∷ m) (erase_key-memory i a ws d.1 rest)
        ∙ ap memory (sym (choose_false _ ws (w ∷ drop_row i ws) other))
  ]

  erase_data-rows :
      (heap : List (ℕ × View)) (i : ℕ) (v : View) (ws : List (Row View))
      → Decides views
      → AreDistinct views ws
      → AllRows (λ u. find u.address heap ≡ some u.view) ws
      → by_id i ws ≡ some v
      → erase_data views heap v (data_ids ws) ≡ some (data_ids (drop_row i ws))
  unfolding erase_data
  erase_data-rows heap i v [] decides d h e = absurd (none-neq-some e)
  erase_data-rows heap i v (w ∷ ws) decides d h e =
      let entry : ℕ × ℕ = (w.address, w.id) in
      let later = erase_data views heap v (data_ids ws) >>= λ rest. some (entry ∷ rest) in
      let points =
        ap (λ o. points_to views o v >>= λ same. if same then some (data_ids ws) else later) h.0 in
      elim (Bool-cases (w.id == i)) [
        | inl same ↦
            let here : w.view ≡ v = some_injective (sym (choose_true _ _ _ same) ∙ e) in
            points
            ∙ choose_true _ _ _ ((decides v w.view).1 (sym here))
            ∙ ap (λ us. some (data_ids us)) (sym (choose_true _ ws (w ∷ drop_row i ws) same))
        | inr other ↦
            let rest = sym (choose_false _ (some w.view) _ other) ∙ e in
            let differs =
              by_id-AllRows (λ x. same_view x w.view ≡ false) i v ws
                (AllRows-map _ _ (λ u k. k.3) ws d.0) rest in
            points
            ∙ choose_false _ (some (data_ids ws)) _ differs
            ∙ ap (λ o. o >>= λ rest. some (entry ∷ rest))
                (erase_data-rows heap i v ws decides d.1 h.1 rest)
            ∙ ap (λ us. some (data_ids us)) (sym (choose_false _ ws (w ∷ drop_row i ws) other))
      ]

  drop_row-AreDistinct :
      (i : ℕ) (ws : List (Row View)) → AreDistinct views ws → AreDistinct views (drop_row i ws)
  drop_row-AreDistinct i [] d = tt
  drop_row-AreDistinct i (w ∷ ws) d = elim (Bool-cases (w.id == i)) [
    | inl same ↦ subst (AreDistinct views) (sym (choose_true _ ws (w ∷ drop_row i ws) same)) d.1
    | inr other ↦
        subst (AreDistinct views) (sym (choose_false _ ws (w ∷ drop_row i ws) other))
          (drop_row-AllRows _ i ws d.0, drop_row-AreDistinct i ws d.1)
  ]

  -- Erasing reads no dangling pointer, and drops the row if there is one.
  erased : ℕ → ℕ → List (Row View) → Storage View → Storage View
  erased i a ws s = record s {
    id2data = erase_key i s.id2data;
    data2id = data_ids (drop_row i ws);
    backends = erase_key a s.backends;
  }

  erased-Represents :
      (i a : ℕ) (ws : List (Row View)) (s : Storage View)
      → Represents views ws s
      → find i s.id2data ≡ some a
      → Represents views (drop_row i ws) (erased i a ws s)
  unfolding erased
  erased-Represents i a ws s h here =
      let found = ap (find i) (sym h.same_ids) ∙ here in
      record {
        same_ids = ap (erase_key i) h.same_ids ∙ erase_key-ids i ws;
        same_data = refl;
        same_memory = ap (erase_key a) h.same_memory ∙ erase_key-memory i a ws h.distinct found;
        fresh = drop_row-AllRows _ i ws h.fresh;
        distinct = drop_row-AreDistinct i ws h.distinct;
      }

  -- The row of an identifier has its view in memory.
  row_found :
      (i a : ℕ) (heap : List (ℕ × View)) (ws : List (Row View))
      → AllRows (λ u. find u.address heap ≡ some u.view) ws
      → find i (ids ws) ≡ some a
      → (v : View) × (find a heap ≡ some v) × (by_id i ws ≡ some v)
  row_found i a heap [] h e = absurd (none-neq-some e)
  row_found i a heap (w ∷ ws) h e = elim (Bool-cases (w.id == i)) [
    | inl same ↦
        let here : w.address ≡ a = some_injective (sym (choose_true _ _ _ same) ∙ e) in
        (w.view, ap (λ b. find b heap) (sym here) ∙ h.0, choose_true _ _ _ same)
    | inr other ↦
        let (v, seen, viewed) =
          row_found i a heap ws h.1 (sym (choose_false _ (some w.address) _ other) ∙ e) in
        (v, seen, choose_false _ (some w.view) _ other ∙ viewed)
  ]

  abbrev pub Erases : ℕ → List (Row View) → Storage View → Option ℕ → Type 0
  Erases i ws s o =
      (us : List (Row View)) × (s' : Storage View) × (ok : Bool) × (erase_at views i s o
        ≡ some (s', ok))
      × Represents views us s'

  erase_at-Represents :
      (i : ℕ) (ws : List (Row View)) (s : Storage View) (o : Option ℕ)
      → Decides views
      → Represents views ws s
      → find i s.id2data ≡ o
      → Erases i ws s o
  unfolding erased
  erase_at-Represents i ws s none decides h here = (ws, s, false, refl, h)
  erase_at-Represents i ws s (some a) decides h here =
      let all = memory_found views ws h.distinct in
      let (v, seen, viewed) =
        row_found i a (memory ws) ws all (ap (find i) (sym h.same_ids) ∙ here) in
      let read : find a s.backends ≡ some v = ap (find a) h.same_memory ∙ seen in
      let dropped : erase_data views s.backends v s.data2id ≡ some (data_ids (drop_row i ws)) =
        ap (λ d. erase_data views s.backends v d) h.same_data
        ∙ ap (λ b. erase_data views b v (data_ids ws)) h.same_memory
        ∙ erase_data-rows (memory ws) i v ws decides h.distinct all viewed in
      let finish = λ (d : List (ℕ × ℕ)). some (
        record s {
          id2data = erase_key i s.id2data;
          data2id = d;
          backends = erase_key a s.backends;
        },
        true,
      ) in
      (
        drop_row i ws,
        erased i a ws s,
        true,
        ap (λ o. o >>= λ view. erase_data views s.backends view s.data2id >>= finish) read
            ∙ ap (λ o. o >>= finish) dropped,
        erased-Represents i a ws s h here,
      )

  pub erase-Represents :
      (i : ℕ) (ws : List (Row View)) (s : Storage View)
      → Decides views
      → Represents views ws s
      → (us : List (Row View)) × (s' : Storage View) × (ok : Bool) × (erase views i s
          ≡ some (s', ok))
        × Represents views us s'
  unfolding erase
  erase-Represents i ws s decides h = erase_at-Represents i ws s (find i s.id2data) decides h refl
