-- ===== src/Storage/Rows.antt =====
-- A storage as a list of rows: an identifier, an address and a view each.
use tentris_lib.Prelude.{
  sym, Bool-cases, inl, inr, choose_true, choose_false, ℕ, ◌<◌, ◌≡◌, ◌↔◌, refl, ap, ◌∙◌, Bool, true,
  false, List, [], ◌∷◌, Option, none, some, if◌then◌else◌, ◌==◌, arith, ◌>>=◌,
}
use tentris_lib.Prelude.Maps.{find}
use tentris_lib.Storage.{Views, Storage, points_to, find_data, find_id, view_at, find_backend_view}

pub record Row (V : Type 0) : Type 0 where
  pub id : ℕ
  pub address : ℕ
  pub view : V

module _ {V : Type 0} where
  abbrev pub ids : List (Row V) → List (ℕ × ℕ)
  ids [] = []
  ids (w ∷ ws) = (w.id, w.address) ∷ ids ws

  abbrev pub data_ids : List (Row V) → List (ℕ × ℕ)
  data_ids [] = []
  data_ids (w ∷ ws) = (w.address, w.id) ∷ data_ids ws

  abbrev pub memory : List (Row V) → List (ℕ × V)
  memory [] = []
  memory (w ∷ ws) = (w.address, w.view) ∷ memory ws

  abbrev pub AllRows : (Row V → Type 0) → List (Row V) → Type 0
  AllRows P [] = Unit
  AllRows P (w ∷ ws) = P w × AllRows P ws

  pub AllRows-map :
      (P Q : Row V → Type 0)
      → ((w : Row V) → P w → Q w)
      → (ws : List (Row V)) → AllRows P ws
      → AllRows Q ws
  AllRows-map P Q f [] h = tt
  AllRows-map P Q f (w ∷ ws) h = (f w h.0, AllRows-map P Q f ws h.1)

  -- The view of an identifier.
  abbrev pub by_id : ℕ → List (Row V) → Option V
  by_id i [] = none
  by_id i (w ∷ ws) = if w.id == i then some w.view else by_id i ws

  abbrev pub drop_row : ℕ → List (Row V) → List (Row V)
  drop_row i [] = []
  drop_row i (w ∷ ws) = if w.id == i then ws else w ∷ drop_row i ws

module _ (views : Views) where
  open views use {View, same_view}

  -- `==` of views decides equality.
  abbrev pub Decides : Type 0
  Decides = (v w : View) → (same_view v w ≡ true) ↔ (v ≡ w)

  abbrev pub by_view : View → List (Row View) → Option ℕ
  by_view v [] = none
  by_view v (w ∷ ws) = if same_view v w.view then some w.id else by_view v ws

  abbrev pub AreDistinct : List (Row View) → Type 0
  AreDistinct [] = Unit
  AreDistinct (w ∷ ws) =
      AllRows
        (λ u.
          ((u.id == w.id) ≡ false)
          × ((u.address == w.address) ≡ false)
          × (same_view w.view u.view ≡ false)
          × (same_view u.view w.view ≡ false))
        ws
      × AreDistinct ws

  -- What the rows say of the storage.
  pub record Represents (ws : List (Row View)) (s : Storage View) : Type 0 where
    pub same_ids : s.id2data ≡ ids ws
    pub same_data : s.data2id ≡ data_ids ws
    pub same_memory : s.backends ≡ memory ws
    pub fresh : AllRows (λ w. (w.id < s.next_id) × (w.address < s.next_address)) ws
    pub distinct : AreDistinct ws

  -- Every row's backend is where its address says.
  later_found :
      (w : Row View) (ws us : List (Row View))
      → AllRows (λ u. (u.address == w.address) ≡ false) us
      → AllRows (λ u. find u.address (memory ws) ≡ some u.view) us
      → AllRows (λ u. find u.address (memory (w ∷ ws)) ≡ some u.view) us
  later_found w ws [] h k = tt
  later_found w ws (u ∷ us) h k = ground (arith, h, k, later_found w ws us)

  pub memory_found :
      (ws : List (Row View))
      → AreDistinct ws
      → AllRows (λ u. find u.address (memory ws) ≡ some u.view) ws
  memory_found [] d = tt
  memory_found (w ∷ ws) d = (
    ground arith,
    later_found w ws ws (AllRows-map _ _ (λ u h. h.1) ws d.0) (memory_found ws d.1),
  )

  -- `view_at`, from the memory.
  view_in : List (ℕ × View) → Option ℕ → Option (Option View)
  view_in heap none = some none
  view_in heap (some address) = find address heap >>= λ view. some (some view)

  view_at-view_in : (s : Storage View) (o : Option ℕ) → view_at views s o ≡ view_in s.backends o
  unfolding view_in
  view_at-view_in s none = refl
  view_at-view_in s (some address) = refl

  if_some :
      {A : Type 0} (b : Bool) (x y : A) → (if b then some x else some y) ≡ some (if b then x else y)
  if_some true x y = refl
  if_some false x y = refl

  find_data-rows :
      (heap : List (ℕ × View)) (v : View) (ws : List (Row View))
      → AllRows (λ u. find u.address heap ≡ some u.view) ws
      → find_data views heap v (data_ids ws) ≡ some (by_view v ws)
  unfolding find_data
  find_data-rows heap v [] h = refl
  find_data-rows heap v (w ∷ ws) h =
      let later = find_data views heap v (data_ids ws) in
      ap (λ o. points_to views o v >>= λ same. if same then some (some w.id) else later) h.0
      ∙ ap (λ o. if same_view v w.view then some (some w.id) else o) (find_data-rows heap v ws h.1)
      ∙ if_some (same_view v w.view) (some w.id) (by_view v ws)

  find_view-rows :
      (heap : List (ℕ × View)) (i : ℕ) (ws : List (Row View))
      → AllRows (λ u. find u.address heap ≡ some u.view) ws
      → view_in heap (find i (ids ws)) ≡ some (by_id i ws)
  unfolding view_in
  find_view-rows heap i [] h = refl
  find_view-rows heap i (w ∷ ws) h = elim (Bool-cases (w.id == i)) [
    | inl same ↦
        ap (view_in heap) (choose_true (w.id == i) (some w.address) _ same)
        ∙ ap (λ o. o >>= λ view. some (some view)) h.0
        ∙ ap (λ o. some o) (sym (choose_true (w.id == i) (some w.view) _ same))
    | inr other ↦
        ap (view_in heap) (choose_false (w.id == i) (some w.address) _ other)
        ∙ find_view-rows heap i ws h.1
        ∙ ap (λ o. some o) (sym (choose_false (w.id == i) (some w.view) _ other))
  ]

  -- The lookups of a storage are those of its rows, and read no dangling pointer.
  pub find_id-rows :
      (v : View) (ws : List (Row View)) (s : Storage View)
      → Represents ws s
      → find_id views v s ≡ some (by_view v ws)
  unfolding find_id
  find_id-rows v ws s h =
      ap (λ d. find_data views s.backends v d) h.same_data
      ∙ ap (λ b. find_data views b v (data_ids ws)) h.same_memory
      ∙ find_data-rows (memory ws) v ws (memory_found ws h.distinct)

  pub find_backend_view-rows :
      (i : ℕ) (ws : List (Row View)) (s : Storage View)
      → Represents ws s
      → find_backend_view views i s ≡ some (by_id i ws)
  unfolding find_backend_view
  find_backend_view-rows i ws s h =
      view_at-view_in s (find i s.id2data)
      ∙ ap (λ d. view_in s.backends (find i d)) h.same_ids
      ∙ ap (λ b. view_in b (find i (ids ws))) h.same_memory
      ∙ find_view-rows (memory ws) i ws (memory_found ws h.distinct)
