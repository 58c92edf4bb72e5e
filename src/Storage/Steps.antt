-- ===== src/Storage/Steps.antt =====
-- The storages that any sequence of insertions and erasures leads to.
use tentris_lib.Prelude.{
  ℕ, ◌<◌, ◌≡◌, ◌↔◌, refl, ap, sym, ◌∙◌, Bool, false, List, [], ◌∷◌, Option, none, some, subst, inl,
  inr, ◌⊎◌, some_injective, choose_true, >>=-eq-some, arith, suc, ◌==◌,
}
use tentris_lib.Storage.{
  Views, Storage, find_id, insert, or_insert, find_or_make_id, find_backend_view, erase,
  initial_storage,
}
use tentris_lib.Storage.Rows.{
  Row, AllRows, AllRows-map, Decides, Represents, find_id-rows, find_backend_view-rows,
}
use tentris_lib.Storage.Inverse.{by_view-by_id, differ}
use tentris_lib.Storage.Changes.{new_row, grown-Represents, insert-cases}
use tentris_lib.Storage.Erasing.{erase-Represents}

module _ (views : Views) where
  open views use {View, same_view}

  abbrev pub AllPairs : (ℕ → View → Type 0) → List (ℕ × View) → Type 0
  AllPairs P [] = Unit
  AllPairs P ((id, view) ∷ pairs) = P id view × AllPairs P pairs

  -- The reserved nodes have different views and different identifiers, below the generator's first.
  abbrev pub AreReserved : ℕ → List (ℕ × View) → Type 0
  AreReserved first_id [] = Unit
  AreReserved first_id ((id, view) ∷ reserved) =
      (id < first_id)
      × AllPairs (λ j w. ((j == id) ≡ false) × (same_view view w ≡ false)) reserved
      × AreReserved first_id reserved

  reserved_rows : ℕ → List (ℕ × View) → List (Row View)
  reserved_rows first_id [] = []
  reserved_rows first_id ((id, view) ∷ reserved) =
      record {
        id = id;
        address = (initial_storage views first_id reserved).next_address;
        view = view;
      }
      ∷ reserved_rows first_id reserved

  all_differ :
      (first_id id bound : ℕ) (view : View) (reserved : List (ℕ × View))
      → Decides views
      → AllPairs (λ j w. ((j == id) ≡ false) × (same_view view w ≡ false)) reserved
      → AllRows (λ u. (u.id < first_id) × (u.address < bound)) (reserved_rows first_id reserved)
      → AllRows
          (λ u.
            ((u.id == id) ≡ false)
            × ((u.address == bound) ≡ false)
            × (same_view view u.view ≡ false)
            × (same_view u.view view ≡ false))
          (reserved_rows first_id reserved)
  unfolding reserved_rows
  all_differ first_id id bound view [] decides h k = tt
  all_differ first_id id bound view ((j, w) ∷ reserved) decides h k = (
    (h.0.0, ground (arith, k.0.1), h.0.1, differ views decides view w h.0.1),
    all_differ first_id id bound view reserved decides h.1 k.1,
  )

  next_id-initial :
      (first_id : ℕ) (reserved : List (ℕ × View))
      → (initial_storage views first_id reserved).next_id ≡ first_id
  next_id-initial first_id [] = refl
  next_id-initial first_id ((id, view) ∷ reserved) = next_id-initial first_id reserved

  initial-Represents :
      (first_id : ℕ) (reserved : List (ℕ × View))
      → Decides views
      → AreReserved first_id reserved
      → Represents views (reserved_rows first_id reserved) (initial_storage views first_id reserved)
  unfolding reserved_rows
  initial-Represents first_id [] decides h = record {
    same_ids = refl;
    same_data = refl;
    same_memory = refl;
    fresh = tt;
    distinct = tt;
  }
  initial-Represents first_id ((id, view) ∷ reserved) decides h =
      let s = initial_storage views first_id reserved in
      let rest = initial-Represents first_id reserved decides h.2 in
      let first = next_id-initial first_id reserved in
      let ws = reserved_rows first_id reserved in
      let below =
        AllRows-map (λ w. (w.id < s.next_id) × (w.address < s.next_address))
          (λ w. (w.id < first_id) × (w.address < s.next_address))
          (λ w k. (subst (λ n. w.id < n) first k.0, k.1)) ws rest.fresh in
      record {
        same_ids = ap (λ m. (id, s.next_address) ∷ m) rest.same_ids;
        same_data = ap (λ m. (s.next_address, id) ∷ m) rest.same_data;
        same_memory = ap (λ m. (s.next_address, view) ∷ m) rest.same_memory;
        fresh = (
          (subst (λ n. id < n) (sym first) h.0, omega arith),
          AllRows-map (λ w. (w.id < s.next_id) × (w.address < s.next_address))
              (λ w. (w.id < s.next_id) × (w.address < suc s.next_address))
              (λ w k. (k.0, omega (arith, k.1))) ws rest.fresh,
        );
        distinct =
            (all_differ first_id id s.next_address view reserved decides h.1 below, rest.distinct);
      }

  pub data Reach (first_id : ℕ) (reserved : List (ℕ × View)) : Storage View → Type 0 where
    start : Reach first_id reserved (initial_storage views first_id reserved)
    inserts :
        (v : View) (s s' : Storage View) (i : ℕ)
        → Reach first_id reserved s
        → insert views v s ≡ some (s', i)
        → Reach first_id reserved s'
    erases :
        (i : ℕ) (s s' : Storage View) (ok : Bool)
        → Reach first_id reserved s
        → erase views i s ≡ some (s', ok)
        → Reach first_id reserved s'

  module _ (first_id : ℕ) (reserved : List (ℕ × View)) (decides : Decides views)
      (are : AreReserved first_id reserved) where
    represented :
        (s : Storage View)
        → Reach first_id reserved s
        → (ws : List (Row View)) × Represents views ws s
    unfolding reserved_rows
    represented _ start =
        (reserved_rows first_id reserved, initial-Represents first_id reserved decides are)
    represented _ (inserts v s s' i reach e) =
        let (ws, h) = represented s reach in
        elim (insert-cases views v s s' i e) [
          | inl known ↦ (ws, subst (Represents views ws) (sym known.1) h)
          | inr new ↦ (
            new_row views v s ∷ ws,
            subst (Represents views (new_row views v s ∷ ws)) (sym new.1)
                (grown-Represents views v ws s decides new.0 h),
          )
        ]
    represented _ (erases i s s' ok reach e) =
        let (ws, h) = represented s reach in
        let (us, t, ok', e', k) = erase-Represents views i ws s decides h in
        let same : t ≡ s' = ap (λ (p : Storage View × Bool). p.0) (some_injective (sym e' ∙ e)) in
        (us, subst (Represents views us) same k)

    -- After any insertions and erasures on a new storage, in any order, neither a lookup nor another
    -- erasure reads a dangling pointer, and the identifier of a view and the view of an identifier are
    -- inverse to each other: `find_id` finds an identifier for a view exactly if `find_backend_view`
    -- finds the view for the identifier; if `==` of views is equality, and the reserved nodes of the
    -- new storage have different views and different identifiers, below those that it generates.
    pub find_id-find_backend_view :
        (s : Storage View) (v : View) (i : ℕ)
        → Reach first_id reserved s
        → (o : Option ℕ) × (found : Option View) × (s' : Storage View) × (ok : Bool) × (find_id
              views v s
            ≡ some o)
          × (find_backend_view views i s ≡ some found)
          × (erase views i s ≡ some (s', ok))
          × ((o ≡ some i) ↔ (found ≡ some v))
    find_id-find_backend_view s v i reach =
        let (ws, h) = represented s reach in
        let (us, s', ok, e, k) = erase-Represents views i ws s decides h in
        (
          _,
          _,
          s',
          ok,
          find_id-rows views v ws s h,
          find_backend_view-rows views i ws s h,
          e,
          by_view-by_id views v i ws decides h.distinct,
        )

    viewed :
        (s : Storage View) (v : View) (i : ℕ)
        → Reach first_id reserved s
        → find_id views v s ≡ some (some i)
        → find_backend_view views i s ≡ some (some v)
    viewed s v i reach e =
        let (o, found, s', ok, by_view, by_id, erased, inverse) =
          find_id-find_backend_view s v i reach in
        by_id ∙ ap (λ x. some x) (inverse.0 (some_injective (sym by_view ∙ e)))

    found_or_inserted :
        (v : View) (s s' : Storage View) (i : ℕ) (x : Option (Storage View × ℕ)) (o : Option ℕ)
        → or_insert views v s x o ≡ some (s', i)
        → ((o ≡ some i) × (s' ≡ s)) ⊎ (x ≡ some (s', i))
    found_or_inserted v s s' i x none e = inr e
    found_or_inserted v s s' i x (some id) e =
        let same = some_injective e in
        inl (ap (λ p. some p.1) same, sym (ap (λ (p : Storage View × ℕ). p.0) same))

    insert_found :
        (v : View) (s s' : Storage View) (i : ℕ)
        → Reach first_id reserved s
        → insert views v s ≡ some (s', i)
        → find_id views v s' ≡ some (some i)
    insert_found v s s' i reach e =
        let (ws, h) = represented s reach in
        elim (insert-cases views v s s' i e) [
          | inl known ↦ ap (find_id views v) known.1 ∙ known.0
          | inr new ↦
              ap (find_id views v) new.1
              ∙ find_id-rows views v (new_row views v s ∷ ws) _
                  (grown-Represents views v ws s decides new.0 h)
              ∙ ap (λ x. some x) (choose_true _ _ _ ((decides v v).1 refl))
              ∙ ap (λ n. some (some n)) (sym new.2)
        ]

    -- After any insertions and erasures on a new storage, the identifier that `find_or_make_id` gives
    -- for a view is found for the view afterwards, and leads to the view, if `==` of views is
    -- equality, the reserved nodes of the new storage have different views and different identifiers,
    -- below those that it generates, and no other thread changes the storage between the two locks.
    pub find_or_make_id-found :
        (v : View) (s s' : Storage View) (i : ℕ)
        → Reach first_id reserved s
        → find_or_make_id views v s s ≡ some (s', i)
        → (find_id views v s' ≡ some (some i)) × (find_backend_view views i s' ≡ some (some v))
    unfolding find_or_make_id
    find_or_make_id-found v s s' i reach e =
        let (o, looked, chosen) =
          >>=-eq-some (find_id views v s) (or_insert views v s (insert views v s)) e in
        elim (found_or_inserted v s s' i (insert views v s) o chosen) [
          | inl known ↦
              let found = ap (find_id views v) known.1 ∙ looked ∙ ap (λ x. some x) known.0 in
              let reached = subst (Reach first_id reserved) (sym known.1) reach in
              (found, viewed s' v i reached found)
          | inr inserted ↦
              let found = insert_found v s s' i reach inserted in
              let reached = inserts v s s' i reach inserted in (found, viewed s' v i reached found)
        ]
