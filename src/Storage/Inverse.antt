-- ===== src/Storage/Inverse.antt =====
-- In rows with different identifiers and different views, either gives the other.
use tentris_lib.Prelude.{
  ℕ, ◌≡◌, ◌↔◌, refl, ap, sym, ◌∙◌, false, List, [], ◌∷◌, none, some, ◌==◌, arith, Bool-cases, inl,
  inr, some_injective, none-neq-some, ==_iff, choose_true, choose_false, subst,
}
use tentris_lib.Storage.{Views}
use tentris_lib.Storage.Rows.{
  Row, AllRows, AllRows-map, by_id, drop_row, Decides, by_view, AreDistinct,
}

module _ {V : Type 0} where
  -- What holds of every view holds of the one that an identifier gives.
  pub by_id-AllRows :
      (P : V → Type 0) (i : ℕ) (v : V) (ws : List (Row V))
      → AllRows (λ u. P u.view) ws
      → by_id i ws ≡ some v
      → P v
  by_id-AllRows P i v [] h e = absurd (none-neq-some e)
  by_id-AllRows P i v (w ∷ ws) h e = elim (Bool-cases (w.id == i)) [
    | inl same ↦ subst P (some_injective (sym (choose_true _ _ _ same) ∙ e)) h.0
    | inr other ↦ by_id-AllRows P i v ws h.1 (sym (choose_false _ (some w.view) _ other) ∙ e)
  ]

  by_id-absent :
      (i : ℕ) (ws : List (Row V)) → AllRows (λ u. (u.id == i) ≡ false) ws → by_id i ws ≡ none
  by_id-absent i [] h = refl
  by_id-absent i (w ∷ ws) h = choose_false _ _ _ h.0 ∙ by_id-absent i ws h.1

  pub drop_row-AllRows :
      (P : Row V → Type 0) (i : ℕ) (ws : List (Row V)) → AllRows P ws → AllRows P (drop_row i ws)
  drop_row-AllRows P i [] h = tt
  drop_row-AllRows P i (w ∷ ws) h = elim (Bool-cases (w.id == i)) [
    | inl same ↦ subst (AllRows P) (sym (choose_true _ ws (w ∷ drop_row i ws) same)) h.1
    | inr other ↦
        subst (AllRows P) (sym (choose_false _ ws (w ∷ drop_row i ws) other))
          (h.0, drop_row-AllRows P i ws h.1)
  ]

module _ (views : Views) where
  open views use {View, same_view}

  -- A view that no row has differs from all of theirs, both ways round.
  pub by_view-none :
      (v : View) (ws : List (Row View))
      → by_view views v ws ≡ none
      → AllRows (λ u. same_view v u.view ≡ false) ws
  by_view-none v [] h = tt
  by_view-none v (w ∷ ws) h = elim (Bool-cases (same_view v w.view)) [
    | inl same ↦ absurd (none-neq-some (sym h ∙ choose_true _ _ _ same))
    | inr other ↦ (other, by_view-none v ws (sym (choose_false _ (some w.id) _ other) ∙ h))
  ]

  by_view-absent :
      (v : View) (ws : List (Row View))
      → AllRows (λ u. same_view v u.view ≡ false) ws
      → by_view views v ws ≡ none
  by_view-absent v [] h = refl
  by_view-absent v (w ∷ ws) h = choose_false _ _ _ h.0 ∙ by_view-absent v ws h.1

  pub differ : Decides views → (v w : View) → same_view v w ≡ false → same_view w v ≡ false
  differ decides v w h = elim (Bool-cases (same_view w v)) [
    | inl same ↦ absurd (ground (arith, sym h ∙ (decides v w).1 (sym ((decides w v).0 same))))
    | inr other ↦ other
  ]

  pub by_view-by_id :
      (v : View) (i : ℕ) (ws : List (Row View))
      → Decides views
      → AreDistinct views ws
      → (by_view views v ws ≡ some i) ↔ (by_id i ws ≡ some v)
  by_view-by_id v i [] decides d = (λ e. absurd (none-neq-some e), λ e. absurd (none-neq-some e))
  by_view-by_id v i (w ∷ ws) decides d =
      let later = by_view-by_id v i ws decides d.1 in (there later, back later)
    where
      there :
          ((by_view views v ws ≡ some i) ↔ (by_id i ws ≡ some v))
          → by_view views v (w ∷ ws) ≡ some i
          → by_id i (w ∷ ws) ≡ some v
      there later e = elim (Bool-cases (same_view v w.view)) [
        | inl same ↦
            let here : w.id ≡ i = some_injective (sym (choose_true _ _ _ same) ∙ e) in
            choose_true _ _ _ ((==_iff w.id i).1 here)
            ∙ ap (λ x. some x) (sym ((decides v w.view).0 same))
        | inr other ↦
            let rest = later.0 (sym (choose_false _ (some w.id) _ other) ∙ e) in
            elim (Bool-cases (w.id == i)) [
              | inl same ↦
                  let absent = by_id-absent i ws (
                    AllRows-map _ _
                      (λ u h. subst (λ n. (u.id == n) ≡ false) ((==_iff w.id i).0 same) h.0) ws
                      d.0) in
                  absurd (none-neq-some (sym absent ∙ rest))
              | inr different ↦ choose_false _ (some w.view) _ different ∙ rest
            ]
      ]

      back :
          ((by_view views v ws ≡ some i) ↔ (by_id i ws ≡ some v))
          → by_id i (w ∷ ws) ≡ some v
          → by_view views v (w ∷ ws) ≡ some i
      back later e = elim (Bool-cases (w.id == i)) [
        | inl same ↦
            let here : w.view ≡ v = some_injective (sym (choose_true _ _ _ same) ∙ e) in
            choose_true _ _ _ ((decides v w.view).1 (sym here))
            ∙ ap (λ n. some n) ((==_iff w.id i).0 same)
        | inr other ↦
            let rest = later.1 (sym (choose_false _ (some w.view) _ other) ∙ e) in
            elim (Bool-cases (same_view v w.view)) [
              | inl same ↦
                  let absent = by_view-absent v ws (
                    AllRows-map _ _
                      (λ u h.
                        subst (λ x. same_view x u.view ≡ false) (sym ((decides v w.view).0 same))
                          h.2)
                      ws d.0) in
                  absurd (none-neq-some (sym absent ∙ rest))
              | inr different ↦ choose_false _ (some w.id) _ different ∙ rest
            ]
      ]
