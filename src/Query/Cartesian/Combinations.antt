-- ===== src/Query/Cartesian/Combinations.antt =====
-- The iterator reaches every combination once.
use tentris_lib.Prelude.{
  ℕ, zero, suc, ◌+◌, ◌*◌, ◌<◌, ◌≤◌, ◌≡◌, refl, sym, ap, ◌∙◌, Bool, true, false, List, [], ◌∷◌,
  Option, some, arith, length, if◌then◌else◌, Bool-cases, inl, inr,
}
use native.Mathlib.Nat.{mul-le-mul_left}
use tentris_lib.Graph.{range_from}
use tentris_lib.Query.Cartesian.{
  Component, Cursor, carry_over, advance_from, advance, restart_from, restart, iterate, visit,
}

module _ {N : Type 0} where
  -- The number of a combination, and the number of combinations.
  abbrev pub rank : List (Component N) → ℕ
  rank [] = 0
  rank (c ∷ cs) = c.iter_pos + length c.sub_result * rank cs

  abbrev pub combinations : List (Component N) → ℕ
  combinations [] = 1
  combinations (c ∷ cs) = length c.sub_result * combinations cs

  -- Every position is one of its component's result.
  abbrev pub InBounds : List (Component N) → Type 0
  InBounds [] = Unit
  InBounds (c ∷ cs) = (c.iter_pos < length c.sub_result) × InBounds cs

  -- No component is without results.
  abbrev pub AllNonempty : List (Component N) → Type 0
  AllNonempty [] = Unit
  AllNonempty (c ∷ cs) = (0 < length c.sub_result) × AllNonempty cs

suc_left : (a b : ℕ) → suc a + b ≡ suc (a + b)
suc_left a b = omega arith

mul_suc : (a b : ℕ) → a * suc b ≡ a + a * b
mul_suc a b = omega arith

module _ {N : Type 0} (unbound : N) where
  -- What a step does to the number of the combination.
  record Steps (cs : List (Component N)) (after : Cursor N) : Type 0 where
    in_bounds : InBounds after.components
    same_total : combinations after.components ≡ combinations cs
    next : after.ended ≡ false → rank after.components ≡ suc (rank cs)
    last : after.ended ≡ true → suc (rank cs) ≡ combinations cs

  Steps-carry :
      (c : Component N) (cs : List (Component N)) (after : Cursor N)
      → suc c.iter_pos ≡ length c.sub_result
      → Steps cs after
      → Steps
          (c ∷ cs)
          (record after { components = (record c { iter_pos = 0 }) ∷ after.components })
  Steps-carry c cs after carry s = record {
    in_bounds = (omega (arith, carry), s.in_bounds);
    same_total = ap (◌*◌ (length c.sub_result)) s.same_total;
    next = λ e.
        let product =
          ap (◌*◌ (length c.sub_result)) (s.next e) ∙ mul_suc (length c.sub_result) (rank cs) in
        next_rank c.iter_pos (length c.sub_result) _ _ carry product;
    last = λ e.
        let product =
          sym (mul_suc (length c.sub_result) (rank cs))
          ∙ ap (◌*◌ (length c.sub_result)) (s.last e) in
        last_rank c.iter_pos (length c.sub_result) _ _ carry product;
  }
    where
      next_rank : (pos len r r' : ℕ) → suc pos ≡ len → r' ≡ len + r → 0 + r' ≡ suc (pos + r)
      next_rank pos len r r' h k = omega (arith, h, k)

      last_rank : (pos len r t : ℕ) → suc pos ≡ len → len + r ≡ t → suc (pos + r) ≡ t
      last_rank pos len r t h k = omega (arith, h, k)

  advance_from-Steps :
      (cs : List (Component N)) (key : List N) (value : ℕ)
      → InBounds cs
      → Steps cs (advance_from unbound cs key value)
  unfolding advance_from
  advance_from-Steps [] key value h = record {
    in_bounds = tt;
    same_total = refl;
    next = λ e. absurd (ground arith);
    last = λ e. refl;
  }
  advance_from-Steps (c ∷ cs) key value h = elim (Bool-cases (carry_over unbound c)) [
    | inl carry ↦
        rw (carry) (Steps-carry c cs _ (ground (arith, carry)) (advance_from-Steps cs _ _ h.1))
    | inr within ↦ rw (within) (record {
      in_bounds = (ground (arith, within, h.0), h.1);
      same_total = refl;
      next = λ e. suc_left c.iter_pos (length c.sub_result * rank cs);
      last = λ e. absurd (ground arith);
    })
  ]

  restart_from-start :
      (cs : List (Component N)) (key : List N) (value : ℕ)
      → AllNonempty cs
      → InBounds (restart_from unbound cs key value).components
        × (rank (restart_from unbound cs key value).components ≡ 0)
        × (combinations (restart_from unbound cs key value).components ≡ combinations cs)
        × ((restart_from unbound cs key value).ended ≡ false)
  unfolding restart_from
  restart_from-start [] key value h = (tt, refl, refl, refl)
  restart_from-start (c ∷ cs) key value h =
      let (bounds, first, same, going) = restart_from-start cs _ _ h.1 in
      (
        (h.0, bounds),
        ap (λ n. 0 + length c.sub_result * n) first ∙ times_zero (length c.sub_result),
        ap (◌*◌ (length c.sub_result)) same,
        going,
      )
    where
      times_zero : (n : ℕ) → 0 + n * 0 ≡ 0
      times_zero n = omega arith

  restart-start :
      (cursor : Cursor N)
      → AllNonempty cursor.components
      → InBounds (restart unbound cursor).components
        × (rank (restart unbound cursor).components ≡ 0)
        × (combinations (restart unbound cursor).components ≡ combinations cursor.components)
        × ((restart unbound cursor).ended ≡ false)
  unfolding restart
  restart-start cursor h = restart_from-start cursor.components cursor.key 1 h

  -- The numbers of the combinations at which the body of the loop runs.
  abbrev pub ranks : List (Cursor N) → List ℕ
  ranks [] = []
  ranks (cursor ∷ cursors) = rank cursor.components ∷ ranks cursors

  rank-combinations : (cs : List (Component N)) → InBounds cs → rank cs < combinations cs
  rank-combinations [] h = omega arith
  rank-combinations (c ∷ cs) h =
      let most = mul-le-mul_left (length c.sub_result) (rank-combinations cs h.1) in
      below c.iter_pos (length c.sub_result) _ _ _ h.0 (mul_suc (length c.sub_result) (rank cs))
        most
    where
      below : (pos len r s t : ℕ) → pos < len → s ≡ len + r → s ≤ t → pos + r < t
      below pos len r s t h k l = omega (arith, h, k, l)

  advance-Steps :
      (cursor : Cursor N)
      → InBounds cursor.components
      → Steps cursor.components (advance unbound cursor)
  unfolding advance
  advance-Steps cursor h = advance_from-Steps cursor.components cursor.key cursor.value h

  iterate-ended :
      (fuel : ℕ) (cursor : Cursor N) → cursor.ended ≡ true → iterate unbound fuel cursor ≡ some []
  unfolding iterate
  iterate-ended zero cursor e = rw (e) refl
  iterate-ended (suc fuel) cursor e = rw (e) refl

  visited :
      (cursor : Cursor N) (b : Bool) (rest : Option (List (Cursor N))) (cursors : List (Cursor N))
      → b ≡ false
      → rest ≡ some cursors
      → (if b then some [] else visit unbound cursor rest) ≡ some (cursor ∷ cursors)
  visited cursor b rest cursors e f = rw (e, f) refl

  iterate-from :
      (fuel : ℕ) (cursor : Cursor N)
      → InBounds cursor.components
      → cursor.ended ≡ false
      → rank cursor.components + suc fuel ≡ combinations cursor.components
      → (cursors : List (Cursor N)) × (iterate unbound (suc fuel) cursor ≡ some cursors)
        × (ranks cursors ≡ range_from (rank cursor.components) (suc fuel))
  unfolding iterate
  iterate-from zero cursor bounds going fits =
      let steps = advance-Steps cursor bounds in
      elim (Bool-cases (advance unbound cursor).ended) [
        | inl ended ↦ (
          cursor ∷ [],
          visited cursor cursor.ended _ [] going
              (iterate-ended zero (advance unbound cursor) ended),
          refl,
        )
        | inr more ↦ absurd (
            too_far _ _ _ _ fits (steps.next more) steps.same_total
              (rank-combinations (advance unbound cursor).components steps.in_bounds))
      ]
    where
      too_far : (r r' t t' : ℕ) → r + 1 ≡ t → r' ≡ suc r → t' ≡ t → r' < t' → ⊥
      too_far r r' t t' a b c d = omega (arith, a, b, c, d)
  iterate-from (suc fuel) cursor bounds going fits =
      let steps = advance-Steps cursor bounds in
      elim (Bool-cases (advance unbound cursor).ended) [
        | inl ended ↦ absurd (too_early _ _ _ fits (steps.last ended))
        | inr more ↦
            let (cursors, visits, numbers) =
              iterate-from fuel (advance unbound cursor) steps.in_bounds more
                (still _ _ _ _ fits (steps.next more) steps.same_total) in
            (
              cursor ∷ cursors,
              visited cursor cursor.ended _ cursors going visits,
              ap (λ l. rank cursor.components ∷ l)
                  (numbers ∙ ap (λ n. range_from n (suc fuel)) (steps.next more)),
            )
      ]
    where
      too_early : (r t n : ℕ) → r + suc (suc n) ≡ t → suc r ≡ t → ⊥
      too_early r t n a b = omega (arith, a, b)

      still : (r r' t t' : ℕ) → r + suc (suc fuel) ≡ t → r' ≡ suc r → t' ≡ t → r' + suc fuel ≡ t'
      still r r' t t' a b c = omega (arith, a, b, c)

  -- If no component is without results, a loop over the iterator ends, and its body runs once for
  -- each number below the number of combinations, in ascending order, where a combination is
  -- numbered by its positions, the first one counting fastest; as many rounds as there are
  -- combinations are enough.
  pub iterate_correct :
      (cursor : Cursor N)
      → AllNonempty cursor.components
      → (cursors : List (Cursor N)) × (iterate unbound
            (combinations cursor.components)
            (restart unbound cursor)
          ≡ some cursors)
        × (ranks cursors ≡ range_from 0 (combinations cursor.components))
  iterate_correct cursor h =
      let (bounds, first, same, going) = restart-start cursor h in
      let some_left = rank-combinations (restart unbound cursor).components bounds in
      let (n, e) = predecessor (combinations cursor.components) (omega (arith, some_left, same)) in
      let (cursors, visits, numbers) =
        iterate-from n (restart unbound cursor) bounds going (omega (arith, first, same, e)) in
      (
        cursors,
        ap (λ m. iterate unbound m (restart unbound cursor)) e ∙ visits,
        numbers ∙ ap (λ m. range_from m (suc n)) first ∙ ap (range_from 0) (sym e),
      )
    where
      predecessor : (m : ℕ) → 0 < m → (n : ℕ) × (m ≡ suc n)
      predecessor zero h = absurd (omega (arith, h))
      predecessor (suc n) h = (n, refl)
