-- ===== src/Query/Registry/Identifiers.antt =====
-- The identifiers that variables get: a `char` that counts up from 'a'.
use tentris_lib.Prelude.{
  ℕ, suc, ◌+◌, ◌%◌, ◌≤◌, ◌<◌, ◌≡◌, refl, sym, ◌∙◌, false, List, [], ◌∷◌, Option, some,
  if◌then◌else◌, ◌==◌, arith, length, Bool-cases, inl, inr, choose_true, choose_false, subst,
  some_injective, ==_iff, none-neq-some,
}
use tentris_lib.Prelude.Maps.{find, is_found, assign, find-assign}
use tentris_lib.Query.Registry.{Registry, empty_registry, register_variable}

-- Registering several variables in turn.
abbrev pub register_all : List ℕ → Registry → Registry
register_all [] q = q
register_all (v ∷ vs) q = register_all vs (register_variable v q)

record IsNumbered (q : Registry) : Type 0 where
  next : length q.variable_to_id < 159 → q.next_variable_id ≡ 97 + length q.variable_to_id
  bounded :
      (v i : ℕ)
      → length q.variable_to_id ≤ 159
      → find v q.variable_to_id ≡ some i
      → (97 ≤ i) × (i < 97 + length q.variable_to_id)
  distinct :
      (v w i : ℕ)
      → length q.variable_to_id ≤ 159
      → find v q.variable_to_id ≡ some i
      → find w q.variable_to_id ≡ some i
      → v ≡ w

length-assign :
    (k a : ℕ) (m : List (ℕ × ℕ))
    → is_found (find k m) ≡ false
    → length (assign k a m) ≡ suc (length m)
length-assign k a [] h = refl
length-assign k a ((key, value) ∷ m) h = ground (arith, length-assign k a m)

-- The identifier of `v` after `w` has got the next one.
bounded_after :
    (w v i n len : ℕ) (o : Option ℕ)
    → n ≡ 97 + len
    → (o ≡ some i → (97 ≤ i) × (i < 97 + len))
    → (if w == v then some n else o) ≡ some i
    → (97 ≤ i) × (i < 97 + suc len)
bounded_after w v i n len o e h found = elim (Bool-cases (w == v)) [
  | inl same ↦
      let j : n ≡ i = some_injective (sym (choose_true _ (some n) o same) ∙ found) in
      omega (arith, j, e)
  | inr other ↦
      let (low, high) = h (sym (choose_false _ (some n) o other) ∙ found) in
      omega (arith, low, high)
]

distinct_after :
    (u v w i n : ℕ) (o p : Option ℕ)
    → (o ≡ some i → i < n)
    → (p ≡ some i → i < n)
    → (o ≡ some i → p ≡ some i → v ≡ w)
    → (if u == v then some n else o) ≡ some i
    → (if u == w then some n else p) ≡ some i
    → v ≡ w
distinct_after u v w i n o p h k l e f = elim (Bool-cases (u == v)) [
  | inl uv ↦
      let j : n ≡ i = some_injective (sym (choose_true _ (some n) o uv) ∙ e) in
      elim (Bool-cases (u == w)) [
        | inl uw ↦ sym ((==_iff u v).0 uv) ∙ (==_iff u w).0 uw
        | inr other ↦
            let below = k (sym (choose_false _ (some n) p other) ∙ f) in
            absurd (omega (arith, below, j))
      ]
  | inr not_uv ↦
      let here = sym (choose_false _ (some n) o not_uv) ∙ e in
      elim (Bool-cases (u == w)) [
        | inl uw ↦
            let j : n ≡ i = some_injective (sym (choose_true _ (some n) p uw) ∙ f) in
            let below = h here in absurd (omega (arith, below, j))
        | inr other ↦ l here (sym (choose_false _ (some n) p other) ∙ f)
      ]
]

registered : ℕ → Registry → Registry
registered w q = record q {
  variable_to_id = assign w q.next_variable_id q.variable_to_id;
  next_variable_id = (q.next_variable_id + 1) % 256;
}

registered-IsNumbered :
    (w : ℕ) (q : Registry)
    → is_found (find w q.variable_to_id) ≡ false
    → IsNumbered q
    → IsNumbered (registered w q)
unfolding registered
registered-IsNumbered w q new h =
    let ids = q.variable_to_id in
    let n = q.next_variable_id in
    let longer : length (assign w n ids) ≡ suc (length ids) = length-assign w n ids new in
    record {
      next = λ few.
          let same : n ≡ 97 + length ids = h.next (omega (arith, few, longer)) in
          omega (arith, few, longer, same);
      bounded = λ v i few found.
          let (low, high) =
            bounded_after w v i n (length ids) (find v ids) (h.next (omega (arith, few, longer)))
              (h.bounded v i (omega (arith, few, longer))) (sym (find-assign v w n ids) ∙ found) in
          (low, omega (arith, high, longer));
      distinct = λ v u i few here there.
          let same : n ≡ 97 + length ids = h.next (omega (arith, few, longer)) in
          let fits : length ids ≤ 159 = omega (arith, few, longer) in
          distinct_after w v u i n (find v ids) (find u ids)
            (λ e. omega (arith, same, (h.bounded v i fits e).1))
            (λ e. omega (arith, same, (h.bounded u i fits e).1)) (h.distinct v u i fits)
            (sym (find-assign v w n ids) ∙ here) (sym (find-assign u w n ids) ∙ there);
    }

register_variable-IsNumbered :
    (w : ℕ) (q : Registry) → IsNumbered q → IsNumbered (register_variable w q)
unfolding register_variable registered
register_variable-IsNumbered w q h = elim (Bool-cases (is_found (find w q.variable_to_id))) [
  | inl known ↦ subst IsNumbered (sym (choose_true _ q _ known)) h
  | inr new ↦ subst IsNumbered (sym (choose_false _ q _ new)) (registered-IsNumbered w q new h)
]

register_all-IsNumbered :
    (vs : List ℕ) (q : Registry) → IsNumbered q → IsNumbered (register_all vs q)
register_all-IsNumbered [] q h = h
register_all-IsNumbered (v ∷ vs) q h =
    register_all-IsNumbered vs (register_variable v q) (register_variable-IsNumbered v q h)

-- While a query has at most 159 variables, different variables have different identifiers, none of
-- which is '\0', the label of edges without a variable.
pub register_all-distinct :
    (vs : List ℕ)
    → length (register_all vs empty_registry).variable_to_id ≤ 159
    → (v w i : ℕ) → find v (register_all vs empty_registry).variable_to_id ≡ some i
    → find w (register_all vs empty_registry).variable_to_id ≡ some i
    → (0 < i) × (i < 256) × (v ≡ w)
register_all-distinct vs few v w i here there =
    let h = register_all-IsNumbered vs empty_registry new in
    let (low, high) = h.bounded v i few here in
    (omega (arith, low), omega (arith, high, few), h.distinct v w i few here there)
  where
    new : IsNumbered empty_registry
    new = record {
      next = λ few. refl;
      bounded = λ v i few found. absurd (none-neq-some found);
      distinct = λ v w i few found there. absurd (none-neq-some found);
    }
