-- ===== src/Query/Registry/Tracked.antt =====
-- Tracked variables and their positions, and the identifiers of variables.
use tentris_lib.Prelude.{
  ℕ, zero, suc, ◌-◌, ◌≡◌, refl, ap, sym, ◌∙◌, ◌↔◌, true, false, List, [], ◌∷◌, ◌++◌, Option, none,
  some, if◌then◌else◌, ◌==◌, arith, length, get_elem?, Bool-cases, inl, inr, length-append,
  choose_true, choose_false, subst, none-neq-some, ==_iff, Option-cases,
}
use tentris_lib.Prelude.Sets.{mem}
use tentris_lib.Prelude.Maps.{find, is_found, assign, find-assign}
use tentris_lib.Query.Registry.{Tracker, is_var_tracked, track_var}

-- The variable at a position and the position of a variable are inverse to each other.
abbrev pub IsConsistent : Tracker → Type 0
IsConsistent t =
    (v p : ℕ) → (find v t.tracked_vars_pos ≡ some p) ↔ (get_elem? t.tracked_vars p ≡ some v)

pub get_elem?-snoc :
    {A : Type 0} (xs : List A) (a : A) (p : ℕ)
    → get_elem? (xs ++ (a ∷ [])) p ≡ (if p == length xs then some a else get_elem? xs p)
get_elem?-snoc [] a zero = refl
get_elem?-snoc [] a (suc p) = ground arith
get_elem?-snoc (x ∷ xs) a zero = ground arith
get_elem?-snoc (x ∷ xs) a (suc p) = ground (arith, get_elem?-snoc xs a p)

pub get_elem?-length : {A : Type 0} (xs : List A) → get_elem? xs (length xs) ≡ none
get_elem?-length [] = refl
get_elem?-length (x ∷ xs) = get_elem?-length xs

tracked_new :
    (var v p n : ℕ) (at_v : Option ℕ) (at_p : Option ℕ)
    → (at_v ≡ some p) ↔ (at_p ≡ some v)
    → (v ≡ var → is_found at_v ≡ false)
    → (p ≡ n → at_p ≡ none)
    → ((if var == v then some n else at_v) ≡ some p)
      ↔ ((if p == n then some var else at_p) ≡ some v)
tracked_new var v p n at_v at_p h k l = ground (arith, h, k, l)

missing : {A : Type 0} (o : Option A) (a : A) → is_found o ≡ false → o ≡ some a → ⊥
missing none a h e = ground (arith, e)
missing (some b) a h e = ground (arith, h)

tracked_after :
    (var : ℕ) (t : Tracker)
    → is_var_tracked t var ≡ false
    → IsConsistent t
    → (v p n : ℕ) → n ≡ length t.tracked_vars
    → (find v (assign var n t.tracked_vars_pos) ≡ some p)
      ↔ (get_elem? (t.tracked_vars ++ (var ∷ [])) p ≡ some v)
tracked_after var t new h v p n e =
    rw (find-assign v var n t.tracked_vars_pos, get_elem?-snoc t.tracked_vars var p, ← e)
      (tracked_new var v p n (find v t.tracked_vars_pos) (get_elem? t.tracked_vars p) (h v p)
        (λ same. ap (λ w. is_found (find w t.tracked_vars_pos)) same ∙ new)
        (λ last. ap (get_elem? t.tracked_vars) (last ∙ e) ∙ get_elem?-length t.tracked_vars))

new_last : (xs : List ℕ) (x : ℕ) → length (xs ++ (x ∷ [])) - 1 ≡ length xs
new_last xs x = omega (arith, length-append xs (x ∷ []))

-- Tracking a variable, whether it is tracked already or not, keeps positions and variables inverse
-- to each other.
pub track_var-IsConsistent :
    (var : ℕ) (t : Tracker) → IsConsistent t → IsConsistent (track_var var t)
unfolding track_var
track_var-IsConsistent var t h = elim (Bool-cases (is_var_tracked t var)) [
  | inl tracked ↦ subst IsConsistent (sym (choose_true _ t _ tracked)) h
  | inr new ↦
      subst IsConsistent (sym (choose_false _ t _ new))
        (λ v p. tracked_after var t new h v p _ (new_last t.tracked_vars var))
]

mem-get_elem? : (v p : ℕ) (xs : List ℕ) → get_elem? xs p ≡ some v → mem v xs ≡ true
mem-get_elem? v p [] h = absurd (none-neq-some h)
mem-get_elem? v zero (x ∷ xs) h = ground (arith, h)
mem-get_elem? v (suc p) (x ∷ xs) h = ground (arith, mem-get_elem? v p xs h)

place_of_member : (v : ℕ) (xs : List ℕ) → mem v xs ≡ true → (p : ℕ) × (get_elem? xs p ≡ some v)
place_of_member v [] h = absurd (ground (arith, h))
place_of_member v (x ∷ xs) h = elim (Bool-cases (v == x)) [
  | inl same ↦ (0, ap some (sym ((==_iff v x).0 same)))
  | inr other ↦ let (p, found) = place_of_member v xs (ground (arith, h, other)) in (suc p, found)
]

-- A variable has a position exactly if it is tracked.
pub mem-tracked_vars :
    (t : Tracker) (v : ℕ) → IsConsistent t → is_var_tracked t v ≡ mem v t.tracked_vars
mem-tracked_vars t v h = elim (Option-cases (find v t.tracked_vars_pos)) [
  | inl missed ↦ elim (Bool-cases (mem v t.tracked_vars)) [
    | inl inside ↦
        let (p, found) = place_of_member v t.tracked_vars inside in
        absurd (none-neq-some (sym missed ∙ (h v p).1 found))
    | inr outside ↦ ap is_found missed ∙ sym outside
  ]
  | inr (p, found) ↦ ap is_found found ∙ sym (mem-get_elem? v p t.tracked_vars ((h v p).0 found))
]
