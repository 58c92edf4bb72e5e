-- ===== src/Query/Distinct/Once.antt =====
-- DISTINCT yields every solution once.
use tentris_lib.Prelude.{
  ℕ, ◌≡◌, refl, not, ◌&&◌, List, [], ◌∷◌, map, arith, if◌then◌else◌, ◌⊎◌, inl, inr, zero, suc, ◌<◌,
  ◌++◌, ◌||◌, ◌==◌, replicate,
}
use tentris_lib.Prelude.Sets.{mem, count}
use tentris_lib.Query.Entry.{CountedEntry, expand}
use tentris_lib.Query.Pagination.Counts.{AllPositive}
use tentris_lib.Query.Distinct.{distinct_from, distinct}

-- The key is the key of an entry.
abbrev pub HasKey : {K : Type 0} → K → List (CountedEntry K) → Type 0
HasKey k [] = ⊥
HasKey k (e ∷ es) = (k ≡ e.key) ⊎ HasKey k es

-- The solution is one of the list.
abbrev pub IsIn : {K : Type 0} → K → List K → Type 0
IsIn k [] = ⊥
IsIn k (x ∷ xs) = (k ≡ x) ⊎ IsIn k xs

from_copies :
    {K : Type 0} (k a : K) (n : ℕ) (rest : List K)
    → IsIn k (replicate n a ++ rest)
    → (k ≡ a) ⊎ IsIn k rest
from_copies k a zero rest h = inr h
from_copies k a (suc n) rest (inl same) = inl same
from_copies k a (suc n) rest (inr later) = from_copies k a n rest later

behind_copies :
    {K : Type 0} (k a : K) (n : ℕ) (rest : List K) → IsIn k rest → IsIn k (replicate n a ++ rest)
behind_copies k a zero rest h = h
behind_copies k a (suc n) rest h = inr (behind_copies k a n rest h)

first_copy_counts :
    {K : Type 0} (k a : K) (n : ℕ) (rest : List K) → 0 < n → k ≡ a → IsIn k (replicate n a ++ rest)
first_copy_counts k a zero rest pos same = absurd (omega (arith, pos))
first_copy_counts k a (suc n) rest pos same = inl same

IsIn-HasKey : {K : Type 0} (k : K) (es : List (CountedEntry K)) → IsIn k (expand es) → HasKey k es
IsIn-HasKey k [] h = h
IsIn-HasKey k (e ∷ es) h = elim (from_copies k e.key e.value (expand es) h) [
  | inl same ↦ inl same
  | inr later ↦ inr (IsIn-HasKey k es later)
]

HasKey-IsIn :
    {K : Type 0} (k : K) (es : List (CountedEntry K))
    → AllPositive es
    → HasKey k es
    → IsIn k (expand es)
HasKey-IsIn k [] pos h = h
HasKey-IsIn k (e ∷ es) pos (inl same) = first_copy_counts k e.key e.value (expand es) pos.0 same
HasKey-IsIn k (e ∷ es) pos (inr later) =
    behind_copies k e.key e.value (expand es) (HasKey-IsIn k es pos.1 later)

module _ {K : Type 0} (hash : K → ℕ) where
  abbrev pub hashes : List (CountedEntry K) → List ℕ
  hashes [] = []
  hashes (e ∷ es) = hash e.key ∷ hashes es

  count-distinct_from :
      (found : List ℕ) (entries : List (CountedEntry K)) (h : ℕ)
      → count h (map hash (expand (distinct_from hash found entries)))
        ≡ (if mem h (hashes entries) && not (mem h found) then 1 else 0)
  unfolding distinct_from
  count-distinct_from found [] h = refl
  count-distinct_from found (e ∷ es) h =
      ground (arith, count-distinct_from found es h, count-distinct_from (hash e.key ∷ found) es h)

  HasKey-distinct_from :
      (found : List ℕ) (entries : List (CountedEntry K)) (k : K)
      → HasKey k (distinct_from hash found entries)
      → HasKey k entries
  unfolding distinct_from
  HasKey-distinct_from found [] k h = h
  HasKey-distinct_from found (e ∷ es) k h =
      ground
        (arith, HasKey-distinct_from found es k, HasKey-distinct_from (hash e.key ∷ found) es k)

  -- Entries that occur at least once give as many hashes as their solutions.
  mem-replicate :
      (h n : ℕ) (a : K) (rest : List K)
      → 0 < n
      → mem h (map hash (replicate n a ++ rest)) ≡ (h == hash a || mem h (map hash rest))
  mem-replicate h zero a rest pos = absurd (omega (arith, pos))
  mem-replicate h (suc zero) a rest pos = ground arith
  mem-replicate h (suc (suc n)) a rest pos =
      ground (arith, mem-replicate h (suc n) a rest (omega arith))

  mem-hashes :
      (h : ℕ) (es : List (CountedEntry K))
      → AllPositive es
      → mem h (hashes es) ≡ mem h (map hash (expand es))
  mem-hashes h [] pos = refl
  mem-hashes h (e ∷ es) pos =
      ground (arith, mem-replicate h e.value e.key (expand es) pos.0, mem-hashes h es pos.1)

  -- DISTINCT yields only solutions of its sub-operator, and for every hash that one of these has
  -- exactly one solution, once, if no entry of the sub-operator has the count 0.
  pub distinct_correct :
      (entries : List (CountedEntry K))
      → AllPositive entries
      → ((k : K) → IsIn k (expand (distinct hash entries)) → IsIn k (expand entries))
        × ((h : ℕ)
            → count h (map hash (expand (distinct hash entries)))
              ≡ (if mem h (map hash (expand entries)) then 1 else 0))
  unfolding distinct
  distinct_correct entries pos = (
    λ k h.
        HasKey-IsIn k entries pos
          (HasKey-distinct_from [] entries k (IsIn-HasKey k (distinct hash entries) h)),
    λ h. ground (arith, count-distinct_from [] entries h, mem-hashes h entries pos),
  )
