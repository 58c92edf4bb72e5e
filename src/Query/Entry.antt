-- ===== src/Query/Entry.antt =====
-- Counted entries (libs/query/src/dice/query/Commons.hpp): a solution and how often it occurs. A
-- generator of counted entries is the list of what it yields.
use tentris_lib.Prelude.{ℕ, ◌+◌, List, [], ◌∷◌, ◌++◌, replicate, arith, length, ◌≡◌}
use tentris_lib.Prelude.{length-append}

-- `CountedEntry<htt_t>`: a key and an `unsigned long`.
pub record CountedEntry (K : Type 0) : Type 0 where
  pub key : K
  pub value : ℕ

-- The solution sequence that a list of counted entries stands for.
abbrev pub expand : {K : Type 0} → List (CountedEntry K) → List K
expand [] = []
expand (e ∷ es) = replicate e.value e.key ++ expand es

-- The number of solutions.
abbrev pub total : {K : Type 0} → List (CountedEntry K) → ℕ
total [] = 0
total (e ∷ es) = e.value + total es

length-replicate {ℓ} : {A : Type ℓ} (n : ℕ) (a : A) → length (replicate n a) ≡ n
length-replicate ℕ.zero a = omega arith
length-replicate (ℕ.suc n) a = omega (arith, length-replicate n a)

pub length-expand : {K : Type 0} (es : List (CountedEntry K)) → length (expand es) ≡ total es
length-expand [] = omega arith
length-expand (e ∷ es) = omega (
  arith,
  length-append (replicate e.value e.key) (expand es),
  length-replicate e.value e.key,
  length-expand es,
)
