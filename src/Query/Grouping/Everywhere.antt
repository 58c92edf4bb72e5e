-- ===== src/Query/Grouping/Everywhere.antt =====
-- What holds of every group in a list.
use tentris_lib.Prelude.{ℕ, ◌≡◌, Bool, false, List, [], ◌∷◌, arith}
use tentris_lib.Query.Ordering.{multiset_insert, multiset_insert_all}
use tentris_lib.Query.Ordering.Sorted.{NoneBefore, IsOrdered}
use tentris_lib.Query.Grouping.Maps.{keys, AllEntries}
use tentris_lib.Query.Grouping.Yields.{keep}

abbrev pub AllOf : (ℕ → Type 0) → List ℕ → Type 0
AllOf P [] = Unit
AllOf P (x ∷ xs) = P x × AllOf P xs

pub all_alike :
    (less : ℕ → ℕ → Bool) → ((a b : ℕ) → less a b ≡ false) → (xs : List ℕ) → IsOrdered less xs
all_alike less h [] = tt
all_alike less h (x ∷ xs) = (none_before xs, all_alike less h xs)
  where
    none_before : (ys : List ℕ) → NoneBefore less x ys
    none_before [] = tt
    none_before (y ∷ ys) = (h y x, none_before ys)

module _ (P : ℕ → Type 0) where
  pub keep-AllOf : (p : ℕ → Bool) (xs : List ℕ) → AllOf P xs → AllOf P (keep p xs)
  keep-AllOf p [] h = tt
  keep-AllOf p (x ∷ xs) h = ground (arith, keep-AllOf p xs)

  pub keys-AllOf : {A : Type 0} (m : List (ℕ × A)) → AllEntries (λ k v. P k) m → AllOf P (keys m)
  keys-AllOf [] h = tt
  keys-AllOf ((key, value) ∷ m) h = (h.0, keys-AllOf m h.1)

  multiset_insert-AllOf :
      (less : ℕ → ℕ → Bool) (a : ℕ) (xs : List ℕ)
      → P a
      → AllOf P xs
      → AllOf P (multiset_insert less a xs)
  unfolding multiset_insert
  multiset_insert-AllOf less a [] h k = (h, tt)
  multiset_insert-AllOf less a (x ∷ xs) h k = ground (arith, multiset_insert-AllOf less a xs)

  pub multiset_insert_all-AllOf :
      (less : ℕ → ℕ → Bool) (xs ys : List ℕ)
      → AllOf P xs
      → AllOf P ys
      → AllOf P (multiset_insert_all less xs ys)
  unfolding multiset_insert_all
  multiset_insert_all-AllOf less [] ys h k = k
  multiset_insert_all-AllOf less (x ∷ xs) ys h k =
      multiset_insert_all-AllOf less xs (multiset_insert less x ys) h.1
        (multiset_insert-AllOf less x ys h.0 k)
