-- ===== src/Prelude/Lists.antt =====
-- Lists measured and indexed by native numbers, under the library's names.
use Prim.Native.Nat.{ℕ, zero, suc, ◌+◌, ◌-◌, ◌≤◌}
use mathlib.Core.Path.{◌≡◌, refl, ap, ◌∙◌}
use mathlib.Core.List.{List, [], ◌∷◌, ◌++◌, map}
use mathlib.Core.Option.{Option, none, some}
use native.Mathlib.Omega.{arith}

module _ {ℓ} {A : Type ℓ} where
  abbrev pub length : List A → ℕ
  length [] = 0
  length (x ∷ xs) = suc (length xs)

  abbrev pub get_elem? : List A → ℕ → Option A
  get_elem? [] i = none
  get_elem? (x ∷ xs) zero = some x
  get_elem? (x ∷ xs) (suc i) = get_elem? xs i

  abbrev pub get_or : List A → ℕ → A → A
  get_or [] i d = d
  get_or (x ∷ xs) zero d = x
  get_or (x ∷ xs) (suc i) d = get_or xs i d

  -- A write out of bounds changes nothing.
  abbrev pub set : List A → ℕ → A → List A
  set [] i v = []
  set (x ∷ xs) zero v = v ∷ xs
  set (x ∷ xs) (suc i) v = x ∷ set xs i v

  abbrev pub take : ℕ → List A → List A
  take zero xs = []
  take (suc n) [] = []
  take (suc n) (x ∷ xs) = x ∷ take n xs

  abbrev pub drop : ℕ → List A → List A
  drop zero xs = xs
  drop (suc n) [] = []
  drop (suc n) (x ∷ xs) = drop n xs

  abbrev pub replicate : ℕ → A → List A
  replicate zero a = []
  replicate (suc n) a = a ∷ replicate n a

  pub length-append : (xs ys : List A) → length (xs ++ ys) ≡ length xs + length ys
  length-append [] ys = omega arith
  length-append (x ∷ xs) ys = omega (arith, length-append xs ys)

  -- How a prefix or a suffix cuts through a block of equal elements.
  pub take-replicate-le :
      (n k : ℕ) (a : A) (xs : List A)
      → k ≤ n
      → take n (replicate k a ++ xs) ≡ replicate k a ++ take (n - k) xs
  take-replicate-le n zero a xs h = ap (λ m. take m xs) (omega arith)
  take-replicate-le zero (suc k) a xs h = absurd (omega arith)
  take-replicate-le (suc n) (suc k) a xs h = ap (◌∷◌ a) (
      take-replicate-le n k a xs (omega arith) ∙ ap (λ m. replicate k a ++ take m xs) (omega arith))

  pub take-replicate-ge :
      (n k : ℕ) (a : A) (xs : List A) → n ≤ k → take n (replicate k a ++ xs) ≡ replicate n a
  take-replicate-ge zero k a xs h = refl
  take-replicate-ge (suc n) zero a xs h = absurd (omega arith)
  take-replicate-ge (suc n) (suc k) a xs h = ap (◌∷◌ a) (take-replicate-ge n k a xs (omega arith))

  pub drop-replicate-le :
      (n k : ℕ) (a : A) (xs : List A) → k ≤ n → drop n (replicate k a ++ xs) ≡ drop (n - k) xs
  drop-replicate-le n zero a xs h = ap (λ m. drop m xs) (omega arith)
  drop-replicate-le zero (suc k) a xs h = absurd (omega arith)
  drop-replicate-le (suc n) (suc k) a xs h =
      drop-replicate-le n k a xs (omega arith) ∙ ap (λ m. drop m xs) (omega arith)

  pub drop-replicate-ge :
      (n k : ℕ) (a : A) (xs : List A)
      → n ≤ k
      → drop n (replicate k a ++ xs) ≡ replicate (k - n) a ++ xs
  drop-replicate-ge zero k a xs h = ap (λ m. replicate m a ++ xs) (omega arith)
  drop-replicate-ge (suc n) zero a xs h = absurd (omega arith)
  drop-replicate-ge (suc n) (suc k) a xs h =
      drop-replicate-ge n k a xs (omega arith) ∙ ap (λ m. replicate m a ++ xs) (omega arith)

pub take-nil {ℓ} : {A : Type ℓ} (n : ℕ) → take {A = A} n [] ≡ []
take-nil zero = refl
take-nil (suc n) = refl

pub drop-nil {ℓ} : {A : Type ℓ} (n : ℕ) → drop {A = A} n [] ≡ []
drop-nil zero = refl
drop-nil (suc n) = refl

pub length-map {ℓ κ} :
    {A : Type ℓ} {B : Type κ} (f : A → B) (xs : List A) → length (map f xs) ≡ length xs
length-map f [] = refl
length-map f (x ∷ xs) = ap suc (length-map f xs)
