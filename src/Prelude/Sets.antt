-- ===== src/Prelude/Sets.antt =====
-- Membership in lists of native numbers, and `boost::container::flat_set` over them as a sorted list
-- without duplicates.
use Prim.Native.Nat.{ℕ, suc, ◌+◌, ◌≤◌, ◌<◌}
use mathlib.Core.Path.{◌≡◌, refl}
use mathlib.Core.Logic.{inl, inr}
use mathlib.Core.Bool.{Bool, true, false, ◌||◌}
use mathlib.Core.List.{List, [], ◌∷◌, ◌++◌}
use native.Mathlib.Omega.{arith}
use tentris_lib.Prelude.Tests.{ltb, ◌==◌, if◌then◌else◌, Bool-cases}

abbrev pub mem : ℕ → List ℕ → Bool
mem a [] = false
mem a (x ∷ xs) = a == x || mem a xs

-- How often the number stands in the list.
abbrev pub count : ℕ → List ℕ → ℕ
count a [] = 0
count a (x ∷ xs) = if a == x then suc (count a xs) else count a xs

pub mem-append : (a : ℕ) (xs ys : List ℕ) → mem a (xs ++ ys) ≡ (mem a xs || mem a ys)
mem-append a [] ys = refl
mem-append a (x ∷ xs) ys = ground (arith, mem-append a xs ys)

pub count-append : (a : ℕ) (xs ys : List ℕ) → count a (xs ++ ys) ≡ count a xs + count a ys
count-append a [] ys = omega arith
count-append a (x ∷ xs) ys = ground (arith, count-append a xs ys)

-- `flat_set::insert`: the place is found by order, and an element that is there stays.
unfoldable pub set_insert : ℕ → List ℕ → List ℕ
set_insert a [] = a ∷ []
set_insert a (x ∷ xs) =
    if ltb a x then a ∷ x ∷ xs else if a == x then x ∷ xs else x ∷ set_insert a xs

-- `flat_set::insert(first, last)`
unfoldable pub set_insert_all : List ℕ → List ℕ → List ℕ
set_insert_all [] s = s
set_insert_all (x ∷ xs) s = set_insert_all xs (set_insert x s)

-- `flat_set::erase`
unfoldable pub set_erase : ℕ → List ℕ → List ℕ
set_erase a [] = []
set_erase a (x ∷ xs) = if a == x then xs else x ∷ set_erase a xs

-- Strictly ascending, so without duplicates.
abbrev pub Above : ℕ → List ℕ → Type 0
Above a [] = Unit
Above a (x ∷ xs) = a < x

abbrev pub IsSorted : List ℕ → Type 0
IsSorted [] = Unit
IsSorted (x ∷ xs) = Above x xs × IsSorted xs

pub mem-set_insert : (b a : ℕ) (s : List ℕ) → mem b (set_insert a s) ≡ (b == a || mem b s)
unfolding set_insert
mem-set_insert b a [] = refl
mem-set_insert b a (x ∷ xs) = ground (arith, mem-set_insert b a xs)

set_insert-Above : (b a : ℕ) (s : List ℕ) → b < a → Above b s → Above b (set_insert a s)
unfolding set_insert
set_insert-Above b a [] lt h = lt
set_insert-Above b a (x ∷ xs) lt h = ground arith

pub set_insert-IsSorted : (a : ℕ) (s : List ℕ) → IsSorted s → IsSorted (set_insert a s)
unfolding set_insert
set_insert-IsSorted a [] h = (tt, tt)
set_insert-IsSorted a (x ∷ xs) h =
    ground (arith, set_insert-IsSorted a xs h.1, set_insert-Above x a xs)

pub mem-set_insert_all :
    (b : ℕ) (xs s : List ℕ) → mem b (set_insert_all xs s) ≡ (mem b xs || mem b s)
unfolding set_insert_all
mem-set_insert_all b [] s = refl
mem-set_insert_all b (x ∷ xs) s =
    ground (arith, mem-set_insert_all b xs (set_insert x s), mem-set_insert b x s)

pub set_insert_all-IsSorted : (xs s : List ℕ) → IsSorted s → IsSorted (set_insert_all xs s)
unfolding set_insert_all
set_insert_all-IsSorted [] s h = h
set_insert_all-IsSorted (x ∷ xs) s h =
    set_insert_all-IsSorted xs (set_insert x s) (set_insert-IsSorted x s h)

-- Nothing at or below a lower bound is a member.
mem-Above : (a : ℕ) (s : List ℕ) → Above a s → IsSorted s → (b : ℕ) → b ≤ a → mem b s ≡ false
mem-Above a [] h k b le = refl
mem-Above a (x ∷ xs) h k b le = ground (arith, mem-Above x xs k.0 k.1 b)

set_erase-Above : (b a : ℕ) (s : List ℕ) → Above b s → IsSorted s → Above b (set_erase a s)
unfolding set_erase
set_erase-Above b a [] h k = tt
set_erase-Above b a (x ∷ []) h k = ground arith
set_erase-Above b a (x ∷ y ∷ xs) h k = ground arith

pub set_erase-IsSorted : (a : ℕ) (s : List ℕ) → IsSorted s → IsSorted (set_erase a s)
unfolding set_erase
set_erase-IsSorted a [] h = tt
set_erase-IsSorted a (x ∷ xs) h =
    ground (arith, set_erase-IsSorted a xs h.1, set_erase-Above x a xs)

erase_here :
    (b a x : ℕ) (m : Bool)
    → (a == x) ≡ true
    → (b ≡ x → m ≡ false)
    → m ≡ (if b == a then false else b == x || m)
erase_here b a x m here h = ground arith

erase_later :
    (b a x : ℕ) (m m' : Bool)
    → (a == x) ≡ false
    → m' ≡ (if b == a then false else m)
    → (b == x || m') ≡ (if b == a then false else b == x || m)
erase_later b a x m m' later h = ground arith

pub mem-set_erase :
    (b a : ℕ) (s : List ℕ)
    → IsSorted s
    → mem b (set_erase a s) ≡ (if b == a then false else mem b s)
unfolding set_erase
mem-set_erase b a [] h = ground arith
mem-set_erase b a (x ∷ xs) h = elim (Bool-cases (a == x)) [
  | inl here ↦
      rw (here, set_erase)
        (erase_here b a x (mem b xs) here (λ e. mem-Above x xs h.0 h.1 b (omega arith)))
  | inr later ↦
      rw (later, set_erase)
        (erase_later b a x (mem b xs) (mem b (set_erase a xs)) later (mem-set_erase b a xs h.1))
]
