-- ===== src/Prelude/Maps.antt =====
-- Maps from native numbers as association lists.
use Prim.Native.Nat.{ℕ}
use mathlib.Core.Path.{◌≡◌, refl}
use mathlib.Core.Bool.{Bool, true, false}
use mathlib.Core.List.{List, [], ◌∷◌}
use mathlib.Core.Option.{Option, none, some}
use native.Mathlib.Omega.{arith}
use tentris_lib.Prelude.Tests.{ltb, ◌==◌, if◌then◌else◌}

-- `find`
abbrev pub find : {A : Type 0} → ℕ → List (ℕ × A) → Option A
find h [] = none
find h ((key, value) ∷ entries) = if key == h then some value else find h entries

abbrev pub is_found : {A : Type 0} → Option A → Bool
is_found none = false
is_found (some a) = true

-- `map[key] = value` for `boost::container::flat_map`, which keeps the keys in order.
abbrev pub assign : {A : Type 0} → ℕ → A → List (ℕ × A) → List (ℕ × A)
assign h a [] = (h, a) ∷ []
assign h a ((key, value) ∷ entries) =
    if ltb h key
    then (h, a) ∷ (key, value) ∷ entries
    else if key == h
    then (h, a) ∷ entries
    else (key, value) ∷ assign h a entries

pub find-assign :
    {A : Type 0} (h k : ℕ) (a : A) (m : List (ℕ × A))
    → find h (assign k a m) ≡ (if k == h then some a else find h m)
find-assign h k a [] = refl
find-assign h k a ((key, value) ∷ m) = ground (arith, find-assign h k a m)
