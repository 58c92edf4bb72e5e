-- ===== src/Graph/Narrow.antt =====
-- Where all vertices fit in eight bits, narrowing changes nothing.
use tentris_lib.Prelude.{
  ℕ, zero, suc, ◌^◌, ◌<◌, ◌≡◌, refl, Bool, true, false, List, [], ◌∷◌, map, if◌then◌else◌, arith,
  get_or,
}
use tentris_lib.Prelude.Sets.{mem}
use tentris_lib.Graph.{narrow}

pub narrow-small : (v : ℕ) → v < 2 ^ 8 → narrow v ≡ v
narrow-small v h = omega (arith, h)

pub map-narrow : (vs : List ℕ) → ((v : ℕ) → mem v vs ≡ true → v < 2 ^ 8) → map narrow vs ≡ vs
map-narrow [] h = refl
map-narrow (w ∷ ws) h =
    cc (narrow-small w (h w (ground arith)), map-narrow ws (λ v m. h v (ground (arith, m))))

pub narrow_either :
    (b : Bool) (xs ys : List ℕ)
    → map narrow xs ≡ xs
    → map narrow ys ≡ ys
    → (if b then map narrow xs else map narrow ys) ≡ (if b then xs else ys)
narrow_either true xs ys h k = h
narrow_either false xs ys h k = k

pub get_or-narrow : (xs : List ℕ) (i : ℕ) → get_or (map narrow xs) i 0 ≡ narrow (get_or xs i 0)
get_or-narrow [] i = refl
get_or-narrow (x ∷ xs) zero = refl
get_or-narrow (x ∷ xs) (suc i) = get_or-narrow xs i
