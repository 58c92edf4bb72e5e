-- ===== src/Prelude/Options.antt =====
-- Chains of optional results.
use mathlib.Core.Path.{◌≡◌, refl}
use mathlib.Core.Option.{Option, none, some}

infixl 5 ◌>>=◌
abbrev pub ◌>>=◌ {ℓ κ} : {A : Type ℓ} {B : Type κ} → Option A → (A → Option B) → Option B
none >>= f = none
some a >>= f = f a

pub some_injective {ℓ} : {A : Type ℓ} {a b : A} → some a ≡ some b → a ≡ b
some_injective e = cc e

pub none-neq-some {ℓ} : {A : Type ℓ} {a : A} → none ≡ some a → ⊥
none-neq-some e = cc e

-- The parts of a chain that gives a result.
pub >>=-eq-some {ℓ κ} :
    {A : Type ℓ} {B : Type κ} (o : Option A) (f : A → Option B) {b : B}
    → (o >>= f) ≡ some b
    → (a : A) × (o ≡ some a) × (f a ≡ some b)
>>=-eq-some none f e = absurd (none-neq-some e)
>>=-eq-some (some a) f e = (a, refl, e)
