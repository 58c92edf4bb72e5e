-- ===== src/Prelude/Words.antt =====
-- 64-bit words as native numbers: `unsigned long` is a number below 2 ^ 64, and `ssize_t` is read
-- from the same bits in two's complement.
use Prim.Native.Nat.{ℕ, ◌+◌, ◌-◌, ◌%◌, ◌^◌, ◌≤◌, ◌<◌}
use mathlib.Core.Path.{◌≡◌}
use mathlib.Core.Bool.{Bool, false}
use native.Mathlib.Omega.{arith}
use tentris_lib.Prelude.Tests.{ltb}

-- Addition and subtraction, which wrap around. `-` on ℕ stops at 0, so the modulus comes first.
unfoldable pub add64 : ℕ → ℕ → ℕ
add64 a b = (a + b) % 2 ^ 64

unfoldable pub sub64 : ℕ → ℕ → ℕ
sub64 a b = (a + 2 ^ 64 - b) % 2 ^ 64

-- `a < b` for signed words: the top bit is the sign.
unfoldable pub slt : ℕ → ℕ → Bool
slt a b = ltb ((a + 2 ^ 63) % 2 ^ 64) ((b + 2 ^ 63) % 2 ^ 64)

-- The bit pattern of -1.
abbrev pub minus_one : ℕ
minus_one = 2 ^ 64 - 1

pub add64_small : (a b : ℕ) → a + b < 2 ^ 64 → add64 a b ≡ a + b
unfolding add64
add64_small a b h = omega arith

pub sub64_small : (a b : ℕ) → b ≤ a → a < 2 ^ 64 → sub64 a b ≡ a - b
unfolding sub64
sub64_small a b h k = omega arith

pub slt_small : (a b : ℕ) → a < 2 ^ 63 → b < 2 ^ 63 → slt a b ≡ ltb a b
unfolding slt
slt_small a b h k = ground arith

pub slt-minus_one : (a : ℕ) → a < 2 ^ 63 → slt a minus_one ≡ false
unfolding slt
slt-minus_one a h = ground arith
