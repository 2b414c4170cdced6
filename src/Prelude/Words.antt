-- ===== src/Prelude/Words.antt =====
-- Fixed-width words as native numbers: a value is below its modulus, and arithmetic wraps.
use Prim.Native.Nat.{ℕ, ◌+◌, ◌-◌, ◌%◌, ◌^◌}
use mathlib.Core.Bool.{Bool}
use schwung_monomodule.Prelude.Tests.{leb}

abbrev pub u32 : ℕ → ℕ
u32 n = n % 2 ^ 32

-- `uint8_t(n)` of a number that is not negative.
abbrev pub u8 : ℕ → ℕ
u8 n = n % 2 ^ 8

-- `a - b` in uint32_t.
abbrev pub sub32 : ℕ → ℕ → ℕ
sub32 a b = (a + 2 ^ 32 - b) % 2 ^ 32

-- `int32_t(w) < 0`.
abbrev pub is_negative : ℕ → Bool
is_negative w = leb (2 ^ 31) w
