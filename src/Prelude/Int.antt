-- ===== src/Prelude/Int.antt =====
-- Signed integers over the native numbers, under the library's names (its ℤ stands on the unary ℕ).
-- Sums and orders go through the two parts of an integer, which are numbers that `omega` reads.
use Prim.Native.Nat.{ℕ, suc, ◌+◌, ◌-◌, ◌≤◌}
use mathlib.Core.Bool.{Bool, false}
use native.Mathlib.Omega.{arith}
use schwung_monomodule.Prelude.Tests.{ltb, leb, ◌==◌, if◌then◌else◌}

-- `negsuc n` is -(n + 1).
pub data ℤ : Type 0 where
  pos : ℕ → ℤ
  negsuc : ℕ → ℤ

abbrev pub pos_part : ℤ → ℕ
pos_part (pos n) = n
pos_part (negsuc n) = 0

abbrev pub neg_part : ℤ → ℕ
neg_part (pos n) = 0
neg_part (negsuc n) = suc n

-- a - b, as an integer.
abbrev pub sub_ℕ : ℕ → ℕ → ℤ
sub_ℕ a b = if leb b a then pos (a - b) else negsuc (b - a - 1)

abbrev pub ltb_ℤ : ℤ → ℤ → Bool
ltb_ℤ a b = ltb (pos_part a + neg_part b) (pos_part b + neg_part a)

-- The test `a == n` of an int against a number that is not negative.
abbrev pub is_pos : ℤ → ℕ → Bool
is_pos (pos m) n = m == n
is_pos (negsuc _) n = false

-- The sum of an integer and a number, unbounded.
abbrev pub add_ℕ : ℤ → ℕ → ℤ
add_ℕ (pos m) n = pos (m + n)
add_ℕ (negsuc m) n = sub_ℕ n (suc m)

-- `a + b` of an int and a number below 2 ^ 31: C++ leaves a sum beyond 2 ^ 31 - 1 undefined, which is
-- taken as wrapping round.
abbrev pub add_int : ℤ → ℕ → ℤ
add_int (pos m) n = if ltb 2147483647 (m + n) then sub_ℕ (m + n) 4294967296 else pos (m + n)
add_int (negsuc m) n = add_ℕ (negsuc m) n

-- `std::clamp(a, 0, hi)`.
abbrev pub clamp_0 : ℤ → ℕ → ℕ
clamp_0 (pos m) hi = if ltb hi m then hi else m
clamp_0 (negsuc _) hi = 0

-- `std::clamp(a, lo, hi)` for bounds that are not negative.
abbrev pub clamp : ℤ → ℕ → ℕ → ℕ
clamp (pos m) lo hi = if ltb m lo then lo else if ltb hi m then hi else m
clamp (negsuc _) lo hi = lo

pub clamp_0-le : (a : ℤ) (hi : ℕ) → clamp_0 a hi ≤ hi
clamp_0-le a hi = ground arith

infix 50 ◌≤ℤ◌
abbrev pub ◌≤ℤ◌ : ℤ → ℤ → Type 0
a ≤ℤ b = pos_part a + neg_part b ≤ pos_part b + neg_part a
