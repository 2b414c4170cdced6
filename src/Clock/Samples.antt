-- ===== src/Clock/Samples.antt =====
-- Samples between the engine's 24 bits and the host's 16 (toS16 of src/plugin/mnm_plugin.cpp, the
-- silence test of src/child/mnm_engine.cpp).
use schwung_monomodule.Prelude.{ℕ, ◌+◌, ◌*◌, ◌-◌, ◌%◌, ◌^◌, ◌≡◌, Bool, true, ◌↔◌, arith, leb}
use schwung_monomodule.Prelude.Int.{ℤ, pos, negsuc, ◌≤ℤ◌}
use schwung_monomodule.Clock.{to_s16}

-- The two's complement pattern of an int32_t, as uint32_t.
abbrev pub pattern_of : ℤ → ℕ
pattern_of (pos m) = m % 2 ^ 32
pattern_of (negsuc m) = 2 ^ 32 - 1 - m % 2 ^ 32

-- The child's test: `uint32_t(v + 128) > 255u` fails.
unfoldable pub is_silent : ℤ → Bool
is_silent v = leb ((pattern_of v + 128) % 2 ^ 32) 255

-- `int32_t(x) << 8`, as `processBlock` widens a sample of the host.
unfoldable pub widen : ℤ → ℤ
widen (pos m) = pos (m * 256)
widen (negsuc m) = negsuc (m * 256 + 255)

-- `to_s16` stays in the range of int16_t.
pub to_s16_bounds : (v : ℤ) → (negsuc 32767 ≤ℤ to_s16 v) × (to_s16 v ≤ℤ pos 32767)
unfolding to_s16
to_s16_bounds (pos m) = ground arith
to_s16_bounds (negsuc m) = ground arith

-- The child counts a sample from -2 ^ 31 to 2 ^ 31 - 129 as silent exactly when the host gets 0
-- for it.
pub is_silent_iff :
    (v : ℤ)
    → negsuc (2 ^ 31 - 1) ≤ℤ v
    → v ≤ℤ pos (2 ^ 31 - 129)
    → (is_silent v ≡ true) ↔ (to_s16 v ≡ pos 0)
unfolding to_s16 is_silent
is_silent_iff (pos m) lo hi = ground arith
is_silent_iff (negsuc m) lo hi = ground arith

-- A sample of the host, of 16 bits, that goes in and comes out unchanged is the same sample.
pub to_s16-widen : (x : ℤ) → negsuc 32767 ≤ℤ x → x ≤ℤ pos 32767 → to_s16 (widen x) ≡ x
unfolding to_s16 widen
to_s16-widen (pos m) lo hi = ground arith
to_s16-widen (negsuc m) lo hi = ground arith
