-- ===== src/Clock.antt =====
-- The block clock: how the callback (src/plugin/mnm_plugin.cpp: toS16, playBlock, advance) and the
-- child (src/child/mnm_engine.cpp: the head of its loop) share the audio slots.
pub mod Samples
pub mod Race
mod Tests
use schwung_monomodule.Prelude.{
  ℕ, zero, suc, ◌+◌, ◌-◌, ◌*◌, ◌/◌, ◌%◌, Bool, true, false, ◌||◌, List, map, leb, ltb, ◌==◌,
  if◌then◌else◌, u32, sub32, is_negative, take, replicate,
}
use schwung_monomodule.Prelude.Int.{ℤ, pos, negsuc, add_ℕ, ltb_ℤ}
use schwung_monomodule.Shm.{Segment, slots, max_depth}

-- `v >> 8` of an int32_t: it rounds down.
abbrev pub shr_8 : ℤ → ℤ
shr_8 (pos m) = pos (m / 256)
shr_8 (negsuc m) = negsuc (m / 256)

-- `std::clamp(v, -32768, 32767)`
abbrev pub clamp_s16 : ℤ → ℤ
clamp_s16 (pos m) = if ltb 32767 m then pos 32767 else pos m
clamp_s16 (negsuc m) = if ltb 32767 m then negsuc 32767 else negsuc m

-- A 24-bit sample as int16_t, rounded.
unfoldable pub to_s16 : ℤ → ℤ
to_s16 v = clamp_s16 (shr_8 (add_ℕ v 128))

-- `int32_t(p) <= 0` of a word.
abbrev pub is_nonpositive : ℕ → Bool
is_nonpositive w = w == 0 || is_negative w

-- The test of `playBlock`: block `b` has been produced, and its slot is not older than the ring.
unfoldable pub is_playable : ℕ → ℕ → Bool
is_playable produced b =
    if is_nonpositive (sub32 produced b) then false else leb (sub32 produced b) slots

-- Plays block `b` if the child has produced it, else silence. The frames are stereo.
unfoldable pub play_block : Segment → ℕ → ℕ → List ℤ × Segment
unfolding to_s16 is_playable
play_block s b count =
    if is_playable s.produced b
    then (map to_s16 (take (count * 2) (s.out (b % slots) 0)), s)
    else (replicate (count * 2) (pos 0), record s { underruns = u32 (s.underruns + 1) })

unfoldable pub advance : Segment → ℕ → Segment
advance s hb = record s { host_block = u32 (hb + 1) }

-- What the child's loop does before it takes commands: it may skip forward, and then renders one
-- block or waits.
pub record Plan : Type 0 where
  pub behind : Bool
  pub skipped : ℕ
  pub next : ℕ
  pub renders : Bool

-- `std::clamp(depth, 1, kMaxDepth)`
abbrev pub clamp_depth : ℕ → ℕ
clamp_depth d = if ltb d 1 then 1 else if ltb max_depth d then max_depth else d

-- Blocks before `limit` may be rendered; `oldest` is the next block that the callback plays.
abbrev pub limit : Bool → ℕ → ℕ → ℕ
limit fx hb d = if fx then hb else u32 (hb + d)

abbrev pub oldest : Bool → ℕ → ℕ → ℕ
oldest fx hb d = if fx then (if ltb d hb then hb - d else 0) else hb

unfoldable pub plan : Bool → ℕ → ℕ → ℕ → Plan
plan fx hb depth next =
    let d = clamp_depth depth in
    let first = oldest fx hb d in
    let late = is_negative (sub32 next first) in
    let n = if late then first else next in
    record {
      behind = late;
      skipped = if late then sub32 first next else 0;
      next = n;
      renders = is_negative (sub32 n (limit fx hb d));
    }
