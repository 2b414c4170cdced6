-- ===== src/Plugin/Audio.antt =====
-- The audio callback of src/plugin/mnm_plugin.cpp: tick, notePeak, renderBlock, processBlock; and the
-- part of its supervisor that starts a new engine on the segment, resetSegment.
pub mod Restart
pub mod Ticked
pub mod Heard
mod Tests
use schwung_monomodule.Prelude.{
  ℕ, suc, ◌+◌, ◌*◌, ◌-◌, ◌%◌, Bool, true, false, not, ◌&&◌, ◌||◌, Option, none, some, List, [],
  foldl, map, replicate, leb, ltb, ◌==◌, if◌then◌else◌, u32, update, max,
}
use schwung_monomodule.Prelude.Int.{ℤ, pos, negsuc}
use schwung_monomodule.Shm.{Segment, Phase, Op, frames, slots}
use schwung_monomodule.Clock.{play_block, advance}
use schwung_monomodule.Clock.Samples.{widen}
use schwung_monomodule.Plugin.Instance.{Instance, cmd, push, replay, centi_bpm}

abbrev pub is_ready : Phase → Bool
is_ready Phase.ready = true
is_ready _ = false

-- A new engine gets the table once: `replayedGen` is the last generation it was sent to.
unfoldable pub replay_once : Instance → Segment → Instance
replay_once in' s =
    if not (in'.seg_gen == in'.replayed_gen) && is_ready s.phase
    then replay (record in' { replayed_gen = in'.seg_gen })
    else in'

-- `std::fabs(bpm - lastBpm) > 0.01f`, in ten-thousandths.
abbrev pub differs : ℕ → ℕ → Bool
differs a b = ltb 100 (a - b) || ltb 100 (b - a)

-- `bpm` is what the host's `get_bpm` would answer; `none` where the host has none.
unfoldable pub follow_tempo : Option ℕ → Instance → Instance
follow_tempo none in' = in'
follow_tempo (some bpm) in' =
    let t = u32 (in'.bpm_tick + 1) in
    let ticked = record in' { bpm_tick = t } in
    if t % 64 == 0 && (ltb 0 bpm && differs bpm in'.last_bpm)
    then push (record ticked { last_bpm = bpm }) (cmd Op.set_bpm 0 0 (pos (centi_bpm bpm)))
    else ticked

-- The segment, where the engine on it is live.
unfoldable pub live : Instance → Option Segment
live in' = elim in'.seg [ none ↦ none | some s ↦ (if is_ready s.phase then some s else none) ]

-- `tick`: its answer is `live` of the result.
unfoldable pub tick : Option ℕ → Instance → Instance
tick bpm in' = elim in'.seg [ none ↦ in' | some s ↦ follow_tempo bpm (replay_once in' s) ]

abbrev pub magnitude : ℤ → ℕ
magnitude (pos m) = m
magnitude (negsuc m) = suc m

unfoldable pub note_peak : Instance → List ℤ → Instance
note_peak in' out = record in' { peak = foldl (λ m x. max m (magnitude x)) in'.peak out }

-- The end of both callbacks: the peak, the segment and its clock.
unfoldable pub finish : Instance → ℕ → List ℤ × Segment → List ℤ × Instance
finish in' hb (out, s) = (out, record (note_peak in' out) { seg = some (advance s hb) })

-- `renderBlock` of the generator.
unfoldable pub render_block : Option ℕ → Instance → ℕ → List ℤ × Instance
render_block bpm in' count =
    let t = tick bpm in' in
    elim (live t) [
      | none ↦ (replicate (count * 2) (pos 0), t)
      | some s ↦
          if count == frames
          then finish t s.host_block (play_block s s.host_block count)
          else (replicate (count * 2) (pos 0), t)
    ]

-- The input of block `hb`.
abbrev pub store_input : Segment → ℕ → List ℤ → Segment
store_input s hb io = record s { input = update s.input (hb % slots) (map widen io) }

-- What the effect plays `depth` blocks late.
unfoldable pub play_late : Segment → ℕ → ℕ → List ℤ × Segment
play_late s hb count =
    if leb s.depth hb then play_block s (hb - s.depth) count else (replicate (count * 2) (pos 0), s)

-- `processBlock` of the effect: `io` comes in, and goes out untouched while no engine is live.
unfoldable pub process_block : Option ℕ → Instance → List ℤ → ℕ → List ℤ × Instance
process_block bpm in' io count =
    let t = tick bpm in' in
    elim (live t) [
      | none ↦ (io, t)
      | some s ↦
          if count == frames
          then finish t s.host_block (play_late (store_input s s.host_block io) s.host_block count)
          else (io, t)
    ]

-- `resetSegment`, before an engine is started.
unfoldable pub reset_segment : Segment → Bool → ℕ → Segment
reset_segment s fx depth = record s {
  produced = s.host_block;
  phase = Phase.spawning;
  child_pid = 0;
  shutdown = false;
  error = [];
  engines = 1;
  has_input = fx;
  depth = depth;
  cmd_read = s.cmd_write;
}
