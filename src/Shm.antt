-- ===== src/Shm.antt =====
-- src/common/mnm_shm.h: the segment that a module instance shares with its engine process, and the
-- command ring in it.
pub mod Ring
pub mod Spsc
pub mod Tests
use schwung_monomodule.Prelude.{
  ℕ, zero, suc, ◌+◌, ◌%◌, Bool, true, false, List, Option, none, some, leb, ◌==◌, if◌then◌else◌,
  u32, sub32, update,
}
use schwung_monomodule.Prelude.Int.{ℤ}

abbrev pub max_engines : ℕ
max_engines = 8

-- One Move block.
abbrev pub frames : ℕ
frames = 128

abbrev pub slots : ℕ
slots = 8

abbrev pub max_depth : ℕ
max_depth = 4

abbrev pub cmd_slots : ℕ
cmd_slots = 1024

-- `enum class Op`; `nop` is its `None`.
pub data Op : Type 0 where
  nop note_on note_off all_notes_off set_machine set_param set_lfo set_level set_bpm : Op
  set_routing reset : Op

-- `Cmd`. Its `op` is only ever the cast of an `Op`.
pub record Cmd : Type 0 where
  pub op : Op
  pub engine : ℕ  -- uint8_t
  pub a : ℕ  -- uint8_t
  pub b : ℕ  -- uint8_t
  pub c : ℤ  -- int32_t

pub data Phase : Type 0 where
  spawning loading prewarming ready failed : Phase

pub record EngineStats : Type 0 where
  pub last_us : ℕ
  pub max_us : ℕ
  pub blocks : ℕ
  pub faulted : ℕ
  pub parked : ℕ
  pub parked_blocks : ℕ

-- `Segment`. The arrays are tables by index: the audio slots by slot (and engine), the commands by
-- ring position, the statistics by engine. The counters are uint32_t.
pub record Segment : Type 0 where
  pub engines : ℕ
  pub has_input : Bool
  pub depth : ℕ
  pub host_block : ℕ
  pub produced : ℕ
  pub underruns : ℕ
  pub skips : ℕ
  pub heartbeat : ℕ
  pub shutdown : Bool
  pub phase : Phase
  pub child_pid : ℕ
  pub error : List ℕ
  pub cmd_write : ℕ
  pub cmd_read : ℕ
  pub cmds : ℕ → Cmd
  pub stats : ℕ → EngineStats
  pub out : ℕ → ℕ → List ℤ
  pub input : ℕ → List ℤ

-- `pushCmd`: the answer is false, and the command dropped, when the ring is full.
unfoldable pub push_cmd : Segment → Cmd → Bool × Segment
push_cmd s cmd = if leb cmd_slots (sub32 s.cmd_write s.cmd_read) then (false, s) else (
  true,
  record s {
    cmds = update s.cmds (s.cmd_write % cmd_slots) cmd;
    cmd_write = u32 (s.cmd_write + 1);
  },
)

-- The loop of the child that takes the commands: `for (; r != w; ++r) body(cmds[r & 1023])`, with
-- fuel; `none` means that the fuel ran out.
unfoldable pub drain {ℓ} : {S : Type ℓ} → ℕ → (ℕ → Cmd) → (S → Cmd → S) → ℕ → ℕ → S → Option S
drain zero cmds body r w s = none
drain (suc fuel) cmds body r w s = elim (r == w) [
  | true ↦ some s
  | false ↦ drain fuel cmds body (u32 (r + 1)) w (body s (cmds (r % cmd_slots)))
]
