-- ===== src/Dsp.antt =====
-- The host of the DSP, src/engine/dsp/DspEngine.cpp: the run to a word of the host port, and a block. The
-- chip is the emulator of ext/dsp56300.
pub mod Returns
pub mod Blocks
pub mod Loading
pub mod Resets
mod Tests
use schwung_monomodule.Prelude.{
  ℕ, zero, suc, ◌+◌, ◌-◌, ◌*◌, ◌%◌, ◌^◌, Bool, true, false, ◌&&◌, Option, none, some, List, [], ◌∷◌,
  length, get_or, replicate, ltb, ◌==◌, if◌then◌else◌, u32, is_negative,
}
use schwung_monomodule.Prelude.Int.{ℤ, pos, negsuc}
use schwung_monomodule.Text.{Bytes}
use schwung_monomodule.Clock.{shr_8}

-- `EMemArea`
pub data Area : Type 0 where
  area_x area_y area_p : Area

-- What the engine calls of the emulator, and what it reads of upstream's headers. `exec` runs the
-- compiled code, `exec_interpreter` an instruction; `tx` lists the words to the host that it has not
-- read yet.
pub record ChipOps (C : Type 0) : Type 0 where
  pub exec : C → C
  pub exec_interpreter : C → C
  pub has_failed : C → Bool
  pub fail_reason : C → Bytes
  pub instructions : C → ℕ
  pub pc : C → ℕ
  pub set_pc : C → ℕ → C
  pub mem_write_p : C → ℕ → ℕ → C
  pub mem_write : C → Area → ℕ → ℕ → C
  pub mem_set : C → Area → ℕ → ℕ → C
  pub mem_get : C → Area → ℕ → ℕ
  pub write_rx : C → ℕ → C
  pub clear_rx : C → C
  pub tx : C → List ℕ
  pub read_tx : C → ℕ × C
  pub reset_hw : C → C
  pub write_periph : C → ℕ → ℕ → C
  pub assemble : Bytes → Option (ℕ × Option ℕ)
  pub bank_base : ℕ
  pub bank_slots : ℕ
  pub bank_slot_words : ℕ

-- `fw::Record` and `fw::DspImage`, the parts that the engine reads.
pub record Chunk : Type 0 where
  pub space : Area
  pub addr : ℕ
  pub words : List ℕ

-- Why an engine has faulted: the parts of the message.
pub data Fault : Type 0 where
  compiler_failed : Bytes → Fault
  over_budget : ℕ → ℕ → ℕ → Fault
  bad_done_word : Fault

-- `RenderStats`
pub record RenderStats : Type 0 where
  pub instructions : ℕ
  pub total_instructions : ℕ
  pub blocks : ℕ

-- `DspEngine`. `fault` is `m_faulted` with `m_fault`.
pub record DspEngine (C : Type 0) : Type 0 where
  pub chip : C
  pub kernel_a : List Chunk
  pub payload : List Chunk
  pub bank : Option (List (List ℤ))
  pub use_jit : Bool
  pub idle_loops_skipped : ℕ
  pub fault : Option Fault
  pub stats : RenderStats

-- What a call comes to: an answer, or an exception. `unfinished` marks that the fuel of the model ran
-- out.
pub data Outcome (A : Type 0) : Type 0 where
  returned : A → Outcome A
  thrown : Bytes → Outcome A
  unfinished : Outcome A

infixl 5 ◌>>=◌
abbrev pub ◌>>=◌ : {A B : Type 0} → Outcome A → (A → Outcome B) → Outcome B
returned a >>= f = f a
thrown e >>= f = thrown e
unfinished >>= f = unfinished

abbrev pub block_words : ℕ
block_words = 52

abbrev pub block_addr : ℕ
block_addr = 0x500

abbrev pub done_sentinel : ℕ
done_sentinel = 0xD0E0

abbrev pub max_instr_block : ℕ
max_instr_block = 4_000_000

-- `w & 0xFFFFFF`
abbrev pub bits_24 : ℕ → ℕ
bits_24 w = w % 2 ^ 24

-- A uint32_t as int32_t.
abbrev pub int32 : ℕ → ℤ
int32 w = if is_negative w then negsuc (2 ^ 32 - 1 - w) else pos w

-- `int32_t(t << 8) >> 8` of the low 24 bits of a word.
unfoldable pub sample : ℕ → ℤ
sample w = shr_8 (int32 (u32 (bits_24 w * 256)))

-- `out` filled with zeros.
abbrev pub silent_out : List ℤ
silent_out = replicate 32 (pos 0)

pub record Block (C : Type 0) : Type 0 where
  pub ok : Bool
  pub out : List ℤ
  pub engine : DspEngine C

module _ {C : Type 0} (ops : ChipOps C) where
  -- One call of the emulator.
  unfoldable pub step : Bool → C → C
  step use_jit c = if use_jit then ops.exec c else ops.exec_interpreter c

  -- The tests that end the run after such a call.
  unfoldable pub trouble : Bool → ℕ → ℕ → ℕ → C → Option Fault
  trouble use_jit start words max_instr c =
      if use_jit && ops.has_failed c
      then some (compiler_failed (ops.fail_reason c))
      else if ltb max_instr (ops.instructions c - start)
      then some (over_budget (ops.pc c) (length (ops.tx c)) words)
      else none

  -- The loop of `runUntilTx`, with fuel.
  unfoldable pub run_loop : ℕ → Bool → ℕ → ℕ → ℕ → C → Outcome (Option Fault × C)
  run_loop zero use_jit start words max_instr c = unfinished
  run_loop (suc fuel) use_jit start words max_instr c = elim (ltb (length (ops.tx c)) words) [
    | false ↦ returned (none, c)
    | true ↦ elim (trouble use_jit start words max_instr (step use_jit c)) [
      | some f ↦ returned (some f, step use_jit c)
      | none ↦ run_loop fuel use_jit start words max_instr (step use_jit c)
    ]
  ]

  unfoldable pub finish : DspEngine C → Option Fault × C → Bool × DspEngine C
  finish d (some f, c) = (false, record d { chip = c; fault = some f })
  finish d (none, c) =
      let n = ops.instructions c - ops.instructions d.chip in
      (
        true,
        record d {
          chip = c;
          stats = record d.stats {
            instructions = n;
            total_instructions = (d.stats.total_instructions + n) % 2 ^ 64;
          };
        },
      )

  -- `runUntilTx`: each call of the emulator takes an instruction at least.
  unfoldable pub run_until_tx : DspEngine C → ℕ → ℕ → Outcome (Bool × DspEngine C)
  unfolding run_loop finish
  run_until_tx d words max_instr = do
    r ← run_loop (max_instr + 1) d.use_jit (ops.instructions d.chip) words max_instr d.chip
    returned (finish d r)

  -- `n` words of a block from word `k` on, into Y.
  unfoldable pub set_block : ℕ → ℕ → List ℕ → C → C
  set_block zero k words c = c
  set_block (suc n) k words c =
      set_block n (suc k) words (ops.mem_set c area_y (block_addr + k) (bits_24 (get_or words k 0)))

  -- `sendBlock`: the words 1 to 51, then word 0.
  unfoldable pub send_block : C → List ℕ → C
  unfolding set_block
  send_block c words =
      ops.write_rx (set_block (block_words - 1) 1 words c) (bits_24 (get_or words 0 0))

  -- `n` samples from word `k` on.
  unfoldable pub read_out : ℕ → ℕ → C → List ℤ
  unfolding sample
  read_out zero k c = []
  read_out (suc n) k c = sample (ops.mem_get c area_y k) ∷ read_out n (suc k) c

  -- After the run: the done word, and the samples.
  unfoldable pub collect : Bool → DspEngine C → Block C
  unfolding read_out
  collect false d = record { ok = false; out = silent_out; engine = d }
  collect true d =
      let (w, c) = ops.read_tx d.chip in
      if w == done_sentinel
      then record {
        ok = true;
        out = read_out 32 0 c;
        engine = record d {
          chip = c;
          stats = record d.stats { blocks = u32 (d.stats.blocks + 1) };
        };
      }
      else record {
        ok = false;
        out = silent_out;
        engine = record d { chip = c; fault = some bad_done_word };
      }

  -- `renderBlock`
  unfoldable pub render_block : DspEngine C → List ℕ → Outcome (Block C)
  unfolding run_until_tx collect send_block
  render_block d words = elim d.fault [
    | some _ ↦ returned (record { ok = false; out = silent_out; engine = d })
    | none ↦ do
      (ok, e) ← run_until_tx (record d { chip = send_block d.chip words }) 1 max_instr_block
      returned (collect ok e)
  ]

  -- Blocks one after another.
  unfoldable pub render_all : DspEngine C → List (List ℕ) → Outcome (List (Bool × List ℤ))
  unfolding render_block
  render_all d [] = returned []
  render_all d (words ∷ rest) = do
    b ← render_block d words
    outs ← render_all b.engine rest
    returned ((b.ok, b.out) ∷ outs)
