-- ===== src/Child/Block.antt =====
-- An engine's turn in src/child/mnm_engine.cpp: the part of the loop of `main` that wakes, parks, mutes
-- and renders, and the iteration that it belongs to.
pub mod Parking
pub mod Muting
use schwung_monomodule.Prelude.{
  ℕ, zero, suc, ◌+◌, ◌*◌, ◌/◌, ◌%◌, Bool, true, false, not, ◌&&◌, ◌||◌, List, [], ◌∷◌, length, map,
  foldl, leb, ltb, ◌==◌, if◌then◌else◌, Option, none, some, replicate, u32, update,
}
use schwung_monomodule.Prelude.Int.{ℤ, pos, negsuc}
use schwung_monomodule.Shm.{Op, Cmd, Segment, EngineStats, frames, slots, cmd_slots, drain}
use schwung_monomodule.Clock.{plan}
use schwung_monomodule.Clock.Samples.{is_silent}
use schwung_monomodule.Child.Engine.{Engine, VoiceOps, take_cmd}

-- `kParkAfterBlocks`: 689 blocks of 128 frames, two seconds.
abbrev pub park_after_blocks : ℕ
park_after_blocks = 44100 * 2 / frames

-- What the loop calls of a voice to render. The samples are those of the slots, 24-bit integers: the
-- floats between the voice and the slot are these over 2^23, which a float holds exactly.
pub record RenderOps (V : Type 0) : Type 0 where
  pub process : V → List ℤ × V
  pub process_fx : V → List ℤ → List ℤ × V
  pub skip : V → V
  pub faulted : V → Bool

-- Whether a loop over the samples of a block finds none that fails the test.
unfoldable pub all_samples : (ℤ → Bool) → List ℤ → Bool
all_samples test [] = true
all_samples test (x ∷ xs) = let rest = all_samples test xs in if test x then rest else false

abbrev pub is_zero : ℤ → Bool
is_zero (pos m) = m == 0
is_zero (negsuc _) = false

abbrev pub silence : List ℤ
silence = replicate (frames * 2) (pos 0)

-- What an engine leaves in its slot, and what it adds to its statistics.
pub record Rendered (V : Type 0) : Type 0 where
  pub engine : Engine V
  pub out : List ℤ
  pub ran : Bool

module _ {V : Type 0} (render : RenderOps V) where
  -- `if (e.parked && (e.woken || !inputSilent)) ...; e.woken = false;`
  unfoldable pub wake : Bool → Engine V → Engine V
  wake input_silent e =
      if e.parked && (e.woken || not input_silent)
      then record e { parked = false; silent_blocks = 0; woken = false }
      else record e { woken = false }

  -- The count of silent blocks after a block, and parking.
  unfoldable pub settle : Bool → Bool → Engine V → Engine V
  settle input_silent output_silent e =
      if output_silent && (input_silent && length e.held_notes == 0)
      then record e {
        silent_blocks = suc e.silent_blocks;
        parked = if leb park_after_blocks (suc e.silent_blocks) then true else e.parked;
      }
      else record e { silent_blocks = 0 }

  -- Renders a block of an engine that is not parked.
  unfoldable pub run : Bool → List ℤ → Bool → Engine V → Rendered V
  run fx input input_silent e =
      let (raw, v) = if fx then render.process_fx e.voice input else render.process e.voice in
      let out = if e.muted_until_note then silence else raw in
      record {
        engine = settle input_silent (all_samples is_silent out) (record e { voice = v });
        out = out;
        ran = true;
      }

  -- The body of `for (int k = 0; k < n; ++k)`, up to the times that it measures.
  unfoldable pub turn : Bool → List ℤ → Engine V → Rendered V
  turn fx input e =
      let input_silent = if fx then all_samples is_zero input else true in
      let awake = wake input_silent e in
      if awake.parked
      then record {
        engine = record awake { voice = render.skip awake.voice };
        out = silence;
        ran = false;
      }
      else run fx input input_silent awake
