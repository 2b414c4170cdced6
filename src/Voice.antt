-- ===== src/Voice.antt =====
-- A voice, src/engine/MonoVoice.cpp: blocks of 16 frames from the DSP engine, handed out frame by frame.
pub mod Blocks
mod Prewarm
mod Tests
use schwung_monomodule.Prelude.{
  ℕ, zero, suc, ◌+◌, ◌*◌, ◌-◌, ◌/◌, Bool, true, false, Option, none, some, List, [], ◌∷◌, ◌++◌,
  length, get_or, replicate, ltb, ◌==◌, if◌then◌else◌,
}
use schwung_monomodule.Prelude.Int.{ℤ, pos, negsuc}

-- `DspEngine::kBlockFrames`
abbrev pub block_frames : ℕ
block_frames = 16

-- What a voice is made of: upstream's HostModel (`fresh`, `next_block`: the words of a block) and the DSP
-- engine (`render` answers `none` where it fails).
pub record Parts (H E : Type 0) : Type 0 where
  pub fresh : H
  pub next_block : H → List ℕ × H
  pub settle : H → H
  pub render : E → List ℕ → Option (List ℤ) × E
  pub set_input_frames : E → List ℤ → E
  pub clear : E → E

abbrev pub Frame : Type 0
Frame = ℤ × ℤ

-- `MonoVoice`. `input` is `m_in` below `m_inPos`, both samples of each frame.
pub record Voice (H E : Type 0) : Type 0 where
  pub host : H
  pub engine : E
  pub fifo : List ℤ
  pub input : List Frame
  pub position : ℕ
  pub avail : ℕ

-- Frame `i` of the FIFO, which has 16: the voice asks for no other, and the engine answers 32 samples.
abbrev pub frame_at : List ℤ → ℕ → Frame
frame_at fifo i = (get_or fifo (2 * i) (pos 0), get_or fifo (2 * i + 1) (pos 0))

abbrev pub empty_fifo : List ℤ
empty_fifo = replicate 32 (pos 0)

abbrev pub nothing : Frame
nothing = (pos 0, pos 0)

-- `toDsp` of a sample over 2^23: into the 24 bits.
abbrev pub to_dsp : ℤ → ℤ
to_dsp (pos m) = if ltb 8388607 m then pos 8388607 else pos m
to_dsp (negsuc m) = if ltb 8388607 m then negsuc 8388607 else negsuc m

unfoldable pub samples : List Frame → List ℤ
samples [] = []
samples ((l, r) ∷ fs) = l ∷ (r ∷ samples fs)

module _ {H E : Type 0} (parts : Parts H E) where
  unfoldable pub render_block : Voice H E → Voice H E
  render_block v =
      let (words, h) = parts.next_block v.host in
      let (out, e) = parts.render v.engine words in
      record v {
        host = h;
        engine = e;
        fifo = elim out [ none ↦ empty_fifo | some xs ↦ xs ];
        position = 0;
        avail = block_frames;
      }

  -- Hands out a frame of the FIFO.
  abbrev pub take_frame : Voice H E → Frame × Voice H E
  take_frame v =
      (frame_at v.fifo v.position, record v { position = v.position + 1; avail = v.avail - 1 })

  unfoldable pub process_frame : Voice H E → Frame × Voice H E
  process_frame v = take_frame (if v.avail == 0 then render_block v else v)

  -- `process` of `n` frames.
  unfoldable pub process : ℕ → Voice H E → List Frame × Voice H E
  unfolding process_frame
  process zero v = ([], v)
  process (suc n) v = let (f, w) = process_frame v in let (fs, x) = process n w in (f ∷ fs, x)

  -- An input frame goes in; a whole block of them is rendered.
  unfoldable pub feed : Voice H E → Frame → Voice H E
  feed v (l, r) =
      let input = v.input ++ ((to_dsp l, to_dsp r) ∷ []) in
      if length input == block_frames
      then render_block
          (record v { engine = parts.set_input_frames v.engine (samples input); input = [] })
      else record v { input = input }

  unfoldable pub process_fx_frame : Voice H E → Frame → Frame × Voice H E
  process_fx_frame v f = let w = feed v f in if w.avail == 0 then (nothing, w) else take_frame w

  -- `processFx`
  unfoldable pub process_fx : Voice H E → List Frame → List Frame × Voice H E
  process_fx v [] = ([], v)
  process_fx v (f ∷ fs) =
      let (g, w) = process_fx_frame v f in let (gs, x) = process_fx w fs in (g ∷ gs, x)

  -- `reset`: a fresh voice.
  unfoldable pub reset : Voice H E → Voice H E
  reset v = record {
    host = parts.fresh;
    engine = parts.clear v.engine;
    fifo = empty_fifo;
    input = [];
    position = 0;
    avail = 0;
  }

  unfoldable pub skip_blocks : ℕ → H → H
  skip_blocks zero h = h
  skip_blocks (suc n) h = skip_blocks n (parts.next_block h).1

  -- `skip` of `frames` frames: the FIFO keeps its position.
  unfoldable pub skip : ℕ → Voice H E → Voice H E
  skip frames v = record v { host = skip_blocks (frames / block_frames) v.host; fifo = empty_fifo }

  unfoldable pub render_blocks : ℕ → Voice H E → Voice H E
  render_blocks zero v = v
  render_blocks (suc n) v = render_blocks n (render_block v)

  -- `warmUp`
  unfoldable pub warm_up : ℕ → Voice H E → Voice H E
  warm_up n v = record (render_blocks n (record v { host = parts.settle v.host })) {
    avail = 0;
    position = 0;
  }
