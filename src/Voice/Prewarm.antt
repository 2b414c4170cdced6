-- ===== src/Voice/Prewarm.antt =====
-- MonoVoice::prewarm of src/engine/MonoVoice.cpp: every machine is rendered once, so that the compiler of
-- the DSP engine has met its code, and the voice starts anew.
use schwung_monomodule.Prelude.{
  ℕ, zero, suc, ◌+◌, ◌*◌, ◌%◌, ◌^◌, ◌≡◌, refl, Bool, List, [], ◌∷◌, replicate, if◌then◌else◌,
}
use schwung_monomodule.Prelude.Int.{pos}
use schwung_monomodule.Voice.{Parts, Voice, empty_fifo, render_block, render_blocks}

-- What prewarm calls beside the parts of a voice: upstream's HostModel, and the reset that keeps the
-- compiled code.
pub record PrewarmOps (H E : Type 0) : Type 0 where
  pub set_machine : H → ℕ → H
  pub set_routing : H → ℕ → H
  pub note_on : H → ℕ → H
  pub note_off : H → H
  pub is_fx_machine : ℕ → Bool
  pub inp_ab_bits : ℕ
  pub reset_keep_code : E → E

module _ {H E : Type 0} (parts : Parts H E) (ops : PrewarmOps H E) where
  -- Block `k` of a machine. An effect hears a constant level.
  unfoldable pub warm_block : Bool → ℕ → Voice H E → Voice H E
  warm_block fx k v =
      if fx
      then render_block parts (record v {
        engine = parts.set_input_frames v.engine (replicate 32 (pos ((k * 7919 + 13) % 2 ^ 18)));
      })
      else render_block parts v

  -- `n` blocks from block `k` on.
  unfoldable pub warm_blocks : Bool → ℕ → ℕ → Voice H E → Voice H E
  unfolding warm_block
  warm_blocks fx zero k v = v
  warm_blocks fx (suc n) k v = warm_blocks fx n (suc k) (warm_block fx k v)

  -- 24 blocks with a note, and eight after it.
  unfoldable pub warm_machine : ℕ → Voice H E → Voice H E
  unfolding warm_blocks
  warm_machine m v =
      let fx = ops.is_fx_machine m in
      let routed = ops.set_routing (ops.set_machine v.host m) (if fx then ops.inp_ab_bits else 0) in
      let played =
        warm_blocks fx 24 0 (record v { host = ops.note_on routed (if fx then 60 else 48) }) in
      render_blocks parts 8 (record played { host = ops.note_off played.host })

  unfoldable pub warm_machines : List ℕ → Voice H E → Voice H E
  unfolding warm_machine
  warm_machines [] v = v
  warm_machines (m ∷ ms) v = warm_machines ms (warm_machine m v)

  -- `prewarm` over upstream's machines.
  unfoldable pub prewarm : List ℕ → Voice H E → Voice H E
  unfolding warm_machines
  prewarm ms v = record {
    host = parts.fresh;
    engine = ops.reset_keep_code (warm_machines ms v).engine;
    fifo = empty_fifo;
    input = [];
    position = 0;
    avail = 0;
  }

  -- Two voices whose engines are the same after the reset are the same after prewarming, whatever they
  -- had been playing.
  prewarm-forgets :
      (ms : List ℕ) (v w : Voice H E)
      → ops.reset_keep_code (warm_machines ms v).engine
        ≡ ops.reset_keep_code (warm_machines ms w).engine
      → prewarm ms v ≡ prewarm ms w
  unfolding prewarm
  prewarm-forgets ms v w h = rw h refl
