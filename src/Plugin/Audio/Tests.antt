-- ===== src/Plugin/Audio/Tests.antt =====
-- A block of an idle engine with a note queued, from the engine process to the host.
use schwung_monomodule.Prelude.{ℕ, ◌≡◌, refl, Option, none, some, [], ◌∷◌, map, take, arith}
use schwung_monomodule.Prelude.Int.{pos}
use schwung_monomodule.Shm.{Segment, Phase, push_cmd, drain}
use schwung_monomodule.Clock.{to_s16, plan}
use schwung_monomodule.Plugin.Instance.{Instance}
use schwung_monomodule.Plugin.Audio.{render_block, process_block}
use schwung_monomodule.Plugin.Audio.Heard.{new_block, heard_block, heard_effect}
use schwung_monomodule.Plugin.Tests.{connected}
use schwung_monomodule.Child.Tests.{gate_ops, gate_render, idle_engine}
use schwung_monomodule.Child.Block.{turn, wake, run}
use schwung_monomodule.Child.Engine.{take_cmd, apply_cmd, apply_op, press}
use schwung_monomodule.Child.Loop.{Child, rendered, iterate, begin, resume, render_round, turns}
use schwung_monomodule.Child.Loop.Tests.{started, started-IsValid}

block_0 :
    (c : Child (Option ℕ)) × (iterate gate_ops gate_render (λ k. 100) started ≡ some (rendered c))
unfolding iterate begin resume render_round turns turn drain plan push_cmd wake run take_cmd
    apply_cmd apply_op press
block_0 = (_, refl)

-- The host's clock is at a block.
abbrev at_block : ℕ → Segment
at_block hb = record block_0.0.seg { phase = Phase.ready; host_block = hb; depth = 2 }

abbrev playing : ℕ → Instance
playing hb = record connected { seg = some (at_block hb) }

started-next :
    0 ≡ (plan started.seg.has_input started.seg.host_block started.seg.depth started.next).next
unfolding plan push_cmd
started-next = refl

heard_block_example :
    (render_block none (playing 0) 128).0
    ≡ map to_s16 (take 256 (new_block gate_ops gate_render started idle_engine))
heard_block_example =
    heard_block gate_ops gate_render (λ k. 100) started block_0.0 idle_engine none (playing 0)
      (at_block 0) started-IsValid block_0.1 refl refl refl refl refl started-next (omega arith)

heard_effect_example :
    (process_block none (playing 2) (pos 5 ∷ []) 128).0
    ≡ map to_s16 (take 256 (new_block gate_ops gate_render started idle_engine))
heard_effect_example =
    heard_effect gate_ops gate_render (λ k. 100) started block_0.0 idle_engine none (playing 2)
      (at_block 2) (pos 5 ∷ []) started-IsValid block_0.1 refl refl refl refl refl
      (omega (arith, started-next)) (omega arith)
