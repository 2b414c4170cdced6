-- ===== src/Child/Tests.antt =====
-- The theorems about an engine at a concrete voice.
use schwung_monomodule.Prelude.{
  ℕ, ◌+◌, ◌≡◌, refl, true, false, Option, none, some, [], ◌∷◌, arith, leb, All, inl,
}
use schwung_monomodule.Prelude.Int.{pos, negsuc}
use schwung_monomodule.Shm.{Op, Segment, cmd_slots, drain}
use schwung_monomodule.Plugin.Instance.{cmd, replay_cmds}
use schwung_monomodule.Plugin.Tests.{fresh, fresh-IsValid, connected}
use schwung_monomodule.Plugin.Instance.{Instance}
use schwung_monomodule.Plugin.Replay.{Queued}
use schwung_monomodule.Plugin.Entry.{create}
use schwung_monomodule.Plugin.Audio.{tick}
use schwung_monomodule.Plugin.Audio.Restart.{restarted_engine}
use schwung_monomodule.Shm.Tests.{zeroed}
use schwung_monomodule.Child.Engine.{
  VoiceOps, Engine, apply_cmd, apply_op, assign_machine, take_cmd, last_or,
}
use schwung_monomodule.Child.Engine.Notes.{
  Gated, IsSounding, IsHeld, apply_cmd-IsSounding, apply_cmd-IsHeld,
}
use schwung_monomodule.Child.Engine.Replayed.{take_all, set_all, take_replay}
use schwung_monomodule.Child.Block.{RenderOps, turn, silence}
use schwung_monomodule.Child.Block.Parking.{IsRested, turn-IsRested, turn-take_cmd}
use schwung_monomodule.Child.Block.Muting.{session, silent_change}

-- A voice that is the note that sounds; machines 12 and up are effects.
abbrev pub gate_ops : VoiceOps (Option ℕ)
gate_ops = record {
  note_on = λ _ n. some n;
  note_off = λ _. none;
  set_machine = λ v _. v;
  set_routing = λ v _. v;
  set_param = λ v _ _ _. v;
  set_lfo_param = λ v _ _ _. v;
  set_level = λ v _. v;
  set_bpm = λ v _. v;
  reset = λ _. none;
  is_fx_machine = leb 12;
  inp_ab_bits = 3;
}

gate_ops-Gated : Gated gate_ops (λ v. v)
gate_ops-Gated = record { on = λ _ _. refl; off = λ _. refl }

-- A full-scale square wave while a note sounds.
abbrev pub gate_render : RenderOps (Option ℕ)
gate_render = record {
  process = λ v. ((pos 8388607 ∷ negsuc 8388607 ∷ []), v);
  process_fx = λ v input. (input, v);
  skip = λ v. v;
  faulted = λ _. false;
}

abbrev pub idle_engine : Engine (Option ℕ)
idle_engine = record {
  voice = none;
  silent_blocks = 689;
  parked = true;
  muted_until_note = false;
  woken = false;
  machine = 9;
  held_notes = [];
}

-- Two notes are held.
abbrev held_engine : Engine (Option ℕ)
held_engine = record idle_engine {
  voice = some 64;
  silent_blocks = 0;
  parked = false;
  held_notes = 60 ∷ 64 ∷ [];
}

apply_cmd-IsSounding_example :
    IsSounding gate_ops
      (λ v. v)
      gate_ops-Gated
      (apply_cmd gate_ops held_engine (cmd Op.note_off 64 0 (pos 0)))
unfolding last_or
apply_cmd-IsSounding_example =
    apply_cmd-IsSounding gate_ops (λ v. v) gate_ops-Gated held_engine (cmd Op.note_off 64 0 (pos 0))
      tt refl (omega arith) refl

apply_cmd-IsHeld_example :
    IsHeld (apply_cmd gate_ops held_engine (cmd Op.note_on 60 0 (pos 0))).held_notes
apply_cmd-IsHeld_example =
    apply_cmd-IsHeld gate_ops held_engine (cmd Op.note_on 60 0 (pos 0))
      (record { bound = omega arith; fresh = (((λ e. omega (arith, e)), tt), (tt, tt)) })

take_replay_example :
    take_all gate_ops held_engine (replay_cmds fresh.params 1205000)
    ≡ record (assign_machine gate_ops held_engine fresh.params.machine) {
      voice = set_all gate_ops fresh.params 1205000 held_engine;
      woken = true;
    }
take_replay_example = take_replay gate_ops fresh.params 1205000 held_engine fresh-IsValid.table

silent_change_example :
    All
      (λ o. o ≡ silence)
      (session gate_ops gate_render false
        (apply_op gate_ops idle_engine Op.set_machine 8 0 (pos 0))
        (((cmd Op.set_level 0 0 (pos 90) ∷ []), []) ∷ ([], []) ∷ []))
silent_change_example =
    silent_change gate_ops gate_render false idle_engine 8
      (((cmd Op.set_level 0 0 (pos 90) ∷ []), []) ∷ ([], []) ∷ []) refl refl
      ((((λ e. cc), (λ e. cc)), tt), (tt, tt))

turn-IsRested_example : IsRested (turn gate_render false [] idle_engine).engine
turn-IsRested_example = turn-IsRested gate_render false [] idle_engine (record {
  counted = omega arith;
  running = λ e. cc;
  at_limit = λ _. refl;
  resting = λ _. inl refl;
})

turn-take_cmd_example :
    (turn gate_render false [] (take_cmd gate_ops idle_engine (cmd Op.note_on 60 0 (pos 0)))).ran
    ≡ true
turn-take_cmd_example =
    turn-take_cmd gate_render gate_ops false [] idle_engine (cmd Op.note_on 60 0 (pos 0))

-- A new engine process on the instance's segment, ready, with nothing queued yet.
abbrev restarted : Instance
restarted = record connected { seg_gen = 1 }

abbrev restarted-Queued : Queued restarted []
restarted-Queued = record { segment = zeroed; published = refl; valid = omega arith; holds = refl }

restarted_engine_example :
    (s : Segment) × ((tick none restarted).seg ≡ some s)
    × (drain (cmd_slots + 1) s.cmds (take_cmd gate_ops) s.cmd_read s.cmd_write idle_engine
        ≡ some
            (record (assign_machine gate_ops
              (take_all gate_ops idle_engine [])
              restarted.params.machine) {
                voice =
                    set_all gate_ops restarted.params restarted.last_bpm
                      (take_all gate_ops idle_engine []);
                woken = true;
              }))
unfolding create
restarted_engine_example =
    restarted_engine gate_ops idle_engine fresh-IsValid.table restarted-Queued
      (λ e. omega (arith, e)) refl (omega arith)
