-- ===== src/Child/Block/Muting.antt =====
-- A machine change with no note held is not heard: src/child/mnm_engine.cpp (mutedUntilNote).
use schwung_monomodule.Prelude.{
  ℕ, ◌≡◌, ◌≢◌, refl, Bool, true, false, ◌&&◌, List, [], ◌∷◌, arith, length, ltb, Bool-cases, inl,
  inr, All,
}
use schwung_monomodule.Prelude.Int.{ℤ, pos}
use schwung_monomodule.Shm.{Op, Cmd}
use schwung_monomodule.Child.Engine.{
  VoiceOps, Engine, take_cmd, apply_cmd, apply_op, press, release, release_all, assign_machine,
  apply_machine_routing, restart,
}
use schwung_monomodule.Child.Engine.Replayed.{take_all}
use schwung_monomodule.Child.Block.{RenderOps, turn, silence}
use schwung_monomodule.Child.Block.Parking.{turn-muted}

-- Any command but a note-on and a reset.
abbrev pub IsQuiet : Cmd → Type 0
IsQuiet c = (c.op ≢ Op.note_on) × (c.op ≢ Op.reset)

module _ {V : Type 0} (ops : VoiceOps V) where
  assign_machine-muted :
      (e : Engine V) (m : ℕ)
      → e.muted_until_note ≡ true
      → (assign_machine ops e m).muted_until_note ≡ true
  unfolding assign_machine apply_machine_routing
  assign_machine-muted e m h = ground (arith, h)

  apply_op-muted :
      (e : Engine V) (op : Op) (a b : ℕ) (c : ℤ)
      → op ≢ Op.note_on
      → op ≢ Op.reset
      → e.muted_until_note ≡ true
      → (apply_op ops e op a b c).muted_until_note ≡ true
  unfolding apply_op press release release_all restart
  apply_op-muted e Op.note_on a b c n r h = elim (n refl) [ ]
  apply_op-muted e Op.reset a b c n r h = elim (r refl) [ ]
  apply_op-muted e Op.set_machine a b c n r h = assign_machine-muted e a h
  apply_op-muted e Op.set_param a b c n r h = elim (Bool-cases (ltb a 4 && ltb b 8)) [
    | inl q ↦ rw q h
    | inr q ↦ rw q h
  ]
  apply_op-muted e Op.set_lfo a b c n r h = elim (Bool-cases (ltb a 3 && ltb b 8)) [
    | inl q ↦ rw q h
    | inr q ↦ rw q h
  ]
  apply_op-muted e Op.nop a b c n r h = h
  apply_op-muted e Op.note_off a b c n r h = h
  apply_op-muted e Op.all_notes_off a b c n r h = h
  apply_op-muted e Op.set_level a b c n r h = h
  apply_op-muted e Op.set_bpm a b c n r h = h
  apply_op-muted e Op.set_routing a b c n r h = h

  take_all-muted :
      (cs : List Cmd) (e : Engine V)
      → All IsQuiet cs
      → e.muted_until_note ≡ true
      → (take_all ops e cs).muted_until_note ≡ true
  unfolding take_all take_cmd apply_cmd
  take_all-muted [] e k h = h
  take_all-muted (c ∷ cs) e k h =
      take_all-muted cs _ k.1 (apply_op-muted e c.op c.a c.b c.c k.0.0 k.0.1 h)

  change-muted :
      (e : Engine V) (m : ℕ)
      → ops.is_fx_machine m ≡ false
      → length e.held_notes ≡ 0
      → (assign_machine ops e m).muted_until_note ≡ true
  unfolding assign_machine apply_machine_routing
  change-muted e m f h = rw (f, f, h) refl

  module _ (render : RenderOps V) (fx : Bool) where
    -- What an engine puts out, block by block, each block with the commands before it and its input.
    unfoldable pub session : Engine V → List (List Cmd × List ℤ) → List (List ℤ)
    session e [] = []
    session e ((cs, input) ∷ steps) =
        let r = turn render fx input (take_all ops e cs) in r.out ∷ session r.engine steps

    session-muted :
        (steps : List (List Cmd × List ℤ)) (e : Engine V)
        → All (λ (s : List Cmd × List ℤ). All IsQuiet s.0) steps
        → e.muted_until_note ≡ true
        → All (λ o. o ≡ silence) (session e steps)
    unfolding session
    session-muted [] e k h = tt
    session-muted ((cs, input) ∷ steps) e k h =
        let t = turn-muted render fx input _ (take_all-muted cs e k.0 h) in
        (t.0, session-muted steps _ k.1 t.1)

    -- After a change to a generator machine with no note held, every block is silence, whatever the
    -- voice renders and whatever other commands come, until a note-on or a reset.
    pub silent_change :
        (e : Engine V) (m : ℕ) (steps : List (List Cmd × List ℤ))
        → ops.is_fx_machine m ≡ false
        → length e.held_notes ≡ 0
        → All (λ (s : List Cmd × List ℤ). All IsQuiet s.0) steps
        → All (λ o. o ≡ silence) (session (apply_op ops e Op.set_machine m 0 (pos 0)) steps)
    unfolding apply_op
    silent_change e m steps f h k = session-muted steps _ k (change-muted e m f h)
