-- ===== src/Child/Block/Parking.antt =====
-- When an engine of src/child/mnm_engine.cpp runs, parks and is silent: the loop of `main`.
use schwung_monomodule.Prelude.{
  ℕ, suc, ◌≤◌, ◌<◌, ◌≡◌, ◌∙◌, ◌⊎◌, refl, sym, Bool, true, false, not, ◌&&◌, ◌||◌, List, arith,
  length, leb, ltb, ◌==◌, ==_iff, not_leb→lt, leb→le, if◌then◌else◌, Bool-cases, inl, inr,
}
use schwung_monomodule.Prelude.Int.{ℤ}
use schwung_monomodule.Shm.{Op, Cmd}
use schwung_monomodule.Child.Engine.{
  VoiceOps, Engine, take_cmd, apply_cmd, apply_op, press, release, release_all, assign_machine,
  apply_machine_routing, restart,
}
use schwung_monomodule.Child.Block.{
  RenderOps, Rendered, park_after_blocks, wake, settle, run, turn, silence, all_samples, is_zero,
}

-- The counter stands at the limit while the engine is parked, below it while it runs, and no note is
-- held by a parked engine that no command has woken.
pub record IsRested {V : Type 0} (e : Engine V) : Type 0 where
  pub counted : e.silent_blocks ≤ park_after_blocks
  pub running : e.parked ≡ false → e.silent_blocks < park_after_blocks
  pub at_limit : e.parked ≡ true → e.silent_blocks ≡ park_after_blocks
  pub resting : e.parked ≡ true → (length e.held_notes ≡ 0) ⊎ (e.woken ≡ true)

module _ {V : Type 0} (render : RenderOps V) where
  -- After the waking test, the engine is awake below the limit, or parked with no note held.
  record IsWoken (e : Engine V) : Type 0 where
    counted : e.silent_blocks ≤ park_after_blocks
    running : e.parked ≡ false → e.silent_blocks < park_after_blocks
    at_limit : e.parked ≡ true → e.silent_blocks ≡ park_after_blocks
    resting : e.parked ≡ true → length e.held_notes ≡ 0

  wake-IsWoken :
      (input_silent : Bool) (e : Engine V) → IsRested e → IsWoken (wake render input_silent e)
  unfolding wake
  wake-IsWoken quiet e h = elim (Bool-cases (e.parked && (e.woken || not quiet))) [
    | inl a ↦ rw a (record {
      counted = omega arith;
      running = λ _. omega arith;
      at_limit = λ f. cc;
      resting = λ f. cc;
    })
    | inr a ↦ rw a (record {
      counted = h.counted;
      running = h.running;
      at_limit = h.at_limit;
      resting = λ p. elim (h.resting p) [
        | inl q ↦ q
        | inr w ↦ elim (asleep e.parked e.woken quiet a p w) [ ]
      ];
    })
  ]
    where
      asleep : (p w q : Bool) → p && (w || not q) ≡ false → p ≡ true → w ≡ true → ⊥
      asleep true true q a b c = cc
      asleep true false q a b c = cc
      asleep false w q a b c = cc

  settle-IsRested :
      (a b : Bool) (e : Engine V)
      → e.silent_blocks < park_after_blocks
      → e.parked ≡ false
      → IsRested (settle render a b e)
  unfolding settle
  settle-IsRested a b e h k = elim (Bool-cases (b && (a && length e.held_notes == 0))) [
    | inl q ↦ rw q (elim (Bool-cases (leb park_after_blocks (suc e.silent_blocks))) [
      | inl l ↦ rw l (record {
        counted = omega (arith, h);
        running = λ f. cc;
        at_limit = λ _. omega (arith, h, leb→le park_after_blocks (suc e.silent_blocks) l);
        resting = λ _. inl (none_held q);
      })
      | inr l ↦ rw l (record {
        counted = omega (arith, h);
        running = λ _. not_leb→lt park_after_blocks (suc e.silent_blocks) l;
        at_limit = λ p. cc;
        resting = λ _. inl (none_held q);
      })
    ])
    | inr q ↦ rw q (record {
      counted = omega arith;
      running = λ _. omega arith;
      at_limit = λ f. cc;
      resting = λ f. cc;
    })
  ]
    where
      third : (b a c : Bool) → b && (a && c) ≡ true → c ≡ true
      third true true c q = q
      third true false c q = cc
      third false a c q = cc

      none_held : b && (a && length e.held_notes == 0) ≡ true → length e.held_notes ≡ 0
      none_held q = (==_iff (length e.held_notes) 0).0 (third b a (length e.held_notes == 0) q)

  -- An engine's turn keeps its parking in order, whatever comes in and whatever its voice
  -- renders: its count of silent blocks is 689 while it is parked and below that while it runs,
  -- and no note is held by a parked engine that no command has woken.
  pub turn-IsRested :
      (fx : Bool) (input : List ℤ) (e : Engine V)
      → IsRested e
      → IsRested (turn render fx input e).engine
  unfolding turn run
  turn-IsRested fx input e h = turned (if fx then all_samples is_zero input else true)
    where
      turned :
          (quiet : Bool)
          → let awake = wake render quiet e in
            IsRested
              (if awake.parked
                then record {
                  engine = record awake { voice = render.skip awake.voice };
                  out = silence;
                  ran = false;
                }
                else run render fx input quiet awake).engine
      turned quiet =
          let w = wake-IsWoken quiet e h in
          elim (Bool-cases (wake render quiet e).parked) [
            | inl p ↦ rw p (record {
              counted = w.counted;
              running = λ f. cc;
              at_limit = λ _. w.at_limit p;
              resting = λ _. inl (w.resting p);
            })
            | inr p ↦ rw p (settle-IsRested quiet _ _ (w.running p) refl)
          ]

  wake-woken : (quiet : Bool) (e : Engine V) → e.woken ≡ true → (wake render quiet e).parked ≡ false
  unfolding wake
  wake-woken quiet e h = elim (Bool-cases e.parked) [
    | inl p ↦ rw (h, p) refl
    | inr p ↦ rw (h, p) refl
  ]

  wake-muted :
      (quiet : Bool) (e : Engine V) → (wake render quiet e).muted_until_note ≡ e.muted_until_note
  unfolding wake
  wake-muted quiet e = elim (Bool-cases (e.parked && (e.woken || not quiet))) [
    | inl p ↦ rw p refl
    | inr p ↦ rw p refl
  ]

  settle-muted :
      (a b : Bool) (e : Engine V) → (settle render a b e).muted_until_note ≡ e.muted_until_note
  unfolding settle
  settle-muted a b e = elim (Bool-cases (b && (a && length e.held_notes == 0))) [
    | inl p ↦ rw p refl
    | inr p ↦ rw p refl
  ]

  run-muted :
      (fx quiet : Bool) (input : List ℤ) (e : Engine V)
      → e.muted_until_note ≡ true
      → ((run render fx input quiet e).out ≡ silence)
        × ((run render fx input quiet e).engine.muted_until_note ≡ true)
  unfolding run
  run-muted fx quiet input e h = rw h (refl, settle-muted quiet _ _)

  -- The output of a muted engine is silence, whatever its voice renders, and it stays muted.
  pub turn-muted :
      (fx : Bool) (input : List ℤ) (e : Engine V)
      → e.muted_until_note ≡ true
      → ((turn render fx input e).out ≡ silence)
        × ((turn render fx input e).engine.muted_until_note ≡ true)
  unfolding turn
  turn-muted fx input e h = turned (if fx then all_samples is_zero input else true)
    where
      turned :
          (quiet : Bool)
          → let awake = wake render quiet e in
            let r : Rendered V =
              if awake.parked
              then record {
                engine = record awake { voice = render.skip awake.voice };
                out = silence;
                ran = false;
              }
              else run render fx input quiet awake in
            (r.out ≡ silence) × (r.engine.muted_until_note ≡ true)
      turned quiet =
          let m = wake-muted quiet e ∙ h in
          elim (Bool-cases (wake render quiet e).parked) [
            | inl p ↦ rw p (refl, m)
            | inr p ↦ rw p (run-muted fx quiet input _ m)
          ]

  module _ (ops : VoiceOps V) where
    -- A command wakes an engine: the turn behind it renders, even where the engine is parked.
    pub turn-take_cmd :
        (fx : Bool) (input : List ℤ) (e : Engine V) (c : Cmd)
        → (turn render fx input (take_cmd ops e c)).ran ≡ true
    unfolding turn run take_cmd
    turn-take_cmd fx input e c =
        rw (wake-woken (if fx then all_samples is_zero input else true) (take_cmd ops e c) refl)
          refl

    assign_machine-parking :
        (e : Engine V) (m : ℕ)
        → ((assign_machine ops e m).parked ≡ e.parked)
          × ((assign_machine ops e m).silent_blocks ≡ e.silent_blocks)
    unfolding assign_machine apply_machine_routing
    assign_machine-parking e m = ground arith

    apply_op-parking :
        (e : Engine V) (op : Op) (a b : ℕ) (c : ℤ)
        → ((apply_op ops e op a b c).parked ≡ e.parked)
          × ((apply_op ops e op a b c).silent_blocks ≡ e.silent_blocks)
    unfolding apply_op press release release_all restart
    apply_op-parking e Op.set_machine a b c = assign_machine-parking e a
    apply_op-parking e Op.set_param a b c = elim (Bool-cases (ltb a 4 && ltb b 8)) [
      | inl q ↦ rw q (refl, refl)
      | inr q ↦ rw q (refl, refl)
    ]
    apply_op-parking e Op.set_lfo a b c = elim (Bool-cases (ltb a 3 && ltb b 8)) [
      | inl q ↦ rw q (refl, refl)
      | inr q ↦ rw q (refl, refl)
    ]
    apply_op-parking e Op.nop a b c = (refl, refl)
    apply_op-parking e Op.note_on a b c = (refl, refl)
    apply_op-parking e Op.note_off a b c = (refl, refl)
    apply_op-parking e Op.all_notes_off a b c = (refl, refl)
    apply_op-parking e Op.set_level a b c = (refl, refl)
    apply_op-parking e Op.set_bpm a b c = (refl, refl)
    apply_op-parking e Op.set_routing a b c = (refl, refl)
    apply_op-parking e Op.reset a b c = (refl, refl)

    pub take_cmd-IsRested : (e : Engine V) (c : Cmd) → IsRested e → IsRested (take_cmd ops e c)
    unfolding take_cmd apply_cmd
    take_cmd-IsRested e c h =
        let k = apply_op-parking e c.op c.a c.b c.c in
        record {
          counted = omega (arith, k.1, h.counted);
          running = λ p. rw k.1 (h.running (sym k.0 ∙ p));
          at_limit = λ p. k.1 ∙ h.at_limit (sym k.0 ∙ p);
          resting = λ _. inr refl;
        }
