-- ===== src/Clock/Race/Safety.antt =====
-- No slot is read while it is written, and what is played is the block that was rendered for it.
mod Counts
use schwung_monomodule.Prelude.{
  ℕ, ◌+◌, ◌%◌, ◌^◌, ◌≤◌, ◌<◌, ◌≡◌, ◌≢◌, refl, sym, subst, Bool, true, false, Option, none, some,
  arith, u32, update, update_self, update_ne, ◌∙◌, ap,
}
use native.Mathlib.Decide.{ℕ_discrete}
use schwung_monomodule.Shm.{slots, max_depth}
use schwung_monomodule.Clock.{plan, is_playable}
use schwung_monomodule.Clock.Race.{
  Child, top, loaded, writing, Callback, idle, copying, System, target, lead, IsNear, IsDepth, Step,
  play, done, miss, load, wait, render, publish, Reach, here, later, AtChild, AtCallback, Inv,
}
use schwung_monomodule.Clock.Race.Safety.Counts.{
  Planned, plan_lem, playable_lem, skipped_of, slots_differ,
}

module _ (fx : Bool) (depth : ℕ) where
  AtChild-ahead :
      (c : Child) (host next : ℕ) → AtChild fx depth c host next → next ≤ host + lead fx depth
  AtChild-ahead top host next a = a
  AtChild-ahead (loaded hb d) host next a = omega arith
  AtChild-ahead writing host next a = omega arith

  AtChild-advance :
      (c : Child) (host next : ℕ)
      → AtChild fx depth c host next
      → AtChild fx depth c (host + 1) next
  AtChild-advance top host next a = omega arith
  AtChild-advance (loaded hb d) host next a = (a.0, omega arith, a.2)
  AtChild-advance writing host next a = omega arith

  AtCallback-skip :
      (b : Callback) (host next n : ℕ)
      → next ≤ n
      → AtCallback fx depth b host next
      → AtCallback fx depth b host n
  AtCallback-skip idle host next n h a = tt
  AtCallback-skip (copying b) host next n h a = (a.0, omega arith)

  module _ {host next : ℕ} {slot : ℕ → Option ℕ} where
    play-Inv :
        {c : Child} {b : Callback}
        → (fx ≡ true → depth ≤ host)
        → is_playable (u32 next) (u32 (target fx depth host)) ≡ true
        → Inv fx depth host next c b slot
        → Inv fx depth host next c (copying (target fx depth host)) slot
    play-Inv {c} f e v = record {
      small = v.small;
      near = v.near;
      at_child = v.at_child;
      at_callback =
          (refl, playable_lem fx depth host next v.near f (AtChild-ahead c host next v.at_child) e);
      held = v.held;
    }

    advance-Inv :
        {c : Child} {b : Callback}
        → IsNear fx depth (host + 1) next
        → Inv fx depth host next c b slot
        → Inv fx depth (host + 1) next c idle slot
    advance-Inv {c} n v = record {
      small = v.small;
      near = n;
      at_child = AtChild-advance c host next v.at_child;
      at_callback = tt;
      held = λ j h k. v.held j (ground arith) k;
    }

    load-Inv :
        {b : Callback} (d : ℕ)
        → IsDepth fx depth d
        → Inv fx depth host next top b slot
        → Inv fx depth host next (loaded host d) b slot
    load-Inv d h v = record {
      small = v.small;
      near = v.near;
      at_child = (h, omega arith, v.at_child);
      at_callback = v.at_callback;
      held = v.held;
    }

    module _ {b : Callback} {hb d : ℕ} (v : Inv fx depth host next (loaded hb d) b slot) where
      planned :
          Planned fx depth host hb next
            (skipped_of fx hb d next)
            (plan fx (u32 hb) d (u32 next)).renders
      planned = plan_lem fx depth host hb d next v.near v.at_child

      -- After a skip nothing is left that the callback may still play.
      held-skip :
          (j : ℕ)
          → target fx depth host ≤ j
          → j < next + skipped_of fx hb d next
          → slot (j % slots) ≡ some j
      held-skip j h k = v.held j h (omega (arith, planned))

      wait-Inv : Inv fx depth host (next + skipped_of fx hb d next) top b slot
      wait-Inv = record {
        small = v.small;
        near = (omega (arith, v.near), v.near.1);
        at_child = omega (arith, planned, v.at_child);
        at_callback = AtCallback-skip b host next _ (omega arith) v.at_callback;
        held = held-skip;
      }

      render-Inv :
          (plan fx (u32 hb) d (u32 next)).renders ≡ true
          → Inv fx depth host
              (next + skipped_of fx hb d next)
              writing
              b
              (update slot ((next + skipped_of fx hb d next) % slots) none)
      render-Inv e = record {
        small = v.small;
        near = (omega (arith, v.near), v.near.1);
        at_child = omega (arith, planned.below e, v.at_child);
        at_callback = AtCallback-skip b host next _ (omega arith) v.at_callback;
        held = λ j h k.
            update_ne slot ((next + skipped_of fx hb d next) % slots) (j % slots) none (
              slots_differ fx depth host _ j v.small (omega (arith, planned.below e, v.at_child)) h
                k)
            ∙ held-skip j h k;
      }

    publish-Inv :
        {b : Callback}
        → Inv fx depth host next writing b slot
        → Inv fx depth host (next + 1) top b (update slot (next % slots) (some next))
    publish-Inv {b} v = record {
      small = v.small;
      near = (omega (arith, v.near), v.near.1);
      at_child = omega (arith, v.at_child);
      at_callback = AtCallback-skip b host next _ (omega arith) v.at_callback;
      held = λ j h k. elim (ℕ_discrete next j) [
        | yes e ↦ update_self slot _ _ (some next) (ap (λ i. i % slots) e) ∙ ap some e
        | no ne ↦
            update_ne slot (next % slots) (j % slots) (some next)
              (slots_differ fx depth host next j v.small v.at_child h (omega arith))
            ∙ v.held j h (omega arith)
      ];
    }

  abbrev pub Holds : System → Type 0
  Holds s = Inv fx depth s.host s.next s.child s.callback s.slot

  Step-Holds : {s t : System} → Step fx depth s t → Holds s → Holds t
  Step-Holds (play e f p) v = play-Inv f p v
  Step-Holds (done b e n) v = advance-Inv n v
  Step-Holds {s} (miss e n) v =
      subst (λ b. Inv fx depth (s.host + 1) s.next s.child b s.slot) (sym e) (advance-Inv n v)
  Step-Holds {s} (load d e h) v =
      load-Inv d h (subst (λ c. Inv fx depth s.host s.next c s.callback s.slot) e v)
  Step-Holds {s} (wait hb d e r) v =
      wait-Inv (subst (λ c. Inv fx depth s.host s.next c s.callback s.slot) e v)
  Step-Holds {s} (render hb d n e r m) v =
      rw m (render-Inv (subst (λ c. Inv fx depth s.host s.next c s.callback s.slot) e v) r)
  Step-Holds {s} (publish e) v =
      publish-Inv (subst (λ c. Inv fx depth s.host s.next c s.callback s.slot) e v)

  Reach-Holds : {s t : System} → Holds s → Reach fx depth s t → Holds t
  Reach-Holds h here = h
  Reach-Holds h (later r st) = Step-Holds st (Reach-Holds h r)

-- Both processes at the head of their loops, in step: what the child sets up before its loop.
abbrev pub initial : ℕ → System
initial host = record { host = host; next = host; child = top; callback = idle; slot = λ _. none }

initial-Holds :
    (fx : Bool) (depth host : ℕ)
    → depth ≤ max_depth
    → host + 8 < 2 ^ 32
    → (fx ≡ true → host ≡ 0)
    → Holds fx depth (initial host)
initial-Holds fx depth host small near zero_start = record {
  small = small;
  near = (omega arith, λ _. near);
  at_child = omega arith;
  at_callback = tt;
  held = λ j h k. absurd (none_yet fx zero_start h k);
}
  where
    none_yet : (f : Bool) → (f ≡ true → host ≡ 0) → {j : ℕ} → target f depth host ≤ j → j < host → ⊥
    none_yet true z h k = omega (arith, z refl)
    none_yet false z h k = omega arith

-- The callback and the child start at a host block below 2 ^ 32 - 8, an effect at block 0, with a
-- depth of at most 4, and interleave in any way that `Step` allows. Whenever the callback copies
-- block `b`, this is the block due, slot `b % 8` holds block `b` whole, and a child that is
-- writing a block writes it to another slot.
pub no_torn_block :
    (fx : Bool) (depth host : ℕ)
    → depth ≤ max_depth
    → host + 8 < 2 ^ 32
    → (fx ≡ true → host ≡ 0)
    → {s : System} → Reach fx depth (initial host) s
    → (b : ℕ) → s.callback ≡ copying b
    → (s.slot (b % slots) ≡ some b)
      × (b ≡ target fx depth s.host)
      × (s.child ≡ writing → s.next % slots ≢ b % slots)
no_torn_block fx depth host small near zero_start {s} r b e = copied (
    subst (λ c. Inv fx depth s.host s.next s.child c s.slot) e
      (Reach-Holds fx depth (initial-Holds fx depth host small near zero_start) r))
  where
    copied :
        Inv fx depth s.host s.next s.child (copying b) s.slot
        → (s.slot (b % slots) ≡ some b)
          × (b ≡ target fx depth s.host)
          × (s.child ≡ writing → s.next % slots ≢ b % slots)
    copied v = (
      v.held b (omega (arith, v.at_callback)) v.at_callback.1,
      v.at_callback.0,
      λ w.
          slots_differ fx depth s.host s.next b v.small
            (subst (λ c. AtChild fx depth c s.host s.next) w v.at_child)
            (omega (arith, v.at_callback)) v.at_callback.1,
    )
