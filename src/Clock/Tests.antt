-- ===== src/Clock/Tests.antt =====
-- The theorems about the block clock at concrete blocks.
use schwung_monomodule.Prelude.{◌%◌, ◌≡◌, ◌≢◌, ◌↔◌, refl, true, false, some, none, arith, update}
use schwung_monomodule.Prelude.Int.{pos, negsuc}
use schwung_monomodule.Shm.{slots}
use schwung_monomodule.Clock.{to_s16, is_playable, plan}
use schwung_monomodule.Clock.Samples.{is_silent, is_silent_iff, widen, to_s16-widen}
use schwung_monomodule.Clock.Race.{
  System, Child, Callback, Reach, here, later, load, render, publish, play, target,
}
use schwung_monomodule.Clock.Race.Safety.{initial, no_torn_block}

is_silent_iff_example : (is_silent (negsuc 42) ≡ true) ↔ (to_s16 (negsuc 42) ≡ pos 0)
is_silent_iff_example = is_silent_iff (negsuc 42) (omega arith) (omega arith)

to_s16-widen_example : to_s16 (widen (negsuc 11999)) ≡ negsuc 11999
to_s16-widen_example = to_s16-widen (negsuc 11999) (omega arith) (omega arith)

-- A generator's child has rendered block 0, and the callback copies it.
abbrev copied : System
copied = record {
  host = 0;
  next = 1;
  child = Child.top;
  callback = Callback.copying 0;
  slot = update (update (λ _. none) 0 none) 0 (some 0);
}

copied-Reach : Reach false 2 (initial 0) copied
unfolding plan is_playable
copied-Reach =
    later
      (later
        (later (later here (load 2 refl (omega arith, omega arith, λ e. cc)))
          (render 0 2 0 refl refl refl))
        (publish refl))
      (play refl (λ e. cc) refl)

no_torn_block_example :
    (copied.slot (0 % slots) ≡ some 0)
    × (0 ≡ target false 2 copied.host)
    × (copied.child ≡ Child.writing → copied.next % slots ≢ 0 % slots)
no_torn_block_example =
    no_torn_block false 2 0 (omega arith) (omega arith) (λ e. cc) copied-Reach 0 refl
