-- ===== src/Clock/Race/Safety/Counts.antt =====
-- The clock's words where they stand for unbounded counts (the head of the loop of
-- src/child/mnm_engine.cpp, playBlock of src/plugin/mnm_plugin.cpp).
use schwung_monomodule.Prelude.{ℕ, ◌+◌, ◌%◌, ◌≤◌, ◌<◌, ◌≡◌, ◌≢◌, ◌⊎◌, Bool, true, false, arith, u32}
use schwung_monomodule.Shm.{slots, max_depth}
use schwung_monomodule.Clock.{plan, is_playable}
use schwung_monomodule.Clock.Race.{loaded, target, lead, IsNear, AtChild}

-- Where the child compares words, the unbounded counts are: it skips only to a block that the
-- callback has not passed, and never comes further ahead than its depth.
pub record Planned (fx : Bool) (depth host hb next skipped : ℕ) (renders : Bool) : Type 0 where
  pub skips : (skipped ≡ 0) ⊎ (next + skipped ≤ target fx depth host)
  pub stays : next + skipped ≤ hb + lead fx depth
  pub below : renders ≡ true → next + skipped < hb + lead fx depth

pub plan_lem :
    (fx : Bool) (depth host hb d next : ℕ)
    → IsNear fx depth host next
    → AtChild fx depth (loaded hb d) host next
    → let p = plan fx (u32 hb) d (u32 next) in Planned fx depth host hb next p.skipped p.renders
unfolding plan
plan_lem true depth host hb d next n a = ground arith
plan_lem false depth host hb d next n a = ground arith

pub playable_lem :
    (fx : Bool) (depth host next : ℕ)
    → IsNear fx depth host next
    → (fx ≡ true → depth ≤ host)
    → next ≤ host + lead fx depth
    → is_playable (u32 next) (u32 (target fx depth host)) ≡ true
    → target fx depth host < next
unfolding is_playable
playable_lem true depth host next n f h e = ground arith
playable_lem false depth host next n f h e = ground arith

abbrev pub skipped_of : Bool → ℕ → ℕ → ℕ → ℕ
skipped_of fx hb d next = (plan fx (u32 hb) d (u32 next)).skipped

-- The blocks that may be in the slots at once have different slots.
pub slots_differ :
    (fx : Bool) (depth host n j : ℕ)
    → depth ≤ max_depth
    → n < host + lead fx depth
    → target fx depth host ≤ j
    → j < n
    → n % slots ≢ j % slots
slots_differ true depth host n j s a h k = omega arith
slots_differ false depth host n j s a h k = omega arith
