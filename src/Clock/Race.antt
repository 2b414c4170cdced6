-- ===== src/Clock/Race.antt =====
-- The callback (src/plugin/mnm_plugin.cpp: renderBlock, processBlock) and the child's loop
-- (src/child/mnm_engine.cpp) interleaved at their accesses to the clock and the audio slots.
pub mod Safety
use schwung_monomodule.Prelude.{
  ℕ, ◌+◌, ◌-◌, ◌%◌, ◌^◌, ◌≤◌, ◌<◌, ◌≡◌, Bool, true, false, Option, none, some, if◌then◌else◌, u32,
  update,
}
use schwung_monomodule.Shm.{slots, max_depth}
use schwung_monomodule.Clock.{plan, is_playable}

-- Blocks are counted without the wrap; the words of the segment are these numbers modulo 2 ^ 32.
pub data Child : Type 0 where
  top : Child
  loaded : (hb d : ℕ) → Child
  writing : Child

pub data Callback : Type 0 where
  idle : Callback
  copying : (b : ℕ) → Callback

-- `next` is also the value of `produced`. `slot i` names the block that slot `i` holds whole.
pub record System : Type 0 where
  pub host : ℕ
  pub next : ℕ
  pub child : Child
  pub callback : Callback
  pub slot : ℕ → Option ℕ

module _ (fx : Bool) (depth : ℕ) where
  -- The block that the callback plays at host block `host`: an effect's output is `depth` late.
  abbrev pub target : ℕ → ℕ
  target host = if fx then host - depth else host

  -- How far ahead of the callback's block the child may render.
  abbrev pub lead : ℕ
  lead = if fx then 0 else max_depth

  -- A child that stops for 2 ^ 31 blocks (72 days) is outside the model, and so is an effect that
  -- runs for 2 ^ 32 blocks.
  abbrev pub IsNear : ℕ → ℕ → Type 0
  IsNear host next = (host + 8 < next + 2 ^ 31) × (fx ≡ true → host + 8 < 2 ^ 32)

  -- The depth that the child reads: changed at will for a generator, fixed for an effect.
  abbrev pub IsDepth : ℕ → Type 0
  IsDepth d = (1 ≤ d) × (d ≤ max_depth) × (fx ≡ true → d ≡ depth)

  pub data Step (s : System) : System → Type 0 where
    play :
        s.callback ≡ idle
        → (fx ≡ true → depth ≤ s.host)
        → is_playable (u32 s.next) (u32 (target s.host)) ≡ true
        → Step s (record s { callback = copying (target s.host) })
    done :
        (b : ℕ)
        → s.callback ≡ copying b
        → IsNear (s.host + 1) s.next
        → Step s (record s { callback = idle; host = s.host + 1 })
    miss : s.callback ≡ idle → IsNear (s.host + 1) s.next → Step s (record s { host = s.host + 1 })
    load : (d : ℕ) → s.child ≡ top → IsDepth d → Step s (record s { child = loaded s.host d })
    wait :
        (hb d : ℕ)
        → s.child ≡ loaded hb d
        → (plan fx (u32 hb) d (u32 s.next)).renders ≡ false
        → Step s
            (record s { child = top; next = s.next + (plan fx (u32 hb) d (u32 s.next)).skipped })
    render :
        (hb d n : ℕ)
        → s.child ≡ loaded hb d
        → (plan fx (u32 hb) d (u32 s.next)).renders ≡ true
        → n ≡ s.next + (plan fx (u32 hb) d (u32 s.next)).skipped
        → Step s (record s { child = writing; next = n; slot = update s.slot (n % slots) none })
    publish :
        s.child ≡ writing
        → Step s (record s {
          child = top;
          next = s.next + 1;
          slot = update s.slot (s.next % slots) (some s.next);
        })

  pub data Reach (s : System) : System → Type 0 where
    here : Reach s s
    later : {t u : System} → Reach s t → Step t u → Reach s u

  -- What the child's place says.
  abbrev pub AtChild : Child → ℕ → ℕ → Type 0
  AtChild top host next = next ≤ host + lead
  AtChild (loaded hb d) host next = IsDepth d × (hb ≤ host) × (next ≤ hb + lead)
  AtChild writing host next = next < host + lead

  abbrev pub AtCallback : Callback → ℕ → ℕ → Type 0
  AtCallback idle host next = Unit {0}
  AtCallback (copying b) host next = (b ≡ target host) × (b < next)

  pub record Inv (host next : ℕ) (child : Child) (callback : Callback) (slot : ℕ → Option ℕ)
      : Type 0 where
    pub small : depth ≤ max_depth
    pub near : IsNear host next
    pub at_child : AtChild child host next
    pub at_callback : AtCallback callback host next
    -- Every block from the callback's on that counts as produced is whole in its slot.
    pub held : (j : ℕ) → target host ≤ j → j < next → slot (j % slots) ≡ some j
