-- ===== src/Child/Loop.antt =====
-- The loop of the engine process: `main` of src/child/mnm_engine.cpp once the engines are ready, an
-- iteration at a time.
pub mod Rounds
pub mod Tests
use schwung_monomodule.Prelude.{
  ℕ, zero, suc, ◌+◌, ◌%◌, Bool, true, false, not, ◌&&◌, List, [], ◌∷◌, length, get_elem?, set, ltb,
  ◌==◌, if◌then◌else◌, Option, none, some, u32, update,
}
use schwung_monomodule.Prelude.Int.{ℤ}
use schwung_monomodule.Shm.{Op, Cmd, Segment, EngineStats, slots, cmd_slots, drain}
use schwung_monomodule.Clock.{Plan, plan}
use schwung_monomodule.Child.Engine.{Engine, VoiceOps, take_cmd}
use schwung_monomodule.Child.Block.{RenderOps, Rendered, turn}

-- The variables of the loop: the segment, the engines, and the block to render next.
pub record Child (V : Type 0) : Type 0 where
  pub seg : Segment
  pub engines : List (Engine V)
  pub next : ℕ

-- How an iteration ends: it waits for the host, it has rendered a block, or the process exits with 6.
pub data Round (V : Type 0) : Type 0 where
  waits : Child V → Round V
  rendered : Child V → Round V
  exits : Child V → Round V

-- What the turns of the engines leave: the engines, their statistics, and the slot's blocks.
pub record Turns (V : Type 0) : Type 0 where
  pub engines : List (Engine V)
  pub stats : ℕ → EngineStats
  pub out : ℕ → List ℤ
  pub exited : Bool

abbrev pub is_set_machine : Op → Bool
is_set_machine Op.set_machine = true
is_set_machine _ = false

-- The statistics of an engine after its turn, which took `us` microseconds.
unfoldable pub count_turn : {V : Type 0} → Bool → Rendered V → ℕ → EngineStats → EngineStats
count_turn was_parked r us st =
    if r.ran
    then record st {
      last_us = us;
      max_us = if ltb st.max_us us then us else st.max_us;
      blocks = u32 (st.blocks + 1);
      parked = if r.engine.parked then 1 else if was_parked then 0 else st.parked;
    }
    else record st { parked_blocks = u32 (st.parked_blocks + 1) }

-- An iteration up to the plan: the heartbeat, and the skip forward.
unfoldable pub begin : {V : Type 0} → Child V → Plan → Child V
begin ch p =
    let beat = record ch.seg { heartbeat = u32 (ch.seg.heartbeat + 1) } in
    if p.behind
    then record ch {
      seg = record beat { skips = u32 (beat.skips + p.skipped); produced = p.next };
      next = p.next;
    }
    else record ch { seg = beat }

module _ {V : Type 0} (ops : VoiceOps V) where
  -- The body of the command loop. A machine change resets the engine's peak.
  unfoldable pub take :
      List (Engine V) × (ℕ → EngineStats) → Cmd → List (Engine V) × (ℕ → EngineStats)
  take (es, stats) c = elim (get_elem? es c.engine) [
    | none ↦ (es, stats)
    | some e ↦ (
      set es c.engine (take_cmd ops e c),
      if is_set_machine c.op
          then update stats c.engine (record (stats c.engine) { max_us = 0 })
          else stats,
    )
  ]

module _ {V : Type 0} (render : RenderOps V) where
  -- The turns of the engines from number `k` on; `us` are the times they take.
  unfoldable pub turns :
      Bool → List ℤ → (ℕ → ℕ) → ℕ → List (Engine V) → (ℕ → EngineStats) → (ℕ → List ℤ) → Turns V
  turns fx input us k [] stats out = record {
    engines = [];
    stats = stats;
    out = out;
    exited = false;
  }
  turns fx input us k (e ∷ es) stats out =
      let r = turn render fx input e in
      let counted = count_turn e.parked r (us k) (stats k) in
      let shown = update out k r.out in
      let rest = turns fx input us (suc k) es (update stats k counted) shown in
      if r.ran && render.faulted r.engine.voice
      then record {
        engines = r.engine ∷ es;
        stats = update stats k (record counted { faulted = 1 });
        out = shown;
        exited = true;
      }
      else record rest { engines = r.engine ∷ rest.engines }

  -- Behind the commands: the block, and `produced`.
  unfoldable pub render_round : (ℕ → ℕ) → Child V → List (Engine V) × (ℕ → EngineStats) → Round V
  unfolding turns
  render_round us ch (es, stats) =
      let s = record ch.seg { cmd_read = ch.seg.cmd_write; stats = stats } in
      let slot = ch.next % slots in
      let t = turns s.has_input (s.input slot) us 0 es stats (s.out slot) in
      let shown = record s { stats = t.stats; out = update s.out slot t.out } in
      if t.exited
      then exits (record ch { seg = shown; engines = t.engines })
      else rendered (record {
        seg = record shown { produced = u32 (ch.next + 1) };
        engines = t.engines;
        next = u32 (ch.next + 1);
      })

module _ {V : Type 0} (ops : VoiceOps V) (render : RenderOps V) where
  -- Behind the plan: the commands and a block, or the wait. `none` means that the fuel for the commands
  -- ran out.
  unfoldable pub resume : (ℕ → ℕ) → Bool → Child V → Option (Round V)
  unfolding render_round take drain
  resume us renders ch =
      if renders
      then elim (drain (cmd_slots + 1) ch.seg.cmds (take ops) ch.seg.cmd_read ch.seg.cmd_write
          (ch.engines, ch.seg.stats)) [
            | none ↦ none
            | some taken ↦ some (render_round render us ch taken)
          ]
      else some (waits ch)

  -- An iteration on a process that has not been told to shut down and whose parent lives.
  unfoldable pub iterate : (ℕ → ℕ) → Child V → Option (Round V)
  unfolding begin resume
  iterate us ch =
      let p = plan ch.seg.has_input ch.seg.host_block ch.seg.depth ch.next in
      resume us p.renders (begin ch p)
