-- ===== src/Child/Loop/Rounds.antt =====
-- What an iteration of the loop of src/child/mnm_engine.cpp does with the ring, the engines and a slot.
mod Turning
pub mod Commands
use schwung_monomodule.Prelude.{
  ℕ, ◌+◌, ◌%◌, ◌<◌, ◌≡◌, ◌∙◌, refl, sym, ap, subst, Bool, true, false, List, [], get_elem?, foldl,
  if◌then◌else◌, Option, none, some, sub32, u32, update, update_self, arith, Bool-cases, inl, inr,
}
use schwung_monomodule.Prelude.Int.{ℤ}
use schwung_monomodule.Shm.{Segment, EngineStats, slots}
use schwung_monomodule.Shm.Ring
use schwung_monomodule.Shm.Ring.{window, contents, drain_refines}
use schwung_monomodule.Clock.{Plan, plan}
use schwung_monomodule.Plugin.Convert.{map_some}
use schwung_monomodule.Child.Engine.{Engine, VoiceOps}
use schwung_monomodule.Child.Engine.Replayed.{take_all}
use schwung_monomodule.Child.Block.{RenderOps, turn}
use schwung_monomodule.Child.Loop.{
  Child, Round, waits, rendered, exits, Turns, take, begin, render_round, resume, iterate,
}
use schwung_monomodule.Child.Loop.Rounds.Turning.{Turned, turns-Turned, turns-faulted}
use schwung_monomodule.Child.Loop.Rounds.Commands.{own, take-foldl}

-- What the child may write of the segment is its own part: the clock and the settings of the host, the
-- commands and the input are as they were.
pub record Owned (s t : Segment) : Type 0 where
  pub host_block : t.host_block ≡ s.host_block
  pub depth : t.depth ≡ s.depth
  pub cmds : t.cmds ≡ s.cmds
  pub cmd_write : t.cmd_write ≡ s.cmd_write
  pub input : t.input ≡ s.input
  pub underruns : t.underruns ≡ s.underruns
  pub shutdown : t.shutdown ≡ s.shutdown

abbrev pub plan_of : {V : Type 0} → Child V → Plan
plan_of ch = plan ch.seg.has_input ch.seg.host_block ch.seg.depth ch.next

-- The loop's variables behind the plan `p`.
abbrev begun : {V : Type 0} → Child V → Plan → ℕ → ℕ → Child V
begun ch p x y = record ch {
  seg = record ch.seg { heartbeat = u32 (ch.seg.heartbeat + 1); skips = x; produced = y };
  next = p.next;
}

plan-next :
    (fx : Bool) (hb depth next : ℕ)
    → (plan fx hb depth next).behind ≡ false
    → (plan fx hb depth next).next ≡ next
unfolding plan
plan-next fx hb depth next h = rw h refl

begin-begun :
    {V : Type 0} (ch : Child V) (p : Plan)
    → (p.behind ≡ false → p.next ≡ ch.next)
    → (x : ℕ) × (y : ℕ) × (begin ch p ≡ begun ch p x y)
unfolding begin
begin-begun {V} ch p h = cases p.behind h
  where
    cases :
        (b : Bool)
        → (b ≡ false → p.next ≡ ch.next)
        → (x : ℕ) × (y : ℕ) × ((if b
              then record ch {
                seg = record ch.seg {
                  heartbeat = u32 (ch.seg.heartbeat + 1);
                  skips = u32 (ch.seg.skips + p.skipped);
                  produced = p.next;
                };
                next = p.next;
              }
              else record ch { seg = record ch.seg { heartbeat = u32 (ch.seg.heartbeat + 1) } })
            ≡ begun ch p x y)
    cases true k = (u32 (ch.seg.skips + p.skipped), p.next, refl)
    cases false k = (
      ch.seg.skips,
      ch.seg.produced,
      ap
          (λ n. record ch {
            seg = record ch.seg { heartbeat = u32 (ch.seg.heartbeat + 1) };
            next = n;
          })
          (sym (k refl)),
    )

module _ {V : Type 0} (ops : VoiceOps V) (render : RenderOps V) where
  -- The outcome of an iteration from `ch` with the plan `p`.
  abbrev pub Ends : Plan → Child V → Round V → Type 0
  Ends p ch (waits c) =
      (p.renders ≡ false)
      × (c.engines ≡ ch.engines)
      × (contents c.seg ≡ contents ch.seg)
      × Owned ch.seg c.seg
  Ends p ch (rendered c) =
      (contents c.seg ≡ [])
      × (c.next ≡ u32 (p.next + 1))
      × (c.seg.produced ≡ c.next)
      × Owned ch.seg c.seg
      × ((k : ℕ) (e : Engine V)
          → get_elem? ch.engines k ≡ some e
          → let fx = ch.seg.has_input in
            let slot = p.next % slots in
            let r = turn render fx (ch.seg.input slot) (take_all ops e (own k (contents ch.seg))) in
            (get_elem? c.engines k ≡ some r.engine) × (c.seg.out slot k ≡ r.out))
  Ends p ch (exits c) =
      (contents c.seg ≡ []) × Owned ch.seg c.seg × ((j : ℕ) × ((c.seg.stats j).faulted ≡ 1))

  abbrev after_cmds : Child V → List (Engine V) × (ℕ → EngineStats)
  after_cmds ch = foldl (take ops) (ch.engines, ch.seg.stats) (contents ch.seg)

  begun-Owned :
      (ch : Child V) (p : Plan) (x y z : ℕ) (r : ℕ) (stats : ℕ → EngineStats) (out : ℕ → ℕ → List ℤ)
      → Owned ch.seg
          (record (begun ch p x y).seg { cmd_read = r; stats = stats; out = out; produced = z })
  begun-Owned ch p x y z r stats out = record {
    host_block = refl;
    depth = refl;
    cmds = refl;
    cmd_write = refl;
    input = refl;
    underruns = refl;
    shutdown = refl;
  }

  emptied :
      (s : Segment) → s.cmd_write < 4294967296 → contents (record s { cmd_read = s.cmd_write }) ≡ []
  emptied s h =
      let n : sub32 s.cmd_write s.cmd_write ≡ 0 = omega arith in ap (window s.cmds s.cmd_write) n

  render_round-Ends :
      (us : ℕ → ℕ) (ch : Child V) (p : Plan) (x y : ℕ)
      → Ring.IsValid ch.seg
      → Ends p ch (render_round render us (begun ch p x y) (after_cmds ch))
  unfolding render_round
  render_round-Ends us ch p x y v =
      finished _
        (turns-Turned render ch.seg.has_input (ch.seg.input (p.next % slots)) us (after_cmds ch).0 0
          (after_cmds ch).1 (ch.seg.out (p.next % slots)))
        (turns-faulted render ch.seg.has_input (ch.seg.input (p.next % slots)) us (after_cmds ch).0
          0 (after_cmds ch).1 (ch.seg.out (p.next % slots)))
    where
      shows : Turns V → Segment
      shows t = record (begun ch p x y).seg {
        cmd_read = ch.seg.cmd_write;
        stats = t.stats;
        out = update ch.seg.out (p.next % slots) t.out;
      }

      each :
          (t : Turns V)
          → Turned render ch.seg.has_input
              (ch.seg.input (p.next % slots))
              us
              (after_cmds ch).0
              0
              (ch.seg.out (p.next % slots))
              t
          → (k : ℕ) (e : Engine V) → get_elem? ch.engines k ≡ some e
          → let r =
              turn render ch.seg.has_input
                (ch.seg.input (p.next % slots))
                (take_all ops e (own k (contents ch.seg))) in
            (get_elem? t.engines k ≡ some r.engine)
            × (update ch.seg.out (p.next % slots) t.out (p.next % slots) k ≡ r.out)
      each t d k e n =
          let h =
            take-foldl ops (contents ch.seg) (ch.engines, ch.seg.stats) k ∙ ap (map_some _) n in
          (
            d.turned k ∙ ap (map_some _) h,
            ap (λ (f : ℕ → List ℤ). f k) (update_self ch.seg.out _ _ t.out refl)
                ∙ d.shown k k _ (omega arith) h,
          )

      finished :
          (t : Turns V)
          → (t.exited ≡ false
              → Turned render ch.seg.has_input
                  (ch.seg.input (p.next % slots))
                  us
                  (after_cmds ch).0
                  0
                  (ch.seg.out (p.next % slots))
                  t)
          → (t.exited ≡ true → (j : ℕ) × ((t.stats j).faulted ≡ 1))
          → Ends p ch (
              if t.exited
              then exits (record (begun ch p x y) { seg = shows t; engines = t.engines })
              else rendered (record {
                seg = record (shows t) { produced = u32 (p.next + 1) };
                engines = t.engines;
                next = u32 (p.next + 1);
              }))
      finished t d g = elim (Bool-cases t.exited) [
        | inl q ↦ rw q (emptied ch.seg v.write_in, begun-Owned ch p x y _ _ _ _, g q)
        | inr q ↦
            rw q (emptied ch.seg v.write_in, refl, refl, begun-Owned ch p x y _ _ _ _, each t (d q))
      ]

  goes_on :
      (us : ℕ → ℕ) (ch : Child V) (p : Plan) (x y : ℕ) (renders : Bool)
      → Ring.IsValid ch.seg
      → p.renders ≡ renders
      → (r : Round V) × (resume ops render us renders (begun ch p x y) ≡ some r) × Ends p ch r
  unfolding resume
  goes_on us ch p x y false v e =
      (waits (begun ch p x y), refl, (e, refl, refl, begun-Owned ch p x y y _ _ _))
  goes_on us ch p x y true v e = (
    render_round render us (begun ch p x y) (after_cmds ch),
    ap
        (λ o. elim o as (λ _. Option (Round V)) [
          | none ↦ none
          | some taken ↦ some (render_round render us (begun ch p x y) taken)
        ])
        (drain_refines (take ops) (ch.engines, ch.seg.stats) v),
    render_round-Ends us ch p x y v,
  )

  -- The ring being valid, an iteration ends, and leaves what is the host's alone. It waits with the
  -- commands still queued and the engines as they were; or it has emptied the ring, rendered the block
  -- after `next` and said so in `produced`, every engine having first taken its own commands in their
  -- order and its slot holding what its turn put out; or it exits, the ring emptied and an engine marked
  -- as faulted.
  pub iterate_lem :
      (us : ℕ → ℕ) (ch : Child V)
      → Ring.IsValid ch.seg
      → (r : Round V) × (iterate ops render us ch ≡ some r) × Ends (plan_of ch) ch r
  unfolding iterate
  iterate_lem us ch v =
      let p = plan_of ch in
      let (x, y, q) =
        begin-begun ch p (plan-next ch.seg.has_input ch.seg.host_block ch.seg.depth ch.next) in
      subst
        (λ (b : Child V). (r : Round V) × (resume ops render us p.renders b ≡ some r) × Ends p ch r)
        (sym q) (goes_on us ch p x y p.renders v refl)
