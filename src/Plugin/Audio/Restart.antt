-- ===== src/Plugin/Audio/Restart.antt =====
-- A restarted engine gets the whole table: tick, replay (src/plugin/mnm_plugin.cpp) and the command loop
-- of src/child/mnm_engine.cpp, from end to end.
use schwung_monomodule.Prelude.{
  ℕ, ◌+◌, ◌≤◌, ◌≡◌, ◌≢◌, ◌∙◌, refl, sym, ap, subst, Bool, true, false, not, ◌&&◌, none, some, List,
  [], ◌++◌, arith, foldl, length, ◌==◌, if◌then◌else◌, sub32, ◌^◌, ◌<◌,
}
use schwung_monomodule.Shm.{Segment, Phase, Cmd, cmd_slots, drain}
use schwung_monomodule.Shm.Ring
use schwung_monomodule.Shm.Ring.{contents, drain_refines}
use schwung_monomodule.Plugin.Params.Valid.{IsValid}
use schwung_monomodule.Plugin.Instance.{Instance, replay, replay_cmds}
use schwung_monomodule.Plugin.Replay.{Queued, replay_lem}
use schwung_monomodule.Plugin.Audio.{is_ready, replay_once, follow_tempo, tick, reset_segment}
use schwung_monomodule.Child.Engine.{VoiceOps, Engine, take_cmd, assign_machine}
use schwung_monomodule.Child.Engine.Replayed.{take_all, set_all, take_replay, foldl-append}

self_sub : (w : ℕ) → w < 2 ^ 32 → sub32 w w ≡ 0
self_sub w h = omega (arith, h)

-- `resetSegment` drops what was queued for the old engine, and keeps the ring in order.
pub reset_segment-empty :
    (s : Segment) (fx : Bool) (depth : ℕ)
    → Ring.IsValid s
    → Ring.IsValid (reset_segment s fx depth) × (contents (reset_segment s fx depth) ≡ [])
unfolding reset_segment
reset_segment-empty s fx depth v = rw (self_sub s.cmd_write v.write_in) (
  record {
    write_in = v.write_in;
    read_in = v.write_in;
    bounded = omega (arith, self_sub s.cmd_write v.write_in);
  },
  refl,
)

differ : (a b : ℕ) → a ≢ b → a == b ≡ false
differ a b h = ground (arith, h)

chosen : (x y : Instance) (a b : Bool) → a ≡ false → b ≡ true → (if not a && b then x else y) ≡ x
chosen x y false true h k = refl
chosen x y false false h k = cc
chosen x y true b h k = cc

replays_once :
    (in' : Instance) (s : Segment)
    → in'.seg ≡ some s
    → in'.seg_gen ≢ in'.replayed_gen
    → s.phase ≡ Phase.ready
    → tick none in' ≡ replay (record in' { replayed_gen = in'.seg_gen })
unfolding tick replay_once follow_tempo
replays_once in' s e fresh ready =
    ap (λ o. elim o [ none ↦ in' | some s ↦ follow_tempo none (replay_once in' s) ]) e
    ∙ chosen _ in' (in'.seg_gen == in'.replayed_gen) (is_ready s.phase)
        (differ in'.seg_gen in'.replayed_gen fresh) (ap is_ready ready)

-- In the first block after an engine has become ready, `tick` queues the whole table behind what was
-- queued while it booted.
pub tick_replays :
    {in' : Instance} {q : List Cmd}
    → IsValid in'.params
    → (h : Queued in' q) → in'.seg_gen ≢ in'.replayed_gen
    → h.segment.phase ≡ Phase.ready
    → length q + 59 ≤ cmd_slots
    → Queued (tick none in') (q ++ replay_cmds in'.params in'.last_bpm)
tick_replays {in'} {q} v h fresh ready room =
    subst (λ j. Queued j (q ++ replay_cmds in'.params in'.last_bpm))
      (sym (replays_once in' h.segment h.published fresh ready))
      (replay_lem {in' = record in' { replayed_gen = in'.seg_gen }} v
        (record { segment = h.segment; published = h.published; valid = h.valid; holds = h.holds })
        room)

-- The child's command loop over what is queued takes the commands in order.
drain-Queued :
    {V : Type 0} (ops : VoiceOps V) (e : Engine V) {in' : Instance} {q : List Cmd}
    (h : Queued in' q)
    → drain (cmd_slots + 1) h.segment.cmds (take_cmd ops) h.segment.cmd_read h.segment.cmd_write e
      ≡ some (take_all ops e q)
unfolding take_all
drain-Queued ops e h =
    drain_refines (take_cmd ops) e h.valid ∙ ap (λ q. some (foldl (take_cmd ops) e q)) h.holds

-- An instance with a valid table has a published segment whose engine is ready and to which the
-- table has not been sent, and `q` is queued in its ring, with room for 59 more. After `tick`, on
-- a host without a tempo, the engine that drains the ring has taken `q` and ends with exactly the
-- table of the plugin: its machine, and its voice told every page value, LFO value, the level and
-- the tempo last known.
pub restarted_engine :
    {V : Type 0} (ops : VoiceOps V) (e : Engine V) {in' : Instance} {q : List Cmd}
    → IsValid in'.params
    → (h : Queued in' q) → in'.seg_gen ≢ in'.replayed_gen
    → h.segment.phase ≡ Phase.ready
    → length q + 59 ≤ cmd_slots
    → (s : Segment) × ((tick none in').seg ≡ some s)
      × (drain (cmd_slots + 1) s.cmds (take_cmd ops) s.cmd_read s.cmd_write e
          ≡ some (record (assign_machine ops (take_all ops e q) in'.params.machine) {
            voice = set_all ops in'.params in'.last_bpm (take_all ops e q);
            woken = true;
          }))
unfolding take_all
restarted_engine ops e {in'} {q} v h fresh ready room =
    let t = tick_replays v h fresh ready room in
    (
      t.segment,
      t.published,
      drain-Queued ops e t
          ∙ ap some (
              foldl-append (take_cmd ops) q (replay_cmds in'.params in'.last_bpm) e
              ∙ take_replay ops in'.params in'.last_bpm (foldl (take_cmd ops) e q) v),
    )
