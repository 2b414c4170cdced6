-- ===== src/Plugin/Audio/Heard.antt =====
-- What the host hears of a block that the engine process has rendered: an iteration of
-- src/child/mnm_engine.cpp, then a callback of src/plugin/mnm_plugin.cpp.
use schwung_monomodule.Prelude.{
  ℕ, ◌+◌, ◌-◌, ◌*◌, ◌%◌, ◌<◌, ◌≡◌, ◌∙◌, refl, sym, ap, subst, true, Option, none, some, List, arith,
  leb, ◌==◌, if◌then◌else◌, map, take, get_elem?, u32, ◌^◌, replicate, ◌≤◌, leb,
}
use mathlib.Core.Option.{some-injective}
use schwung_monomodule.Prelude.Int.{ℤ, pos}
use schwung_monomodule.Shm.{Segment, Phase, frames, slots}
use schwung_monomodule.Shm.Ring
use schwung_monomodule.Shm.Ring.{contents}
use schwung_monomodule.Clock.{to_s16, play_block, is_playable}
use schwung_monomodule.Plugin.Instance.{Instance}
use schwung_monomodule.Plugin.Audio.{
  is_ready, tick, live, finish, render_block, process_block, play_late, store_input,
}
use schwung_monomodule.Child.Engine.{Engine, VoiceOps}
use schwung_monomodule.Child.Engine.Replayed.{take_all}
use schwung_monomodule.Child.Block.{RenderOps, turn}
use schwung_monomodule.Child.Loop.{Child, rendered, iterate}
use schwung_monomodule.Child.Loop.Rounds.{Ends, plan_of, iterate_lem}
use schwung_monomodule.Child.Loop.Rounds.Commands.{own}
use schwung_monomodule.Plugin.Audio.Ticked.{Keeps, tick-Keeps}

live_lem :
    (s : Segment) (in' : Instance) (h : Keeps s in') → s.phase ≡ Phase.ready → live in' ≡ some h.seg
unfolding live
live_lem s in' h r =
    ap
      (λ o. elim o as (λ _. Option Segment) [
        | none ↦ none
        | some s ↦ (if is_ready s.phase then some s else none)
      ])
      h.here
    ∙ ap (λ p. if is_ready p then some h.seg else none) (h.phase ∙ r)

playable : (p : ℕ) → p < 2 ^ 32 → is_playable (u32 (p + 1)) p ≡ true
unfolding is_playable
playable p h = ground arith

-- What is heard of block `p` is what engine 0 left in its slot.
abbrev Plays : Segment → ℕ → List ℤ → Type 0
Plays s p heard = heard ≡ map to_s16 (take 256 (s.out (p % slots) 0))

play_block_lem :
    (s t : Segment) (p q : ℕ)
    → p < 2 ^ 32
    → t.produced ≡ u32 (p + 1)
    → t.out ≡ s.out
    → q ≡ p
    → Plays s p (play_block t q frames).0
unfolding play_block
play_block_lem s t p q h e o k = rw (k, e, playable p h, o) refl

-- In a live block the callback plays, and ends with the peak and the clock.
render_live :
    (s : Segment) (bpm : Option ℕ) (in' : Instance)
    → s.phase ≡ Phase.ready
    → (k : Keeps s (tick bpm in'))
    → render_block bpm in' frames
      ≡ finish (tick bpm in') k.seg.host_block (play_block k.seg k.seg.host_block frames)
unfolding render_block
render_live s bpm in' ready k =
    ap
      (λ o. elim o as (λ _. List ℤ × Instance) [
        | none ↦ (replicate (frames * 2) (pos 0), tick bpm in')
        | some t ↦
            if frames == frames
            then finish (tick bpm in') t.host_block (play_block t t.host_block frames)
            else (replicate (frames * 2) (pos 0), tick bpm in')
      ])
      (live_lem s (tick bpm in') k ready)

process_live :
    (s : Segment) (bpm : Option ℕ) (in' : Instance) (io : List ℤ)
    → s.phase ≡ Phase.ready
    → (k : Keeps s (tick bpm in'))
    → process_block bpm in' io frames
      ≡ finish
          (tick bpm in')
          k.seg.host_block
          (play_late (store_input k.seg k.seg.host_block io) k.seg.host_block frames)
unfolding process_block
process_live s bpm in' io ready k =
    ap
      (λ o. elim o as (λ _. List ℤ × Instance) [
        | none ↦ (io, tick bpm in')
        | some t ↦
            if frames == frames
            then finish (tick bpm in') t.host_block
                (play_late (store_input t t.host_block io) t.host_block frames)
            else (io, tick bpm in')
      ])
      (live_lem s (tick bpm in') k ready)

play_late_lem :
    (t : Segment) (hb : ℕ)
    → t.depth ≤ hb
    → play_late t hb frames ≡ play_block t (hb - t.depth) frames
unfolding play_late
play_late_lem t hb h = rw le refl
  where
    le : leb t.depth hb ≡ true
    le = ground (arith, h)

rendered_heard :
    (s : Segment) (bpm : Option ℕ) (in' : Instance) (p : ℕ)
    → in'.seg ≡ some s
    → s.phase ≡ Phase.ready
    → s.produced ≡ u32 (p + 1)
    → s.host_block ≡ p
    → p < 2 ^ 32
    → Plays s p (render_block bpm in' frames).0
unfolding finish
rendered_heard s bpm in' p e ready made at word =
    let k = tick-Keeps s bpm in' e in
    ap (λ r. r.0) (render_live s bpm in' ready k)
    ∙ play_block_lem s k.seg p k.seg.host_block word (k.produced ∙ made) k.out (k.host_block ∙ at)

late_heard :
    (s : Segment) (bpm : Option ℕ) (in' : Instance) (io : List ℤ) (p : ℕ)
    → in'.seg ≡ some s
    → s.phase ≡ Phase.ready
    → s.produced ≡ u32 (p + 1)
    → s.host_block ≡ p + s.depth
    → p < 2 ^ 32
    → Plays s p (process_block bpm in' io frames).0
unfolding finish
late_heard s bpm in' io p e ready made at word =
    let k = tick-Keeps s bpm in' e in
    let t = store_input k.seg k.seg.host_block io in
    ap (λ r. r.0) (process_live s bpm in' io ready k)
    ∙ ap (λ r. r.0) (play_late_lem t k.seg.host_block (omega (arith, k.depth, k.host_block, at)))
    ∙ play_block_lem s t p (k.seg.host_block - k.seg.depth) word (k.produced ∙ made) k.out
        (omega (arith, k.depth, k.host_block, at))

module _ {V : Type 0} (ops : VoiceOps V) (render : RenderOps V) where
  -- What the turn of engine 0 puts out, which has first taken its own of the queued commands.
  abbrev pub new_block : Child V → Engine V → List ℤ
  new_block ch e =
      (turn render ch.seg.has_input (ch.seg.input ((plan_of ch).next % slots))
        (take_all ops e (own 0 (contents ch.seg)))).out

  iterated :
      (us : ℕ → ℕ) (ch c : Child V)
      → Ring.IsValid ch.seg
      → iterate ops render us ch ≡ some (rendered c)
      → Ends ops render (plan_of ch) ch (rendered c)
  iterated us ch c v e =
      let (r, q, h) = iterate_lem ops render us ch v in
      subst (Ends ops render (plan_of ch) ch) (some-injective r (rendered c) (sym q ∙ e)) h

  -- An iteration of the engine process, its ring being valid, has rendered a block, and the plugin is on a
  -- segment with slots and `produced` as the iteration left them, whatever else has changed since. Where
  -- that segment is ready and its clock, below 2 ^ 32, is at that block, the generator's callback hands
  -- the host, for 128 frames, the output of the turn of engine 0 behind its own of the queued commands,
  -- each sample rounded to 16 bits.
  pub heard_block :
      (us : ℕ → ℕ) (ch c : Child V) (e : Engine V) (bpm : Option ℕ) (in' : Instance) (s : Segment)
      → Ring.IsValid ch.seg
      → iterate ops render us ch ≡ some (rendered c)
      → get_elem? ch.engines 0 ≡ some e
      → in'.seg ≡ some s
      → s.phase ≡ Phase.ready
      → s.produced ≡ c.seg.produced
      → s.out ≡ c.seg.out
      → s.host_block ≡ (plan_of ch).next
      → s.host_block < 2 ^ 32
      → (render_block bpm in' frames).0 ≡ map to_s16 (take 256 (new_block ch e))
  heard_block us ch c e bpm in' s v runs has here ready made out at word =
      let (_, n, k, _, f) = iterated us ch c v runs in
      rendered_heard s bpm in' (plan_of ch).next here ready (made ∙ k ∙ n) at
        (omega (arith, at, word))
      ∙ ap (λ (o : ℕ → ℕ → List ℤ). map to_s16 (take 256 (o ((plan_of ch).next % slots) 0))) out
      ∙ ap (λ xs. map to_s16 (take 256 xs)) (f 0 e has).1

  -- An iteration of the engine process, its ring being valid, has rendered a block, and the plugin is on a
  -- segment with slots and `produced` as the iteration left them, whatever else has changed since. Where
  -- that segment is ready and its clock, below 2 ^ 32, is its `depth` blocks beyond that block, the
  -- effect's callback hands the host, for 128 frames and whatever comes in, the output of the turn of
  -- engine 0 behind its own of the queued commands, each sample rounded to 16 bits.
  pub heard_effect :
      (us : ℕ → ℕ) (ch c : Child V) (e : Engine V) (bpm : Option ℕ) (in' : Instance) (s : Segment)
      (io : List ℤ)
      → Ring.IsValid ch.seg
      → iterate ops render us ch ≡ some (rendered c)
      → get_elem? ch.engines 0 ≡ some e
      → in'.seg ≡ some s
      → s.phase ≡ Phase.ready
      → s.produced ≡ c.seg.produced
      → s.out ≡ c.seg.out
      → s.host_block ≡ (plan_of ch).next + s.depth
      → s.host_block < 2 ^ 32
      → (process_block bpm in' io frames).0 ≡ map to_s16 (take 256 (new_block ch e))
  heard_effect us ch c e bpm in' s io v runs has here ready made out at word =
      let (_, n, k, _, f) = iterated us ch c v runs in
      late_heard s bpm in' io (plan_of ch).next here ready (made ∙ k ∙ n) at
        (omega (arith, at, word))
      ∙ ap (λ (o : ℕ → ℕ → List ℤ). map to_s16 (take 256 (o ((plan_of ch).next % slots) 0))) out
      ∙ ap (λ xs. map to_s16 (take 256 xs)) (f 0 e has).1
