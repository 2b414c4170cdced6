-- ===== src/Plugin/Audio/Ticked.antt =====
-- What tick of src/plugin/mnm_plugin.cpp leaves of the segment: its phase, clock, depth and slots.
use schwung_monomodule.Prelude.{
  ℕ, ◌+◌, ◌%◌, ◌≡◌, refl, sym, ap, subst, Bool, true, false, not, ◌&&◌, Option, none, some, List,
  [], ◌∷◌, ltb, leb, ◌==◌, if◌then◌else◌, u32, Bool-cases, inl, inr, update, sub32,
}
use schwung_monomodule.Prelude.Int.{pos}
use schwung_monomodule.Shm.{Segment, Op, Cmd, push_cmd, cmd_slots}
use schwung_monomodule.Plugin.Instance.{Instance, cmd, push, push_all, replay, centi_bpm}
use schwung_monomodule.Plugin.Audio.{is_ready, differs, replay_once, follow_tempo, tick}

-- The instance has the segment `s`, but for the commands pushed since.
pub record Keeps (s : Segment) (in' : Instance) : Type 0 where
  pub seg : Segment
  pub here : in'.seg ≡ some seg
  pub phase : seg.phase ≡ s.phase
  pub host_block : seg.host_block ≡ s.host_block
  pub produced : seg.produced ≡ s.produced
  pub depth : seg.depth ≡ s.depth
  pub out : seg.out ≡ s.out

unticked : (s : Segment) (in' : Instance) → in'.seg ≡ some s → Keeps s in'
unticked s in' e = record {
  seg = s;
  here = e;
  phase = refl;
  host_block = refl;
  produced = refl;
  depth = refl;
  out = refl;
}

abbrev pushed : Segment → Cmd → Bool → Bool × Segment
pushed t c full = if full then (false, t) else (
  true,
  record t { cmds = update t.cmds (t.cmd_write % cmd_slots) c; cmd_write = u32 (t.cmd_write + 1) },
)

-- A push changes the ring alone.
queued :
    (s t : Segment) (in' : Instance) (c : Cmd) (b : Bool)
    → in'.seg ≡ some (pushed t c b).1
    → t.phase ≡ s.phase
    → t.host_block ≡ s.host_block
    → t.produced ≡ s.produced
    → t.depth ≡ s.depth
    → t.out ≡ s.out
    → Keeps s in'
queued s t in' c true e h i j k l = record {
  seg = t;
  here = e;
  phase = h;
  host_block = i;
  produced = j;
  depth = k;
  out = l;
}
queued s t in' c false e h i j k l = record {
  seg = _;
  here = e;
  phase = h;
  host_block = i;
  produced = j;
  depth = k;
  out = l;
}

push-Keeps : (s : Segment) (in' : Instance) (c : Cmd) → Keeps s in' → Keeps s (push in' c)
unfolding push push_cmd
push-Keeps s in' c h =
    queued s h.seg (push in' c) c (leb cmd_slots (sub32 h.seg.cmd_write h.seg.cmd_read))
      (ap
        (λ o.
          (elim o as (λ _. Instance) [
            | none ↦ in'
            | some t ↦ record in' { seg = some (push_cmd t c).1 }
          ]).seg)
        h.here)
      h.phase h.host_block h.produced h.depth h.out

push_all-Keeps :
    (s : Segment) (in' : Instance) (cs : List Cmd) → Keeps s in' → Keeps s (push_all in' cs)
unfolding push_all
push_all-Keeps s in' [] h = h
push_all-Keeps s in' (c ∷ cs) h = push_all-Keeps s (push in' c) cs (push-Keeps s in' c h)

replay_once-Keeps : (s t : Segment) (in' : Instance) → Keeps s in' → Keeps s (replay_once in' t)
unfolding replay_once replay
replay_once-Keeps s t in' h =
    elim (Bool-cases (not (in'.seg_gen == in'.replayed_gen) && is_ready t.phase)) [
      | inl e ↦ rw e (push_all-Keeps s _ _ (regen h))
      | inr e ↦ rw e h
    ]
  where
    regen : Keeps s in' → Keeps s (record in' { replayed_gen = in'.seg_gen })
    regen k = record {
      seg = k.seg;
      here = k.here;
      phase = k.phase;
      host_block = k.host_block;
      produced = k.produced;
      depth = k.depth;
      out = k.out;
    }

follow_tempo-Keeps :
    (s : Segment) (bpm : Option ℕ) (in' : Instance) → Keeps s in' → Keeps s (follow_tempo bpm in')
unfolding follow_tempo
follow_tempo-Keeps s none in' h = h
follow_tempo-Keeps s (some bpm) in' h =
    sent (u32 (in'.bpm_tick + 1) % 64 == 0 && (ltb 0 bpm && differs bpm in'.last_bpm))
  where
    at_tick : (n m : ℕ) → Keeps s (record in' { bpm_tick = n; last_bpm = m })
    at_tick n m = record {
      seg = h.seg;
      here = h.here;
      phase = h.phase;
      host_block = h.host_block;
      produced = h.produced;
      depth = h.depth;
      out = h.out;
    }

    sent :
        (b : Bool)
        → Keeps s (
            if b
            then push
                (record in' { bpm_tick = u32 (in'.bpm_tick + 1); last_bpm = bpm })
                (cmd Op.set_bpm 0 0 (pos (centi_bpm bpm)))
            else record in' { bpm_tick = u32 (in'.bpm_tick + 1) })
    sent true = push-Keeps s _ _ (at_tick _ bpm)
    sent false = at_tick _ in'.last_bpm

pub tick-Keeps :
    (s : Segment) (bpm : Option ℕ) (in' : Instance) → in'.seg ≡ some s → Keeps s (tick bpm in')
unfolding tick
tick-Keeps s bpm in' e =
    subst
      (λ (o : Option Segment).
        Keeps s (elim o as (λ _. Instance) [
          | none ↦ in'
          | some t ↦ follow_tempo bpm (replay_once in' t)
        ]))
      (sym e) (follow_tempo-Keeps s bpm _ (replay_once-Keeps s s in' (unticked s in' e)))
