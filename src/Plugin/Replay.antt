-- ===== src/Plugin/Replay.antt =====
-- What a replay leaves in the command ring (replay, switchMachine of src/plugin/mnm_plugin.cpp).
use schwung_monomodule.Prelude.{
  ℕ, suc, ◌+◌, ◌≤◌, ◌<◌, ◌≡◌, refl, sym, ap, subst, ◌∙◌, some, List, [], ◌∷◌, ◌++◌, arith, length,
  length-append, append-nil, append_assoc,
}
use schwung_monomodule.Prelude.Int.{pos}
use schwung_monomodule.Shm.{Op, Cmd, Segment, cmd_slots, push_cmd}
use schwung_monomodule.Shm.Ring
use schwung_monomodule.Shm.Ring.{contents, push_cmd-IsValid, push_cmd-room}
use schwung_monomodule.Plugin.Params.{Params}
use schwung_monomodule.Plugin.Params.Valid.{IsValid}
use schwung_monomodule.Plugin.Instance.{
  Instance, cmd, push, push_all, value_cmds, bpm_cmds, replay_cmds, replay,
}

-- A published segment with a valid ring that holds `q`.
pub record Queued (in' : Instance) (q : List Cmd) : Type 0 where
  pub segment : Segment
  pub published : in'.seg ≡ some segment
  pub valid : Ring.IsValid segment
  pub holds : contents segment ≡ q

push-Queued :
    {in' : Instance} {q : List Cmd} (c : Cmd)
    → length q < cmd_slots
    → Queued in' q
    → Queued (push in' c) (q ++ (c ∷ []))
unfolding push
push-Queued {in'} {q} c h v = rw v.published (record {
  segment = (push_cmd v.segment c).1;
  published = refl;
  valid = push_cmd-IsValid c v.valid;
  holds =
      push_cmd-room c v.valid (subst (λ l. length l < cmd_slots) (sym v.holds) h)
      ∙ ap (λ l. l ++ (c ∷ [])) v.holds;
})

pub push_all-Queued :
    (cs : List Cmd) {in' : Instance} {q : List Cmd}
    → length q + length cs ≤ cmd_slots
    → Queued in' q
    → Queued (push_all in' cs) (q ++ cs)
unfolding push_all
push_all-Queued [] {in'} {q} h v = subst (λ l. Queued in' l) (sym (append-nil q)) v
push_all-Queued (c ∷ cs) {in'} {q} h v =
    subst (λ l. Queued (push_all (push in' c) cs) l) (append_assoc q (c ∷ []) cs)
      (push_all-Queued cs (omega (arith, length-append q (c ∷ []))) (push-Queued c (omega arith) v))

length-value_cmds : (op : Op) (i : ℕ) (xs : List ℕ) → length (value_cmds op i xs) ≡ length xs
unfolding value_cmds
length-value_cmds op i [] = refl
length-value_cmds op i (x ∷ xs) = ap suc (length-value_cmds op (i + 1) xs)

length-bpm_cmds : (bpm : ℕ) → length (bpm_cmds bpm) ≤ 1
length-bpm_cmds bpm = ground arith

-- A replay of a valid table is 58 commands, or 59 with a tempo.
pub replay_size : {p : Params} (bpm : ℕ) → IsValid p → length (replay_cmds p bpm) ≤ 59
unfolding replay_cmds
replay_size {p} bpm v = omega (
  arith,
  length-append (value_cmds Op.set_param 0 p.page) _,
  length-append (value_cmds Op.set_lfo 0 p.lfo) (cmd Op.set_level 0 0 (pos p.level) ∷ bpm_cmds bpm),
  length-value_cmds Op.set_param 0 p.page,
  length-value_cmds Op.set_lfo 0 p.lfo,
  length-bpm_cmds bpm,
  v.page_size,
  v.lfo_size,
)

-- Where the ring has room for 59 commands, `replay` of a valid table queues `replay_cmds` of the table
-- behind what is there.
pub replay_lem :
    {in' : Instance} {q : List Cmd}
    → IsValid in'.params
    → Queued in' q
    → length q + 59 ≤ cmd_slots
    → Queued (replay in') (q ++ replay_cmds in'.params in'.last_bpm)
unfolding replay
replay_lem {in'} v h room =
    push_all-Queued (replay_cmds in'.params in'.last_bpm)
      (omega (arith, replay_size in'.last_bpm v)) h
