-- ===== src/Child/Engine/Replayed.antt =====
-- What an engine makes of a replay: src/plugin/mnm_plugin.cpp (replay) seen from
-- src/child/mnm_engine.cpp (applyCmd).
use schwung_monomodule.Prelude.{
  ℕ, ◌+◌, ◌*◌, ◌/◌, ◌%◌, ◌≤◌, ◌<◌, ◌≡◌, ◌∙◌, refl, ap, true, List, [], ◌∷◌, ◌++◌, arith, length,
  ltb, if◌then◌else◌, lt→ltb, Bool-cases, inl, inr, All, foldl, u8,
}
use schwung_monomodule.Prelude.Int.{pos, clamp_0}
use schwung_monomodule.Shm.{Op, Cmd}
use schwung_monomodule.Plugin.Params.{Params}
use schwung_monomodule.Plugin.Params.Valid.{IsValid, IsRaw}
use schwung_monomodule.Plugin.Instance.{cmd, value_cmds, bpm_cmds, centi_bpm, replay_cmds}
use schwung_monomodule.Child.Engine.{
  VoiceOps, Engine, apply_cmd, apply_op, take_cmd, assign_machine,
}

pub foldl-append {ℓ κ} :
    {A : Type ℓ} {B : Type κ} (f : B → A → B) (xs ys : List A) (b : B)
    → foldl f b (xs ++ ys) ≡ foldl f (foldl f b xs) ys
foldl-append f [] ys b = refl
foldl-append f (x ∷ xs) ys b = foldl-append f xs ys (f b x)

clamp_byte : (x : ℕ) → x ≤ 127 → clamp_0 (pos x) 127 ≡ x
clamp_byte x h = ground (arith, h)

u8_byte : (x : ℕ) → x < 256 → u8 x ≡ x
u8_byte x h = ground (arith, h)

module _ {V : Type 0} (ops : VoiceOps V) where
  -- Takes a list of commands in order.
  unfoldable pub take_all : Engine V → List Cmd → Engine V
  take_all e cs = foldl (take_cmd ops) e cs

  -- Sets value `i`, `i + 1`, ... of pages of eight by `f`, a knob at a time.
  unfoldable pub set_values : (V → ℕ → ℕ → ℕ → V) → ℕ → List ℕ → V → V
  set_values f i [] v = v
  set_values f i (x ∷ xs) v = set_values f (i + 1) xs (f v (i / 8) (i % 8) x)

  -- The engine with another voice, and woken.
  abbrev awake : Engine V → V → Engine V
  awake e v = record e { voice = v; woken = true }

  -- `op` sets the knobs of `n` pages by `f`, without clamping a byte of a kit.
  abbrev IsSetter : Op → (V → ℕ → ℕ → ℕ → V) → ℕ → Type 0
  IsSetter op f n =
      (e : Engine V) (a b x : ℕ)
      → a < n
      → b < 8
      → x ≤ 127
      → apply_op ops e op a b (pos x) ≡ record e { voice = f e.voice a b x }

  set_param-IsSetter : IsSetter Op.set_param ops.set_param 4
  unfolding apply_op
  set_param-IsSetter e a b x h k l = rw (lt→ltb a 4 h, lt→ltb b 8 k, clamp_byte x l) refl

  set_lfo-IsSetter : IsSetter Op.set_lfo ops.set_lfo_param 3
  unfolding apply_op
  set_lfo-IsSetter e a b x h k l = rw (lt→ltb a 3 h, lt→ltb b 8 k, clamp_byte x l) refl

  module _ (op : Op) (f : V → ℕ → ℕ → ℕ → V) (n : ℕ) (small : n ≤ 4) (set : IsSetter op f n) where
    take_one :
        (x i : ℕ) (e : Engine V) (v : V)
        → i < 8 * n
        → x ≤ 127
        → take_cmd ops (awake e v) (cmd op (i / 8) (i % 8) (pos x))
          ≡ awake e (f v (i / 8) (i % 8) x)
    unfolding take_cmd apply_cmd
    take_one x i e v h k =
        rw (u8_byte (i / 8) (omega (arith, h, small)), u8_byte (i % 8) (omega arith))
          (ap (λ (z : Engine V). record z { woken = true })
            (set (awake e v) (i / 8) (i % 8) x (omega (arith, h)) (omega arith) k))

    take_values :
        (xs : List ℕ) (i : ℕ) (e : Engine V) (v : V)
        → i + length xs ≤ 8 * n
        → All IsRaw xs
        → take_all (awake e v) (value_cmds op i xs) ≡ awake e (set_values f i xs v)
    unfolding take_all value_cmds set_values
    take_values [] i e v h k = refl
    take_values (x ∷ xs) i e v h k =
        ap (λ z. foldl (take_cmd ops) z (value_cmds op (i + 1) xs))
          (take_one x i e v (omega (arith, h)) k.0)
        ∙ take_values xs (i + 1) e (f v (i / 8) (i % 8) x) (omega (arith, h)) k.1

    -- The same with commands behind the values.
    take_values-then :
        (xs : List ℕ) (cs : List Cmd) (e : Engine V) (v : V)
        → length xs ≤ 8 * n
        → All IsRaw xs
        → take_all (awake e v) (value_cmds op 0 xs ++ cs)
          ≡ take_all (awake e (set_values f 0 xs v)) cs
    unfolding take_all
    take_values-then xs cs e v h k =
        foldl-append (take_cmd ops) (value_cmds op 0 xs) cs (awake e v)
        ∙ ap (λ (z : Engine V). foldl (take_cmd ops) z cs)
            (take_values xs 0 e v (omega (arith, h)) k)

  take-machine :
      (e : Engine V) (m : ℕ)
      → m < 256
      → take_cmd ops e (cmd Op.set_machine m 0 (pos 0))
        ≡ awake (assign_machine ops e m) (assign_machine ops e m).voice
  unfolding take_cmd apply_cmd apply_op
  take-machine e m h = rw (u8_byte m h) refl

  take-level :
      (e : Engine V) (v : V) (l : ℕ)
      → l ≤ 127
      → take_cmd ops (awake e v) (cmd Op.set_level 0 0 (pos l)) ≡ awake e (ops.set_level v l)
  unfolding take_cmd apply_cmd apply_op
  take-level e v l h = rw (clamp_byte l h) refl

  take-bpm :
      (e : Engine V) (v : V) (bpm : ℕ)
      → take_all (awake e v) (bpm_cmds bpm)
        ≡ awake e (if ltb 0 bpm then ops.set_bpm v (pos (centi_bpm bpm)) else v)
  unfolding take_all take_cmd apply_cmd apply_op
  take-bpm e v bpm = elim (Bool-cases (ltb 0 bpm)) [ inl h ↦ rw h refl | inr h ↦ rw h refl ]

  -- What the voice is told at a machine change.
  abbrev entered : Engine V → ℕ → V
  entered e m = (assign_machine ops e m).voice

  -- The voice after a whole table has been set: the machine first, then the 32 page values, the 24
  -- LFO values, the level and the tempo.
  abbrev pub set_all : Params → ℕ → Engine V → V
  set_all p bpm e =
      let v = entered e p.machine in
      let pages = set_values ops.set_param 0 p.page v in
      let lfos = set_values ops.set_lfo_param 0 p.lfo pages in
      let leveled = ops.set_level lfos p.level in
      if ltb 0 bpm then ops.set_bpm leveled (pos (centi_bpm bpm)) else leveled

  -- An engine that takes the commands of a replay of a valid table ends with exactly that table:
  -- its machine is the table's, and its voice has been told, after the machine change, each of the 32
  -- page values and 24 LFO values with its page and knob, unclamped, then the level and the tempo.
  pub take_replay :
      (p : Params) (bpm : ℕ) (e : Engine V)
      → IsValid p
      → take_all e (replay_cmds p bpm)
        ≡ record (assign_machine ops e p.machine) { voice = set_all p bpm e; woken = true }
  unfolding replay_cmds take_all
  take_replay p bpm e v =
      let a = assign_machine ops e p.machine in
      ap (λ (z : Engine V). take_all z behind)
        (take-machine e p.machine (omega (arith, v.machine_in)))
      ∙ take_values-then Op.set_param ops.set_param 4 (omega arith) set_param-IsSetter p.page _ a
          a.voice (omega (arith, v.page_size)) v.page_raws
      ∙ take_values-then Op.set_lfo ops.set_lfo_param 3 (omega arith) set_lfo-IsSetter p.lfo _ a _
          (omega (arith, v.lfo_size)) v.lfo_raws
      ∙ ap (λ (z : Engine V). take_all z (bpm_cmds bpm)) (take-level a _ p.level v.level_in)
      ∙ take-bpm a _ bpm
    where
      behind : List Cmd
      behind =
          value_cmds Op.set_param 0 p.page
          ++ (value_cmds Op.set_lfo 0 p.lfo ++ (cmd Op.set_level 0 0 (pos p.level) ∷ bpm_cmds bpm))
