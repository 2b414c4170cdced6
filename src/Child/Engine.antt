-- ===== src/Child/Engine.antt =====
-- An engine of src/child/mnm_engine.cpp and what a command does to it: Engine, applyMachineRouting,
-- applyCmd.
pub mod Notes
pub mod Replayed
use schwung_monomodule.Prelude.{
  ℕ, zero, suc, Bool, true, false, not, ◌&&◌, ◌^◌, ◌-◌, List, [], ◌∷◌, ◌++◌, length, foldl, leb,
  ltb, ◌==◌, if◌then◌else◌, Option, none, some,
}
use schwung_monomodule.Prelude.Int.{ℤ, pos, negsuc, clamp_0}
use schwung_monomodule.Shm.{Op, Cmd}

-- What `applyCmd` calls of a voice, `MonoVoice` with its `host::HostModel`, and of upstream's machine
-- list. The last argument of `set_bpm` is the tempo in hundredths.
pub record VoiceOps (V : Type 0) : Type 0 where
  pub note_on : V → ℕ → V
  pub note_off : V → V
  pub set_machine : V → ℕ → V
  pub set_routing : V → ℕ → V
  pub set_param : V → ℕ → ℕ → ℕ → V
  pub set_lfo_param : V → ℕ → ℕ → ℕ → V
  pub set_level : V → ℕ → V
  pub set_bpm : V → ℤ → V
  pub reset : V → V
  pub is_fx_machine : ℕ → Bool
  pub inp_ab_bits : ℕ

-- `Engine`. `held_notes` lists the entries of the array below `held`, the oldest first.
pub record Engine (V : Type 0) : Type 0 where
  pub voice : V
  pub silent_blocks : ℕ
  pub parked : Bool
  pub muted_until_note : Bool
  pub woken : Bool
  pub machine : ℕ
  pub held_notes : List ℕ

abbrev pub max_held : ℕ
max_held = 16

-- The loop that closes up the held notes over every `a`.
unfoldable pub without : List ℕ → ℕ → List ℕ
without [] a = []
without (x ∷ xs) a = let rest = without xs a in if x == a then rest else x ∷ rest

-- `heldNotes[held - 1]`, where a note is held: the last of the list, or `o` where there is none.
unfoldable pub last_or : Option ℕ → List ℕ → Option ℕ
last_or o [] = o
last_or o (x ∷ xs) = last_or (some x) xs

abbrev pub current : List ℕ → Option ℕ
current notes = last_or none notes

abbrev pub is_current : List ℕ → ℕ → Bool
is_current notes a = elim (current notes) [ none ↦ false | some x ↦ x == a ]

-- `if (e.held < 16) e.heldNotes[e.held++] = c.a`
unfoldable pub hold : List ℕ → ℕ → List ℕ
unfolding without
hold notes a =
    let kept = without notes a in if ltb (length kept) max_held then kept ++ (a ∷ []) else kept

-- `uint32_t(c)`
abbrev pub word : ℤ → ℕ
word (pos m) = m
word (negsuc m) = 2 ^ 32 - suc m

module _ {V : Type 0} (ops : VoiceOps V) where
  unfoldable pub apply_machine_routing : Engine V → Engine V
  apply_machine_routing e =
      if ops.is_fx_machine e.machine
      then record e { voice = ops.note_on (ops.set_routing e.voice ops.inp_ab_bits) 60 }
      else record e { voice = ops.set_routing e.voice 0 }

  unfoldable pub press : Engine V → ℕ → Engine V
  press e a = record e {
    muted_until_note = false;
    held_notes = hold e.held_notes a;
    voice = ops.note_on e.voice a;
  }

  -- What the voice is told when note `a` goes up.
  unfoldable pub released : V → List ℕ → ℕ → V
  released v notes a = elim (current (without notes a)) [
    | none ↦ ops.note_off v
    | some x ↦ if is_current notes a then ops.note_on v x else v
  ]

  unfoldable pub release : Engine V → ℕ → Engine V
  release e a = record e {
    held_notes = without e.held_notes a;
    voice = if ops.is_fx_machine e.machine then e.voice else released e.voice e.held_notes a;
  }

  unfoldable pub release_all : Engine V → Engine V
  release_all e = record e {
    held_notes = [];
    voice = if ops.is_fx_machine e.machine then e.voice else ops.note_off e.voice;
  }

  abbrev pub is_idle : Engine V → Bool
  is_idle e = if ops.is_fx_machine e.machine then false else length e.held_notes == 0

  unfoldable pub assign_machine : Engine V → ℕ → Engine V
  assign_machine e m =
      let routed =
        apply_machine_routing (record e { machine = m; voice = ops.set_machine e.voice m }) in
      if is_idle routed
      then record routed { voice = ops.note_off routed.voice; muted_until_note = true }
      else routed

  unfoldable pub restart : Engine V → Engine V
  restart e = record e {
    voice = ops.reset e.voice;
    held_notes = [];
    muted_until_note = not (ops.is_fx_machine e.machine);
  }

  unfoldable pub apply_op : Engine V → Op → ℕ → ℕ → ℤ → Engine V
  apply_op e Op.nop a b c = e
  apply_op e Op.note_on a b c = press e a
  apply_op e Op.note_off a b c = release e a
  apply_op e Op.all_notes_off a b c = release_all e
  apply_op e Op.set_machine a b c = assign_machine e a
  apply_op e Op.set_param a b c =
      if ltb a 4 && ltb b 8
      then record e { voice = ops.set_param e.voice a b (clamp_0 c 127) }
      else e
  apply_op e Op.set_lfo a b c =
      if ltb a 3 && ltb b 8
      then record e { voice = ops.set_lfo_param e.voice a b (clamp_0 c 127) }
      else e
  apply_op e Op.set_level a b c = record e { voice = ops.set_level e.voice (clamp_0 c 127) }
  apply_op e Op.set_bpm a b c = record e { voice = ops.set_bpm e.voice c }
  apply_op e Op.set_routing a b c = record e { voice = ops.set_routing e.voice (word c) }
  apply_op e Op.reset a b c = restart e

  unfoldable pub apply_cmd : Engine V → Cmd → Engine V
  apply_cmd e c = apply_op e c.op c.a c.b c.c

  -- The body of the command loop for an engine: `applyCmd(...); woken = true`.
  unfoldable pub take_cmd : Engine V → Cmd → Engine V
  take_cmd e c = record (apply_cmd e c) { woken = true }
