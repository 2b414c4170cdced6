-- ===== src/Child/Engine/Notes.antt =====
-- The held notes of src/child/mnm_engine.cpp (applyCmd): mono, last-note priority.
use schwung_monomodule.Prelude.{
  ℕ, ◌≤◌, ◌<◌, ◌≡◌, ◌≢◌, ◌⊎◌, ◌∙◌, refl, sym, ap, Bool, true, false, Option, none, some, List, [],
  ◌∷◌, ◌++◌, arith, length, ltb, ◌==◌, ◌&&◌, ==_iff, if◌then◌else◌, lt→ltb, Bool-cases, inl, inr,
  length-append, All, All-append,
}
use schwung_monomodule.Prelude.Int.{ℤ}
use schwung_monomodule.Shm.{Op, Cmd}
use schwung_monomodule.Child.Engine.{
  VoiceOps, Engine, max_held, without, current, last_or, is_current, hold, press, release, released,
  release_all, apply_op, apply_cmd, assign_machine, apply_machine_routing, restart,
}

==_ne : (x a : ℕ) → x == a ≡ false → x ≢ a
==_ne x a h e = let t = (==_iff x a).1 e in cc

-- No note twice.
abbrev pub IsFresh : List ℕ → Type 0
IsFresh [] = Unit
IsFresh (x ∷ xs) = All (λ y. y ≢ x) xs × IsFresh xs

length-without : (xs : List ℕ) (a : ℕ) → length (without xs a) ≤ length xs
unfolding without
length-without [] a = omega arith
length-without (x ∷ xs) a = elim (Bool-cases (x == a)) [
  | inl e ↦ rw e (omega (arith, length-without xs a))
  | inr e ↦ rw e (omega (arith, length-without xs a))
]

All-without : (P : ℕ → Type 0) (xs : List ℕ) (a : ℕ) → All P xs → All P (without xs a)
unfolding without
All-without P [] a h = tt
All-without P (x ∷ xs) a h = elim (Bool-cases (x == a)) [
  | inl e ↦ rw e (All-without P xs a h.1)
  | inr e ↦ rw e (h.0, All-without P xs a h.1)
]

without-ne : (xs : List ℕ) (a : ℕ) → All (λ y. y ≢ a) (without xs a)
unfolding without
without-ne [] a = tt
without-ne (x ∷ xs) a = elim (Bool-cases (x == a)) [
  | inl e ↦ rw e (without-ne xs a)
  | inr e ↦ rw e (==_ne x a e, without-ne xs a)
]

without-IsFresh : (xs : List ℕ) (a : ℕ) → IsFresh xs → IsFresh (without xs a)
unfolding without
without-IsFresh [] a h = tt
without-IsFresh (x ∷ xs) a h = elim (Bool-cases (x == a)) [
  | inl e ↦ rw e (without-IsFresh xs a h.1)
  | inr e ↦ rw e (All-without _ xs a h.0, without-IsFresh xs a h.1)
]

snoc-IsFresh : (xs : List ℕ) (a : ℕ) → All (λ y. y ≢ a) xs → IsFresh xs → IsFresh (xs ++ (a ∷ []))
snoc-IsFresh [] a n h = (tt, tt)
snoc-IsFresh (x ∷ xs) a n h =
    (All-append _ xs (a ∷ []) h.0 ((λ e. n.0 (sym e)), tt), snoc-IsFresh xs a n.1 h.1)

-- What `heldNotes` and `held` keep: at most 16 notes, none of them twice.
pub record IsHeld (notes : List ℕ) : Type 0 where
  pub bound : length notes ≤ max_held
  pub fresh : IsFresh notes

pub without-IsHeld : (xs : List ℕ) (a : ℕ) → IsHeld xs → IsHeld (without xs a)
without-IsHeld xs a h = record {
  bound = omega (arith, length-without xs a, h.bound);
  fresh = without-IsFresh xs a h.fresh;
}

pub hold-IsHeld : (xs : List ℕ) (a : ℕ) → IsHeld xs → IsHeld (hold xs a)
unfolding hold
hold-IsHeld xs a h = elim (Bool-cases (ltb (length (without xs a)) max_held)) [
  | inl e ↦ rw e (record {
    bound = ground (arith, length-append (without xs a) (a ∷ []));
    fresh = snoc-IsFresh (without xs a) a (without-ne xs a) (without-IsFresh xs a h.fresh);
  })
  | inr e ↦ rw e (without-IsHeld xs a h)
]

-- The last note held.
pub last_or-snoc : (o : Option ℕ) (xs : List ℕ) (a : ℕ) → last_or o (xs ++ (a ∷ [])) ≡ some a
unfolding last_or
last_or-snoc o [] a = refl
last_or-snoc o (x ∷ xs) a = last_or-snoc (some x) xs a

-- Taking out a note that is not the last leaves the last one.
last_or-without :
    (o o' : Option ℕ) (xs : List ℕ) (a : ℕ)
    → (o ≡ o') ⊎ (o ≡ some a)
    → last_or o xs ≢ some a
    → last_or o' (without xs a) ≡ last_or o xs
unfolding last_or without
last_or-without o o' [] a (inl e) n = sym e
last_or-without o o' [] a (inr e) n = elim (n e) [ ]
last_or-without o o' (x ∷ xs) a h n = elim (Bool-cases (x == a)) [
  | inl e ↦ rw e (last_or-without (some x) o' xs a (inr (ap some ((==_iff x a).0 e))) n)
  | inr e ↦ rw e (last_or-without (some x) (some x) xs a (inl refl) n)
]

pub current-without :
    (xs : List ℕ) (a : ℕ) → is_current xs a ≡ false → current (without xs a) ≡ current xs
current-without xs a h = last_or-without none none xs a (inl refl) (differs (current xs) h)
  where
    differs :
        (o : Option ℕ)
        → let r : Bool = elim o [ none ↦ false | some x ↦ x == a ] in r ≡ false → o ≢ some a
    differs none h e = cc
    differs (some x) h e = ==_ne x a h (cc)

-- A voice as the notes drive it: the note that sounds, where one does.
pub record Gated {V : Type 0} (ops : VoiceOps V) (gate : V → Option ℕ) : Type 0 where
  pub on : (v : V) (n : ℕ) → gate (ops.note_on v n) ≡ some n
  pub off : (v : V) → gate (ops.note_off v) ≡ none

module _ {V : Type 0} (ops : VoiceOps V) (gate : V → Option ℕ) (g : Gated ops gate) where
  released-gate :
      (v : V) (notes : List ℕ) (a : ℕ)
      → gate v ≡ current notes
      → gate (released ops v notes a) ≡ current (without notes a)
  unfolding released
  released-gate v notes a h =
      sounds (current (without notes a)) (is_current notes a)
        (λ e. h ∙ sym (current-without notes a e))
    where
      sounds :
          (o : Option ℕ) (b : Bool)
          → (b ≡ false → gate v ≡ o)
          → gate (elim o [ none ↦ ops.note_off v | some x ↦ if b then ops.note_on v x else v ]) ≡ o
      sounds none b k = g.off v
      sounds (some x) true k = g.on v x
      sounds (some x) false k = k refl

  -- The note that sounds is the last one held.
  abbrev pub IsSounding : Engine V → Type 0
  IsSounding e = gate e.voice ≡ current e.held_notes

  press-IsSounding :
      (e : Engine V) (a : ℕ) → length e.held_notes < max_held → IsSounding (press ops e a)
  unfolding press hold
  press-IsSounding e a room =
      rw
        (lt→ltb (length (without e.held_notes a)) max_held
          (omega (arith, length-without e.held_notes a, room)))
        (g.on e.voice a ∙ sym (last_or-snoc none (without e.held_notes a) a))

  release-IsSounding :
      (e : Engine V) (a : ℕ)
      → ops.is_fx_machine e.machine ≡ false
      → IsSounding e
      → IsSounding (release ops e a)
  unfolding release
  release-IsSounding e a synth h = rw synth (released-gate e.voice e.held_notes a h)

  release_all-IsSounding :
      (e : Engine V) → ops.is_fx_machine e.machine ≡ false → IsSounding (release_all ops e)
  unfolding release_all last_or
  release_all-IsSounding e synth = rw synth (g.off e.voice)

  -- A note-on, a note-off or all notes off.
  abbrev pub IsNoteOp : Op → Type 0
  IsNoteOp Op.note_on = Unit
  IsNoteOp Op.note_off = Unit
  IsNoteOp Op.all_notes_off = Unit
  IsNoteOp _ = ⊥

  -- On a generator machine with fewer than 16 notes held, whose voice sounds the last of them, a
  -- note command leaves the voice sounding the last note that is still held, and nothing where
  -- none is: releasing the newest note goes back to the one before it, releasing an older one
  -- changes nothing.
  pub apply_cmd-IsSounding :
      (e : Engine V) (c : Cmd)
      → IsNoteOp c.op
      → ops.is_fx_machine e.machine ≡ false
      → length e.held_notes < max_held
      → IsSounding e
      → IsSounding (apply_cmd ops e c)
  unfolding apply_cmd apply_op
  apply_cmd-IsSounding e c k synth room h = noted c.op k
    where
      noted : (op : Op) → IsNoteOp op → IsSounding (apply_op ops e op c.a c.b c.c)
      noted Op.note_on k = press-IsSounding e c.a room
      noted Op.note_off k = release-IsSounding e c.a synth h
      noted Op.all_notes_off k = release_all-IsSounding e synth
      noted Op.nop k = elim k [ ]
      noted Op.set_machine k = elim k [ ]
      noted Op.set_param k = elim k [ ]
      noted Op.set_lfo k = elim k [ ]
      noted Op.set_level k = elim k [ ]
      noted Op.set_bpm k = elim k [ ]
      noted Op.set_routing k = elim k [ ]
      noted Op.reset k = elim k [ ]

-- No command, valid or not, breaks the list of held notes.
module _ {V : Type 0} (ops : VoiceOps V) where
  assign_machine-held : (e : Engine V) (m : ℕ) → (assign_machine ops e m).held_notes ≡ e.held_notes
  unfolding assign_machine apply_machine_routing
  assign_machine-held e m = ground arith

  apply_op-IsHeld :
      (e : Engine V) (op : Op) (a b : ℕ) (c : ℤ)
      → IsHeld e.held_notes
      → IsHeld (apply_op ops e op a b c).held_notes
  unfolding apply_op press release release_all restart
  apply_op-IsHeld e Op.note_on a b c h = hold-IsHeld e.held_notes a h
  apply_op-IsHeld e Op.note_off a b c h = without-IsHeld e.held_notes a h
  apply_op-IsHeld e Op.all_notes_off a b c h = record { bound = omega arith; fresh = tt }
  apply_op-IsHeld e Op.set_machine a b c h = rw (assign_machine-held e a) h
  apply_op-IsHeld e Op.set_param a b c h = elim (Bool-cases (ltb a 4 && ltb b 8)) [
    | inl q ↦ rw q h
    | inr q ↦ rw q h
  ]
  apply_op-IsHeld e Op.set_lfo a b c h = elim (Bool-cases (ltb a 3 && ltb b 8)) [
    | inl q ↦ rw q h
    | inr q ↦ rw q h
  ]
  apply_op-IsHeld e Op.reset a b c h = record { bound = omega arith; fresh = tt }
  apply_op-IsHeld e Op.nop a b c h = h
  apply_op-IsHeld e Op.set_level a b c h = h
  apply_op-IsHeld e Op.set_bpm a b c h = h
  apply_op-IsHeld e Op.set_routing a b c h = h

  -- After every command, whatever its bytes, the notes held are still at most 16 and no note is
  -- held twice: the writes to `heldNotes` stay inside the array.
  pub apply_cmd-IsHeld :
      (e : Engine V) (c : Cmd) → IsHeld e.held_notes → IsHeld (apply_cmd ops e c).held_notes
  unfolding apply_cmd
  apply_cmd-IsHeld e c h = apply_op-IsHeld e c.op c.a c.b c.c h
