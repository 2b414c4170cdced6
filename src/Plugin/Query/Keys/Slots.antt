-- ===== src/Plugin/Query/Keys/Slots.antt =====
-- What is read of a slot after a write (rawSlot of src/plugin/mnm_plugin.cpp).
use schwung_monomodule.Prelude.{
  ℕ, zero, suc, ◌<◌, ◌≡◌, ◌∙◌, refl, ap, true, false, Option, none, some, List, [], ◌∷◌, arith,
  length, get_or, set, leb, ltb, ◌==◌, Bool-cases, ltb→lt, inl, inr,
}
use schwung_monomodule.Prelude.Int.{ℤ, pos, negsuc, is_pos}
use schwung_monomodule.Ui.{Tables, ParamDef, max_machine_id}
use schwung_monomodule.Plugin.Params.{
  Params, Slot, page_cell, lfo_cell, other, raw_slot, other_slot, remember, read_slot, write_slot,
}
use schwung_monomodule.Plugin.Params.Valid
use schwung_monomodule.Plugin.Params.Valid.{IsRaw, Found, raw_slot-Found, IsSlot, AnswersSlot}

get_or-set {ℓ} :
    {A : Type ℓ} (xs : List A) (i : ℕ) (v d : A) → i < length xs → get_or (set xs i v) i d ≡ v
get_or-set [] i v d h = absurd (omega (arith, h))
get_or-set (x ∷ xs) zero v d h = refl
get_or-set (x ∷ xs) (suc i) v d h = get_or-set xs i v d (omega (arith, h))

-- A cell inside the table holds what was written.
pub read_slot-write_slot :
    (p : Params) (s : Slot) (v : ℕ)
    → Valid.IsValid p
    → IsSlot s
    → read_slot (write_slot p s v) s ≡ v
unfolding read_slot write_slot
read_slot-write_slot p (page_cell i) v h k = get_or-set p.page i v 0 (omega (arith, k, h.page_size))
read_slot-write_slot p (lfo_cell i) v h k = get_or-set p.lfo i v 0 (omega (arith, k, h.lfo_size))
read_slot-write_slot p (other m i) v h k =
    rw
      (get_or-set p.syn_mem m (set (get_or p.syn_mem m []) i v) [] (omega (arith, k.0, h.mem_size)))
      (get_or-set (get_or p.syn_mem m []) i v 0
        (omega (arith, k.1, (Valid.syn_mem-IsRow h m k.0).size)))

-- Asked again after a write, `rawSlot` answers the same slot, and sets nothing to a default.
abbrev pub IsAgain : Tables → ParamDef → Option Slot × Params → Type 0
IsAgain t d (none, q) = Unit {0}
IsAgain t d (some s, q) = (v : ℕ) → raw_slot t (write_slot q s v) d ≡ (some s, write_slot q s v)

remembered :
    (t : Tables) (p : Params) (m : ℕ)
    → Valid.IsValid p
    → m < max_machine_id
    → get_or (remember t p m).syn_mem_set m false ≡ true
unfolding remember
remembered t p m h k = elim (Bool-cases (get_or p.syn_mem_set m false)) [
  | inl e ↦ rw e e
  | inr e ↦ rw e (get_or-set p.syn_mem_set m true false (omega (arith, k, h.set_size)))
]

pub remember-machine : (t : Tables) (p : Params) (m : ℕ) → (remember t p m).machine ≡ p.machine
unfolding remember
remember-machine t p m = elim (Bool-cases (get_or p.syn_mem_set m false)) [
  | inl e ↦ rw e refl
  | inr e ↦ rw e refl
]

-- A remembered value of another machine.
raw_slot-other :
    (t : Tables) (q : Params) (d : ParamDef) (m : ℕ)
    → d.page == 0 ≡ true
    → is_pos d.machine q.machine ≡ false
    → d.machine ≡ pos m
    → ltb m max_machine_id ≡ true
    → get_or q.syn_mem_set m false ≡ true
    → raw_slot t q d ≡ (some (other m d.index), q)
unfolding raw_slot other_slot remember
raw_slot-other t q d m e f g l k = rw (e, f) (ap (other_slot t q d.index) g ∙ rw (l, k) refl)

other-IsAgain :
    (t : Tables) (p : Params) (d : ParamDef) (m : ℤ)
    → Valid.IsValid p
    → d.page == 0 ≡ true
    → is_pos d.machine p.machine ≡ false
    → d.machine ≡ m
    → IsAgain t d (other_slot t p d.index m)
unfolding other_slot write_slot
other-IsAgain t p d (negsuc m) h e f g = tt
other-IsAgain t p d (pos m) h e f g = elim (Bool-cases (ltb m max_machine_id)) [
  | inr l ↦ rw l tt
  | inl l ↦ rw l (λ v.
      raw_slot-other t (write_slot (remember t p m) (other m d.index) v) d m e
        (ap (is_pos d.machine) (remember-machine t p m) ∙ f) g l
        (remembered t p m h (ltb→lt m max_machine_id l)))
]

pub raw_slot-IsAgain :
    (t : Tables) (p : Params) (d : ParamDef) → Valid.IsValid p → IsAgain t d (raw_slot t p d)
unfolding raw_slot write_slot
raw_slot-IsAgain t p d h = elim (Bool-cases (d.page == 0)) [
  | inl e ↦ elim (Bool-cases (is_pos d.machine p.machine)) [
    | inl f ↦ rw (e, f) (λ v. rw (e, f) refl)
    | inr f ↦ rw (e, f) (other-IsAgain t p d d.machine h e f refl)
  ]
  | inr e ↦ elim (Bool-cases (leb d.page 3)) [
    | inl f ↦ rw (e, f) (λ v. rw (e, f) refl)
    | inr f ↦ rw (e, f) (λ v. rw (e, f) refl)
  ]
]
