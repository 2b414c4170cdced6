-- ===== src/Plugin/Query/Keys.antt =====
-- What is read back of an instance (getParam after setParam, src/plugin/mnm_plugin.cpp).
mod Slots
use schwung_monomodule.Prelude.{
  ℕ, suc, ◌≡◌, ◌≢◌, ◌∙◌, refl, ap, ap₂, subst, Bool, true, false, ◌&&◌, Option, none, some, List,
  [], ◌∷◌, arith, leb, ltb, ◌==◌, if◌then◌else◌, All, Answers-some, Bool-cases, Option-cases, inl,
  inr,
}
use schwung_monomodule.Prelude.Int.{ℤ, pos, negsuc, is_pos}
use schwung_monomodule.Text.{Bytes, codes, same, base_name}
use schwung_monomodule.Shm.{Cmd}
use schwung_monomodule.Ui.{Tables, IsTables, IsDef, ParamDef, max_machine_id}
use schwung_monomodule.Plugin.Params.{
  Params, Slot, page_cell, lfo_cell, other, raw_slot, other_slot, read_slot, write_slot,
}
use schwung_monomodule.Plugin.Params.Valid
use schwung_monomodule.Plugin.Params.Valid.{raw_slot-Found, AnswersSlot}
use schwung_monomodule.Plugin.Convert.{map_some, ReadDouble, find_def, to_raw, from_raw}
use schwung_monomodule.Plugin.Instance.{Instance, push, arm_replan}
use schwung_monomodule.Plugin.Entry.{
  set_param, set_key, set_other, set_row, store_value, send_value, is_other_machine,
}
use schwung_monomodule.Plugin.Entry.Sounds.{IsValid}
use schwung_monomodule.Plugin.Entry.Lookup.{find_def-IsDef}
use schwung_monomodule.Plugin.Template.{Texts}
use schwung_monomodule.Plugin.Query.{
  Answer, snprint, get_param, get_key, get_fixed, get_status, get_other, get_row,
}
use schwung_monomodule.Plugin.Query.Keys.Slots.{
  read_slot-write_slot, IsAgain, remember-machine, raw_slot-IsAgain,
}

-- Keys that `setParam` or `getParam` knows by themselves.
abbrev reserved : List Bytes
reserved =
    codes "state"
    ∷ codes "preset"
    ∷ codes "machine"
    ∷ codes "level"
    ∷ codes "depth"
    ∷ codes "ui_hierarchy"
    ∷ codes "chain_params"
    ∷ codes "is_loading"
    ∷ codes "preset_count"
    ∷ codes "preset_name"
    ∷ codes "load"
    ∷ codes "peak"
    ∷ codes "status"
    ∷ []

abbrev pub IsOrdinary : Bytes → Type 0
IsOrdinary k = All (λ r. same k r ≡ false) reserved

module _ (t : Tables) (k : Bytes) (o : IsOrdinary k) where
  set_key-ordinary :
      (read : ReadDouble) (now : ℕ) (in' : Instance) (val : Bytes)
      → set_key t read now in' k val ≡ set_other t read now in' k val
  unfolding set_key
  set_key-ordinary read now in' val =
      let (state, (preset, (machine, (level, (depth, _))))) = o in
      rw (state, preset, machine, level, depth) refl

  get_fixed-ordinary :
      (x : Texts) (now : ℕ) (in' : Instance) (len : ℕ) → get_fixed t x now in' len k ≡ none
  unfolding get_fixed
  get_fixed-ordinary x now in' len =
      let (
        state,
        (
          preset,
          (machine, (level, (depth, (ui, (chain, (loading, (count, (name, (load, (peak, _)))))))))),
        ),
      ) =
        o in
      rw (state, ui, chain, loading, machine, level, preset, count, name, depth, load, peak) refl

  get_key-ordinary :
      (x : Texts) (now : ℕ) (in' : Instance) (len : ℕ)
      → get_key t x now in' len k ≡ get_other t in' len k
  unfolding get_key
  get_key-ordinary x now in' len =
      let (_, (_, (_, (_, (_, (_, (_, (_, (_, (_, (_, (_, (status, _))))))))))))) = o in
      ap
        (λ (z : Option (Option Answer)). (elim z as (λ _. Option Answer × Instance) [
          | some a ↦ (a, in')
          | none ↦ if same k (codes "status") then get_status in' len else get_other t in' len k
        ]))
        (get_fixed-ordinary x now in' len)
      ∙ rw status refl

module _ (t : Tables) (k : Bytes) (d : ParamDef) (e : find_def t.defs k ≡ some d) where
  set_other-found :
      (read : ReadDouble) (now : ℕ) (in' : Instance) (val : Bytes)
      → set_other t read now in' k val ≡ set_row t read now in' d val
  unfolding set_other
  set_other-found read now in' val =
      ap (λ (o : Option ParamDef). (elim o [ none ↦ in' | some d ↦ set_row t read now in' d val ]))
        e

  get_other-found : (in' : Instance) (len : ℕ) → get_other t in' len k ≡ get_row t in' len d
  unfolding get_other
  get_other-found in' len =
      ap
        (λ (o : Option ParamDef). (elim o as (λ _. Option Answer × Instance) [
          | none ↦ (none, in')
          | some d ↦ get_row t in' len d
        ]))
        e

push-params : (in' : Instance) (c : Cmd) → (push in' c).params ≡ in'.params
unfolding push
push-params in' c = ground arith

send_value-params :
    (d : ParamDef) (raw : ℕ) (in' : Instance) → (send_value d raw in').params ≡ in'.params
unfolding send_value
send_value-params d raw in' = elim (Bool-cases (leb d.page 3)) [
  | inl e ↦ rw e (push-params in' _)
  | inr e ↦ rw e (push-params in' _)
]

-- The table after a value was stored: nothing on the way to the engine changes it.
store_value-params :
    (t : Tables) (now : ℕ) (in' : Instance) (d : ParamDef) (raw : ℕ) (s : Slot) (p : Params)
    → (store_value t now in' d raw (some s, p)).params ≡ write_slot p s raw
unfolding store_value
store_value-params t now in' d raw s p =
    sent _ ∙ planned (t.compat && (leb 4 d.page && d.index == 0))
  where
    sent :
        (j : Instance)
        → (if is_other_machine d j.params then j else send_value d raw j).params ≡ j.params
    sent j = chosen (is_other_machine d j.params)
      where
        chosen : (b : Bool) → (if b then j else send_value d raw j).params ≡ j.params
        chosen true = refl
        chosen false = send_value-params d raw j

    planned :
        (b : Bool)
        → (if b
            then arm_replan now (record in' { params = write_slot p s raw })
            else record in' { params = write_slot p s raw }).params
          ≡ write_slot p s raw
    planned true = refl
    planned false = refl

-- What is read of a row in a table where its slot holds `raw`.
get_row-reads :
    (t : Tables) (in' : Instance) (len : ℕ) (d : ParamDef) (s : Slot) (q : Params) (raw : ℕ)
    → in'.params ≡ write_slot q s raw
    → raw_slot t (write_slot q s raw) d ≡ (some s, write_slot q s raw)
    → read_slot (write_slot q s raw) s ≡ raw
    → (write_slot q s raw).machine ≡ q.machine
    → (get_row t in' len d).0 ≡ some (snprint len (from_raw t.syn_labels d raw q.machine))
unfolding get_row
get_row-reads t in' len d s q raw e a r m =
    ap
      (λ (z : Option Slot × Params).
        map_some
          (λ (s' : Slot). snprint len (from_raw t.syn_labels d (read_slot z.1 s') z.1.machine)) z.0)
      (ap (λ p. raw_slot t p d) e ∙ a)
    ∙ ap₂ (λ (x m : ℕ). some (snprint len (from_raw t.syn_labels d x m))) r m

write_slot-machine : (p : Params) (s : Slot) (v : ℕ) → (write_slot p s v).machine ≡ p.machine
unfolding write_slot
write_slot-machine p (page_cell i) v = refl
write_slot-machine p (lfo_cell i) v = refl
write_slot-machine p (other m i) v = refl

other_slot-machine :
    (t : Tables) (p : Params) (i : ℕ) (m : ℤ) → (other_slot t p i m).1.machine ≡ p.machine
unfolding other_slot
other_slot-machine t p i (negsuc m) = refl
other_slot-machine t p i (pos m) = elim (Bool-cases (ltb m max_machine_id)) [
  | inl e ↦ rw e (remember-machine t p m)
  | inr e ↦ rw e refl
]

raw_slot-machine : (t : Tables) (p : Params) (d : ParamDef) → (raw_slot t p d).1.machine ≡ p.machine
unfolding raw_slot
raw_slot-machine t p d = elim (Bool-cases (d.page == 0)) [
  | inl e ↦ elim (Bool-cases (is_pos d.machine p.machine)) [
    | inl f ↦ rw (e, f) refl
    | inr f ↦ rw (e, f) (others d.machine)
  ]
  | inr e ↦ elim (Bool-cases (leb d.page 3)) [ inl f ↦ rw (e, f) refl | inr f ↦ rw (e, f) refl ]
]
  where
    others : (m : ℤ) → (other_slot t p d.index m).1.machine ≡ p.machine
    others m = other_slot-machine t p d.index m

module _ {t : Tables} (h : IsTables t) (read : ReadDouble) (x : Texts) (now : ℕ) {in' : Instance}
    (v : IsValid in') where
  -- The row's slot, after the row has been set.
  row-reads :
      (d : ParamDef) (val : Bytes) (raw len : ℕ) (s : Slot)
      → IsDef d
      → to_raw t.syn_labels read d val in'.params.machine ≡ some raw
      → (raw_slot t in'.params d).0 ≡ some s
      → (get_row t (set_row t read now in' d val) len d).0
        ≡ some (snprint len (from_raw t.syn_labels d raw in'.params.machine))
  unfolding set_row
  row-reads d val raw len s k e f =
      let q = (raw_slot t in'.params d).1 in
      let found = raw_slot-Found d k h v.table in
      let answer : raw_slot t in'.params d ≡ (some s, q) = ap (λ (o : Option Slot). (o, q)) f in
      let again = subst (IsAgain t d) answer (raw_slot-IsAgain t in'.params d v.table) in
      ap (λ (j : Instance). (get_row t j len d).0)
        (ap
            (λ (o : Option ℕ). elim o [
              | none ↦ in'
              | some r ↦ store_value t now in' d r (raw_slot t in'.params d)
            ])
            e
          ∙ ap (store_value t now in' d raw) answer)
      ∙ get_row-reads t _ len d s q raw (store_value-params t now in' d raw s q) (again raw)
          (read_slot-write_slot q s raw found.valid (subst AnswersSlot f found.inside))
          (write_slot-machine q s raw)
      ∙ ap (λ (m : ℕ). some (snprint len (from_raw t.syn_labels d raw m)))
          (raw_slot-machine t in'.params d)

  -- A parameter that has a slot and is set to a text that its row accepts reads back as the text of the
  -- raw value which that text was taken for, whatever else the instance holds. The key is of a row and
  -- none of those that are answered by themselves.
  pub get_param-set_param :
      (key val : Bytes) (d : ParamDef) (raw now' n : ℕ)
      → IsOrdinary (base_name key)
      → find_def t.defs (base_name key) ≡ some d
      → to_raw t.syn_labels read d val in'.params.machine ≡ some raw
      → (raw_slot t in'.params d).0 ≢ none
      → (get_param t x now'
          (set_param t read now in' (some key) (some val))
          (some key)
          (some (suc n))).0
        ≡ some (snprint (suc n) (from_raw t.syn_labels d raw in'.params.machine))
  unfolding get_param set_param
  get_param-set_param key val d raw now' n o e k f =
      elim (Option-cases (raw_slot t in'.params d).0) [
        | inl g ↦ absurd (f g)
        | inr (s, g) ↦
            ap (λ (j : Instance). (get_key t x now' j (suc n) (base_name key)).0)
              (set_key-ordinary t (base_name key) o read now in' val
                ∙ set_other-found t (base_name key) d e read now in' val)
            ∙ ap (λ (a : Option Answer × Instance). a.0)
                (get_key-ordinary t (base_name key) o x now' _ (suc n)
                  ∙ get_other-found t (base_name key) d e _ (suc n))
            ∙ row-reads d val raw (suc n) s
                (Answers-some IsDef (find_def-IsDef h t.defs (base_name key) h.rows) e) k g
      ]
