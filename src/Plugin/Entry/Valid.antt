-- ===== src/Plugin/Entry/Valid.antt =====
-- No call of the host breaks the instance (setParam, onMidi, createInstance).
mod Stored
use schwung_monomodule.Prelude.{
  ℕ, ◌≤◌, ◌<◌, ◌≡◌, refl, Bool, true, false, ◌&&◌, Option, none, some, List, [], ◌∷◌, arith, leb,
  ◌==◌, if◌then◌else◌, Answers, All-replicate, replicate, Bool-cases, inl, inr,
}
use schwung_monomodule.Prelude.Int.{clamp_0, clamp_0-le, clamp}
use schwung_monomodule.Text.{Bytes, codes, same, atoi, base_name}
use schwung_monomodule.Shm.{max_depth}
use schwung_monomodule.Ui.{Tables, IsTables, IsDef, ParamDef, max_machine_id}
use schwung_monomodule.Plugin.Params.{Params, Slot, raw_slot, write_slot}
use schwung_monomodule.Plugin.Params.Valid
use schwung_monomodule.Plugin.Params.Valid.{
  IsRaw, IsRow, load_defaults-IsValid, raw_slot-Found, Found, write_slot-IsValid, level-IsValid,
}
use schwung_monomodule.Plugin.Convert.{ReadDouble, find_def, parse_machine, to_raw}
use schwung_monomodule.Plugin.Convert.Bounds.{to_raw-IsRaw}
use schwung_monomodule.Plugin.Instance.{
  Instance, push, switch_machine, load_preset, replay, arm_replan,
}
use schwung_monomodule.Plugin.State.{read_state, parse_state, store_depth}
use schwung_monomodule.Plugin.Entry.{
  zero_params, create, create_params, midi_message, on_midi, send_value, store_value, set_row,
  set_machine, set_level, set_depth, set_other, set_key, set_param, is_other_machine,
}
use schwung_monomodule.Plugin.Entry.Sounds.{
  IsValid, push-IsValid, table-IsValid, arm-IsValid, replay-IsValid, switch_machine-IsValid,
  load_preset-IsValid,
}
use schwung_monomodule.Plugin.Entry.Lookup.{parse_machine-lt, find_def-IsDef}
use schwung_monomodule.Plugin.Entry.Valid.Stored.{
  IsAsked, clamp_depth, parse_state-Answers, store_depth-IsValid,
}

module _ {t : Tables} (h : IsTables t) (read : ReadDouble) (now : ℕ) {in' : Instance}
    (v : IsValid in') where
  read_state-IsValid : (val : Bytes) → IsValid (read_state t now in' val)
  unfolding read_state
  read_state-IsValid val = stored (parse_state t in'.params val) (parse_state-Answers h v.table val)
    where
      stored :
          (o : Option (Params × ℕ))
          → Answers IsAsked o
          → IsValid (elim o [
            | none ↦ in'
            | some (p, depth) ↦
                replay (store_depth (arm_replan now (record in' { params = p; depth = depth })))
          ])
      stored none a = v
      stored (some (p, depth)) a = replay-IsValid (
          store_depth-IsValid _
            (record { table = a.table; depth_in = a.depth_in; presets = v.presets }))

  send_value-IsValid :
      (d : ParamDef) (raw : ℕ) (j : Instance) → IsValid j → IsValid (send_value d raw j)
  unfolding send_value
  send_value-IsValid d raw j w = elim (Bool-cases (leb d.page 3)) [
    | inl e ↦ rw e (push-IsValid _ _ w)
    | inr e ↦ rw e (push-IsValid _ _ w)
  ]

  store_value-IsValid :
      (d : ParamDef) (raw : ℕ) (answer : Option Slot × Params)
      → IsRaw raw
      → Found answer
      → IsValid (store_value t now in' d raw answer)
  unfolding store_value
  store_value-IsValid d raw (none, p) k f = table-IsValid p f.valid v
  store_value-IsValid d raw (some slot, p) k f = sent _ planned
    where
      sent :
          (j : Instance)
          → IsValid j
          → IsValid (if is_other_machine d j.params then j else send_value d raw j)
      sent j w = elim (Bool-cases (is_other_machine d j.params)) [
        | inl e ↦ rw e w
        | inr e ↦ rw e (send_value-IsValid d raw j w)
      ]

      planned : IsValid (
          if t.compat && (leb 4 d.page && d.index == 0)
          then arm_replan now (record in' { params = write_slot p slot raw })
          else record in' { params = write_slot p slot raw })
      planned =
          let stored = table-IsValid _ (write_slot-IsValid f.valid slot raw f.inside k) v in
          elim (Bool-cases (t.compat && (leb 4 d.page && d.index == 0))) [
            | inl a ↦ rw a (arm-IsValid now stored)
            | inr a ↦ rw a stored
          ]

  set_row-IsValid : (d : ParamDef) (val : Bytes) → IsDef d → IsValid (set_row t read now in' d val)
  unfolding set_row
  set_row-IsValid d val k =
      row (to_raw t.syn_labels read d val in'.params.machine)
        (to_raw-IsRaw t.syn_labels read d val in'.params.machine k)
    where
      row :
          (o : Option ℕ)
          → Answers IsRaw o
          → IsValid (elim o [
            | none ↦ in'
            | some raw ↦ store_value t now in' d raw (raw_slot t in'.params d)
          ])
      row none a = v
      row (some raw) a = store_value-IsValid d raw _ a (raw_slot-Found d k h v.table)

  set_machine-IsValid : (val : Bytes) → IsValid (set_machine t now in' val)
  unfolding set_machine
  set_machine-IsValid val = machine (parse_machine t.machines val) (parse_machine-lt h val)
    where
      machine :
          (o : Option ℕ)
          → Answers (λ (m : ℕ). m < max_machine_id) o
          → IsValid (elim o [
            | none ↦ in'
            | some m ↦ if m == in'.params.machine then in' else switch_machine t now in' m
          ])
      machine none a = v
      machine (some m) a = elim (Bool-cases (m == in'.params.machine)) [
        | inl e ↦ rw e v
        | inr e ↦ rw e (switch_machine-IsValid now m h a v)
      ]

  set_level-IsValid : (l : ℕ) → l ≤ 127 → IsValid (set_level in' l)
  unfolding set_level
  set_level-IsValid l k = push-IsValid _ _ (table-IsValid _ (level-IsValid v.table l k) v)

  set_depth-IsValid : (d : ℕ) → (1 ≤ d) × (d ≤ max_depth) → IsValid (set_depth in' d)
  unfolding set_depth
  set_depth-IsValid d k =
      store_depth-IsValid _ (record { table = v.table; depth_in = k; presets = v.presets })

  set_other-IsValid : (key val : Bytes) → IsValid (set_other t read now in' key val)
  unfolding set_other
  set_other-IsValid key val = row (find_def t.defs key) (find_def-IsDef h t.defs key h.rows)
    where
      row :
          (o : Option ParamDef)
          → Answers IsDef o
          → IsValid (elim o [ none ↦ in' | some d ↦ set_row t read now in' d val ])
      row none a = v
      row (some d) a = set_row-IsValid d val a

  set_key-IsValid : (k val : Bytes) → IsValid (set_key t read now in' k val)
  unfolding set_key
  set_key-IsValid k val =
      chain (same k (codes "state")) (same k (codes "preset")) (same k (codes "machine"))
        (same k (codes "level")) (same k (codes "depth"))
    where
      chain :
          (a b c d e : Bool)
          → IsValid (
              if a
              then read_state t now in' val
              else if b
              then load_preset t now in' (atoi val)
              else if c
              then set_machine t now in' val
              else if d
              then set_level in' (clamp_0 (atoi val) 127)
              else if e
              then set_depth in' (clamp (atoi val) 1 max_depth)
              else set_other t read now in' k val)
      chain true b c d e = read_state-IsValid val
      chain false true c d e = load_preset-IsValid now (atoi val) h v
      chain false false true d e = set_machine-IsValid val
      chain false false false true e = set_level-IsValid _ (clamp_0-le (atoi val) 127)
      chain false false false false true = set_depth-IsValid _ (clamp_depth (atoi val))
      chain false false false false false = set_other-IsValid k val

  -- With tables as `IsTables` says, whatever text a host sets for whatever key, null pointers
  -- included, a valid instance stays valid: every value of its table within 0..127, its machine
  -- below 40, its depth within 1..4.
  pub set_param-IsValid : (key val : Option Bytes) → IsValid (set_param t read now in' key val)
  unfolding set_param
  set_param-IsValid none _ = v
  set_param-IsValid (some key) none = v
  set_param-IsValid (some key) (some val) = set_key-IsValid (base_name key) val

-- No MIDI message, of any length, changes the table, the depth or the catalog.
pub on_midi-params :
    (in' : Instance) (msg : List ℕ)
    → ((on_midi in' msg).params ≡ in'.params) × ((on_midi in' msg).depth ≡ in'.depth)
unfolding on_midi midi_message push
on_midi-params in' [] = (refl, refl)
on_midi-params in' (_ ∷ []) = (refl, refl)
on_midi-params in' (_ ∷ (_ ∷ [])) = (refl, refl)
on_midi-params in' (status ∷ (d₁ ∷ (d₂ ∷ rest))) = ground arith

zero-IsValid :
    (m : ℕ) → m < max_machine_id → Valid.IsValid (record zero_params { machine = m; level = 100 })
zero-IsValid m lt = record {
  machine_in = lt;
  level_in = omega arith;
  page_size = refl;
  page_raws = All-replicate IsRaw 32 0 (omega arith);
  lfo_size = refl;
  lfo_raws = All-replicate IsRaw 24 0 (omega arith);
  mem_size = refl;
  mem_rows =
      All-replicate IsRow max_machine_id (replicate 8 0)
        (record { size = refl; raws = All-replicate IsRaw 8 0 (omega arith) });
  set_size = refl;
}

-- A new instance is valid, with tables as `IsTables` says and the numbers of the two first
-- machines below 40.
pub create-IsValid :
    (t : Tables) (chorus fm_par : ℕ)
    → IsTables t
    → chorus < max_machine_id
    → fm_par < max_machine_id
    → IsValid (create t chorus fm_par)
unfolding create create_params
create-IsValid t chorus fm_par h c f = record {
  table = load_defaults-IsValid h (zero-IsValid _ machine_in);
  depth_in = (omega arith, omega arith);
  presets = tt;
}
  where
    machine_in : (if t.fx then chorus else fm_par) < max_machine_id
    machine_in = elim (Bool-cases t.fx) [ inl e ↦ rw e c | inr e ↦ rw e f ]
