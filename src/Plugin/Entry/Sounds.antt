-- ===== src/Plugin/Entry/Sounds.antt =====
-- Switching the machine and loading a preset keep the parameter table valid.
use schwung_monomodule.Prelude.{
  ℕ, zero, suc, ◌-◌, ◌≤◌, ◌<◌, ◌≡◌, ◌⊎◌, true, false, Option, none, some, List, [], ◌∷◌, arith,
  length, take, drop, get_elem?, get_or, set, ltb, if◌then◌else◌, All, Answers, All-take, All-drop,
  Bool-cases, inl, inr, length-set, length-take, length-drop,
}
use schwung_monomodule.Prelude.Int.{ℤ, pos, negsuc}
use schwung_monomodule.Shm.{Cmd, max_depth}
use schwung_monomodule.Ui.{Tables, IsTables, MachineDef, max_machine_id}
use schwung_monomodule.Plugin.Params.{Params, machine_syn_defaults}
use schwung_monomodule.Plugin.Params.Valid
use schwung_monomodule.Plugin.Params.Valid.{
  IsRaw, IsRow, load_defaults-IsValid, machine_syn_defaults-IsRow, raw_slot-Found, Found,
  write_slot-IsValid, level-IsValid, machine-IsValid, page-IsValid, lfo-IsValid, mem-IsValid,
  flags-IsValid, set_syn-IsValid, syn_mem-IsRow, AnswersSlot,
}
use schwung_monomodule.Plugin.Instance.{
  Instance, PresetSound, push, push_all, keep_syn, enter_machine, is_remembered, switch_machine,
  init_params, sound_params, forget_syn, preset_params, load_preset, sounds, replay, arm_replan,
}

-- A sound of the catalog, as `buildCatalog` makes it.
pub record IsSound (s : PresetSound) : Type 0 where
  pub machine_in : s.machine < max_machine_id
  pub level_in : s.level ≤ 127
  pub size : length s.params ≡ 56
  pub raws : All IsRaw s.params

pub record IsValid (in' : Instance) : Type 0 where
  pub table : Valid.IsValid in'.params
  pub depth_in : (1 ≤ in'.depth) × (in'.depth ≤ max_depth)
  pub presets : All IsSound (sounds in')

pub push-IsValid : (in' : Instance) (c : Cmd) → IsValid in' → IsValid (push in' c)
unfolding push
push-IsValid in' c v = ground (arith, v.table, v.depth_in, v.presets)

push_all-IsValid : (cs : List Cmd) (in' : Instance) → IsValid in' → IsValid (push_all in' cs)
unfolding push_all
push_all-IsValid [] in' v = v
push_all-IsValid (c ∷ cs) in' v = push_all-IsValid cs (push in' c) (push-IsValid in' c v)

-- The same table otherwise.
pub table-IsValid :
    {in' : Instance} (p : Params)
    → Valid.IsValid p
    → IsValid in'
    → IsValid (record in' { params = p })
table-IsValid p h v = record { table = h; depth_in = v.depth_in; presets = v.presets }

pub arm-IsValid : (now : ℕ) {in' : Instance} → IsValid in' → IsValid (arm_replan now in')
arm-IsValid now v = record { table = v.table; depth_in = v.depth_in; presets = v.presets }

module _ {p : Params} (v : Valid.IsValid p) where
  keep_syn-IsValid : Valid.IsValid (keep_syn p)
  unfolding keep_syn
  keep_syn-IsValid = elim (Bool-cases (ltb p.machine max_machine_id)) [
    | inl e ↦ rw e (
        mem-IsValid v p.machine (take 8 p.page) (set p.syn_mem_set p.machine true)
          (record {
            size = omega (arith, length-take 8 p.page, v.page_size);
            raws = All-take IsRaw 8 p.page v.page_raws;
          })
          (omega (arith, length-set p.syn_mem_set p.machine true, v.set_size)))
    | inr e ↦ rw e v
  ]

  enter_machine-IsValid :
      {t : Tables} (m : ℕ) → IsTables t → m < max_machine_id → Valid.IsValid (enter_machine t m p)
  unfolding enter_machine
  enter_machine-IsValid {t} m h lt =
      set_syn-IsValid (machine-IsValid v m lt) (row (Bool-cases (is_remembered p m)))
    where
      row :
          (is_remembered p m ≡ true) ⊎ (is_remembered p m ≡ false)
          → IsRow (if is_remembered p m then get_or p.syn_mem m [] else machine_syn_defaults t m)
      row (inl e) = rw e (syn_mem-IsRow v m lt)
      row (inr e) = rw e (machine_syn_defaults-IsRow m h)

  forget_syn-IsValid : Valid.IsValid (forget_syn p)
  unfolding forget_syn
  forget_syn-IsValid = elim (Bool-cases (ltb p.machine max_machine_id)) [
    | inl e ↦ rw e (
        flags-IsValid v (set p.syn_mem_set p.machine false)
          (omega (arith, length-set p.syn_mem_set p.machine false, v.set_size)))
    | inr e ↦ rw e v
  ]

  init_params-IsValid :
      {t : Tables} (m : MachineDef)
      → IsTables t
      → m.id < max_machine_id
      → Valid.IsValid (init_params t m p)
  unfolding init_params
  init_params-IsValid m h lt =
      level-IsValid (load_defaults-IsValid h (machine-IsValid v m.id lt)) 100 (omega arith)

  sound_params-IsValid : (snd : PresetSound) → IsSound snd → Valid.IsValid (sound_params snd p)
  unfolding sound_params
  sound_params-IsValid snd h =
      level-IsValid
        (lfo-IsValid
          (page-IsValid (machine-IsValid v snd.machine h.machine_in) (take 32 snd.params)
            (omega (arith, length-take 32 snd.params, h.size))
            (All-take IsRaw 32 snd.params h.raws))
          (drop 32 snd.params) (omega (arith, length-drop 32 snd.params, h.size))
          (All-drop IsRaw 32 snd.params h.raws))
        snd.level h.level_in

pub All-get_elem? :
    {A : Type 0} (P : A → Type 0) (xs : List A) (i : ℕ) → All P xs → Answers P (get_elem? xs i)
All-get_elem? P [] i h = tt
All-get_elem? P (x ∷ xs) zero h = h.0
All-get_elem? P (x ∷ xs) (suc i) h = All-get_elem? P xs i h.1

pub switch_machine-IsValid :
    {t : Tables} (now : ℕ) {in' : Instance} (m : ℕ)
    → IsTables t
    → m < max_machine_id
    → IsValid in'
    → IsValid (switch_machine t now in' m)
unfolding switch_machine
switch_machine-IsValid {t} now {in'} m h lt v = push_all-IsValid _ _ (
    arm-IsValid now (
      push-IsValid _ _
        (table-IsValid _ (enter_machine-IsValid (keep_syn-IsValid v.table) m h lt) v)))

pub replay-IsValid : {in' : Instance} → IsValid in' → IsValid (replay in')
unfolding replay
replay-IsValid v = push_all-IsValid _ _ v

preset_params-Answers :
    {t : Tables} {in' : Instance} (i : ℕ)
    → IsTables t
    → IsValid in'
    → Answers Valid.IsValid (preset_params t in' i)
unfolding preset_params
preset_params-Answers {t} {in'} i h v =
    found (get_elem? t.machines i) (All-get_elem? _ t.machines i h.ids)
  where
    sound :
        (o : Option PresetSound)
        → Answers IsSound o
        → Answers Valid.IsValid
            (elim o [ some snd ↦ some (sound_params snd in'.params) | none ↦ none ])
    sound none a = tt
    sound (some snd) a = sound_params-IsValid v.table snd a

    found :
        (o : Option MachineDef)
        → Answers (λ (m : MachineDef). m.id < max_machine_id) o
        → Answers Valid.IsValid (elim o [
          | some m ↦ some (init_params t m in'.params)
          | none ↦ elim (get_elem? (sounds in') (i - length t.machines)) [
            | some snd ↦ some (sound_params snd in'.params)
            | none ↦ none
          ]
        ])
    found (some m) a = init_params-IsValid v.table m h a
    found none a =
        sound (get_elem? (sounds in') (i - length t.machines))
          (All-get_elem? IsSound (sounds in') (i - length t.machines) v.presets)

pub load_preset-IsValid :
    {t : Tables} (now : ℕ) {in' : Instance} (i : ℤ)
    → IsTables t
    → IsValid in'
    → IsValid (load_preset t now in' i)
unfolding load_preset
load_preset-IsValid now (negsuc _) h v = v
load_preset-IsValid {t} now {in'} (pos i) h v =
    loaded (preset_params t in' i) (preset_params-Answers i h v)
  where
    loaded :
        (o : Option Params)
        → Answers Valid.IsValid o
        → IsValid (elim o [
          | none ↦ in'
          | some p ↦
              replay (arm_replan now (record in' { preset_index = i; params = forget_syn p }))
        ])
    loaded none a = v
    loaded (some p) a =
        replay-IsValid
          (record { table = forget_syn-IsValid a; depth_in = v.depth_in; presets = v.presets })
