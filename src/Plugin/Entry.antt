-- ===== src/Plugin/Entry.antt =====
-- The host's calls of src/plugin/mnm_plugin.cpp that change an instance: createInstance (the table),
-- onMidi, setParam; and the keys of getParam that read the table.
pub mod Sounds
pub mod Lookup
pub mod Valid
use schwung_monomodule.Prelude.{
  ℕ, zero, suc, ◌+◌, ◌*◌, ◌-◌, ◌/◌, Bool, true, false, ◌&&◌, ◌||◌, Option, none, some, List, [],
  ◌∷◌, length, replicate, get_elem?, leb, ltb, ◌==◌, if◌then◌else◌, min, u32,
}
use schwung_monomodule.Prelude.Int.{ℤ, pos, negsuc, clamp_0, clamp}
use schwung_monomodule.Text.{Bytes, codes, same, base_name, atoi, print}
use schwung_monomodule.Shm.{Op, Segment, Phase, max_depth}
use schwung_monomodule.Ui.{Tables, ParamDef, MachineDef, max_machine_id}
use schwung_monomodule.Plugin.Params.{Params, Slot, raw_slot, read_slot, write_slot, load_defaults}
use schwung_monomodule.Plugin.Convert.{
  ReadDouble, to_raw, from_raw, find_def, find_machine, parse_machine,
}
use schwung_monomodule.Plugin.Instance.{
  Instance, PresetSound, cmd, push, arm_replan, switch_machine, load_preset, sounds, preset_count,
}
use schwung_monomodule.Plugin.State.{read_state, store_depth, write_state}

-- `Params` as its member initializers leave it.
abbrev pub zero_params : Params
zero_params = record {
  machine = 0;
  level = 100;
  page = replicate 32 0;
  lfo = replicate 24 0;
  syn_mem = replicate max_machine_id (replicate 8 0);
  syn_mem_set = replicate max_machine_id false;
}

-- The machine of a new instance: CHORUS for the effect, FM_PAR for the generator. Their numbers are
-- those of upstream's `host::Machine`.
unfoldable pub create_params : Tables → ℕ → ℕ → Params
create_params t chorus fm_par =
    load_defaults t (record zero_params { machine = if t.fx then chorus else fm_par; level = 100 })

abbrev pub default_depth : ℕ
default_depth = 2

-- The instance that `createInstance` makes, before its supervisor runs.
unfoldable pub create : Tables → ℕ → ℕ → Instance
create t chorus fm_par = record {
  seg = none;
  seg_gen = 0;
  replayed_gen = 0;
  respawns = 0;
  notes_in = 0;
  peak = 0;
  params = create_params t chorus fm_par;
  catalog = none;
  loading_until_ms = 0;
  preset_index = 0;
  depth = default_depth;
  last_bpm = 0;
  bpm_tick = 0;
  error = [];
}

-- A message of at least three bytes. `msg[0] & 0xF0` is the status without its channel.
unfoldable pub midi_message : Instance → ℕ → ℕ → ℕ → Instance
midi_message in' status d₁ d₂ =
    let type = status / 16 * 16 in
    if type == 0x90 && ltb 0 d₂
    then record (push in' (cmd Op.note_on d₁ 0 (pos 0))) { notes_in = u32 (in'.notes_in + 1) }
    else if type == 0x80 || type == 0x90
    then push in' (cmd Op.note_off d₁ 0 (pos 0))
    else if type == 0xB0 && (d₁ == 123 || d₁ == 120)
    then push in' (cmd Op.all_notes_off 0 0 (pos 0))
    else in'

unfoldable pub on_midi : Instance → List ℕ → Instance
on_midi in' (status ∷ (d₁ ∷ (d₂ ∷ _))) = midi_message in' status d₁ d₂
on_midi in' _ = in'

-- A text set for a row of the table. `compat` builds re-plan when an LFO's page changes.
unfoldable pub send_value : ParamDef → ℕ → Instance → Instance
send_value d raw in' =
    if leb d.page 3
    then push in' (cmd Op.set_param d.page d.index (pos raw))
    else push in' (cmd Op.set_lfo (d.page - 4) d.index (pos raw))

abbrev pub is_other_machine : ParamDef → Params → Bool
is_other_machine d p =
    if d.page == 0
    then elim d.machine [ pos m ↦ (if m == p.machine then false else true) | negsuc _ ↦ true ]
    else false

unfoldable pub store_value : Tables → ℕ → Instance → ParamDef → ℕ → Option Slot × Params → Instance
store_value t now in' d raw (none, p) = record in' { params = p }
store_value t now in' d raw (some slot, p) =
    let stored = record in' { params = write_slot p slot raw } in
    let planned =
      if t.compat && (leb 4 d.page && d.index == 0) then arm_replan now stored else stored in
    if is_other_machine d planned.params then planned else send_value d raw planned

unfoldable pub set_row : Tables → ReadDouble → ℕ → Instance → ParamDef → Bytes → Instance
set_row t read now in' d val = elim (to_raw t.syn_labels read d val in'.params.machine) [
  | none ↦ in'
  | some raw ↦ store_value t now in' d raw (raw_slot t in'.params d)
]

unfoldable pub set_machine : Tables → ℕ → Instance → Bytes → Instance
set_machine t now in' val = elim (parse_machine t.machines val) [
  | none ↦ in'
  | some m ↦ if m == in'.params.machine then in' else switch_machine t now in' m
]

unfoldable pub set_level : Instance → ℕ → Instance
set_level in' l =
    push (record in' { params = record in'.params { level = l } }) (cmd Op.set_level 0 0 (pos l))

unfoldable pub set_depth : Instance → ℕ → Instance
set_depth in' d = store_depth (record in' { depth = d })

unfoldable pub set_other : Tables → ReadDouble → ℕ → Instance → Bytes → Bytes → Instance
set_other t read now in' key val = elim (find_def t.defs key) [
  | none ↦ in'
  | some d ↦ set_row t read now in' d val
]

-- `setParam` at the time `now`, of a key without its prefix.
unfoldable pub set_key : Tables → ReadDouble → ℕ → Instance → Bytes → Bytes → Instance
set_key t read now in' k val =
    if same k (codes "state")
    then read_state t now in' val
    else if same k (codes "preset")
    then load_preset t now in' (atoi val)
    else if same k (codes "machine")
    then set_machine t now in' val
    else if same k (codes "level")
    then set_level in' (clamp_0 (atoi val) 127)
    else if same k (codes "depth")
    then set_depth in' (clamp (atoi val) 1 max_depth)
    else set_other t read now in' k val

-- `setParam`: `none` is a null pointer.
unfoldable pub set_param :
    Tables → ReadDouble → ℕ → Instance → Option Bytes → Option Bytes → Instance
set_param t read now in' none _ = in'
set_param t read now in' (some key) none = in'
set_param t read now in' (some key) (some val) = set_key t read now in' (base_name key) val
