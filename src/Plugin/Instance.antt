-- ===== src/Plugin/Instance.antt =====
-- The instance of src/plugin/mnm_plugin.cpp and the operations that change its whole sound: push,
-- replay, switchMachine, loadPreset.
use schwung_monomodule.Prelude.{
  ℕ, ◌+◌, ◌-◌, ◌/◌, ◌%◌, Bool, true, false, Option, none, some, List, [], ◌∷◌, ◌++◌, foldl, length,
  set, take, drop, get_or, get_elem?, ltb, if◌then◌else◌, u8,
}
use schwung_monomodule.Prelude.Int.{ℤ, pos, negsuc}
use schwung_monomodule.Text.{Bytes}
use schwung_monomodule.Shm.{Op, Cmd, Segment, push_cmd}
use schwung_monomodule.Ui.{Tables, MachineDef, max_machine_id}
use schwung_monomodule.Plugin.Params.{Params, set_syn, machine_syn_defaults, load_defaults}

pub record PresetSound : Type 0 where
  pub name : Bytes
  pub machine : ℕ
  pub level : ℕ
  pub params : List ℕ  -- 32 page values, then 24 LFO values

-- `Instance`, without the thread handles. `seg` and `catalog` are the published pointers. A tempo is
-- a number of ten-thousandths of a beat per minute, 0 where the host's float is not positive.
pub record Instance : Type 0 where
  pub seg : Option Segment
  pub seg_gen : ℕ
  pub replayed_gen : ℕ
  pub respawns : ℕ
  pub notes_in : ℕ
  pub peak : ℕ
  pub params : Params
  pub catalog : Option (List PresetSound)
  pub loading_until_ms : ℕ
  pub preset_index : ℕ
  pub depth : ℕ
  pub last_bpm : ℕ
  pub bpm_tick : ℕ
  pub error : Bytes

abbrev pub cmd : Op → ℕ → ℕ → ℤ → Cmd
cmd op a b c = record { op = op; engine = 0; a = u8 a; b = u8 b; c = c }

-- `push` of a command: nothing before the segment is published; the answer of the ring is ignored.
unfoldable pub push : Instance → Cmd → Instance
push in' c = elim in'.seg [ none ↦ in' | some s ↦ record in' { seg = some (push_cmd s c).1 } ]

unfoldable pub push_all : Instance → List Cmd → Instance
push_all in' cs = foldl push in' cs

-- The commands that a loop over the values of some pages sends, in order, from value `i` on: the
-- page is `i / 8` and the knob `i % 8`.
unfoldable pub value_cmds : Op → ℕ → List ℕ → List Cmd
value_cmds op i [] = []
value_cmds op i (x ∷ xs) = cmd op (i / 8) (i % 8) (pos x) ∷ value_cmds op (i + 1) xs

-- `lround(bpm * 100)`
abbrev pub centi_bpm : ℕ → ℕ
centi_bpm bpm = (bpm + 50) / 100

abbrev pub bpm_cmds : ℕ → List Cmd
bpm_cmds bpm = if ltb 0 bpm then cmd Op.set_bpm 0 0 (pos (centi_bpm bpm)) ∷ [] else []

-- What `replay` sends.
unfoldable pub replay_cmds : Params → ℕ → List Cmd
replay_cmds p bpm =
    (cmd Op.set_machine p.machine 0 (pos 0) ∷ [])
    ++ (value_cmds Op.set_param 0 p.page
        ++ (value_cmds Op.set_lfo 0 p.lfo
            ++ ((cmd Op.set_level 0 0 (pos p.level) ∷ []) ++ bpm_cmds bpm)))

unfoldable pub replay : Instance → Instance
replay in' = push_all in' (replay_cmds in'.params in'.last_bpm)

-- `armReplan` at the time `now`, in milliseconds.
abbrev pub arm_replan : ℕ → Instance → Instance
arm_replan now in' = record in' { loading_until_ms = now + 350 }

-- The table's part of `switchMachine`: the old machine's SYN values are kept, and the new one's come
-- back or start at its defaults.
unfoldable pub keep_syn : Params → Params
keep_syn p =
    if ltb p.machine max_machine_id
    then record p {
      syn_mem = set p.syn_mem p.machine (take 8 p.page);
      syn_mem_set = set p.syn_mem_set p.machine true;
    }
    else p

abbrev pub is_remembered : Params → ℕ → Bool
is_remembered p m = if ltb m max_machine_id then get_or p.syn_mem_set m false else false

unfoldable pub enter_machine : Tables → ℕ → Params → Params
enter_machine t m p = record p {
  machine = m;
  page =
      set_syn p.page
        (if is_remembered p m then get_or p.syn_mem m [] else machine_syn_defaults t m);
}

unfoldable pub switch_machine : Tables → ℕ → Instance → ℕ → Instance
switch_machine t now in' m =
    let p = enter_machine t m (keep_syn in'.params) in
    push_all (arm_replan now (push (record in' { params = p }) (cmd Op.set_machine m 0 (pos 0))))
      (value_cmds Op.set_param 0 p.page)

-- `presetCount`
abbrev pub sounds : Instance → List PresetSound
sounds in' = elim in'.catalog [ none ↦ [] | some c ↦ c ]

unfoldable pub preset_count : Tables → Instance → ℕ
preset_count t in' = length t.machines + length (sounds in')

-- The table after `loadPreset` has read an Init, or a sound.
unfoldable pub init_params : Tables → MachineDef → Params → Params
init_params t m p = record (load_defaults t (record p { machine = m.id })) { level = 100 }

unfoldable pub sound_params : PresetSound → Params → Params
sound_params snd p = record p {
  machine = snd.machine;
  page = take 32 snd.params;
  lfo = drop 32 snd.params;
  level = snd.level;
}

-- The preset's own SYN values are current.
unfoldable pub forget_syn : Params → Params
forget_syn p =
    if ltb p.machine max_machine_id
    then record p { syn_mem_set = set p.syn_mem_set p.machine false }
    else p

unfoldable pub preset_params : Tables → Instance → ℕ → Option Params
preset_params t in' i = elim (get_elem? t.machines i) [
  | some m ↦ some (init_params t m in'.params)
  | none ↦ elim (get_elem? (sounds in') (i - length t.machines)) [
    | some snd ↦ some (sound_params snd in'.params)
    | none ↦ none
  ]
]

unfoldable pub load_preset : Tables → ℕ → Instance → ℤ → Instance
load_preset t now in' (negsuc _) = in'
load_preset t now in' (pos i) = elim (preset_params t in' i) [
  | none ↦ in'
  | some p ↦ replay (arm_replan now (record in' { preset_index = i; params = forget_syn p }))
]
