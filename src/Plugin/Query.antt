-- ===== src/Plugin/Query.antt =====
-- What the host reads of an instance: getParam, presetName, loadPercent and getError of
-- src/plugin/mnm_plugin.cpp.
pub mod Keys
pub mod Bounds
mod Tests
use schwung_monomodule.Prelude.{
  ℕ, zero, suc, ◌+◌, ◌*◌, ◌-◌, ◌/◌, Bool, true, false, Option, none, some, List, [], ◌∷◌, ◌++◌,
  length, take, get_elem?, min, leb, ltb, ◌==◌, if◌then◌else◌,
}
use schwung_monomodule.Prelude.Int.{ℤ, pos, negsuc}
use schwung_monomodule.Text.{Bytes, codes, same, base_name, print}
use schwung_monomodule.Shm.{Segment, Phase, EngineStats}
use schwung_monomodule.Ui.{Tables, ParamDef, MachineDef}
use schwung_monomodule.Plugin.Params.{Params, Slot, raw_slot, read_slot}
use schwung_monomodule.Plugin.Convert.{find_def, find_machine, from_raw, map_some}
use schwung_monomodule.Plugin.Instance.{Instance, PresetSound, sounds, preset_count}
use schwung_monomodule.Plugin.State.{write_state}
use schwung_monomodule.Plugin.Template.{Texts, Expanded, serve_template}
use schwung_monomodule.Plugin.Audio.{is_ready}

-- What a call returns, and the text that it leaves in the buffer.
pub record Answer : Type 0 where
  pub size : ℕ
  pub text : Bytes

-- `snprintf(buf, len, "%s", s)`, for `0 < len`: it answers the length of `s`, and cuts the text.
abbrev pub snprint : ℕ → Bytes → Answer
snprint len s = record { size = length s; text = take (len - 1) s }

abbrev pub number : ℕ → ℕ → Answer
number len n = snprint len (print (pos n))

-- A text that the buffer holds whole.
abbrev pub whole : Bytes → Answer
whole s = record { size = length s; text = s }

unfoldable pub served : Expanded → Option Answer
served (Expanded.filled s) = some (whole s)
served Expanded.failed = none
served Expanded.too_deep = none

-- `presetName` of the preset numbered `i`.
unfoldable pub preset_name : Tables → Instance → ℕ → ℕ → Option Answer
preset_name t in' len i = elim (get_elem? t.machines i) [
  | some m ↦ some (snprint len (codes "Init " ++ m.label))
  | none ↦
      map_some (λ (s : PresetSound). snprint len s.name)
        (get_elem? (sounds in') (i - length t.machines))
]

-- `lround(100.0 * us / (1e6 * kFrames / 44100.0))`: the share of a block's time, in percent. The
-- source computes it in double.
unfoldable pub percent : ℕ → ℕ
percent us = (us * 882 + 12800) / 25600

unfoldable pub load_percent : Instance → ℕ
load_percent in' = elim in'.seg [
  | none ↦ 0
  | some s ↦
      if is_ready s.phase
      then (if (s.stats 0).parked == 0 then percent (s.stats 0).last_us else 0)
      else 0
]

unfoldable pub peak_percent : Instance → ℕ
peak_percent in' = elim in'.seg [ none ↦ 0 | some s ↦ min (percent (s.stats 0).max_us) 200 ]

abbrev pub phase_code : Phase → ℕ
phase_code Phase.spawning = 0
phase_code Phase.loading = 1
phase_code Phase.prewarming = 2
phase_code Phase.ready = 3
phase_code Phase.failed = 4

-- A member of a JSON object, with the comma before the next.
abbrev pub member : Bytes → ℕ → Bytes → Bytes
member name n rest = name ++ (print (pos n) ++ rest)

unfoldable pub status_text : Instance → Segment → Bytes
status_text in' s = member (codes "{\"notes\":") in'.notes_in (
    member (codes ",\"peak\":") in'.peak (
      member (codes ",\"phase\":") (phase_code s.phase) (
        member (codes ",\"pid\":") s.child_pid (
          member (codes ",\"underruns\":") s.underruns (
            member (codes ",\"skips\":") s.skips (
              member (codes ",\"respawns\":") in'.respawns (
                member (codes ",\"last_us\":") (s.stats 0).last_us (
                  member (codes ",\"max_us\":") (s.stats 0).max_us (
                    member (codes ",\"faulted\":") (s.stats 0).faulted (
                      member (codes ",\"parked\":") (s.stats 0).parked (
                        member (codes ",\"parked_blocks\":") (s.stats 0).parked_blocks
                          (member (codes ",\"depth\":") in'.depth (codes "}")))))))))))))

-- "status" also starts the peak anew.
unfoldable pub get_status : Instance → ℕ → Option Answer × Instance
get_status in' len = elim in'.seg [
  | none ↦ (
    some (snprint len (codes "{\"phase\":\"none\",\"error\":\"" ++ (in'.error ++ codes "\"}"))),
    in',
  )
  | some s ↦ (some (snprint len (status_text in' s)), record in' { peak = 0 })
]

-- A row of the table. Reading another machine's value first sets it to its default.
unfoldable pub get_row : Tables → Instance → ℕ → ParamDef → Option Answer × Instance
get_row t in' len d =
    let (slot, p) = raw_slot t in'.params d in
    (
      map_some (λ (s : Slot). snprint len (from_raw t.syn_labels d (read_slot p s) p.machine)) slot,
      record in' { params = p },
    )

unfoldable pub get_other : Tables → Instance → ℕ → Bytes → Option Answer × Instance
get_other t in' len k = elim (find_def t.defs k) [
  | none ↦ (none, in')
  | some d ↦ get_row t in' len d
]

-- The keys whose answers change nothing.
unfoldable pub get_fixed : Tables → Texts → ℕ → Instance → ℕ → Bytes → Option (Option Answer)
get_fixed t x now in' len k =
    if same k (codes "state")
    then some (map_some whole (write_state len in'))
    else if same k (codes "ui_hierarchy")
    then some (
        served (
          serve_template t x in'.params len (if t.compat then x.compat_hierarchy else x.hierarchy)))
    else if same k (codes "chain_params")
    then some (served (serve_template t x in'.params len x.chain_params))
    else if same k (codes "is_loading")
    then some (some (snprint len (if ltb now in'.loading_until_ms then codes "1" else codes "0")))
    else if same k (codes "machine")
    then some (
        map_some (λ (m : MachineDef). snprint len m.label)
          (find_machine t.machines in'.params.machine))
    else if same k (codes "level")
    then some (some (number len in'.params.level))
    else if same k (codes "preset")
    then some (some (number len in'.preset_index))
    else if same k (codes "preset_count")
    then some (some (number len (preset_count t in')))
    else if same k (codes "preset_name")
    then some (preset_name t in' len in'.preset_index)
    else if same k (codes "depth")
    then some (some (number len in'.depth))
    else if same k (codes "load")
    then some (some (number len (load_percent in')))
    else if same k (codes "peak")
    then some (some (number len (peak_percent in')))
    else none

unfoldable pub get_key : Tables → Texts → ℕ → Instance → ℕ → Bytes → Option Answer × Instance
get_key t x now in' len k = elim (get_fixed t x now in' len k) [
  | some a ↦ (a, in')
  | none ↦ if same k (codes "status") then get_status in' len else get_other t in' len k
]

-- `getParam` at the time `now` into a buffer of `len` bytes, none where there is no buffer; the first
-- part is `none` for -1.
unfoldable pub get_param :
    Tables → Texts → ℕ → Instance → Option Bytes → Option ℕ → Option Answer × Instance
get_param t x now in' none _ = (none, in')
get_param t x now in' (some key) none = (none, in')
get_param t x now in' (some key) (some zero) = (none, in')
get_param t x now in' (some key) (some (suc n)) = get_key t x now in' (suc n) (base_name key)

-- `getError`: 0 where there is none.
unfoldable pub get_error : Instance → ℕ → Answer
get_error in' len = elim in'.error [
  | [] ↦ record { size = 0; text = [] }
  | _ ∷ _ ↦ snprint len in'.error
]
