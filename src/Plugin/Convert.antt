-- ===== src/Plugin/Convert.antt =====
-- Conversions between display values and raw bytes (src/plugin/mnm_plugin.cpp: listIndex,
-- listRawMid, synLabel, toRaw, fromRaw, parseMachine, findMachine, findDef).
pub mod Laws
pub mod Bounds
use schwung_monomodule.Prelude.{
  ℕ, zero, suc, ◌+◌, ◌-◌, ◌*◌, ◌/◌, Bool, true, false, ◌||◌, Option, none, some, List, [], ◌∷◌,
  ◌++◌, get_or, get_elem?, ◌==◌, if◌then◌else◌, min,
}
use schwung_monomodule.Prelude.Int.{ℤ, pos, negsuc, clamp_0, add_int, sub_ℕ}
use schwung_monomodule.Text.{Bytes, codes, same, strtol, print}
use schwung_monomodule.Ui.{ParamDef, MachineDef, SynLabels}

unfoldable pub list_index : ℕ → ℕ → ℕ
list_index raw n = (2 * raw + 1) * n / 256

unfoldable pub list_raw_mid : ℕ → ℕ → ℕ
list_raw_mid idx n = (idx * 256 + 128) / (2 * n)

-- `findMachine`: the first of the list with this id.
unfoldable pub find_machine : List MachineDef → ℕ → Option MachineDef
find_machine [] id = none
find_machine (m ∷ ms) id = let rest = find_machine ms id in if m.id == id then some m else rest

-- `validMachine` of an int.
unfoldable pub valid_machine : List MachineDef → ℤ → Bool
unfolding find_machine
valid_machine ms (pos m) = elim (find_machine ms m) [ none ↦ false | some _ ↦ true ]
valid_machine ms (negsuc _) = false

unfoldable pub find_def : List ParamDef → Bytes → Option ParamDef
unfolding same
find_def [] key = none
find_def (d ∷ ds) key = let rest = find_def ds key in if same d.key key then some d else rest

abbrev pub blank_label : ℕ → Bytes
blank_label n = codes "PAR" ++ print (pos (n + 1))

abbrev pub label_at : SynLabels → ℕ → Option Bytes
label_at l n = get_or l.labels n none

-- `synLabel`: the hardware label of SYN knob `n`, or `PARn` on a blank slot.
unfoldable pub syn_label : List SynLabels → ℕ → ℕ → Bytes
unfolding print
syn_label [] machine n = blank_label n
syn_label (l ∷ ls) machine n =
    let rest = syn_label ls machine n in
    if l.id == machine then elim (label_at l n) [ some s ↦ s | none ↦ rest ] else rest

-- The first of the `n` options from `i` on that is `val`.
unfoldable pub find_option : ℕ → ℕ → List Bytes → Bytes → Option ℕ
unfolding same
find_option zero i vs val = none
find_option (suc n) i [] val = none
find_option (suc n) i (v ∷ vs) val =
    let rest = find_option n (i + 1) vs val in if same val v then some i else rest

abbrev pub options : ParamDef → List Bytes
options d = elim d.values [ none ↦ [] | some vs ↦ vs ]

-- `d.values && strcmp(val, d.values[i]) == 0`
unfoldable pub is_option : ParamDef → ℕ → Bytes → Bool
unfolding same
is_option d i val = elim d.values [ none ↦ false | some vs ↦ same val (get_or vs i []) ]

-- The same for the eight labels of a SYNT DEST, where the machine's label or the table's serves.
unfoldable pub find_label : List SynLabels → ParamDef → ℕ → ℕ → ℕ → Bytes → Option ℕ
unfolding same syn_label is_option
find_label ls d machine zero i val = none
find_label ls d machine (suc n) i val =
    let rest = find_label ls d machine n (i + 1) val in
    if same val (syn_label ls machine i) || is_option d i val then some i else rest

-- A number that is the whole text, clamped to `0 .. hi`.
unfoldable pub index_text : ℕ → Bytes → Option ℕ
unfolding strtol
index_text hi val = elim (strtol val) [
  | none ↦ none
  | some (v, rest) ↦ elim rest [ [] ↦ some (clamp_0 v hi) | _ ∷ _ ↦ none ]
]

abbrev pub or_else {ℓ} : {A : Type ℓ} → Option A → Option A → Option A
or_else (some a) o = some a
or_else none o = o

abbrev pub map_some {ℓ κ} : {A : Type ℓ} {B : Type κ} → (A → B) → Option A → Option B
map_some f (some a) = some (f a)
map_some f none = none

-- `lround(strtod(val, &end))`, or `none` where `end == val`: floating point is a parameter.
abbrev pub ReadDouble : Type 0
ReadDouble = Bytes → Option ℤ

abbrev pub option_count : ParamDef → ℕ
option_count d = if d.kind == 3 then 128 else d.count

-- `toRaw`: the raw byte of a display value, or `none` where the text is refused.
unfoldable pub to_raw : List SynLabels → ReadDouble → ParamDef → Bytes → ℕ → Option ℕ
unfolding find_label find_option index_text list_raw_mid
to_raw ls read d val machine =
    if d.kind == 4
    then map_some (λ i. list_raw_mid i 8)
        (or_else (find_label ls d machine 8 0 val) (index_text 7 val))
    else if d.kind == 2 || d.kind == 3
    then map_some (λ i. if d.kind == 3 then i else list_raw_mid i (option_count d))
        (or_else (find_option (option_count d) 0 (options d) val)
          (index_text (option_count d - 1) val))
    else map_some (λ v. if d.kind == 1 then clamp_0 (add_int v 64) 127 else clamp_0 v 127)
        (read val)

-- `fromRaw`: the text that `snprintf` is given to write.
unfoldable pub from_raw : List SynLabels → ParamDef → ℕ → ℕ → Bytes
unfolding syn_label list_index print
from_raw ls d raw machine =
    if d.kind == 4 then syn_label ls machine (min (list_index raw 8) 7) else elim d.values [
      | some vs ↦
          if d.kind == 3
          then get_or vs (min raw 127) []
          else if d.kind == 2
          then get_or vs (min (list_index raw d.count) (d.count - 1)) []
          else number
      | none ↦ number
    ]
  where
    number : Bytes
    number = print (if d.kind == 1 then sub_ℕ raw 64 else pos raw)

-- `parseMachine`: an index into the list, or a label of it.
unfoldable pub find_machine_label : List MachineDef → Bytes → Option ℕ
unfolding same
find_machine_label [] val = none
find_machine_label (m ∷ ms) val =
    let rest = find_machine_label ms val in if same val m.label then some m.id else rest

unfoldable pub machine_at : List MachineDef → ℤ → Option ℕ
machine_at ms (pos i) = map_some (λ (m : MachineDef). m.id) (get_elem? ms i)
machine_at ms (negsuc _) = none

unfoldable pub parse_machine : List MachineDef → Bytes → Option ℕ
unfolding strtol machine_at find_machine_label
parse_machine ms val = elim (strtol val) [
  | none ↦ find_machine_label ms val
  | some (idx, rest) ↦ elim rest [ [] ↦ machine_at ms idx | _ ∷ _ ↦ find_machine_label ms val ]
]
