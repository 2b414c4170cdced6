-- ===== src/Plugin/Params.antt =====
-- The parameter table of src/plugin/mnm_plugin.cpp (`Params`): its slots, defaults and invariant.
pub mod Valid
use schwung_monomodule.Prelude.{
  ℕ, zero, suc, ◌+◌, ◌*◌, ◌-◌, ◌≤◌, ◌<◌, ◌≡◌, refl, Bool, true, false, ◌&&◌, Option, none, some,
  List, [], ◌∷◌, ◌++◌, arith, length, set, take, drop, replicate, get_or, leb, ltb, ◌==◌,
  if◌then◌else◌, All,
}
use schwung_monomodule.Prelude.Int.{ℤ, pos, negsuc, is_pos}
use schwung_monomodule.Ui.{ParamDef, Tables, MachineDef, max_machine_id, IsDef, IsTables}

-- `page[p][k]` is element `8 * p + k` of `page`, as in memory; so too `lfo`. A machine is never
-- negative in the table: every writer has looked it up in the machine list or reads it off a byte.
pub record Params : Type 0 where
  pub machine : ℕ
  pub level : ℕ
  pub page : List ℕ  -- 4 pages of 8
  pub lfo : List ℕ  -- 3 LFOs of 8
  pub syn_mem : List (List ℕ)  -- each machine's last SYN values
  pub syn_mem_set : List Bool

abbrev pub cell : ℕ → ℕ → ℕ
cell row k = 8 * row + k

-- `std::memcpy(page[0], syn, sizeof page[0])`
abbrev pub set_syn : List ℕ → List ℕ → List ℕ
set_syn page syn = syn ++ drop 8 page

-- The loop of `machineSynDefaults` over the rows of the table.
unfoldable pub syn_defaults_from : ℕ → List ParamDef → List ℕ → List ℕ
syn_defaults_from machine [] out = out
syn_defaults_from machine (d ∷ ds) out =
    syn_defaults_from machine ds
      (if d.page == 0 && is_pos d.machine machine then set out d.index d.default_raw else out)

unfoldable pub machine_syn_defaults : Tables → ℕ → List ℕ
unfolding syn_defaults_from
machine_syn_defaults t machine = syn_defaults_from machine t.defs (replicate 8 0)

-- One row of the loop of `loadDefaults`.
unfoldable pub load_default : Params → ParamDef → Params
load_default p d =
    if leb 1 d.page && leb d.page 3
    then record p { page = set p.page (cell d.page d.index) d.default_raw }
    else if leb 4 d.page
    then record p { lfo = set p.lfo (cell (d.page - 4) d.index) d.default_raw }
    else p

unfoldable pub load_defaults_from : List ParamDef → Params → Params
unfolding load_default
load_defaults_from [] p = p
load_defaults_from (d ∷ ds) p = load_defaults_from ds (load_default p d)

unfoldable pub load_defaults : Tables → Params → Params
unfolding machine_syn_defaults load_defaults_from
load_defaults t p =
    load_defaults_from t.defs
      (record p { page = set_syn p.page (machine_syn_defaults t p.machine) })

-- Where a row's value is kept: `rawSlot`. `other` is another machine's remembered SYN value.
pub data Slot : Type 0 where
  page_cell : ℕ → Slot
  lfo_cell : ℕ → Slot
  other : ℕ → ℕ → Slot

-- Another machine's values are set to its defaults before they are first used.
unfoldable pub remember : Tables → Params → ℕ → Params
unfolding machine_syn_defaults
remember t p m = if get_or p.syn_mem_set m false then p else record p {
  syn_mem = set p.syn_mem m (machine_syn_defaults t m);
  syn_mem_set = set p.syn_mem_set m true;
}

unfoldable pub other_slot : Tables → Params → ℕ → ℤ → Option Slot × Params
unfolding remember
other_slot t p index (pos m) =
    if ltb m max_machine_id then (some (other m index), remember t p m) else (none, p)
other_slot t p index (negsuc _) = (none, p)

-- `rawSlot`: the slot of a row, and the table with what was set to its defaults on the way.
unfoldable pub raw_slot : Tables → Params → ParamDef → Option Slot × Params
unfolding other_slot
raw_slot t p d =
    if d.page == 0
    then if is_pos d.machine p.machine
      then (some (page_cell d.index), p)
      else other_slot t p d.index d.machine
    else if leb d.page 3
    then (some (page_cell (cell d.page d.index)), p)
    else (some (lfo_cell (cell (d.page - 4) d.index)), p)

unfoldable pub read_slot : Params → Slot → ℕ
read_slot p (page_cell i) = get_or p.page i 0
read_slot p (lfo_cell i) = get_or p.lfo i 0
read_slot p (other m i) = get_or (get_or p.syn_mem m []) i 0

unfoldable pub write_slot : Params → Slot → ℕ → Params
write_slot p (page_cell i) v = record p { page = set p.page i v }
write_slot p (lfo_cell i) v = record p { lfo = set p.lfo i v }
write_slot p (other m i) v = record p {
  syn_mem = set p.syn_mem m (set (get_or p.syn_mem m []) i v);
}
