-- ===== src/Ui.antt =====
-- The generated tables of src/plugin/generated/mnm_ui.h that the plugin reads: their types, and what
-- the plugin relies on.
pub mod One
pub mod Fx
pub mod Checks
use schwung_monomodule.Prelude.{ℕ, ◌+◌, ◌*◌, ◌≤◌, ◌<◌, ◌≡◌, ◌⊎◌, Bool, Option, List, length, All}
use schwung_monomodule.Prelude.Int.{ℤ, pos}
use schwung_monomodule.Text.{Bytes}

pub record ParamDef : Type 0 where
  pub key : Bytes
  pub page : ℕ  -- 0 SYN, 1 AMP, 2 FILT, 3 EFX, 4 to 6 LFO 1 to 3
  pub index : ℕ
  pub kind : ℕ  -- 0 numeric, 1 bipolar, 2 list, 3 readout, 4 LFO DEST on the SYNT page
  pub count : ℕ
  pub machine : ℤ  -- -1 where the parameter belongs to no machine
  pub default_raw : ℕ
  pub values : Option (List Bytes)

pub record MachineDef : Type 0 where
  pub id : ℕ
  pub label : Bytes

-- A row as the table writes it.
abbrev pub row : Bytes → ℕ → ℕ → ℕ → ℕ → ℤ → ℕ → Option (List Bytes) → ParamDef
row k page index kind count machine default_raw values = record {
  key = k;
  page = page;
  index = index;
  kind = kind;
  count = count;
  machine = machine;
  default_raw = default_raw;
  values = values;
}

-- `nullptr` marks a blank hardware slot.
pub record SynLabels : Type 0 where
  pub id : ℕ
  pub labels : List (Option Bytes)

-- What the `#if MNM_FX` of the plugin selects, and its flag MNM_UI_COMPAT.
pub record Tables : Type 0 where
  pub fx : Bool
  pub compat : Bool
  pub defs : List ParamDef
  pub machines : List MachineDef
  pub syn_labels : List SynLabels

abbrev pub max_machine_id : ℕ
max_machine_id = 40

-- A row whose slot is inside the pages and whose values are bytes of a kit.
pub record IsDef (d : ParamDef) : Type 0 where
  pub page_in : d.page ≤ 6
  pub index_in : d.index < 8
  pub default_in : d.default_raw ≤ 127
  pub count_in : d.kind ≡ 2 → (0 < d.count) × (d.count ≤ 128)

pub record IsTables (t : Tables) : Type 0 where
  pub rows : All IsDef t.defs
  pub ids : All (λ (m : MachineDef). m.id < max_machine_id) t.machines
