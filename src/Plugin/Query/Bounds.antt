-- ===== src/Plugin/Query/Bounds.antt =====
-- What a read by getParam of src/plugin/mnm_plugin.cpp does to the instance.
use schwung_monomodule.Prelude.{
  ℕ, zero, suc, Option, none, some, arith, if◌then◌else◌, Answers, Bool-cases, inl, inr,
}
use schwung_monomodule.Text.{Bytes, codes, same, base_name}
use schwung_monomodule.Ui.{Tables, IsTables, IsDef, ParamDef}
use schwung_monomodule.Plugin.Params.{raw_slot}
use schwung_monomodule.Plugin.Params.Valid.{raw_slot-Found}
use schwung_monomodule.Plugin.Convert.{find_def}
use schwung_monomodule.Plugin.Instance.{Instance}
use schwung_monomodule.Plugin.Template.{Texts}
use schwung_monomodule.Plugin.Entry.Sounds.{IsValid, table-IsValid}
use schwung_monomodule.Plugin.Entry.Lookup.{find_def-IsDef}
use schwung_monomodule.Plugin.Query.{
  Answer, get_status, get_row, get_other, get_fixed, get_key, get_param,
}

module _ {t : Tables} (h : IsTables t) (x : Texts) (now : ℕ) {in' : Instance}
    (v : IsValid in') where
  get_row-IsValid : (len : ℕ) (d : ParamDef) → IsDef d → IsValid (get_row t in' len d).1
  unfolding get_row
  get_row-IsValid len d k =
      table-IsValid (raw_slot t in'.params d).1 (raw_slot-Found d k h v.table).valid v

  get_status-IsValid : (len : ℕ) → IsValid (get_status in' len).1
  unfolding get_status
  get_status-IsValid len = ground (arith, v.table, v.depth_in, v.presets)

  get_other-IsValid : (len : ℕ) (k : Bytes) → IsValid (get_other t in' len k).1
  unfolding get_other
  get_other-IsValid len k = row (find_def t.defs k) (find_def-IsDef h t.defs k h.rows)
    where
      row :
          (o : Option ParamDef)
          → Answers IsDef o
          → IsValid
              (elim o as (λ _. Option Answer × Instance) [
                | none ↦ (none, in')
                | some d ↦ get_row t in' len d
              ]).1
      row none a = v
      row (some d) a = get_row-IsValid len d a

  get_key-IsValid : (len : ℕ) (k : Bytes) → IsValid (get_key t x now in' len k).1
  unfolding get_key
  get_key-IsValid len k = fixed_key (get_fixed t x now in' len k)
    where
      fixed_key :
          (o : Option (Option Answer))
          → IsValid
              (elim o as (λ _. Option Answer × Instance) [
                | some a ↦ (a, in')
                | none ↦
                    if same k (codes "status") then get_status in' len else get_other t in' len k
              ]).1
      fixed_key (some a) = v
      fixed_key none = elim (Bool-cases (same k (codes "status"))) [
        | inl e ↦ rw e (get_status-IsValid len)
        | inr e ↦ rw e (get_other-IsValid len k)
      ]

  -- A read of any key, into a buffer of any length or none, keeps a valid instance valid, though it may
  -- set another machine's values to their defaults.
  pub get_param-IsValid :
      (key : Option Bytes) (len : Option ℕ) → IsValid (get_param t x now in' key len).1
  unfolding get_param
  get_param-IsValid none len = v
  get_param-IsValid (some key) none = v
  get_param-IsValid (some key) (some zero) = v
  get_param-IsValid (some key) (some (suc n)) = get_key-IsValid (suc n) (base_name key)
