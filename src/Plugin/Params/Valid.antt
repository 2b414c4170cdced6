-- ===== src/Plugin/Params/Valid.antt =====
-- The parameter table keeps its shape, and every value stays a byte of a kit (0 to 127).
use schwung_monomodule.Prelude.{
  ℕ, ◌-◌, ◌≤◌, ◌<◌, ◌≡◌, refl, Bool, true, false, ◌&&◌, Option, none, some, List, [], ◌∷◌, arith,
  length, set, drop, get_or, leb, ltb, ◌==◌, All, Bool-cases, inl, inr, ltb→lt, length-set,
  length-append, length-drop, All-set, All-append, All-drop, All-replicate, All-get_or_lt,
}
use schwung_monomodule.Prelude.Int.{ℤ, pos, negsuc, is_pos}
use schwung_monomodule.Ui.{ParamDef, Tables, max_machine_id, IsDef, IsTables}
use schwung_monomodule.Plugin.Params.{
  Params, cell, set_syn, syn_defaults_from, machine_syn_defaults, load_default, load_defaults_from,
  load_defaults, Slot, page_cell, lfo_cell, other, remember, other_slot, raw_slot, write_slot,
}

abbrev pub IsRaw : ℕ → Type 0
IsRaw v = v ≤ 127

-- The eight SYN values of a machine.
pub record IsRow (r : List ℕ) : Type 0 where
  pub size : length r ≡ 8
  pub raws : All IsRaw r

pub record IsValid (p : Params) : Type 0 where
  pub machine_in : p.machine < max_machine_id
  pub level_in : p.level ≤ 127
  pub page_size : length p.page ≡ 32
  pub page_raws : All IsRaw p.page
  pub lfo_size : length p.lfo ≡ 24
  pub lfo_raws : All IsRaw p.lfo
  pub mem_size : length p.syn_mem ≡ max_machine_id
  pub mem_rows : All IsRow p.syn_mem
  pub set_size : length p.syn_mem_set ≡ max_machine_id

-- A slot inside the table.
abbrev pub IsSlot : Slot → Type 0
IsSlot (page_cell i) = i < 32
IsSlot (lfo_cell i) = i < 24
IsSlot (other m i) = (m < max_machine_id) × (i < 8)

set-IsRow : (r : List ℕ) (i v : ℕ) → IsRow r → IsRaw v → IsRow (set r i v)
set-IsRow r i v h k = record {
  size = omega (arith, length-set r i v, h);
  raws = All-set IsRaw r i v h.raws k;
}

syn_defaults_from-IsRow :
    (m : ℕ) (ds : List ParamDef) (r : List ℕ)
    → All IsDef ds
    → IsRow r
    → IsRow (syn_defaults_from m ds r)
unfolding syn_defaults_from
syn_defaults_from-IsRow m [] r h k = k
syn_defaults_from-IsRow m (d ∷ ds) r h k = elim (Bool-cases (d.page == 0 && is_pos d.machine m)) [
  | inl e ↦
      rw e (syn_defaults_from-IsRow m ds _ h.1 (set-IsRow r d.index d.default_raw k h.0.default_in))
  | inr e ↦ rw e (syn_defaults_from-IsRow m ds r h.1 k)
]

pub machine_syn_defaults-IsRow :
    {t : Tables} (m : ℕ) → IsTables t → IsRow (machine_syn_defaults t m)
unfolding machine_syn_defaults
machine_syn_defaults-IsRow {t} m h =
    syn_defaults_from-IsRow m t.defs _ h.rows
      (record { size = refl; raws = All-replicate IsRaw 8 0 (omega arith) })

pub set_syn-size :
    (page syn : List ℕ) → length page ≡ 32 → length syn ≡ 8 → length (set_syn page syn) ≡ 32
set_syn-size page syn h k = omega (arith, length-append syn (drop 8 page), length-drop 8 page)

pub set_syn-raws :
    (page syn : List ℕ) → All IsRaw page → All IsRaw syn → All IsRaw (set_syn page syn)
set_syn-raws page syn h k = All-append IsRaw syn (drop 8 page) k (All-drop IsRaw 8 page h)

module _ {p : Params} (v : IsValid p) where
  pub level-IsValid : (l : ℕ) → l ≤ 127 → IsValid (record p { level = l })
  level-IsValid l h = record {
    machine_in = v.machine_in;
    level_in = h;
    page_size = v.page_size;
    page_raws = v.page_raws;
    lfo_size = v.lfo_size;
    lfo_raws = v.lfo_raws;
    mem_size = v.mem_size;
    mem_rows = v.mem_rows;
    set_size = v.set_size;
  }

  pub machine-IsValid : (m : ℕ) → m < max_machine_id → IsValid (record p { machine = m })
  machine-IsValid m h = record {
    machine_in = h;
    level_in = v.level_in;
    page_size = v.page_size;
    page_raws = v.page_raws;
    lfo_size = v.lfo_size;
    lfo_raws = v.lfo_raws;
    mem_size = v.mem_size;
    mem_rows = v.mem_rows;
    set_size = v.set_size;
  }

  pub page-IsValid :
      (page : List ℕ) → length page ≡ 32 → All IsRaw page → IsValid (record p { page = page })
  page-IsValid page h k = record {
    machine_in = v.machine_in;
    level_in = v.level_in;
    page_size = h;
    page_raws = k;
    lfo_size = v.lfo_size;
    lfo_raws = v.lfo_raws;
    mem_size = v.mem_size;
    mem_rows = v.mem_rows;
    set_size = v.set_size;
  }

  pub lfo-IsValid :
      (lfo : List ℕ) → length lfo ≡ 24 → All IsRaw lfo → IsValid (record p { lfo = lfo })
  lfo-IsValid lfo h k = record {
    machine_in = v.machine_in;
    level_in = v.level_in;
    page_size = v.page_size;
    page_raws = v.page_raws;
    lfo_size = h;
    lfo_raws = k;
    mem_size = v.mem_size;
    mem_rows = v.mem_rows;
    set_size = v.set_size;
  }

  pub mem-IsValid :
      (m : ℕ) (r : List ℕ) (flags : List Bool)
      → IsRow r
      → length flags ≡ max_machine_id
      → IsValid (record p { syn_mem = set p.syn_mem m r; syn_mem_set = flags })
  mem-IsValid m r flags h k = record {
    machine_in = v.machine_in;
    level_in = v.level_in;
    page_size = v.page_size;
    page_raws = v.page_raws;
    lfo_size = v.lfo_size;
    lfo_raws = v.lfo_raws;
    mem_size = omega (arith, length-set p.syn_mem m r, v.mem_size);
    mem_rows = All-set IsRow p.syn_mem m r v.mem_rows h;
    set_size = k;
  }

  pub flags-IsValid :
      (flags : List Bool)
      → length flags ≡ max_machine_id
      → IsValid (record p { syn_mem_set = flags })
  flags-IsValid flags k = record {
    machine_in = v.machine_in;
    level_in = v.level_in;
    page_size = v.page_size;
    page_raws = v.page_raws;
    lfo_size = v.lfo_size;
    lfo_raws = v.lfo_raws;
    mem_size = v.mem_size;
    mem_rows = v.mem_rows;
    set_size = k;
  }

  pub set_syn-IsValid : {r : List ℕ} → IsRow r → IsValid (record p { page = set_syn p.page r })
  set_syn-IsValid {r} h =
      page-IsValid (set_syn p.page r) (set_syn-size p.page r v.page_size h.size)
        (set_syn-raws p.page r v.page_raws h.raws)

  pub syn_mem-IsRow : (m : ℕ) → m < max_machine_id → IsRow (get_or p.syn_mem m [])
  syn_mem-IsRow m h = All-get_or_lt IsRow p.syn_mem m [] v.mem_rows (omega (arith, v.mem_size))

  -- A write of a kit byte through a slot inside the table keeps the table valid.
  pub write_slot-IsValid : (s : Slot) (x : ℕ) → IsSlot s → IsRaw x → IsValid (write_slot p s x)
  unfolding write_slot
  write_slot-IsValid (page_cell i) x h k =
      page-IsValid (set p.page i x) (omega (arith, length-set p.page i x, v.page_size))
        (All-set IsRaw p.page i x v.page_raws k)
  write_slot-IsValid (lfo_cell i) x h k =
      lfo-IsValid (set p.lfo i x) (omega (arith, length-set p.lfo i x, v.lfo_size))
        (All-set IsRaw p.lfo i x v.lfo_raws k)
  write_slot-IsValid (other m i) x h k =
      mem-IsValid m _ p.syn_mem_set (set-IsRow _ i x (syn_mem-IsRow m h.0) k) v.set_size

  load_default-IsValid : (d : ParamDef) → IsDef d → IsValid (load_default p d)
  unfolding load_default
  load_default-IsValid d h = elim (Bool-cases (leb 1 d.page && leb d.page 3)) [
    | inl e ↦ rw e (
        page-IsValid (set p.page (cell d.page d.index) d.default_raw)
          (omega (arith, length-set p.page (cell d.page d.index) d.default_raw, v.page_size))
          (All-set IsRaw p.page _ _ v.page_raws h.default_in))
    | inr e ↦ elim (Bool-cases (leb 4 d.page)) [
      | inl f ↦
          rw (e, f)
            (lfo-IsValid (set p.lfo (cell (d.page - 4) d.index) d.default_raw)
              (omega
                (arith, length-set p.lfo (cell (d.page - 4) d.index) d.default_raw, v.lfo_size))
              (All-set IsRaw p.lfo _ _ v.lfo_raws h.default_in))
      | inr f ↦ rw (e, f) v
    ]
  ]

  remember-IsValid : {t : Tables} (m : ℕ) → IsTables t → IsValid (remember t p m)
  unfolding remember
  remember-IsValid {t} m h = elim (Bool-cases (get_or p.syn_mem_set m false)) [
    | inl e ↦ rw e v
    | inr e ↦ rw e (
        mem-IsValid m (machine_syn_defaults t m) (set p.syn_mem_set m true)
          (machine_syn_defaults-IsRow m h)
          (omega (arith, length-set p.syn_mem_set m true, v.set_size)))
  ]

load_defaults_from-IsValid :
    (ds : List ParamDef) {p : Params} → All IsDef ds → IsValid p → IsValid (load_defaults_from ds p)
unfolding load_defaults_from
load_defaults_from-IsValid [] h v = v
load_defaults_from-IsValid (d ∷ ds) h v =
    load_defaults_from-IsValid ds h.1 (load_default-IsValid v d h.0)

-- Loading the defaults of any machine keeps the table valid.
pub load_defaults-IsValid :
    {t : Tables} {p : Params} → IsTables t → IsValid p → IsValid (load_defaults t p)
unfolding load_defaults
load_defaults-IsValid {t} {p} h v =
    load_defaults_from-IsValid t.defs h.rows
      (set_syn-IsValid v (machine_syn_defaults-IsRow p.machine h))

abbrev pub AnswersSlot : Option Slot → Type 0
AnswersSlot none = Unit {0}
AnswersSlot (some s) = IsSlot s

pub record Found (answer : Option Slot × Params) : Type 0 where
  pub inside : AnswersSlot answer.0
  pub valid : IsValid answer.1

other_slot-Found :
    {t : Tables} {p : Params} (index : ℕ) (m : ℤ)
    → index < 8
    → IsTables t
    → IsValid p
    → Found (other_slot t p index m)
unfolding other_slot
other_slot-Found {t} {p} index (pos m) i h v = elim (Bool-cases (ltb m max_machine_id)) [
  | inl e ↦
      rw e (record { inside = (ltb→lt m max_machine_id e, i); valid = remember-IsValid v m h })
  | inr e ↦ rw e (record { inside = tt; valid = v })
]
other_slot-Found index (negsuc m) i h v = record { inside = tt; valid = v }

-- `rawSlot` answers a slot inside the table if any, and keeps the table valid.
pub raw_slot-Found :
    {t : Tables} {p : Params} (d : ParamDef)
    → IsDef d
    → IsTables t
    → IsValid p
    → Found (raw_slot t p d)
unfolding raw_slot
raw_slot-Found {t} {p} d k h v = elim (Bool-cases (d.page == 0)) [
  | inl e ↦ elim (Bool-cases (is_pos d.machine p.machine)) [
    | inl f ↦ rw (e, f) (record { inside = omega (arith, k.index_in); valid = v })
    | inr f ↦ rw (e, f) (other_slot-Found d.index d.machine k.index_in h v)
  ]
  | inr e ↦ elim (Bool-cases (leb d.page 3)) [
    | inl f ↦ rw (e, f) (record { inside = ground (arith, k.index_in); valid = v })
    | inr f ↦ rw (e, f) (record { inside = ground (arith, k.index_in, k.page_in); valid = v })
  ]
]
