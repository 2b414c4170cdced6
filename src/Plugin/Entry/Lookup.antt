-- ===== src/Plugin/Entry/Lookup.antt =====
-- No call of the host breaks the parameter table: saved states, the row of a key, every key.
use schwung_monomodule.Prelude.{
  ℕ, zero, suc, ◌<◌, ◌≡◌, refl, ap, Bool, true, false, Option, none, some, List, [], ◌∷◌, arith,
  length, get_elem?, ◌==◌, All, Answers, Answers->>=, Answers-some, Bool-cases, inl, inr,
}
use schwung_monomodule.Prelude.Int.{ℤ, pos, negsuc, clamp_0-le}
use schwung_monomodule.Text.{Bytes, strtol}
use schwung_monomodule.Ui.{Tables, IsTables, IsDef, ParamDef, MachineDef, max_machine_id}
use schwung_monomodule.Plugin.Params.Valid.{IsRaw}
use schwung_monomodule.Plugin.Convert.{find_def, parse_machine}
use schwung_monomodule.Plugin.State.{read_ints, read_lfo, skip_comma}
use schwung_monomodule.Prelude.Int.{pos_part}
use schwung_monomodule.Text.{after_first, codes, same}
use schwung_monomodule.Plugin.Convert.{
  valid_machine, find_machine, find_machine_label, machine_at, map_some,
}
use schwung_monomodule.Plugin.Entry.Sounds.{All-get_elem?}

-- A list read off a state text has its length, and kit bytes.
pub read_ints-Answers :
    (n : ℕ) (v : Bytes) → Answers (λ (xs : List ℕ). (length xs ≡ n) × All IsRaw xs) (read_ints n v)
unfolding read_ints
read_ints-Answers zero v = (refl, tt)
read_ints-Answers (suc n) v = Answers->>= _ (strtol v) _ (λ a e.
    Answers->>= _ (read_ints n (skip_comma a.1)) _ (λ xs f.
      let r =
        Answers-some (λ (ys : List ℕ). (length ys ≡ n) × All IsRaw ys)
          (read_ints-Answers n (skip_comma a.1)) f in
      (ap suc r.0, (clamp_0-le a.0 127, r.1))))

pub read_lfo-raws :
    (s : Bytes) (lfo : List ℕ)
    → length lfo ≡ 24
    → All IsRaw lfo
    → (length (read_lfo s lfo) ≡ 24) × All IsRaw (read_lfo s lfo)
unfolding read_lfo
read_lfo-raws s lfo e h = found (after_first s (codes ";f="))
  where
    read :
        (o : Option (List ℕ))
        → Answers (λ (xs : List ℕ). (length xs ≡ 24) × All IsRaw xs) o
        → let r : List ℕ = elim o [ none ↦ lfo | some xs ↦ xs ] in (length r ≡ 24) × All IsRaw r
    read none a = (e, h)
    read (some xs) a = a

    found :
        (o : Option Bytes)
        → let r : List ℕ = elim o [
          | none ↦ lfo
          | some f ↦ elim (read_ints 24 f) [ none ↦ lfo | some xs ↦ xs ]
        ] in
          (length r ≡ 24) × All IsRaw r
    found none = (e, h)
    found (some f) = read (read_ints 24 f) (read_ints-Answers 24 f)

module _ {t : Tables} (h : IsTables t) where
  find_machine-Answers :
      (ms : List MachineDef) (id : ℕ)
      → All (λ (m : MachineDef). m.id < max_machine_id) ms
      → Answers (λ (m : MachineDef). id < max_machine_id) (find_machine ms id)
  unfolding find_machine
  find_machine-Answers [] id a = tt
  find_machine-Answers (m ∷ ms) id a = elim (Bool-cases (m.id == id)) [
    | inl e ↦ rw e (ground (arith, a.0))
    | inr e ↦ rw e (find_machine-Answers ms id a.1)
  ]

  pub valid_machine-lt : (m : ℤ) → valid_machine t.machines m ≡ true → pos_part m < max_machine_id
  unfolding valid_machine
  valid_machine-lt (pos m) e =
      known (find_machine t.machines m) (find_machine-Answers t.machines m h.ids) e
    where
      known :
          (o : Option MachineDef)
          → Answers (λ (_ : MachineDef). m < max_machine_id) o
          → let r : Bool = elim o [ none ↦ false | some _ ↦ true ] in r ≡ true → m < max_machine_id
      known none a e = cc
      known (some _) a e = a
  valid_machine-lt (negsuc n) e = cc

  find_machine_label-lt :
      (ms : List MachineDef) (val : Bytes)
      → All (λ (m : MachineDef). m.id < max_machine_id) ms
      → Answers (λ m. m < max_machine_id) (find_machine_label ms val)
  unfolding find_machine_label
  find_machine_label-lt [] val a = tt
  find_machine_label-lt (m ∷ ms) val a = elim (Bool-cases (same val m.label)) [
    | inl e ↦ rw e a.0
    | inr e ↦ rw e (find_machine_label-lt ms val a.1)
  ]

  machine_at-lt : (i : ℤ) → Answers (λ m. m < max_machine_id) (machine_at t.machines i)
  unfolding machine_at
  machine_at-lt (pos i) = row (get_elem? t.machines i) (All-get_elem? _ t.machines i h.ids)
    where
      row :
          (o : Option MachineDef)
          → Answers (λ (m : MachineDef). m.id < max_machine_id) o
          → Answers (λ m. m < max_machine_id) (map_some (λ (m : MachineDef). m.id) o)
      row none a = tt
      row (some m) a = a
  machine_at-lt (negsuc _) = tt

  pub parse_machine-lt :
      (val : Bytes) → Answers (λ m. m < max_machine_id) (parse_machine t.machines val)
  unfolding parse_machine
  parse_machine-lt val = read (strtol val)
    where
      read :
          (o : Option (ℤ × Bytes))
          → Answers
              (λ m. m < max_machine_id)
              (elim o [
                | none ↦ find_machine_label t.machines val
                | some (idx, rest) ↦ elim rest [
                  | [] ↦ machine_at t.machines idx
                  | _ ∷ _ ↦ find_machine_label t.machines val
                ]
              ])
      read none = find_machine_label-lt t.machines val h.ids
      read (some (idx, [])) = machine_at-lt idx
      read (some (idx, c ∷ rest)) = find_machine_label-lt t.machines val h.ids

  pub find_def-IsDef :
      (ds : List ParamDef) (key : Bytes) → All IsDef ds → Answers IsDef (find_def ds key)
  unfolding find_def
  find_def-IsDef [] key a = tt
  find_def-IsDef (d ∷ ds) key a = elim (Bool-cases (same d.key key)) [
    | inl e ↦ rw e a.0
    | inr e ↦ rw e (find_def-IsDef ds key a.1)
  ]
