-- ===== src/Plugin/Convert/Bounds.antt =====
-- The range of what toRaw of src/plugin/mnm_plugin.cpp answers.
use schwung_monomodule.Prelude.{
  ℕ, zero, suc, ◌+◌, ◌-◌, ◌≤◌, ◌<◌, ◌≡◌, true, ◌||◌, Option, none, some, List, [], ◌∷◌, arith, ◌==◌,
  if◌then◌else◌, Bool-cases, inl, inr, Answers,
}
use schwung_monomodule.Prelude.Int.{ℤ, clamp_0, clamp_0-le, add_int}
use schwung_monomodule.Text.{Bytes, same, strtol}
use schwung_monomodule.Ui.{ParamDef, SynLabels, IsDef}
use schwung_monomodule.Plugin.Convert.{
  list_raw_mid, find_option, find_label, index_text, or_else, map_some, option_count, options,
  ReadDouble, to_raw, syn_label, is_option,
}
use schwung_monomodule.Plugin.Convert.Laws.{list_raw_mid-le}

module _ (P Q : ℕ → Type 0) where
  map_some-Answers :
      (f : ℕ → ℕ)
      → ((x : ℕ) → P x → Q (f x))
      → (o : Option ℕ) → Answers P o
      → Answers Q (map_some f o)
  map_some-Answers f h none a = tt
  map_some-Answers f h (some x) a = h x a

  or_else-Answers : (o p : Option ℕ) → Answers P o → Answers P p → Answers P (or_else o p)
  or_else-Answers none p a b = b
  or_else-Answers (some x) p a b = a

find_option-lt :
    (n k hi : ℕ) (vs : List Bytes) (val : Bytes)
    → k + n ≤ hi
    → Answers (λ x. x < hi) (find_option n k vs val)
unfolding find_option
find_option-lt zero k hi vs val h = tt
find_option-lt (suc n) k hi [] val h = tt
find_option-lt (suc n) k hi (v ∷ vs) val h = elim (Bool-cases (same val v)) [
  | inl e ↦ rw e (omega arith)
  | inr e ↦ rw e (find_option-lt n (k + 1) hi vs val (omega arith))
]

find_label-lt :
    (ls : List SynLabels) (d : ParamDef) (m n k hi : ℕ) (val : Bytes)
    → k + n ≤ hi
    → Answers (λ x. x < hi) (find_label ls d m n k val)
unfolding find_label
find_label-lt ls d m zero k hi val h = tt
find_label-lt ls d m (suc n) k hi val h =
    elim (Bool-cases (same val (syn_label ls m k) || is_option d k val)) [
      | inl e ↦ rw e (omega arith)
      | inr e ↦ rw e (find_label-lt ls d m n (k + 1) hi val (omega arith))
    ]

index_text-lt : (hi : ℕ) (val : Bytes) → Answers (λ x. x < suc hi) (index_text hi val)
unfolding index_text
index_text-lt hi val = read (strtol val)
  where
    read :
        (o : Option (ℤ × Bytes))
        → Answers
            (λ x. x < suc hi)
            (elim o [
              | none ↦ none
              | some (v, rest) ↦ elim rest [ [] ↦ some (clamp_0 v hi) | _ ∷ _ ↦ none ]
            ])
    read none = tt
    read (some (v, [])) = omega (arith, clamp_0-le v hi)
    read (some (v, c ∷ rest)) = tt

abbrev IsRaw : ℕ → Type 0
IsRaw x = x ≤ 127

count_le : (d : ParamDef) → 0 + option_count d ≤ suc (option_count d - 1)
count_le d = omega arith

option_value-IsRaw :
    (d : ParamDef) (x : ℕ)
    → IsDef d
    → (d.kind == 2 || d.kind == 3) ≡ true
    → x < suc (option_count d - 1)
    → IsRaw (if d.kind == 3 then x else list_raw_mid x (option_count d))
option_value-IsRaw d x h f lt = elim (Bool-cases (d.kind == 3)) [
  | inl e ↦ rw e (ground arith)
  | inr e ↦ rw e (
      let c : (0 < d.count) × (d.count ≤ 128) = h.count_in (ground arith) in
      list_raw_mid-le x d.count (ground (arith, c)) c.1)
]

number-IsRaw :
    (k : ℕ) (v : ℤ) → IsRaw (if k == 1 then clamp_0 (add_int v 64) 127 else clamp_0 v 127)
number-IsRaw k v = ground (arith, clamp_0-le v 127, clamp_0-le (add_int v 64) 127)

number_text-IsRaw :
    (k : ℕ) (o : Option ℤ)
    → Answers IsRaw (map_some (λ v. if k == 1 then clamp_0 (add_int v 64) 127 else clamp_0 v 127) o)
number_text-IsRaw k none = tt
number_text-IsRaw k (some v) = number-IsRaw k v

-- Whatever text a parameter whose row is as `IsDef` says is set to, and whatever the number in it
-- is read as, the answer is a kit byte.
pub to_raw-IsRaw :
    (ls : List SynLabels) (read : ReadDouble) (d : ParamDef) (val : Bytes) (m : ℕ)
    → IsDef d
    → Answers (λ x. x ≤ 127) (to_raw ls read d val m)
unfolding to_raw
to_raw-IsRaw ls read d val m h = elim (Bool-cases (d.kind == 4)) [
  | inl e ↦ rw e (
      map_some-Answers (λ x. x < 8) IsRaw (λ i. list_raw_mid i 8)
        (λ x b. list_raw_mid-le x 8 b (omega arith)) _
        (or_else-Answers (λ x. x < 8) IsRaw _ _ (find_label-lt ls d m 8 0 8 val (omega arith))
          (index_text-lt 7 val)))
  | inr e ↦ elim (Bool-cases (d.kind == 2 || d.kind == 3)) [
    | inl f ↦
        rw (e, f)
          (map_some-Answers (λ x. x < suc (option_count d - 1)) IsRaw _
            (λ x lt. option_value-IsRaw d x h f lt) _
            (or_else-Answers (λ x. x < suc (option_count d - 1)) IsRaw _ _
              (find_option-lt (option_count d) 0 (suc (option_count d - 1)) (options d) val
                (count_le d))
              (index_text-lt (option_count d - 1) val)))
    | inr f ↦ rw (e, f) (number_text-IsRaw d.kind (read val))
  ]
]
