-- ===== src/Plugin/Convert/Laws.antt =====
-- What a list parameter is set to is what it reads back.
use schwung_monomodule.Prelude.{
  ℕ, zero, suc, ◌+◌, ◌-◌, ◌*◌, ◌/◌, ◌≤◌, ◌<◌, ◌≡◌, refl, sym, ap, subst, ◌∙◌, some, List, [], ◌∷◌,
  arith, length, get_or, Bool-cases, inl, inr, min,
}
use native.Mathlib.Decide.{ℕ_discrete}
use native.Mathlib.Nat.{div-add-mod', mod-lt}
use schwung_monomodule.Text.{Bytes, same}
use schwung_monomodule.Text.Laws.{same_iff}
use schwung_monomodule.Ui.{ParamDef, SynLabels}
use schwung_monomodule.Plugin.Convert.{
  list_index, list_raw_mid, find_option, ReadDouble, to_raw, from_raw,
}

-- The raw byte that is written for an option of a list is a kit byte.
pub list_raw_mid-le : (i n : ℕ) → i < n → n ≤ 128 → list_raw_mid i n ≤ 127
unfolding list_raw_mid
list_raw_mid-le i n h k = grind arith

mid_bounds :
    (q i n : ℕ)
    → 2 * (q * n) ≤ i * 256 + 128
    → i * 256 + 128 < 2 * (q * n) + 2 * n
    → n ≤ 128
    → (2 * q + 1) * n / 256 ≡ i
mid_bounds q i n lo hi k = elim (ℕ_discrete n 128) [
  | yes e ↦ rw e (
      full (subst (λ m. 2 * (q * m) ≤ i * 256 + 128) e lo)
        (subst (λ m. i * 256 + 128 < 2 * (q * m) + 2 * m) e hi))
  | no ne ↦ omega arith
]
  where
    full :
        2 * (q * 128) ≤ i * 256 + 128
        → i * 256 + 128 < 2 * (q * 128) + 2 * 128
        → (2 * q + 1) * 128 / 256 ≡ i
    full a b = omega arith

-- The raw byte that is written for an option of a list is read as that option.
pub list_index-list_raw_mid : (i n : ℕ) → i < n → n ≤ 128 → list_index (list_raw_mid i n) n ≡ i
unfolding list_index list_raw_mid
list_index-list_raw_mid i n h k =
    mid_bounds ((i * 256 + 128) / (2 * n)) i n (omega (arith, div-add-mod' (i * 256 + 128) (2 * n)))
      (omega (
        arith,
        div-add-mod' (i * 256 + 128) (2 * n),
        mod-lt (i * 256 + 128) {m = 2 * n} (omega arith),
      ))
      k

-- The search for an option of the list finds one with that text.
find_option-finds :
    (n k i : ℕ) (vs : List Bytes) (val : Bytes)
    → i < n
    → i < length vs
    → get_or vs i [] ≡ val
    → (j : ℕ) × (find_option n k vs val ≡ some (k + j)) × (j < n) × (get_or vs j [] ≡ val)
unfolding find_option
find_option-finds zero k i vs val h l e = elim h [ ]
find_option-finds (suc n) k i [] val h l e = elim l [ ]
find_option-finds (suc n) k zero (v ∷ vs) val h l e =
    (0, rw ((same_iff val v).1 (sym e)) (ap some (omega arith)), omega arith, e)
find_option-finds (suc n) k (suc i) (v ∷ vs) val h l e = elim (Bool-cases (same val v)) [
  | inl hit ↦ (0, rw hit (ap some (omega arith)), omega arith, sym ((same_iff val v).0 hit))
  | inr miss ↦
      let (j, f, b, g) = find_option-finds n (k + 1) i vs val (omega arith) (omega arith) e in
      (suc j, rw miss (f ∙ ap some (omega arith)), omega arith, g)
]

to_raw_list :
    (ls : List SynLabels) (read : ReadDouble) (d : ParamDef) (val : Bytes) (m : ℕ) (j : ℕ)
    {vs : List Bytes}
    → d.kind ≡ 2
    → d.values ≡ some vs
    → find_option d.count 0 vs val ≡ some (0 + j)
    → to_raw ls read d val m ≡ some (list_raw_mid j d.count)
unfolding to_raw
to_raw_list ls read d val m j k e f =
    rw (k, e, f) (ap (λ x. some (list_raw_mid x d.count)) (zero_plus j))
  where
    zero_plus : (x : ℕ) → 0 + x ≡ x
    zero_plus x = omega arith

from_raw_list :
    (ls : List SynLabels) (d : ParamDef) (raw m : ℕ) {vs : List Bytes}
    → d.kind ≡ 2
    → d.values ≡ some vs
    → from_raw ls d raw m ≡ get_or vs (min (list_index raw d.count) (d.count - 1)) []
unfolding from_raw
from_raw_list ls d raw m k e = rw (e, k)

-- Setting a list parameter of at most 128 options to the text of one of them is accepted, stores
-- a kit byte, and reads back as that text.
pub from_raw-to_raw :
    (ls : List SynLabels) (read : ReadDouble) (d : ParamDef) (vs : List Bytes) (i m : ℕ)
    → d.kind ≡ 2
    → d.values ≡ some vs
    → length vs ≡ d.count
    → d.count ≤ 128
    → i < d.count
    → (raw : ℕ) × (to_raw ls read d (get_or vs i []) m ≡ some raw)
      × (raw ≤ 127)
      × (from_raw ls d raw m ≡ get_or vs i [])
from_raw-to_raw ls read d vs i m k e l c h =
    let (j, f, b, g) = find_option-finds d.count 0 i vs (get_or vs i []) h (omega arith) refl in
    (
      list_raw_mid j d.count,
      to_raw_list ls read d (get_or vs i []) m j k e f,
      list_raw_mid-le j d.count b c,
      from_raw_list ls d (list_raw_mid j d.count) m k e
          ∙ ap (λ x. get_or vs (min x (d.count - 1)) []) (list_index-list_raw_mid j d.count b c)
          ∙ ap (λ x. get_or vs x []) (last_option j b)
          ∙ g,
    )
  where
    last_option : (j : ℕ) → j < d.count → min j (d.count - 1) ≡ j
    last_option j b = omega arith
