-- ===== src/Ui/Checks.antt =====
-- The generated tables of src/plugin/generated/mnm_ui.h are checked.
use schwung_monomodule.Prelude.{
  ◌≡◌, refl, Bool, true, false, ◌&&◌, List, [], ◌∷◌, arith, leb, ltb, ◌==◌, ltb→lt, if◌then◌else◌,
  All, Bool-cases, inl, inr,
}
use schwung_monomodule.Ui.{ParamDef, MachineDef, IsDef, IsTables, max_machine_id}
use schwung_monomodule.Ui.One
use schwung_monomodule.Ui.Fx

abbrev is_def : ParamDef → Bool
is_def d =
    (leb d.page 6 && ltb d.index 8)
    && (leb d.default_raw 127 && (if d.kind == 2 then ltb 0 d.count && leb d.count 128 else true))

module _ {A : Type 0} (test : A → Bool) where
  every : List A → Bool
  every [] = true
  every (x ∷ xs) = test x && every xs

  every-All :
      (P : A → Type 0) (xs : List A) → ((x : A) → test x ≡ true → P x) → every xs ≡ true → All P xs
  unfolding every
  every-All P [] s h = tt
  every-All P (x ∷ xs) s h = elim (Bool-cases (test x)) [
    | inl e ↦ (s x e, every-All P xs s (rest (test x) h))
    | inr e ↦ cc
  ]
    where
      rest : (b : Bool) → b && every xs ≡ true → every xs ≡ true
      rest true k = k
      rest false k = cc

is_def-IsDef : (d : ParamDef) → is_def d ≡ true → IsDef d
is_def-IsDef d h = ground arith

-- The tables of both builds: every row's slot lies inside the pages, its default is a byte of a kit,
-- the count of a list row is 1 to 128, and every machine number is below 40.
pub tables-IsTables : (compat : Bool) → IsTables (One.tables compat) × IsTables (Fx.tables compat)
unfolding One.tables Fx.tables every
tables-IsTables compat = (
  record {
    rows = every-All is_def IsDef (One.tables compat).defs is_def-IsDef refl;
    ids =
        every-All (λ (m : MachineDef). ltb m.id max_machine_id) _ One.machines
          (λ m e. ltb→lt m.id max_machine_id e) refl;
  },
  record {
    rows = every-All is_def IsDef (Fx.tables compat).defs is_def-IsDef refl;
    ids =
        every-All (λ (m : MachineDef). ltb m.id max_machine_id) _ Fx.machines
          (λ m e. ltb→lt m.id max_machine_id e) refl;
  },
)
