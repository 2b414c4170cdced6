-- ===== src/Plugin/Entry/Valid/Stored.antt =====
-- The table and the depth of a state stay in bounds: readState of src/plugin/mnm_plugin.cpp.
use schwung_monomodule.Prelude.{
  ℕ, ◌≤◌, ◌<◌, ◌≡◌, List, arith, length, All, Answers, Answers->>=, Answers-some, Bool-cases, inl,
  inr,
}
use schwung_monomodule.Prelude.Int.{ℤ, pos, negsuc, clamp_0, clamp_0-le, clamp, pos_part}
use schwung_monomodule.Text.{Bytes, codes, from_first, after_first}
use schwung_monomodule.Shm.{max_depth}
use schwung_monomodule.Ui.{Tables, IsTables, max_machine_id}
use schwung_monomodule.Plugin.Params.{Params}
use schwung_monomodule.Plugin.Params.Valid
use schwung_monomodule.Plugin.Params.Valid.{
  IsRaw, IsRow, load_defaults-IsValid, raw_slot-Found, Found, write_slot-IsValid, level-IsValid,
  machine-IsValid, page-IsValid, lfo-IsValid, AnswersSlot,
}
use schwung_monomodule.Plugin.Convert.{valid_machine}
use schwung_monomodule.Plugin.Instance.{Instance}
use schwung_monomodule.Plugin.State.{
  parse_state, read_ints, read_lfo, store_depth, Header, scan_header,
}
use schwung_monomodule.Plugin.Entry.Sounds.{IsValid}
use schwung_monomodule.Plugin.Entry.Lookup.{read_ints-Answers, read_lfo-raws, valid_machine-lt}

-- A table and depth that a state asks for.
pub record IsAsked (a : Params × ℕ) : Type 0 where
  pub table : Valid.IsValid a.0
  pub depth_in : (1 ≤ a.1) × (a.1 ≤ max_depth)

pub clamp_depth : (d : ℤ) → (1 ≤ clamp d 1 max_depth) × (clamp d 1 max_depth ≤ max_depth)
clamp_depth (pos d) = ground arith
clamp_depth (negsuc d) = omega arith

module _ {t : Tables} (h : IsTables t) {p : Params} (v : Valid.IsValid p) where
  asked :
      (hd : Header) (s : Bytes) (pages : List ℕ)
      → pos_part hd.machine < max_machine_id
      → (length pages ≡ 32) × All IsRaw pages
      → IsAsked (
        record p {
          machine = pos_part hd.machine;
          level = clamp_0 hd.level 127;
          page = pages;
          lfo = read_lfo s p.lfo;
        },
        clamp hd.depth 1 max_depth,
      )
  asked hd s pages lt a = record {
    table =
        let l = read_lfo-raws s p.lfo v.lfo_size v.lfo_raws in
        lfo-IsValid
          (page-IsValid
            (level-IsValid (machine-IsValid v (pos_part hd.machine) lt) (clamp_0 hd.level 127)
              (clamp_0-le hd.level 127))
            pages a.0 a.1)
          (read_lfo s p.lfo) l.0 l.1;
    depth_in = clamp_depth hd.depth;
  }

  pub parse_state-Answers : (val : Bytes) → Answers IsAsked (parse_state t p val)
  unfolding parse_state
  parse_state-Answers val = Answers->>= IsAsked (from_first val (codes "m=")) _ (λ s _.
      Answers->>= IsAsked (scan_header s) _ (λ hd _.
        elim (Bool-cases (valid_machine t.machines hd.machine)) [
          | inl e ↦ rw e (
              Answers->>= IsAsked (after_first s (codes "p=")) _ (λ w _.
                Answers->>= IsAsked (read_ints 32 w) _ (λ pages f.
                  asked hd s pages (valid_machine-lt h hd.machine e) (
                    Answers-some (λ (xs : List ℕ). (length xs ≡ 32) × All IsRaw xs)
                      (read_ints-Answers 32 w) f))))
          | inr e ↦ rw e tt
        ]))

pub store_depth-IsValid : (in' : Instance) → IsValid in' → IsValid (store_depth in')
unfolding store_depth
store_depth-IsValid in' v = ground (arith, v.table, v.depth_in, v.presets)
