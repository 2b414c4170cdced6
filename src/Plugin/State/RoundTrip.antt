-- ===== src/Plugin/State/RoundTrip.antt =====
-- A state that `writeState` wrote is read back by `readState` as the same sound.
mod Writing
mod Reading
use schwung_monomodule.Prelude.{
  ◌+◌, ℕ, ◌≤◌, ◌<◌, ◌≡◌, refl, ap, ◌∙◌, true, some, List, ◌∷◌, ◌++◌, arith, append_assoc, ap₂,
}
use schwung_monomodule.Prelude.Int.{pos, clamp, clamp_0, pos_part}
use schwung_monomodule.Text.{Bytes, codes, after, after_first, from_first, print}
use schwung_monomodule.Text.Laws.{decimal-IsPlain, after_first-plain}
use schwung_monomodule.Shm.{max_depth}
use schwung_monomodule.Ui.{Tables}
use schwung_monomodule.Plugin.Params.{Params}
use schwung_monomodule.Plugin.Params.Valid.{IsValid}
use schwung_monomodule.Plugin.Convert.{valid_machine}
use schwung_monomodule.Plugin.Instance.{Instance}
use schwung_monomodule.Plugin.State.{
  empty_output, emit_state, head_text, write_state, read_ints, Header, scan_header, read_lfo,
  parse_state,
}
use schwung_monomodule.Plugin.State.RoundTrip.Writing.{
  values_text, emit-Fits, print_at-Fits, Fits-trans, emit_values-Fits, fields,
}
use schwung_monomodule.Plugin.State.RoundTrip.Reading.{
  raw_clamp, read_ints-values_text, depth_clamp, values_text-IsPlain, scan_int-print,
  scan_header_lem,
}

module _ (m l d : ℕ) (page lfo : List ℕ) where
  abbrev after_lfo : Bytes
  after_lfo = values_text lfo ++ codes "\"}"

  abbrev after_page : Bytes
  after_page = values_text page ++ (codes ";f=" ++ after_lfo)

  abbrev after_depth : Bytes
  after_depth = codes ";p=" ++ after_page

  abbrev after_level : Bytes
  after_level = codes ";d=" ++ (print (pos d) ++ after_depth)

  abbrev after_machine : Bytes
  after_machine = codes ";l=" ++ (print (pos l) ++ after_level)

  scan_header-fields :
      scan_header (fields m l d page lfo)
      ≡ some (record { machine = pos m; level = pos l; depth = pos d })
  unfolding fields
  scan_header-fields =
      scan_header_lem _ (scan_int-print (codes "m=") m after_machine refl)
        (scan_int-print (codes ";l=") l after_level refl)
        (scan_int-print (codes ";d=") d after_depth refl)

  -- A search passes over a printed number.
  pass :
      (n : ℕ) (rest t : Bytes) (c : ℕ)
      → b'9' < c
      → after_first (print (pos n) ++ rest) (c ∷ t) ≡ after_first rest (c ∷ t)
  unfolding print
  pass n rest t c h = after_first-plain (print (pos n)) rest t c (decimal-IsPlain n n) h

  after_first-page : after_first (fields m l d page lfo) (codes "p=") ≡ some after_page
  unfolding fields after_first after
  after_first-page =
      pass m after_machine (codes "=") b'p' (omega arith)
      ∙ pass l after_level (codes "=") b'p' (omega arith)
      ∙ pass d after_depth (codes "=") b'p' (omega arith)

  after_first-lfo : after_first (fields m l d page lfo) (codes ";f=") ≡ some after_lfo
  unfolding fields after_first after
  after_first-lfo =
      pass m after_machine (codes "f=") b';' (omega arith)
      ∙ pass l after_level (codes "f=") b';' (omega arith)
      ∙ pass d after_depth (codes "f=") b';' (omega arith)
      ∙ after_first-plain (values_text page) (codes ";f=" ++ after_lfo) (codes "f=") b';'
          (values_text-IsPlain page) (omega arith)

  from_first-fields :
      from_first (codes "{\"mnm\":\"" ++ fields m l d page lfo) (codes "m=")
      ≡ some (fields m l d page lfo)
  unfolding from_first after fields
  from_first-fields = refl

read_lfo_lem :
    (s : Bytes) (old : List ℕ) {f : Bytes} {xs : List ℕ}
    → after_first s (codes ";f=") ≡ some f
    → read_ints 24 f ≡ some xs
    → read_lfo s old ≡ xs
unfolding read_lfo
read_lfo_lem s old e f = rw (e, read_lfo) (rw (f, read_lfo))

parse_state_lem :
    (t : Tables) (p : Params) (val : Bytes) {s v : Bytes} {h : Header} {pages lfo : List ℕ}
    → from_first val (codes "m=") ≡ some s
    → scan_header s ≡ some h
    → valid_machine t.machines h.machine ≡ true
    → after_first s (codes "p=") ≡ some v
    → read_ints 32 v ≡ some pages
    → read_lfo s p.lfo ≡ lfo
    → parse_state t p val
      ≡ some (
        record p {
          machine = pos_part h.machine;
          level = clamp_0 h.level 127;
          page = pages;
          lfo = lfo;
        },
        clamp h.depth 1 max_depth,
      )
unfolding parse_state
parse_state_lem t p val a b c d e f =
    rw (a, parse_state)
      (rw (b, parse_state) (rw (c, parse_state) (rw (d, parse_state) (rw (e, parse_state) (rw f)))))

-- The whole text of a state.
state_text : Instance → Bytes
state_text in' =
    codes "{\"mnm\":\""
    ++ fields in'.params.machine in'.params.level in'.depth in'.params.page in'.params.lfo

emit_state-text :
    (len : ℕ) (in' : Instance)
    → (emit_state len in').n < len
    → (emit_state len in').text ≡ state_text in'
unfolding emit_state state_text fields head_text
emit_state-text len in' h =
    let f₄ = emit-Fits len _ (codes "\"}") h in
    let f₃ = emit_values-Fits len in'.params.lfo _ f₄.before in
    let f₂ = emit-Fits len _ (codes ";f=") f₃.before in
    let f₁ = emit_values-Fits len in'.params.page _ f₂.before in
    let f₀ = print_at-Fits len len empty_output (head_text in') zero_plus f₁.before in
    (Fits-trans _ _ (Fits-trans _ _ (Fits-trans _ _ (Fits-trans _ _ f₀ f₁) f₂) f₃) f₄).text
    ∙ simp append_assoc
  where
    zero_plus : 0 + len ≡ len
    zero_plus = omega arith

write_state-text :
    (len : ℕ) (in' : Instance) {text : Bytes}
    → write_state len in' ≡ some text
    → text ≡ state_text in'
unfolding write_state
write_state-text len in' e = ground (arith, emit_state-text len in')

-- The state of an instance with a valid table, a machine that the tables list and a depth within
-- 1..4, where it fits the buffer, is read back whatever table it is read into: the machine, the
-- level, the pages, the LFOs and the depth are the writer's; only the remembered SYN values stay
-- the reader's.
pub parse_state-write_state :
    (t : Tables) (len : ℕ) (in' : Instance) (p : Params) {text : Bytes}
    → IsValid in'.params
    → valid_machine t.machines (pos in'.params.machine) ≡ true
    → 1 ≤ in'.depth
    → in'.depth ≤ max_depth
    → write_state len in' ≡ some text
    → parse_state t p text
      ≡ some (
        record p {
          machine = in'.params.machine;
          level = in'.params.level;
          page = in'.params.page;
          lfo = in'.params.lfo;
        },
        in'.depth,
      )
unfolding state_text
parse_state-write_state t len in' p v m lo hi e =
    ap (parse_state t p) (write_state-text len in' e)
    ∙ parse_state_lem t p _ (from_first-fields _ _ _ _ _) (scan_header-fields _ _ _ _ _) m
        (after_first-page _ _ _ _ _)
        (read_ints-values_text in'.params.page
          (codes ";f=" ++ (values_text in'.params.lfo ++ codes "\"}")) v.page_size v.page_raws refl)
        (read_lfo_lem _ p.lfo (after_first-lfo _ _ _ _ _)
          (read_ints-values_text in'.params.lfo (codes "\"}") v.lfo_size v.lfo_raws refl))
    ∙ ap₂
        (λ (l d : ℕ). some (
          record p {
            machine = in'.params.machine;
            level = l;
            page = in'.params.page;
            lfo = in'.params.lfo;
          },
          d,
        ))
        (raw_clamp v.level_in) (depth_clamp lo hi)
