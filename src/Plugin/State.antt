-- ===== src/Plugin/State.antt =====
-- The saved state of src/plugin/mnm_plugin.cpp: writeState, readInts, readState.
pub mod RoundTrip
pub mod Bounds
use schwung_monomodule.Prelude.{
  ◌>>=◌, ◌>>◌, ℕ, zero, suc, ◌+◌, ◌-◌, Option, none, some, List, [], ◌∷◌, ◌++◌, length, take, min,
  max, leb, ltb, ◌==◌, if◌then◌else◌, guard,
}
use schwung_monomodule.Prelude.Int.{ℤ, pos, clamp_0, clamp, pos_part}
use schwung_monomodule.Text.{Bytes, codes, after, after_first, from_first, strtol, print}
use schwung_monomodule.Shm.{max_depth}
use schwung_monomodule.Ui.{Tables}
use schwung_monomodule.Plugin.Params.{Params}
use schwung_monomodule.Plugin.Convert.{valid_machine}
use schwung_monomodule.Plugin.Instance.{Instance, arm_replan, replay}

-- The buffer of `writeState`, of `len` bytes: what has been written, how long the text would be, and the
-- number of bytes that have been written to, the closing zeros among them.
pub record Output : Type 0 where
  pub text : Bytes
  pub n : ℕ
  pub reach : ℕ

-- `size_t(len - n)` of ints: where `n` is greater, it wraps round.
unfoldable pub size_left : ℕ → ℕ → ℕ
size_left len n = if leb n len then len - n else len + 18446744073709551616 - n

-- `snprintf(buf + n, size, ...)` of the text `t`: it is cut to the size less the closing zero, and `n`
-- grows by its whole length.
unfoldable pub print_at : ℕ → Output → Bytes → Output
print_at size o t = record {
  text = o.text ++ take (size - 1) t;
  n = o.n + length t;
  reach = if size == 0 then o.reach else max o.reach (o.n + min (length t + 1) size);
}

abbrev pub empty_output : Output
empty_output = record { text = []; n = 0; reach = 0 }

-- `if (n < len) n += snprintf(buf + n, len - n, ...)`
unfoldable pub emit : ℕ → Output → Bytes → Output
unfolding print_at size_left
emit len o t = if ltb o.n len then print_at (size_left len o.n) o t else o

-- The loops over the values: a comma behind each but the last.
unfoldable pub emit_values : ℕ → Output → List ℕ → Output
unfolding emit print
emit_values len o [] = o
emit_values len o (x ∷ xs) =
    emit_values len
      (emit len o (elim xs [ [] ↦ print (pos x) | _ ∷ _ ↦ print (pos x) ++ codes "," ])) xs

-- What the first `snprintf` writes.
unfoldable pub head_text : Instance → Bytes
head_text in' =
    codes "{\"mnm\":\"m="
    ++ (print (pos in'.params.machine)
        ++ (codes ";l="
            ++ (print (pos in'.params.level)
                ++ (codes ";d=" ++ (print (pos in'.depth) ++ codes ";p=")))))

unfoldable pub emit_state : ℕ → Instance → Output
unfolding emit
emit_state len in' =
    let head = print_at len empty_output (head_text in') in
    let pages = emit len (emit_values len head in'.params.page) (codes ";f=") in
    emit len (emit_values len pages in'.params.lfo) (codes "\"}")

-- `writeState`: the text, or `none` for -1.
unfoldable pub write_state : ℕ → Instance → Option Bytes
write_state len in' = let o = emit_state len in' in if ltb o.n len then some o.text else none

abbrev pub skip_comma : Bytes → Bytes
skip_comma [] = []
skip_comma (c ∷ s) = if c == b',' then s else c ∷ s

-- `readInts`: `count` numbers, each clamped to 0..127, or `none` where one is missing.
unfoldable pub read_ints : ℕ → Bytes → Option (List ℕ)
unfolding strtol
read_ints zero v = some []
read_ints (suc n) v = do
  (x, rest) ← strtol v
  xs ← read_ints n (skip_comma rest)
  some (clamp_0 x 127 ∷ xs)

-- `%d` of `sscanf` behind a literal: like `strtol`.
unfoldable pub scan_int : Bytes → Bytes → Option (ℤ × Bytes)
unfolding after strtol
scan_int literal s = do rest ← after s literal; strtol rest

pub record Header : Type 0 where
  pub machine : ℤ
  pub level : ℤ
  pub depth : ℤ

-- `sscanf(s, "m=%d;l=%d;d=%d;p=", ...) == 3`
unfoldable pub scan_header : Bytes → Option Header
scan_header s = do
  (m, s₁) ← scan_int (codes "m=") s
  (l, s₂) ← scan_int (codes ";l=") s₁
  (d, _) ← scan_int (codes ";d=") s₂
  some (record { machine = m; level = l; depth = d })

-- The LFOs are absent in older states, which then leave them as they are.
unfoldable pub read_lfo : Bytes → List ℕ → List ℕ
read_lfo s lfo = elim (after_first s (codes ";f=")) [
  | none ↦ lfo
  | some f ↦ elim (read_ints 24 f) [ none ↦ lfo | some xs ↦ xs ]
]

-- The table and depth that a state text asks for, or `none` where it is refused.
unfoldable pub parse_state : Tables → Params → Bytes → Option (Params × ℕ)
parse_state t p val = do
  s ← from_first val (codes "m=")
  h ← scan_header s
  guard (valid_machine t.machines h.machine)
  v ← after_first s (codes "p=")
  pages ← read_ints 32 v
  some (
    record p {
      machine = pos_part h.machine;
      level = clamp_0 h.level 127;
      page = pages;
      lfo = read_lfo s p.lfo;
    },
    clamp h.depth 1 max_depth,
  )

-- `if (auto* s = in.seg.load()) s->depth.store(depth)`
unfoldable pub store_depth : Instance → Instance
store_depth in' = elim in'.seg [
  | none ↦ in'
  | some s ↦ record in' { seg = some (record s { depth = in'.depth }) }
]

-- `readState` at the time `now`: a malformed text leaves the instance as it is.
unfoldable pub read_state : Tables → ℕ → Instance → Bytes → Instance
read_state t now in' val = elim (parse_state t in'.params val) [
  | none ↦ in'
  | some (p, depth) ↦
      replay (store_depth (arm_replan now (record in' { params = p; depth = depth })))
]
