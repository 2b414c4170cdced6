-- ===== src/Plugin/Template.antt =====
-- The JSON texts that src/plugin/mnm_plugin.cpp serves: expandInto, serveTemplate, compatSynLevel,
-- lfoPageIndex. The texts themselves are those of src/plugin/generated/mnm_ui.h.
pub mod Served
use schwung_monomodule.Prelude.{
  ℕ, zero, suc, ◌+◌, ◌-◌, Bool, true, false, ◌&&◌, ◌||◌, Option, none, some, List, [], ◌∷◌, ◌++◌,
  length, get_or, min, leb, ltb, ◌==◌, if◌then◌else◌, ◌>>=◌, ◌>>◌, guard,
}
use schwung_monomodule.Text.{Bytes, codes, after, after_first}
use schwung_monomodule.Ui.{Tables, MachineDef}
use schwung_monomodule.Plugin.Params.{Params, cell}
use schwung_monomodule.Plugin.Convert.{find_machine, syn_label, list_index, or_else, map_some}

-- A machine's SYN level (MachineJson).
pub record MachineJson : Type 0 where
  pub id : ℕ
  pub json : Bytes

-- The JSON texts of a build. `compat_dest` has nine entries for each of the three LFOs.
pub record Texts : Type 0 where
  pub hierarchy : Bytes
  pub chain_params : Bytes
  pub compat_hierarchy : Bytes
  pub compat_syn : List MachineJson
  pub compat_dest : List (List Bytes)

-- `compatSynLevel`
unfoldable pub compat_syn_level : List MachineJson → ℕ → Bytes
compat_syn_level [] machine = codes "{\"name\":\"SYN\",\"params\":[],\"knobs\":[]}"
compat_syn_level (j ∷ js) machine =
    let rest = compat_syn_level js machine in if j.id == machine then j.json else rest

-- `lfoPageIndex`
unfoldable pub lfo_page_index : Params → ℕ → ℕ
unfolding list_index
lfo_page_index p lfo = min (list_index (get_or p.lfo (cell lfo 0) 0) 9) 8

-- What stands at a place of a template: a placeholder, or a character of the text.
pub data Token : Type 0 where
  label : ℕ → Token  -- @S0@ to @S7@
  machine_name : Token  -- @M@
  syn_level : Token  -- @SYNLEVEL@
  dest : ℕ → Token  -- @DP1@ to @DP3@, counted from 0
  dest_key : ℕ → Token  -- @DK1@ to @DK3@
  plain : ℕ → Token

-- The next character, if it lies in `lo .. hi`, counted from `lo`.
abbrev pub digit_from : ℕ → ℕ → Bytes → Option (ℕ × Bytes)
digit_from lo hi [] = none
digit_from lo hi (c ∷ s) = if leb lo c && leb c hi then some (c - lo, s) else none

-- `make` of the digit between `prefix` and the closing `@`.
unfoldable pub numbered : (ℕ → Token) → Bytes → ℕ → ℕ → Bytes → Option (Token × Bytes)
unfolding after
numbered make prefix lo hi s = do
  t ← after s prefix
  (d, u) ← digit_from lo hi t
  rest ← after u (codes "@")
  some (make d, rest)

abbrev pub fixed : Token → Bytes → Bytes → Option (Token × Bytes)
fixed token name s = map_some (λ (rest : Bytes). (token, rest)) (after s name)

-- The placeholder that `s` begins with, if any, and what follows it; the tests in their order.
unfoldable pub placeholder : Bytes → Option (Token × Bytes)
unfolding numbered after
placeholder s = or_else (numbered label (codes "@S") b'0' b'7' s) (
    or_else (fixed machine_name (codes "@M@") s) (
      or_else (fixed syn_level (codes "@SYNLEVEL@") s) (
        or_else (numbered dest (codes "@DP") b'1' b'3' s)
          (numbered dest_key (codes "@DK") b'1' b'3' s))))

-- The tokens of a template, with fuel: each takes at least one character.
unfoldable pub tokens : ℕ → Bytes → List Token
unfolding placeholder
tokens fuel [] = []
tokens zero (c ∷ s) = []
tokens (suc fuel) (c ∷ s) = elim (placeholder (c ∷ s)) [
  | some (t, rest) ↦ t ∷ tokens fuel rest
  | none ↦ plain c ∷ tokens fuel s
]

-- The buffer: what has been written. `failed` is -1. `too_deep` marks that the fuel of the model for
-- fragments within fragments ran out.
pub data Expanded : Type 0 where
  filled : Bytes → Expanded
  failed too_deep : Expanded

-- `put`
abbrev pub put : ℕ → Bytes → Bytes → Expanded
put len out str = if ltb (length out + length str) len then filled (out ++ str) else failed

-- Up to the first quote: `strchr(k, '"')`.
unfoldable pub before_quote : Bytes → Option Bytes
before_quote [] = none
before_quote (c ∷ s) =
    let rest = map_some (λ (k : Bytes). c ∷ k) (before_quote s) in
    if c == b'"' then some [] else rest

-- The key of an entry, which begins {"key":"lfoN_dest_xxx",
unfoldable pub entry_key : Bytes → Option Bytes
unfolding after_first before_quote
entry_key entry = do k ← after_first entry (codes "\"key\":\""); before_quote k

module _ (t : Tables) (x : Texts) (p : Params) where
  -- `m ? m->label : "SYN"`
  abbrev pub machine_label : Bytes
  machine_label = elim (find_machine t.machines p.machine) [ some m ↦ m.label | none ↦ codes "SYN" ]

  -- The DEST entry of an LFO for its current PAGE.
  abbrev pub dest_entry : ℕ → Bytes
  dest_entry lfo = get_or (get_or x.compat_dest lfo []) (lfo_page_index p lfo) []

  module _ (len : ℕ) where
    -- What a token adds. Fragments are expanded by `nested`.
    unfoldable pub fill : (Bytes → Bytes → Expanded) → Bytes → Token → Expanded
    fill nested out (label k) = put len out (syn_label t.syn_labels p.machine k)
    fill nested out machine_name = put len out machine_label
    fill nested out syn_level = nested (compat_syn_level x.compat_syn p.machine) out
    fill nested out (dest lfo) = nested (dest_entry lfo) out
    fill nested out (dest_key lfo) = elim (entry_key (dest_entry lfo)) [
      | some k ↦ put len out k
      | none ↦ failed
    ]
    fill nested out (plain c) = put len out (c ∷ [])

    unfoldable pub walk : (Bytes → Bytes → Expanded) → Bytes → List Token → Expanded
    unfolding fill
    walk nested out [] = filled out
    walk nested out (k ∷ ks) = elim (fill nested out k) [
      | filled out' ↦ walk nested out' ks
      | failed ↦ failed
      | too_deep ↦ too_deep
    ]

    -- `expandInto`, with fuel for the depth of fragments.
    unfoldable pub expand_into : ℕ → Bytes → Bytes → Expanded
    unfolding walk tokens
    expand_into zero tpl out = too_deep
    expand_into (suc depth) tpl out = walk (expand_into depth) out (tokens (length tpl) tpl)

  -- A template, and the fragments in it.
  abbrev pub max_nesting : ℕ
  max_nesting = 2

  -- `serveTemplate`: the text in the buffer, in front of its closing zero; `failed` is -1.
  unfoldable pub serve_template : ℕ → Bytes → Expanded
  serve_template len tpl = expand_into len max_nesting tpl []
