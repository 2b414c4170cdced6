-- ===== src/Plugin/Template/Served.antt =====
-- What a served text is (expandInto, serveTemplate of src/plugin/mnm_plugin.cpp): the template with each
-- placeholder replaced, where that fits the buffer.
use schwung_monomodule.Prelude.{
  ℕ, zero, suc, ◌+◌, ◌≤◌, ◌<◌, ◌≡◌, ◌∙◌, refl, sym, ap, false, Option, none, some, List, [], ◌∷◌,
  ◌++◌, arith, length, length-append, append-nil, append_assoc, ltb, ◌==◌, if◌then◌else◌, get_or,
  All, All-get_or, Bool-cases, inl, inr, ltb→lt, lt→ltb, not_ltb→le, ◌>>=◌,
}
use schwung_monomodule.Text.{Bytes, after}
use schwung_monomodule.Ui.{Tables}
use schwung_monomodule.Plugin.Params.{Params}
use schwung_monomodule.Plugin.Convert.{syn_label}
use schwung_monomodule.Plugin.Template.{
  MachineJson, Texts, compat_syn_level, Token, tokens, placeholder, numbered, Expanded, filled,
  failed, too_deep, put, entry_key, machine_label, dest_entry, fill, walk, expand_into,
  serve_template, lfo_page_index,
}

-- A fragment names no further fragment.
abbrev pub IsFlat : Token → Type 0
IsFlat Token.syn_level = ⊥
IsFlat (Token.dest _) = ⊥
IsFlat (Token.dest_key _) = ⊥
IsFlat _ = Unit

abbrev pub IsFragment : Bytes → Type 0
IsFragment s = All IsFlat (tokens (length s) s)

-- The fragments of the generated texts hold labels at most.
pub record IsTexts (x : Texts) : Type 0 where
  pub syn_flat : All (λ (j : MachineJson). IsFragment j.json) x.compat_syn
  pub dest_flat : All (λ (es : List Bytes). All IsFragment es) x.compat_dest

module _ {A : Type 0} (P : A → Type 0) where
  every : ((a : A) → P a) → (xs : List A) → All P xs
  every f [] = tt
  every f (x ∷ xs) = (f x, every f xs)

  map-All : (Q : A → Type 0) (xs : List A) → ((a : A) → Q a → P a) → All Q xs → All P xs
  map-All Q [] f h = tt
  map-All Q (x ∷ xs) f h = (f x h.0, map-All Q xs f h.1)

-- A result and the text it stands for: all of it behind `out`, or failure.
abbrev Agrees : ℕ → Bytes → Expanded → Option Bytes → Type 0
Agrees len out e none = e ≡ Expanded.failed
Agrees len out e (some r) = e ≡ put len out r

put-fits :
    (len : ℕ) (out r : Bytes)
    → length out + length r < len
    → put len out r ≡ Expanded.filled (out ++ r)
put-fits len out r h = rw (lt→ltb (length out + length r) len h) refl

put-full : (len : ℕ) (out r : Bytes) → len ≤ length out + length r → put len out r ≡ Expanded.failed
put-full len out r h = rw (not_lt (length out + length r) h) refl
  where
    not_lt : (n : ℕ) → len ≤ n → ltb n len ≡ false
    not_lt n k = ground (arith, k)

module _ (t : Tables) (x : Texts) (p : Params) where
  -- The text that a token stands for; `none` where an entry has no key.
  unfoldable pub meaning : (Bytes → Option Bytes) → Token → Option Bytes
  meaning nested (Token.label k) = some (syn_label t.syn_labels p.machine k)
  meaning nested Token.machine_name = some (machine_label t x p)
  meaning nested Token.syn_level = nested (compat_syn_level x.compat_syn p.machine)
  meaning nested (Token.dest lfo) = nested (dest_entry t x p lfo)
  meaning nested (Token.dest_key lfo) = entry_key (dest_entry t x p lfo)
  meaning nested (Token.plain c) = some (c ∷ [])

  unfoldable pub meanings : (Bytes → Option Bytes) → List Token → Option Bytes
  unfolding meaning
  meanings nested [] = some []
  meanings nested (k ∷ ks) = do r ← meaning nested k; rs ← meanings nested ks; some (r ++ rs)

  -- The text that a template stands for, whatever the buffer.
  unfoldable pub rendered : ℕ → Bytes → Option Bytes
  unfolding meanings
  rendered zero tpl = none
  rendered (suc depth) tpl = meanings (rendered depth) (tokens (length tpl) tpl)

default-IsFragment : IsFragment (compat_syn_level [] 0)
unfolding compat_syn_level tokens placeholder numbered after
default-IsFragment = omega arith

empty-IsFragment : IsFragment []
unfolding tokens
empty-IsFragment = tt

syn_level-IsFragment :
    (js : List MachineJson) (machine : ℕ)
    → All (λ (j : MachineJson). IsFragment j.json) js
    → IsFragment (compat_syn_level js machine)
unfolding compat_syn_level
syn_level-IsFragment [] machine h = default-IsFragment
syn_level-IsFragment (j ∷ js) machine h = elim (Bool-cases (j.id == machine)) [
  | inl e ↦ rw e h.0
  | inr e ↦ rw e (syn_level-IsFragment js machine h.1)
]

put-append : (len : ℕ) (out r rs : Bytes) → put len (out ++ r) rs ≡ put len out (r ++ rs)
put-append len out r rs =
    let size : length (out ++ r) + length rs ≡ length out + length (r ++ rs) =
      omega (arith, length-append out r, length-append r rs) in
    rw (size, append_assoc out r rs) refl

dest-IsFragment :
    (t : Tables) (x : Texts) (p : Params) (lfo : ℕ) → IsTexts x → IsFragment (dest_entry t x p lfo)
dest-IsFragment t x p lfo v =
    All-get_or IsFragment (get_or x.compat_dest lfo []) (lfo_page_index p lfo) []
      (All-get_or (λ es. All IsFragment es) x.compat_dest lfo [] v.dest_flat tt) empty-IsFragment

module _ (t : Tables) (x : Texts) (p : Params) (len : ℕ) where
  module _ (nested : Bytes → Bytes → Expanded) (ref : Bytes → Option Bytes) where
    joined :
        (out r : Bytes) (e : Expanded) (ms : Option Bytes)
        → Agrees len (out ++ r) e ms
        → Agrees len out e (ms >>= λ rs. some (r ++ rs))
    joined out r e none a = a
    joined out r e (some rs) a = a ∙ put-append len out r rs

    spilled :
        (out r : Bytes) (ms : Option Bytes)
        → len ≤ length out + length r
        → Agrees len out Expanded.failed (ms >>= λ rs. some (r ++ rs))
    spilled out r none h = refl
    spilled out r (some rs) h =
        sym (put-full len out (r ++ rs) (omega (arith, h, length-append r rs)))

    -- Token `k` adds what it stands for.
    abbrev IsFilled : Token → Type 0
    IsFilled k =
        (out : Bytes)
        → length out < len
        → Agrees len out (fill t x p len nested out k) (meaning t x p ref k)

    consed :
        (ks : List Token) (out : Bytes) (m : Option Bytes) (e : Expanded)
        → Agrees len out e m
        → ((o : Bytes)
            → length o < len
            → Agrees len o (walk t x p len nested o ks) (meanings t x p ref ks))
        → Agrees len out
            (elim e [
              | filled out' ↦ walk t x p len nested out' ks
              | failed ↦ Expanded.failed
              | too_deep ↦ Expanded.too_deep
            ])
            (m >>= λ r. meanings t x p ref ks >>= λ rs. some (r ++ rs))
    consed ks out none e a ih = rw a refl
    consed ks out (some r) e a ih = elim (Bool-cases (ltb (length out + length r) len)) [
      | inl f ↦
          let fits = ltb→lt (length out + length r) len f in
          rw (a ∙ put-fits len out r fits) (
            joined out r _ (meanings t x p ref ks)
              (ih (out ++ r) (omega (arith, length-append out r, fits))))
      | inr f ↦
          let full = not_ltb→le (length out + length r) len f in
          rw (a ∙ put-full len out r full) (spilled out r (meanings t x p ref ks) full)
    ]

    walk-Agrees :
        (ks : List Token) (out : Bytes)
        → length out < len
        → All IsFilled ks
        → Agrees len out (walk t x p len nested out ks) (meanings t x p ref ks)
    unfolding walk meanings
    walk-Agrees [] out h a =
        sym (put-fits len out [] (omega (arith, h)) ∙ ap Expanded.filled (append-nil out))
    walk-Agrees (k ∷ ks) out h a =
        consed ks out (meaning t x p ref k) (fill t x p len nested out k) (a.0 out h)
          (λ o l. walk-Agrees ks o l a.1)

    -- Tokens other than fragments.
    plain-IsFilled : (k : Token) → IsFlat k → IsFilled k
    unfolding fill meaning
    plain-IsFilled (Token.label k) f out h = refl
    plain-IsFilled Token.machine_name f out h = refl
    plain-IsFilled (Token.plain c) f out h = refl
    plain-IsFilled Token.syn_level f out h = elim f [ ]
    plain-IsFilled (Token.dest _) f out h = elim f [ ]
    plain-IsFilled (Token.dest_key _) f out h = elim f [ ]

    -- All tokens, where fragments are filled in rightly.
    token-IsFilled :
        ((s out : Bytes) → IsFragment s → length out < len → Agrees len out (nested s out) (ref s))
        → IsTexts x
        → (k : Token) → IsFilled k
    unfolding fill meaning
    token-IsFilled n v (Token.label k) out h = refl
    token-IsFilled n v Token.machine_name out h = refl
    token-IsFilled n v (Token.plain c) out h = refl
    token-IsFilled n v Token.syn_level out h =
        n _ out (syn_level-IsFragment x.compat_syn p.machine v.syn_flat) h
    token-IsFilled n v (Token.dest lfo) out h = n _ out (dest-IsFragment t x p lfo v) h
    token-IsFilled n v (Token.dest_key lfo) out h = keyed (entry_key (dest_entry t x p lfo))
      where
        keyed :
            (o : Option Bytes)
            → Agrees len out (elim o [ some k ↦ put len out k | none ↦ Expanded.failed ]) o
        keyed none = refl
        keyed (some k) = refl

  flat-Agrees :
      (s out : Bytes)
      → IsFragment s
      → length out < len
      → Agrees len out (expand_into t x p len 1 s out) (rendered t x p 1 s)
  unfolding expand_into rendered
  flat-Agrees s out f h =
      walk-Agrees (expand_into t x p len 0) (rendered t x p 0) (tokens (length s) s) out h (
        map-All _ _ (tokens (length s) s)
          (plain-IsFilled (expand_into t x p len 0) (rendered t x p 0)) f)

  -- What `getParam` serves of a template, of any length, into a buffer of `len` bytes: exactly the
  -- template with its placeholders and those of its fragments replaced, where that and a closing zero
  -- fit; else, and where an entry has no key, -1. Fragments must hold no fragments, as in the generated
  -- texts; the expansion then ends within two levels.
  pub serve_template_lem :
      (tpl : Bytes)
      → IsTexts x
      → 0 < len
      → serve_template t x p len tpl ≡ (elim (rendered t x p 2 tpl) [
        | none ↦ failed
        | some r ↦ if ltb (length r) len then filled r else failed
      ])
  unfolding serve_template expand_into rendered
  serve_template_lem tpl v h = all _ _ (
      walk-Agrees (expand_into t x p len 1) (rendered t x p 1) (tokens (length tpl) tpl) [] h (
        every _ (token-IsFilled (expand_into t x p len 1) (rendered t x p 1) flat-Agrees v)
          (tokens (length tpl) tpl)))
    where
      all :
          (e : Expanded) (o : Option Bytes)
          → Agrees len [] e o
          → e
            ≡ (elim o [ none ↦ failed | some r ↦ if ltb (length r) len then filled r else failed ])
      all e none a = a
      all e (some r) a = a ∙ ap (λ n. if ltb n len then filled r else failed) zero_plus
        where
          zero_plus : 0 + length r ≡ length r
          zero_plus = omega arith
