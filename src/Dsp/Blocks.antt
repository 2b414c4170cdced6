-- ===== src/Dsp/Blocks.antt =====
-- Blocks of src/engine/dsp/DspEngine.cpp: renderBlock.
use schwung_monomodule.Prelude.{
  ℕ, zero, suc, ◌+◌, ◌*◌, ◌^◌, ◌≡◌, ◌≢◌, refl, Bool, true, false, Option, none, some, List, [], ◌∷◌,
  arith, length, Bool-cases, inl, inr, All, All-replicate, u32, is_negative, leb→le, ap, ap₂, subst,
  ◌∙◌, if◌then◌else◌, ◌==◌,
}
use schwung_monomodule.Prelude.Int.{ℤ, pos, negsuc, ◌≤ℤ◌}
use schwung_monomodule.Dsp.{
  ChipOps, DspEngine, Outcome, returned, ◌>>=◌, Fault, bad_done_word, Block, RenderStats, sample,
  bits_24, silent_out, read_out, collect, send_block, run_until_tx, render_block, render_all,
  max_instr_block, done_sentinel,
}
use schwung_monomodule.Dsp.Returns.{Returns, Returns->>=, Advances, Ran, run_until_tx_lem}

-- A signed sample of 24 bits.
abbrev pub IsSample24 : ℤ → Type 0
IsSample24 x = (negsuc 8388607 ≤ℤ x) × (x ≤ℤ pos 8388607)

sample-IsSample24 : (w : ℕ) → IsSample24 (sample w)
unfolding sample
sample-IsSample24 w = elim (Bool-cases (is_negative (u32 (bits_24 w * 256)))) [
  | inl e ↦ rw e (omega (arith, leb→le (2 ^ 31) (u32 (bits_24 w * 256)) e))
  | inr e ↦ rw e (ground arith)
]

module _ {C : Type 0} (ops : ChipOps C) where
  read_out-IsSample24 : (n k : ℕ) (c : C) → All IsSample24 (read_out ops n k c)
  unfolding read_out
  read_out-IsSample24 zero k c = tt
  read_out-IsSample24 (suc n) k c =
      (sample-IsSample24 (ops.mem_get c _ k), read_out-IsSample24 n (suc k) c)

  length-read_out : (n k : ℕ) (c : C) → length (read_out ops n k c) ≡ n
  unfolding read_out
  length-read_out zero k c = refl
  length-read_out (suc n) k c = omega (arith, length-read_out n (suc k) c)

  -- What comes of a block on an engine with the fault `f` and `blocks` blocks counted.
  abbrev pub IsRendered : Option Fault → ℕ → Block C → Type 0
  IsRendered f blocks b =
      (length b.out ≡ 32)
      × All IsSample24 b.out
      × (b.ok ≡ true
          → (f ≡ none) × (b.engine.fault ≡ none) × (b.engine.stats.blocks ≡ u32 (blocks + 1)))
      × (b.ok ≡ false
          → (b.out ≡ silent_out) × (b.engine.fault ≢ none) × (b.engine.stats.blocks ≡ blocks))

  silence-IsSample24 : All IsSample24 silent_out
  silence-IsSample24 = All-replicate IsSample24 32 (pos 0) (omega arith, omega arith)

  failed-IsRendered :
      (f : Option Fault) (e : DspEngine C)
      → e.fault ≢ none
      → IsRendered f e.stats.blocks (record { ok = false; out = silent_out; engine = e })
  failed-IsRendered f e h =
      (refl, silence-IsSample24, (λ p. ground (arith, p)), λ p. (refl, h, refl))

  collect-IsRendered :
      (d : DspEngine C) (words max_instr : ℕ) (ok : Bool) (e : DspEngine C)
      → d.fault ≡ none
      → Ran ops d words max_instr (ok, e)
      → IsRendered none d.stats.blocks (collect ops ok e)
  unfolding collect
  collect-IsRendered d words max_instr false e h (g, s) =
      subst (λ k. IsRendered none k (record { ok = false; out = silent_out; engine = e }))
        (ap (λ (t : RenderStats). t.blocks) s) (failed-IsRendered none e g)
  collect-IsRendered d words max_instr true e h (a, g, b, c, n, k) = done (ops.read_tx e.chip)
    where
      done :
          (r : ℕ × C)
          → IsRendered none d.stats.blocks (
              if r.0 == done_sentinel
              then record {
                ok = true;
                out = read_out ops 32 0 r.1;
                engine = record e {
                  chip = r.1;
                  stats = record e.stats { blocks = u32 (e.stats.blocks + 1) };
                };
              }
              else record {
                ok = false;
                out = silent_out;
                engine = record e { chip = r.1; fault = some bad_done_word };
              })
      done (w, c) = elim (Bool-cases (w == done_sentinel)) [
        | inl q ↦ rw q (
          length-read_out 32 0 c,
          read_out-IsSample24 32 0 c,
          (λ p. (refl, g ∙ h, ap (λ m. u32 (m + 1)) n)),
          λ p. ground (arith, p),
        )
        | inr q ↦ rw q (
          refl,
          silence-IsSample24,
          (λ p. ground (arith, p)),
          λ p. (refl, (λ z. ground (arith, z)), n),
        )
      ]

  -- Where every call of the emulator takes an instruction, `renderBlock` returns 32 signed samples of 24
  -- bits. Either it succeeds, on an engine that had no fault, has none now and counts the block; or the
  -- samples are zeros, the engine has a fault, and no block is counted.
  pub render_block_lem :
      Advances ops
      → (d : DspEngine C) (words : List ℕ)
      → Returns (IsRendered d.fault d.stats.blocks) (render_block ops d words)
  unfolding render_block
  render_block_lem adv d words = cases d.fault refl
    where
      cases :
          (f : Option Fault)
          → d.fault ≡ f
          → Returns (IsRendered f d.stats.blocks) (elim f [
            | some _ ↦ returned (record { ok = false; out = silent_out; engine = d })
            | none ↦ do
              (ok, e) ←
                  run_until_tx ops
                    (record d { chip = send_block ops d.chip words })
                    1
                    max_instr_block
              returned (collect ops ok e)
          ])
      cases (some f) h = (_, refl, failed-IsRendered (some f) d (λ z. ground (arith, z, h)))
      cases none h =
          let sent : DspEngine C = record d { chip = send_block ops d.chip words } in
          Returns->>= (Ran ops sent 1 max_instr_block) (IsRendered none d.stats.blocks) _ _
            (run_until_tx_lem ops adv sent 1 max_instr_block)
            (λ (ok, e) r.
              (collect ops ok e, refl, collect-IsRendered sent 1 max_instr_block ok e h r))

  -- A block that fails is silence, and so is every block after it.
  abbrev pub Latches : List (Bool × List ℤ) → Type 0
  Latches [] = Unit {0}
  Latches ((true, out) ∷ rest) = (length out ≡ 32) × All IsSample24 out × Latches rest
  Latches ((false, out) ∷ rest) = (out ≡ silent_out) × All (λ b. b ≡ (false, silent_out)) rest

  stays_silent :
      (blocks : List (List ℕ)) (d : DspEngine C)
      → d.fault ≢ none
      → Returns
          (λ outs. All (λ b. b ≡ (false, silent_out)) outs × (length outs ≡ length blocks))
          (render_all ops d blocks)
  unfolding render_all render_block
  stays_silent [] d h = ([], refl, (tt, refl))
  stays_silent (words ∷ rest) d h =
      Returns->>= (λ (b : Block C). (b.ok ≡ false) × (b.out ≡ silent_out) × (b.engine ≡ d)) _ _ _
        (first d.fault refl)
        (λ b (o, s, e). follow (render_all ops b.engine rest) b o s (rw e (stays_silent rest d h)))
    where
      follow :
          (tail : Outcome (List (Bool × List ℤ))) (b : Block C)
          → b.ok ≡ false
          → b.out ≡ silent_out
          → Returns
              (λ outs. All (λ b. b ≡ (false, silent_out)) outs × (length outs ≡ length rest))
              tail
          → Returns
              (λ outs. All (λ b. b ≡ (false, silent_out)) outs × (length outs ≡ suc (length rest)))
              (do outs ← tail; returned ((b.ok, b.out) ∷ outs))
      follow tail b o s again =
          Returns->>= _ _ _ _ again
            (λ outs (a, l). (_, refl, ((ap₂ (λ x y. (x, y)) o s, a), ap suc l)))

      first :
          (f : Option Fault)
          → d.fault ≡ f
          → Returns
              (λ (b : Block C). (b.ok ≡ false) × (b.out ≡ silent_out) × (b.engine ≡ d))
              (elim f [
                | some _ ↦ returned (record { ok = false; out = silent_out; engine = d })
                | none ↦ do
                  (ok, e) ←
                      run_until_tx ops
                        (record d { chip = send_block ops d.chip words })
                        1
                        max_instr_block
                  returned (collect ops ok e)
              ])
      first (some f) e = (_, refl, (refl, refl, refl))
      first none e = absurd (h e)

  -- Where every call of the emulator takes an instruction, any blocks rendered one after another come
  -- back, one for one: 32 signed samples of 24 bits each up to the first that fails, and from that one
  -- on only failures with silence.
  pub render_all_lem :
      Advances ops
      → (blocks : List (List ℕ)) (d : DspEngine C)
      → Returns (λ outs. Latches outs × (length outs ≡ length blocks)) (render_all ops d blocks)
  unfolding render_all
  render_all_lem adv [] d = ([], refl, (tt, refl))
  render_all_lem adv (words ∷ rest) d =
      Returns->>= (IsRendered d.fault d.stats.blocks) _ _ _ (render_block_lem adv d words)
        (λ b r. joined b r b.ok refl (render_all_lem adv rest b.engine))
    where
      joined :
          (b : Block C)
          → IsRendered d.fault d.stats.blocks b
          → (ok : Bool) → b.ok ≡ ok
          → Returns
              (λ outs. Latches outs × (length outs ≡ length rest))
              (render_all ops b.engine rest)
          → Returns
              (λ outs. Latches outs × (length outs ≡ suc (length rest)))
              (do outs ← render_all ops b.engine rest; returned ((b.ok, b.out) ∷ outs))
      joined b (l, a, good, bad) true e again =
          Returns->>= _ _ _ _ again (λ outs (h, k). (_, refl, (rw e (l, a, h), ap suc k)))
      joined b (l, a, good, bad) false e again =
          let (s, g, n) = bad e in
          Returns->>= _ _ _ _ (stays_silent rest b.engine g)
            (λ outs (h, k). (_, refl, (rw e (s, h), ap suc k)))
