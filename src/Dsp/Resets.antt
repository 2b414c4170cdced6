-- ===== src/Dsp/Resets.antt =====
-- How the resets of src/engine/dsp/DspEngine.cpp end: reset, resetKeepCode.
use schwung_monomodule.Prelude.{
  ℕ, zero, suc, ◌≤◌, ◌≡◌, ◌⊎◌, inl, inr, refl, Bool, true, false, Option, none, List, [], ◌∷◌,
  arith, length, All, ◌==◌, if◌then◌else◌, ◌∙◌,
}
use schwung_monomodule.Prelude.Int.{ℤ}
use schwung_monomodule.Text.{codes}
use schwung_monomodule.Dsp.{
  ChipOps, DspEngine, Outcome, returned, thrown, unfinished, ◌>>=◌, run_until_tx,
}
use schwung_monomodule.Dsp.Returns.{Returns, Returns->>=, Advances, Ran, run_until_tx_lem}
use schwung_monomodule.Dsp.Loading.{
  init_lines, main_lines, out_lines, init_sentinel, max_instr_init, drain_tx, prepare, check_init,
  reset,
}
use schwung_monomodule.Dsp.Loading.Stub.{IsMemory, IsAccepted, install_stub_lem}

-- An engine as after a reset of one with the bank `b`.
abbrev pub IsFresh : {C : Type 0} → Option (List (List ℤ)) → DspEngine C → Type 0
IsFresh b e = (e.fault ≡ none) × (e.stats.blocks ≡ 0) × (e.bank ≡ b)

-- A reset ends with a fresh engine, or with one of the two exceptions about the kernel's init.
abbrev pub IsReset : {C : Type 0} → Option (List (List ℤ)) → Outcome (DspEngine C) → Type 0
IsReset b (returned e) = IsFresh b e
IsReset b (thrown t) =
    (t ≡ codes "DSP init did not complete: ") ⊎ (t ≡ codes "DSP init: bad sentinel")
IsReset b unfinished = ⊥

module _ {C : Type 0} (ops : ChipOps C) where
  -- Reading the host port takes its first word.
  abbrev pub Pops : Type 0
  Pops = (c : C) (w : ℕ) (ws : List ℕ) → ops.tx c ≡ w ∷ ws → ops.tx (ops.read_tx c).1 ≡ ws

  drain_tx-Returns :
      Pops
      → (n : ℕ) (c : C) → length (ops.tx c) ≤ n
      → Returns (λ d. ops.tx d ≡ []) (drain_tx ops n c)
  unfolding drain_tx
  drain_tx-Returns pops zero c h = queue (ops.tx c) refl h
    where
      queue :
          (q : List ℕ)
          → ops.tx c ≡ q
          → length q ≤ 0
          → Returns (λ d. ops.tx d ≡ []) (elim q [ [] ↦ returned c | _ ∷ _ ↦ unfinished ])
      queue [] e k = (c, refl, e)
      queue (w ∷ ws) e k = absurd (omega (arith, k))
  drain_tx-Returns pops (suc n) c h =
      queue (ops.tx c) refl h (λ k. drain_tx-Returns pops n (ops.read_tx c).1 k)
    where
      queue :
          (q : List ℕ)
          → ops.tx c ≡ q
          → length q ≤ suc n
          → (length (ops.tx (ops.read_tx c).1) ≤ n
              → Returns (λ d. ops.tx d ≡ []) (drain_tx ops n (ops.read_tx c).1))
          → Returns
              (λ d. ops.tx d ≡ [])
              (elim q [ [] ↦ returned c | _ ∷ _ ↦ drain_tx ops n (ops.read_tx c).1 ])
      queue [] e k again = (c, refl, e)
      queue (w ∷ ws) e k again = again (rw (pops c w ws e) (omega (arith, k)))

  check_init-IsReset :
      (b : Option (List (List ℤ))) (ok : Bool) (e : DspEngine C)
      → (ok ≡ true → IsFresh b e)
      → IsReset b (check_init ops ok e)
  unfolding check_init
  check_init-IsReset b false e h = inl refl
  check_init-IsReset b true e h = sentinel (ops.read_tx e.chip) (h refl)
    where
      sentinel :
          (r : ℕ × C)
          → IsFresh b e
          → IsReset b (
              if r.0 == init_sentinel
              then returned (record e { chip = r.1 })
              else thrown (codes "DSP init: bad sentinel"))
      sentinel (w, c) f = split (w == init_sentinel)
        where
          split :
              (t : Bool)
              → IsReset b (
                  if t
                  then returned (record e { chip = c })
                  else thrown (codes "DSP init: bad sentinel"))
          split true = f
          split false = inr refl

  Ran-IsFresh :
      (b : Option (List (List ℤ))) (d : DspEngine C) (words n : ℕ) (ok : Bool) (e : DspEngine C)
      → IsFresh b d
      → Ran ops d words n (ok, e)
      → ok ≡ true
      → IsFresh b e
  Ran-IsFresh b d words n true e (f, s, k) (a, g, i, m, c, q) o = (g ∙ f, c ∙ s, q ∙ k)
  Ran-IsFresh b d words n false e f r o = ground (arith, o)

  module _ (adv : Advances ops) (mem : IsMemory ops) (pops : Pops)
      (init : All (IsAccepted ops) init_lines) (main : All (IsAccepted ops) main_lines)
      (out : All (IsAccepted ops) out_lines) where
    prepare-Returns :
        (clear : Bool) (d : DspEngine C) → Returns (IsFresh d.bank) (prepare ops clear d)
    unfolding prepare
    prepare-Returns clear d =
        Returns->>= _ _ _ _ (install_stub_lem ops mem _ init main out) (λ (c, n) k.
          Returns->>= _ _ _ _ (drain_tx-Returns pops _ _ (omega arith))
            (λ e q. (_, refl, (refl, refl, refl))))

    -- Where every call of the emulator takes an instruction, program memory is memory, a read takes the
    -- first word from the host port and the assembler takes the lines of the stub, `reset` ends: with an
    -- engine without a fault, with no block counted and with the bank it had, or with the exception that
    -- the kernel's init did not complete or that its sentinel is bad.
    pub reset_lem : (clear : Bool) (d : DspEngine C) → IsReset d.bank (reset ops clear d)
    unfolding reset
    reset_lem clear d = ready (prepare-Returns clear d)
      where
        ready :
            {o : Outcome (DspEngine C)}
            → Returns (IsFresh d.bank) o
            → IsReset d.bank
                (do e ← o; (ok, f) ← run_until_tx ops e 1 max_instr_init; check_init ops ok f)
        ready (e, q, f) = rw q (ran (run_until_tx_lem ops adv e 1 max_instr_init))
          where
            ran :
                {o : Outcome (Bool × DspEngine C)}
                → Returns (Ran ops e 1 max_instr_init) o
                → IsReset d.bank (do (ok, f) ← o; check_init ops ok f)
            ran ((ok, g), p, r) =
                rw p
                  (check_init-IsReset d.bank ok g (Ran-IsFresh d.bank e 1 max_instr_init ok g f r))
