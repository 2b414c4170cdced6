-- ===== src/Dsp/Returns.antt =====
-- `runUntilTx` of src/engine/dsp/DspEngine.cpp returns.
use schwung_monomodule.Prelude.{
  ℕ, zero, suc, ◌+◌, ◌-◌, ◌≤◌, ◌<◌, ◌≡◌, ◌≢◌, refl, Bool, true, false, ◌&&◌, Option, none, some,
  arith, length, ltb, not_ltb→le, if◌then◌else◌,
}
use schwung_monomodule.Dsp.{
  ChipOps, DspEngine, Outcome, returned, ◌>>=◌, Fault, over_budget, step, trouble, run_loop, finish,
  run_until_tx,
}

-- The call returns an answer, and the answer satisfies `P`.
abbrev pub Returns : {A : Type 0} → (A → Type 0) → Outcome A → Type 0
Returns {A} P o = (a : A) × (o ≡ returned a) × P a

pub Returns->>= :
    {A B : Type 0} (P : A → Type 0) (Q : B → Type 0) (o : Outcome A) (f : A → Outcome B)
    → Returns P o
    → ((a : A) → P a → Returns Q (f a))
    → Returns Q (o >>= f)
Returns->>= P Q o f (a, e, p) k = rw e (k a p)

module _ {C : Type 0} (ops : ChipOps C) where
  -- A call of the emulator takes an instruction at least.
  abbrev pub Advances : Type 0
  Advances = (use_jit : Bool) (c : C) → ops.instructions c < ops.instructions (step ops use_jit c)

  -- What the loop ends with: a fault, or the words within the budget.
  abbrev Ended : ℕ → ℕ → ℕ → Option Fault × C → Type 0
  Ended start words max_instr (some f, c) = Unit {0}
  Ended start words max_instr (none, c) =
      (words ≤ length (ops.tx c)) × (ops.instructions c - start ≤ max_instr)

  within_budget :
      (use_jit : Bool) (start words max_instr : ℕ) (c : C)
      → trouble ops use_jit start words max_instr c ≡ none
      → ops.instructions c - start ≤ max_instr
  unfolding trouble
  within_budget use_jit start words max_instr c h = split (use_jit && ops.has_failed c) _ h
    where
      split :
          (b : Bool) (f : Fault)
          → (if b
              then some f
              else if ltb max_instr (ops.instructions c - start)
              then some (over_budget (ops.pc c) (length (ops.tx c)) words)
              else none)
            ≡ none
          → ops.instructions c - start ≤ max_instr
      split b f e = ground arith

  run_loop-Returns :
      Advances
      → (fuel : ℕ) (use_jit : Bool) (start words max_instr : ℕ) (c : C) → start ≤ ops.instructions c
      → ops.instructions c - start ≤ max_instr
      → max_instr < fuel + (ops.instructions c - start)
      → Returns (Ended start words max_instr) (run_loop ops fuel use_jit start words max_instr c)
  unfolding run_loop
  run_loop-Returns adv zero use_jit start words max_instr c s b f = absurd (omega arith)
  run_loop-Returns adv (suc fuel) use_jit start words max_instr c s b f =
      tested (ltb (length (ops.tx c)) words) (λ e. not_ltb→le (length (ops.tx c)) words e)
        (λ e.
          run_loop-Returns adv fuel use_jit start words max_instr (step ops use_jit c)
            (omega (arith, adv use_jit c))
            (within_budget use_jit start words max_instr (step ops use_jit c) e)
            (omega (arith, adv use_jit c)))
    where
      rest : Outcome (Option Fault × C)
      rest = run_loop ops fuel use_jit start words max_instr (step ops use_jit c)

      after_step :
          (o : Option Fault)
          → (o ≡ none → Returns (Ended start words max_instr) rest)
          → Returns
              (Ended start words max_instr)
              (elim o [ some t ↦ returned (some t, step ops use_jit c) | none ↦ rest ])
      after_step (some t) k = ((some t, step ops use_jit c), refl, tt)
      after_step none k = k refl

      tested :
          (t : Bool)
          → (t ≡ false → words ≤ length (ops.tx c))
          → (trouble ops use_jit start words max_instr (step ops use_jit c) ≡ none
              → Returns (Ended start words max_instr) rest)
          → Returns (Ended start words max_instr) (elim t [
            | false ↦ returned (none, c)
            | true ↦ elim (trouble ops use_jit start words max_instr (step ops use_jit c)) [
              | some t ↦ returned (some t, step ops use_jit c)
              | none ↦ rest
            ]
          ])
      tested false k again = ((none, c), refl, (k refl, b))
      tested true k again = after_step _ again

  -- The outcome of `runUntilTx` from `d`.
  abbrev pub Ran : DspEngine C → ℕ → ℕ → Bool × DspEngine C → Type 0
  Ran d words max_instr (true, e) =
      (words ≤ length (ops.tx e.chip))
      × (e.fault ≡ d.fault)
      × (e.stats.instructions ≡ ops.instructions e.chip - ops.instructions d.chip)
      × (e.stats.instructions ≤ max_instr)
      × (e.stats.blocks ≡ d.stats.blocks)
      × (e.bank ≡ d.bank)
  Ran d words max_instr (false, e) = (e.fault ≢ none) × (e.stats ≡ d.stats)

  finish-Ran :
      (d : DspEngine C) (words max_instr : ℕ) (r : Option Fault × C)
      → Ended (ops.instructions d.chip) words max_instr r
      → Ran d words max_instr (finish ops d r)
  unfolding finish
  finish-Ran d words max_instr (some f, c) h = ((λ e. ground (arith, e)), refl)
  finish-Ran d words max_instr (none, c) (w, b) = (w, refl, refl, b, refl, refl)

  -- Where every call of the emulator takes an instruction, `runUntilTx` returns: either with the words
  -- it waits for, within its budget of instructions, which it counts, and with no new fault; or with a
  -- fault and the statistics as they were.
  pub run_until_tx_lem :
      Advances
      → (d : DspEngine C) (words max_instr : ℕ)
      → Returns (Ran d words max_instr) (run_until_tx ops d words max_instr)
  unfolding run_until_tx
  run_until_tx_lem adv d words max_instr =
      Returns->>= (Ended (ops.instructions d.chip) words max_instr) (Ran d words max_instr) _ _
        (run_loop-Returns adv (max_instr + 1) d.use_jit _ words max_instr d.chip (omega arith)
          (omega arith) (omega arith))
        (λ r h. (finish ops d r, refl, finish-Ran d words max_instr r h))
