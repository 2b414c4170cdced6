-- ===== src/Dsp/Loading.antt =====
-- What src/engine/dsp/DspEngine.cpp loads and installs: loadImage, installStub, skipIdleLoops,
-- uploadDigibank, setInputFrames, poke; and the resets.
pub mod Stub
pub mod Idle
pub mod Bank
use schwung_monomodule.Prelude.{
  ℕ, zero, suc, ◌+◌, ◌-◌, ◌*◌, ◌%◌, ◌^◌, Bool, true, false, ◌&&◌, ◌||◌, Option, none, some, List,
  [], ◌∷◌, ◌++◌, length, get_or, leb, ltb, ◌==◌, if◌then◌else◌,
}
use schwung_monomodule.Prelude.Int.{ℤ, pos, negsuc}
use schwung_monomodule.Text.{Bytes, codes}
use schwung_monomodule.Clock.Samples.{pattern_of}
use schwung_monomodule.Dsp.{
  Area, area_x, area_y, area_p, ChipOps, Chunk, Fault, RenderStats, DspEngine, Outcome, returned,
  thrown, unfinished, ◌>>=◌, bits_24, run_until_tx,
}

-- `kBridge`: from here on X, Y and P are the same memory.
abbrev pub bridge : ℕ
bridge = 0x100000

abbrev pub size_p : ℕ
size_p = 0x180000

abbrev pub max_instr_init : ℕ
max_instr_init = 50_000_000

abbrev pub stub_init : ℕ
stub_init = 0xC00

abbrev pub stub_main : ℕ
stub_main = 0xC20

abbrev pub stub_out : ℕ
stub_out = 0xC40

abbrev pub patch_addr : ℕ
patch_addr = 0x143

abbrev pub init_sentinel : ℕ
init_sentinel = 0xC0DE

-- A line of the stub: text for the assembler, or a `jsr` to an address.
pub data Line : Type 0 where
  asm : Bytes → Line
  jsr_abs : ℕ → Line

abbrev pub init_lines : List Line
init_lines =
    asm (codes "ori #$3,mr")
    ∷ asm (codes "move #>$4d0d,omr")
    ∷ asm (codes "move #>$080300,sr")
    ∷ jsr_abs 0x100077
    ∷ jsr_abs 0x100139
    ∷ jsr_abs 0x145CCE
    ∷ asm (codes "movep #>$00c0de,x:<<$ffffc7")
    ∷ asm (codes "andi #$fc,mr")
    ∷ asm (codes "jmp $0c20")
    ∷ []

-- `waitPc` is `kStubMain`, in hexadecimal c20.
abbrev pub main_lines : List Line
main_lines =
    asm (codes "jclr #0,x:<<$ffffc3,$c20")
    ∷ asm (codes "movep x:<<$ffffc6,y:$500")
    ∷ asm (codes "move #>$534,r0")
    ∷ asm (codes "move #>$ffffff,m0")
    ∷ asm (codes "jmp $0092")
    ∷ []

abbrev pub out_lines : List Line
out_lines =
    asm (codes "move #>$20,r0")
    ∷ asm (codes "move #>$ffffff,m0")
    ∷ asm (codes "movep #>$00d0e0,x:<<$ffffc7")
    ∷ asm (codes "jmp $0c20")
    ∷ []

-- `Site`: an idle loop of the kernel.
pub record Site : Type 0 where
  pub pc : ℕ
  pub do_word : ℕ
  pub la_word : ℕ
  pub end : ℕ

abbrev pub sites : List Site
sites =
    record { pc = 0x100162; do_word = 0x06808C; la_word = 0x100164; end = 0x100165 }
    ∷ record { pc = 0x144D0E; do_word = 0x061080; la_word = 0x144D1F; end = 0x144D20 }
    ∷ record { pc = 0x144E72; do_word = 0x067880; la_word = 0x144E74; end = 0x144E75 }
    ∷ record { pc = 0x14765C; do_word = 0x064086; la_word = 0x14765F; end = 0x147660 }
    ∷ []

abbrev pub jmp_word : ℕ
jmp_word = 0x0AF080

module _ {C : Type 0} (ops : ChipOps C) where
  -- A write to a space of the firmware, as `loadImage` and `poke` choose it.
  unfoldable pub poke : C → Area → ℕ → ℕ → C
  poke c area_p a v = ops.mem_write_p c a v
  poke c area_x a v = if leb bridge a then ops.mem_write_p c a v else ops.mem_write c area_x a v
  poke c area_y a v = if leb bridge a then ops.mem_write_p c a v else ops.mem_write c area_y a v

  -- Words one after another from address `a` on.
  unfoldable pub poke_words : C → Area → ℕ → List ℕ → C
  unfolding poke
  poke_words c s a [] = c
  poke_words c s a (w ∷ ws) = poke_words (poke c s a w) s (suc a) ws

  -- `loadImage`
  unfoldable pub load_image : C → List Chunk → C
  unfolding poke_words
  load_image c [] = c
  load_image c (r ∷ rs) = load_image (poke_words c r.space r.addr r.words) rs

  -- `emit`, and `jsrAbs`: the words of a line, and the address behind them.
  unfoldable pub emit : C → ℕ → Line → Outcome (C × ℕ)
  emit c pc (asm text) = elim (ops.assemble text) [
    | none ↦ thrown (codes "harness stub: cannot assemble '" ++ (text ++ codes "'"))
    | some (w, none) ↦ returned (ops.mem_write_p c pc w, pc + 1)
    | some (w, some v) ↦ returned (ops.mem_write_p (ops.mem_write_p c pc w) (pc + 1) v, pc + 2)
  ]
  emit c pc (jsr_abs target) =
      returned (ops.mem_write_p (ops.mem_write_p c pc 0x0BF080) (pc + 1) target, pc + 2)

  unfoldable pub emit_all : C → ℕ → List Line → Outcome (C × ℕ)
  unfolding emit
  emit_all c pc [] = returned (c, pc)
  emit_all c pc (l ∷ ls) = do (d, next) ← emit c pc l; emit_all d next ls

  -- A site is patched where its words are those of OS 1.32B.
  unfoldable pub is_idle_loop : C → Site → Bool
  is_idle_loop c s =
      (ops.mem_get c area_p s.pc == s.do_word) && (ops.mem_get c area_p (s.pc + 1) == s.la_word)

  abbrev pub patch_site : C → Site → C
  patch_site c s = ops.mem_write_p (ops.mem_write_p c s.pc jmp_word) (s.pc + 1) s.end

  -- The loop of `skipIdleLoops`, with `m_idleLoopsSkipped`.
  unfoldable pub skip_sites : C → ℕ → List Site → C × ℕ
  unfolding is_idle_loop
  skip_sites c n [] = (c, n)
  skip_sites c n (s ∷ ss) =
      let b = is_idle_loop c s in
      skip_sites (if b then patch_site c s else c) (if b then suc n else n) ss

  abbrev pub skip_idle_loops : C → C × ℕ
  skip_idle_loops c = skip_sites c 0 sites

  -- `installStub`, and how many idle loops it skips.
  unfoldable pub install_stub : C → Outcome (C × ℕ)
  unfolding emit_all skip_sites
  install_stub c = do
    (c1, pc1) ← emit_all c stub_init init_lines
    (c2, pc2) ←
        if ltb stub_main pc1
        then thrown (codes "harness stub: init overflow")
        else emit_all c1 stub_main main_lines
    (c3, pc3) ←
        if ltb stub_out pc2
        then thrown (codes "harness stub: main overflow")
        else emit_all c2 stub_out out_lines
    let (c4, skipped) = skip_idle_loops c3
    returned (ops.mem_write_p c4 patch_addr (0x0C0000 + stub_out), skipped)

  -- `n` words from index `k` on, to P at `base`, as `f` gives them.
  unfoldable pub write_range : ℕ → ℕ → ℕ → (ℕ → ℕ) → C → C
  write_range zero k base f c = c
  write_range (suc n) k base f c = write_range n (suc k) base f (ops.mem_write_p c (base + k) (f k))

  -- `uint32_t(w) & 0xFFFFFF` of a word of the bank.
  abbrev pub bank_word : List (List ℤ) → ℕ → ℕ → ℕ
  bank_word bank s i = bits_24 (pattern_of (get_or (get_or bank s []) i (pos 0)))

  -- `n` slots of the bank from slot `s` on.
  unfoldable pub write_slots : ℕ → ℕ → List (List ℤ) → C → C
  unfolding write_range
  write_slots zero s bank c = c
  write_slots (suc n) s bank c = write_slots n (suc s) bank (
      write_range ops.bank_slot_words 0 (ops.bank_base + s * ops.bank_slot_words) (bank_word bank s)
        c)

  -- `uploadDigibank`
  unfoldable pub upload_digibank : C → List (List ℤ) → C
  unfolding write_slots
  upload_digibank c bank = write_slots ops.bank_slots 0 bank c

  -- `setDigibank`
  unfoldable pub set_digibank : DspEngine C → Option (List (List ℤ)) → DspEngine C
  unfolding upload_digibank
  set_digibank d bank = record d {
    bank = bank;
    chip = elim bank [ none ↦ d.chip | some b ↦ upload_digibank d.chip b ];
  }

  -- `write a` for `n` addresses from `a` on.
  unfoldable pub each_address : ℕ → ℕ → (C → ℕ → C) → C → C
  each_address zero a write c = c
  each_address (suc n) a write c = each_address n (suc a) write (write c a)

  -- `setInputFrames`: 32 words from X:$100 on.
  unfoldable pub set_input_frames : DspEngine C → List ℤ → DspEngine C
  unfolding each_address
  set_input_frames d lr = record d {
    chip =
        each_address 32 0
          (λ c k. ops.mem_write c area_x (0x100 + k) (bits_24 (pattern_of (get_or lr k (pos 0)))))
          d.chip;
  }

  -- What `reset` clears of the memory.
  unfoldable pub clear_memory : C → C
  unfolding each_address
  clear_memory c =
      each_address bridge 0 (λ c a. ops.mem_write (ops.mem_write c area_x a 0) area_y a 0)
        (each_address size_p 0 (λ c a. ops.mem_write_p c a 0) c)

  -- `while (hasTX()) readTX()`, with fuel.
  unfoldable pub drain_tx : ℕ → C → Outcome C
  drain_tx zero c = elim (ops.tx c) [ [] ↦ returned c | _ ∷ _ ↦ unfinished ]
  drain_tx (suc n) c = elim (ops.tx c) [ [] ↦ returned c | _ ∷ _ ↦ drain_tx n (ops.read_tx c).1 ]

  -- `reset` up to the run of the kernel's own init, which answers with a word.
  unfoldable pub prepare : Bool → DspEngine C → Outcome (DspEngine C)
  unfolding clear_memory load_image install_stub upload_digibank each_address drain_tx
  prepare clear d = do
    let fresh = ops.reset_hw d.chip
    let cleared = if clear then clear_memory fresh else fresh
    (stubbed, skipped) ← install_stub (load_image (load_image cleared d.kernel_a) d.payload)
    let aar = ops.write_periph stubbed 0xFFFFF6 0x1C0639
    let banked : C = elim d.bank [ none ↦ aar | some b ↦ upload_digibank aar b ]
    let dma = ops.write_periph banked 0xFFFFEE 0x120
    let ring = ops.clear_rx (each_address 0x40 0x100 (λ c a. ops.mem_write c area_x a 0) dma)
    drained ← drain_tx (length (ops.tx ring)) ring
    returned (record d {
      chip = ops.set_pc drained stub_init;
      idle_loops_skipped = skipped;
      fault = none;
      stats = record { instructions = 0; total_instructions = 0; blocks = 0 };
    })

  -- The sentinel. Of the message, the part in front of the fault.
  unfoldable pub check_init : Bool → DspEngine C → Outcome (DspEngine C)
  check_init false d = thrown (codes "DSP init did not complete: ")
  check_init true d =
      let (w, c) = ops.read_tx d.chip in
      if w == init_sentinel
      then returned (record d { chip = c })
      else thrown (codes "DSP init: bad sentinel")

  -- `reset`
  unfoldable pub reset : Bool → DspEngine C → Outcome (DspEngine C)
  unfolding prepare run_until_tx check_init
  reset clear d = do
    ready ← prepare clear d
    (ok, e) ← run_until_tx ops ready 1 max_instr_init
    check_init ok e

  -- `resetKeepCode`
  unfoldable pub reset_keep_code : DspEngine C → Outcome (DspEngine C)
  unfolding reset each_address
  reset_keep_code d = reset false (record d {
    chip = each_address bridge 0 (λ c a. ops.mem_set (ops.mem_set c area_x a 0) area_y a 0) d.chip;
  })
