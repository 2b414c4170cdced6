-- ===== src/Dsp/Tests.antt =====
-- The theorems about the host of the DSP at a small chip.
use schwung_monomodule.Prelude.{
  ℕ, suc, ◌+◌, ◌*◌, sym, All, ◌≡◌, refl, true, false, none, some, List, [], ◌∷◌, ◌++◌, arith,
  length, ◌==◌, if◌then◌else◌, update, update_self, update_ne, map,
}
use schwung_monomodule.Prelude.Int.{ℤ, pos, negsuc}
use schwung_monomodule.Dsp.{
  Area, area_x, area_y, area_p, ChipOps, DspEngine, step, run_until_tx, render_all, sample,
}
use schwung_monomodule.Dsp.Returns.{Returns, Advances, Ran, run_until_tx_lem}
use schwung_monomodule.Dsp.Blocks.{Latches, render_all_lem}
use schwung_monomodule.Dsp.Loading.{
  stub_init, stub_main, sites, install_stub, skip_idle_loops, bank_word, upload_digibank,
  skip_sites, is_idle_loop, reset,
}
use schwung_monomodule.Dsp.Loading.Stub.{IsMemory, InStub, InSite, install_stub_lem}
use schwung_monomodule.Dsp.Loading.Bank.{upload_digibank_lem}
use schwung_monomodule.Dsp.Resets.{IsReset, Pops, reset_lem}

-- A chip that answers with the done word at each step, and with the sentinel from the init's entry.
record Toy : Type 0 where
  pub program : ℕ → ℕ
  pub data_y : ℕ → ℕ
  pub data_x : ℕ → ℕ
  pub counter : ℕ
  pub place : ℕ
  pub queue : List ℕ

abbrev run_toy : Toy → Toy
run_toy c = record c {
  counter = suc c.counter;
  place = stub_main;
  queue = c.queue ++ ((if c.place == stub_init then 0xC0DE else 0xD0E0) ∷ []);
}

abbrev write_toy : Toy → Area → ℕ → ℕ → Toy
write_toy c area_p a v = record c { program = update c.program a v }
write_toy c area_y a v = record c { data_y = update c.data_y a v }
write_toy c area_x a v = record c { data_x = update c.data_x a v }

abbrev read_toy : Toy → Area → ℕ → ℕ
read_toy c area_p = c.program
read_toy c area_y = c.data_y
read_toy c area_x = c.data_x

abbrev pop_toy : Toy → List ℕ → ℕ × Toy
pop_toy c [] = (0, c)
pop_toy c (w ∷ ws) = (w, record c { queue = ws })

abbrev toy : ChipOps Toy
toy = record {
  exec = run_toy;
  exec_interpreter = run_toy;
  has_failed = λ c. false;
  fail_reason = λ c. [];
  instructions = λ c. c.counter;
  pc = λ c. c.place;
  set_pc = λ c a. record c { place = a };
  mem_write_p = λ c a v. write_toy c area_p a v;
  mem_write = write_toy;
  mem_set = write_toy;
  mem_get = read_toy;
  write_rx = λ c w. c;
  clear_rx = λ c. c;
  tx = λ c. c.queue;
  read_tx = λ c. pop_toy c c.queue;
  reset_hw = λ c. c;
  write_periph = λ c a v. c;
  assemble = λ text. some (length text, some 1);
  bank_base = 0x150000;
  bank_slots = 64;
  bank_slot_words = 2048;
}

abbrev chip : Toy
chip = record {
  program = λ a. if a == 0x100162 then 0x06808C else if a == 0x100163 then 0x100164 else 0;
  data_y = λ a. 0x800000 + a;
  data_x = λ a. 0;
  counter = 0;
  place = stub_main;
  queue = [];
}

abbrev bank : List (List ℤ)
bank = (pos 5 ∷ (negsuc 1 ∷ [])) ∷ ((pos 7 ∷ []) ∷ [])

abbrev engine : DspEngine Toy
engine = record {
  chip = chip;
  kernel_a = [];
  payload = [];
  bank = none;
  use_jit = true;
  idle_loops_skipped = 0;
  fault = none;
  stats = record { instructions = 0; total_instructions = 0; blocks = 0 };
}

toy-Advances : Advances toy
unfolding step
toy-Advances true c = omega arith
toy-Advances false c = omega arith

toy-IsMemory : IsMemory toy
toy-IsMemory = record {
  reads = λ c a v h k. update_self c.program a a v refl;
  keeps = λ c a v b n. update_ne c.program a b v (λ e. n (sym e));
}

toy-Pops : Pops toy
toy-Pops c w ws e = rw e refl

run_until_tx_lem_example : Returns (Ran toy engine 3 10) (run_until_tx toy engine 3 10)
run_until_tx_lem_example = run_until_tx_lem toy toy-Advances engine 3 10

render_all_lem_example :
    Returns
      (λ outs. Latches toy outs × (length outs ≡ 2))
      (render_all toy engine ((1 ∷ []) ∷ ((2 ∷ []) ∷ [])))
render_all_lem_example = render_all_lem toy toy-Advances ((1 ∷ []) ∷ ((2 ∷ []) ∷ [])) engine

install_stub_lem_example :
    Returns
      (λ r.
        (a : ℕ)
        → ¬ InStub toy toy-IsMemory a
        → All (λ s. ¬ InSite toy a s) sites
        → r.0.program a ≡ chip.program a)
      (install_stub toy chip)
install_stub_lem_example =
    install_stub_lem toy toy-IsMemory chip (ground arith) (ground arith) (ground arith)

upload_digibank_lem_example :
    (upload_digibank toy chip bank).program (0x150000 + 1 * 2048 + 0) ≡ bank_word toy bank 1 0
upload_digibank_lem_example =
    upload_digibank_lem toy toy-IsMemory (omega arith) chip bank 1 0 (omega arith) (omega arith)

reset_lem_example : IsReset none (reset toy false engine)
reset_lem_example =
    reset_lem toy toy-Advances toy-IsMemory toy-Pops (ground arith) (ground arith) (ground arith)
      false engine

patched_once : (skip_idle_loops toy chip).1 ≡ 1
unfolding skip_sites is_idle_loop
patched_once = refl

sample_runs :
    map sample (0x7FFFFF ∷ (0x800000 ∷ (0xFF000001 ∷ [])))
    ≡ pos 8388607 ∷ (negsuc 8388607 ∷ (pos 1 ∷ []))
unfolding sample
sample_runs = refl
