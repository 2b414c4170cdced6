-- ===== src/Dsp/Loading/Bank.antt =====
-- The Digibank: uploadDigibank of src/engine/dsp/DspEngine.cpp.
use schwung_monomodule.Prelude.{
  ℕ, zero, suc, ◌+◌, ◌*◌, ◌≤◌, ◌<◌, ◌≡◌, refl, ◌∙◌, ◌⊎◌, inl, inr, List, arith,
}
use schwung_monomodule.Prelude.Int.{ℤ}
use schwung_monomodule.Dsp.{area_p, ChipOps}
use schwung_monomodule.Dsp.Loading.{size_p, write_range, write_slots, bank_word, upload_digibank}
use schwung_monomodule.Dsp.Loading.Stub.{IsMemory}

le-cases : (a b : ℕ) → a ≤ b → (a ≡ b) ⊎ (suc a ≤ b)
le-cases a b h = ground arith

module _ {C : Type 0} (ops : ChipOps C) (mem : IsMemory ops) where
  write_range-before :
      (n k base : ℕ) (f : ℕ → ℕ) (c : C) (a : ℕ)
      → a < base + k
      → ops.mem_get (write_range ops n k base f c) area_p a ≡ ops.mem_get c area_p a
  unfolding write_range
  write_range-before zero k base f c a h = refl
  write_range-before (suc n) k base f c a h =
      write_range-before n (suc k) base f _ a (omega arith)
      ∙ mem.keeps c (base + k) (f k) a (λ e. omega arith)

  write_range-after :
      (n k base : ℕ) (f : ℕ → ℕ) (c : C) (a : ℕ)
      → base + k + n ≤ a
      → ops.mem_get (write_range ops n k base f c) area_p a ≡ ops.mem_get c area_p a
  unfolding write_range
  write_range-after zero k base f c a h = refl
  write_range-after (suc n) k base f c a h =
      write_range-after n (suc k) base f _ a (omega arith)
      ∙ mem.keeps c (base + k) (f k) a (λ e. omega arith)

  write_range-in :
      (n k base : ℕ) (f : ℕ → ℕ) (c : C) (i : ℕ)
      → ((j : ℕ) → f j < 16777216)
      → base + k + n ≤ size_p
      → k ≤ i
      → i < k + n
      → ops.mem_get (write_range ops n k base f c) area_p (base + i) ≡ f i
  unfolding write_range
  write_range-in zero k base f c i b h l u = absurd (omega arith)
  write_range-in (suc n) k base f c i b h l u = elim (le-cases k i l) [
    | inl e ↦ rw (← e) (
        write_range-before n (suc k) base f _ (base + k) (omega arith)
        ∙ mem.reads c (base + k) (f k) (omega arith) (b k))
    | inr m ↦ write_range-in n (suc k) base f _ i b (omega arith) m (omega arith)
  ]

  bank_word-bits : (bank : List (List ℤ)) (s i : ℕ) → bank_word ops bank s i < 16777216
  bank_word-bits bank s i = omega arith

  write_slots-before :
      (n s : ℕ) (bank : List (List ℤ)) (c : C) (a : ℕ)
      → a < ops.bank_base + s * ops.bank_slot_words
      → ops.mem_get (write_slots ops n s bank c) area_p a ≡ ops.mem_get c area_p a
  unfolding write_slots
  write_slots-before zero s bank c a h = refl
  write_slots-before (suc n) s bank c a h =
      write_slots-before n (suc s) bank _ a (grind arith)
      ∙ write_range-before ops.bank_slot_words 0 _ (bank_word ops bank s) c a (omega arith)

  write_slots-in :
      (n s : ℕ) (bank : List (List ℤ)) (c : C) (t i : ℕ)
      → ops.bank_base + (s + n) * ops.bank_slot_words ≤ size_p
      → s ≤ t
      → t < s + n
      → i < ops.bank_slot_words
      → ops.mem_get
          (write_slots ops n s bank c)
          area_p
          (ops.bank_base + t * ops.bank_slot_words + i)
        ≡ bank_word ops bank t i
  unfolding write_slots
  write_slots-in zero s bank c t i h l u v = absurd (omega arith)
  write_slots-in (suc n) s bank c t i h l u v = elim (le-cases s t l) [
    | inl e ↦ rw (← e) (
        write_slots-before n (suc s) bank _ _ (grind arith)
        ∙ write_range-in ops.bank_slot_words 0 (ops.bank_base + s * ops.bank_slot_words)
            (bank_word ops bank s) c i (bank_word-bits bank s) (fits s n h) (omega arith)
            (omega arith))
    | inr m ↦ write_slots-in n (suc s) bank _ t i (next s n h) m (omega arith) v
  ]
    where
      next :
          (s n : ℕ)
          → ops.bank_base + (s + suc n) * ops.bank_slot_words ≤ size_p
          → ops.bank_base + (suc s + n) * ops.bank_slot_words ≤ size_p
      next s n h = let e : s + suc n ≡ suc s + n = omega arith in rw (← e) h

      fits :
          (s n : ℕ)
          → ops.bank_base + (s + suc n) * ops.bank_slot_words ≤ size_p
          → ops.bank_base + s * ops.bank_slot_words + 0 + ops.bank_slot_words ≤ size_p
      fits s n h = grind arith

  -- Where the bank's slots end within program memory, `uploadDigibank` leaves every word of every slot
  -- there, 24 bits of it, slot after slot from the bank's base on.
  pub upload_digibank_lem :
      ops.bank_base + ops.bank_slots * ops.bank_slot_words ≤ size_p
      → (c : C) (bank : List (List ℤ)) (t i : ℕ) → t < ops.bank_slots
      → i < ops.bank_slot_words
      → ops.mem_get
          (upload_digibank ops c bank)
          area_p
          (ops.bank_base + t * ops.bank_slot_words + i)
        ≡ bank_word ops bank t i
  unfolding upload_digibank
  upload_digibank_lem h c bank t i u v =
      let n : 0 + ops.bank_slots ≡ ops.bank_slots = omega arith in
      write_slots-in ops.bank_slots 0 bank c t i (rw n h) (omega arith) (rw n u) v
