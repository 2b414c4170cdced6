-- ===== src/Dsp/Loading/Stub.antt =====
-- The stub that src/engine/dsp/DspEngine.cpp installs: emit, installStub.
use schwung_monomodule.Prelude.{
  ℕ, ◌+◌, ◌*◌, ◌≤◌, ◌<◌, ◌≡◌, ◌≢◌, ◌⊎◌, refl, ◌∙◌, Bool, true, false, Option, none, some, List, [],
  ◌∷◌, arith, length, All, ltb, inl, inr, if◌then◌else◌,
}
use schwung_monomodule.Text.{Bytes}
use schwung_monomodule.Dsp.{area_p, ChipOps, Outcome, returned, thrown}
use schwung_monomodule.Dsp.Returns.{Returns, Returns->>=}
use schwung_monomodule.Dsp.Loading.{
  Line, asm, jsr_abs, init_lines, main_lines, out_lines, stub_init, stub_main, stub_out, patch_addr,
  size_p, Site, sites, emit, emit_all, patch_site, is_idle_loop, skip_sites, install_stub,
}

-- Program memory is memory: a word of 24 bits written to an address of it is read back, and other
-- addresses keep their words.
pub record IsMemory {C : Type 0} (ops : ChipOps C) : Type 0 where
  pub reads :
      (c : C) (a v : ℕ)
      → a < size_p
      → v < 16777216
      → ops.mem_get (ops.mem_write_p c a v) area_p a ≡ v
  pub keeps :
      (c : C) (a v b : ℕ)
      → b ≢ a
      → ops.mem_get (ops.mem_write_p c a v) area_p b ≡ ops.mem_get c area_p b

module _ {C : Type 0} (ops : ChipOps C) where
  abbrev pub IsAccepted : Line → Type 0
  IsAccepted (asm text) = ops.assemble text ≢ none
  IsAccepted (jsr_abs target) = Unit {0}

  -- Program memory outside the addresses from `lo` to before `hi` is the same.
  abbrev pub Keeps : ℕ → ℕ → C → C → Type 0
  Keeps lo hi c d = (a : ℕ) → (a < lo) ⊎ (hi ≤ a) → ops.mem_get d area_p a ≡ ops.mem_get c area_p a

  module _ (mem : IsMemory ops) (lo hi : ℕ) where
    write-Keeps : (c : C) (pc v : ℕ) → lo ≤ pc → pc < hi → Keeps lo hi c (ops.mem_write_p c pc v)
    write-Keeps c pc v l h a k = mem.keeps c pc v a (λ e. omega arith)

    write_two-Keeps :
        (c : C) (pc v w : ℕ)
        → lo ≤ pc
        → pc + 1 < hi
        → Keeps lo hi c (ops.mem_write_p (ops.mem_write_p c pc v) (pc + 1) w)
    write_two-Keeps c pc v w l h a k =
        mem.keeps (ops.mem_write_p c pc v) (pc + 1) w a (λ e. omega arith)
        ∙ mem.keeps c pc v a (λ e. omega arith)

    -- A line takes two words at most, from `pc` on.
    abbrev Emitted : C → ℕ → ℕ → C × ℕ → Type 0
    Emitted c pc n (d, next) = (pc ≤ next) × (next ≤ pc + n) × Keeps lo hi c d

    emit-Emitted :
        (c : C) (pc : ℕ) (l : Line)
        → IsAccepted l
        → lo ≤ pc
        → pc + 2 ≤ hi
        → Returns (Emitted c pc 2) (emit ops c pc l)
    unfolding emit
    emit-Emitted c pc (jsr_abs target) h b t =
        (_, refl, (omega arith, omega arith, write_two-Keeps c pc _ target b (omega arith)))
    emit-Emitted c pc (asm text) h b t = assembled (ops.assemble text) (thrown _) h
      where
        assembled :
            (o : Option (ℕ × Option ℕ)) (refused : Outcome (C × ℕ))
            → o ≢ none
            → Returns (Emitted c pc 2) (elim o [
              | none ↦ refused
              | some (w, none) ↦ returned (ops.mem_write_p c pc w, pc + 1)
              | some (w, some v) ↦
                  returned (ops.mem_write_p (ops.mem_write_p c pc w) (pc + 1) v, pc + 2)
            ])
        assembled none r n = absurd (n refl)
        assembled (some (w, none)) r n =
            (_, refl, (omega arith, omega arith, write-Keeps c pc w b (omega arith)))
        assembled (some (w, some v)) r n =
            (_, refl, (omega arith, omega arith, write_two-Keeps c pc w v b (omega arith)))

    emit_all-Emitted :
        (ls : List Line) (c : C) (pc : ℕ)
        → All IsAccepted ls
        → lo ≤ pc
        → pc + 2 * length ls ≤ hi
        → Returns (Emitted c pc (2 * length ls)) (emit_all ops c pc ls)
    unfolding emit_all
    emit_all-Emitted [] c pc h b t = (_, refl, (omega arith, omega arith, λ a k. refl))
    emit_all-Emitted (l ∷ ls) c pc h b t =
        Returns->>= (Emitted c pc 2) (Emitted c pc (2 * length (l ∷ ls))) _ _
          (emit-Emitted c pc l h.0 b (omega arith))
          (λ (d, next) (u, v, k).
            further d next u k v (emit_all-Emitted ls d next h.1 (omega arith) (omega arith)))
      where
        further :
            (d : C) (next : ℕ)
            → pc ≤ next
            → Keeps lo hi c d
            → next ≤ pc + 2
            → Returns (Emitted d next (2 * length ls)) (emit_all ops d next ls)
            → Returns (Emitted c pc (2 * length (l ∷ ls))) (emit_all ops d next ls)
        further d next u k v ((e, last), q, (x, y, z)) =
            ((e, last), q, (omega arith, omega arith, λ a m. z a m ∙ k a m))

  -- The addresses of program memory that `installStub` may write.
  abbrev pub InSite : ℕ → Site → Type 0
  InSite a s = (a ≡ s.pc) ⊎ (a ≡ s.pc + 1)

  module _ (mem : IsMemory ops) where
    skip_sites-keeps :
        (ss : List Site) (c : C) (n a : ℕ)
        → All (λ s. ¬ InSite a s) ss
        → ops.mem_get (skip_sites ops c n ss).0 area_p a ≡ ops.mem_get c area_p a
    unfolding skip_sites
    skip_sites-keeps [] c n a h = refl
    skip_sites-keeps (s ∷ ss) c n a h =
        skip_sites-keeps ss _ _ a h.1 ∙ patched (is_idle_loop ops c s)
      where
        patched :
            (b : Bool)
            → ops.mem_get (if b then patch_site ops c s else c) area_p a ≡ ops.mem_get c area_p a
        patched true =
            mem.keeps _ (s.pc + 1) s.end a (λ e. h.0 (inr e))
            ∙ mem.keeps c s.pc _ a (λ e. h.0 (inl e))
        patched false = refl

    -- The addresses that the stub takes: twice as many as it has lines, from its three entries on, and
    -- the word it patches.
    abbrev pub InStub : ℕ → Type 0
    InStub a =
        ((stub_init ≤ a) × (a < stub_init + 18))
        ⊎ ((stub_main ≤ a) × (a < stub_main + 10))
        ⊎ ((stub_out ≤ a) × (a < stub_out + 8))
        ⊎ (a ≡ patch_addr)

    outside : (lo hi a : ℕ) → ¬ ((lo ≤ a) × (a < hi)) → (a < lo) ⊎ (hi ≤ a)
    outside lo hi a n = ground (arith, n)

    in_bounds :
        (P : C × ℕ → Type 0) (limit pc : ℕ) (e : Bytes) (m : Outcome (C × ℕ))
        → pc ≤ limit
        → Returns P m
        → Returns P (if ltb limit pc then thrown e else m)
    in_bounds P limit pc e m h r = let b : ltb limit pc ≡ false = ground (arith, h) in rw b r

    -- Where the assembler takes every line of the stub, `installStub` returns: neither part of the stub
    -- overflows. It changes program memory only in the stub's own words and in those of the idle loops.
    pub install_stub_lem :
        (c : C)
        → All IsAccepted init_lines
        → All IsAccepted main_lines
        → All IsAccepted out_lines
        → Returns
            (λ r.
              (a : ℕ)
              → ¬ InStub a
              → All (λ s. ¬ InSite a s) sites
              → ops.mem_get r.0 area_p a ≡ ops.mem_get c area_p a)
            (install_stub ops c)
    unfolding install_stub
    install_stub_lem c i m o =
        Returns->>= (Emitted mem stub_init (stub_init + 18) c stub_init 18) _ _ _
          (emit_all-Emitted mem stub_init (stub_init + 18) init_lines c stub_init i (omega arith)
            (omega arith))
          (λ (c1, pc1) (b, t, k).
            Returns->>= (Emitted mem stub_main (stub_main + 10) c1 stub_main 10) _ _ _
              (in_bounds (Emitted mem stub_main (stub_main + 10) c1 stub_main 10) stub_main pc1 _ _
                (omega arith)
                (emit_all-Emitted mem stub_main (stub_main + 10) main_lines c1 stub_main m
                  (omega arith) (omega arith)))
              (λ (c2, pc2) (b2, t2, k2).
                Returns->>= (Emitted mem stub_out (stub_out + 8) c2 stub_out 8) _ _ _
                  (in_bounds (Emitted mem stub_out (stub_out + 8) c2 stub_out 8) stub_out pc2 _ _
                    (omega arith)
                    (emit_all-Emitted mem stub_out (stub_out + 8) out_lines c2 stub_out o
                      (omega arith) (omega arith)))
                  (λ (c3, pc3) (b3, t3, k3). (
                    _,
                    refl,
                    λ a n s.
                        mem.keeps _ patch_addr _ a (λ e. n (inr (inr (inr e))))
                        ∙ (skip_sites-keeps sites c3 0 a s
                            ∙ (k3 a (outside stub_out (stub_out + 8) a (λ e. n (inr (inr (inl e)))))
                                ∙ (k2 a
                                      (outside stub_main (stub_main + 10) a (λ e. n (inr (inl e))))
                                    ∙ k a
                                        (outside stub_init (stub_init + 18) a (λ e. n (inl e)))))),
                  ))))
