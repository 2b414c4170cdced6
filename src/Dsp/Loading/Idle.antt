-- ===== src/Dsp/Loading/Idle.antt =====
-- The kernel's idle loops: skipIdleLoops of src/engine/dsp/DspEngine.cpp.
use schwung_monomodule.Prelude.{
  ℕ, ◌+◌, ◌<◌, ◌≡◌, ◌≢◌, ◌⊎◌, refl, ap₂, ◌∙◌, Bool, true, false, ◌&&◌, List, [], ◌∷◌, arith, All,
  ◌==◌, if◌then◌else◌,
}
use schwung_monomodule.Dsp.{area_p, ChipOps}
use schwung_monomodule.Dsp.Loading.{
  size_p, Site, sites, jmp_word, is_idle_loop, patch_site, skip_sites, skip_idle_loops,
}
use schwung_monomodule.Dsp.Loading.Stub.{IsMemory}

-- The two words of a site lie in program memory, its first is not the jump, and it lies apart from the
-- sites `ss`.
abbrev pub IsApart : Site → Site → Type 0
IsApart s r = (s.pc + 1 < r.pc) ⊎ (r.pc + 1 < s.pc)

abbrev pub IsPatchable : List Site → Type 0
IsPatchable [] = Unit {0}
IsPatchable (s ∷ ss) =
    (s.pc + 1 < size_p) × (s.do_word ≢ jmp_word) × All (IsApart s) ss × IsPatchable ss

module _ {C : Type 0} (ops : ChipOps C) (mem : IsMemory ops) where
  patch_site-get :
      (c : C) (s : Site) (a : ℕ)
      → a ≢ s.pc
      → a ≢ s.pc + 1
      → ops.mem_get (patch_site ops c s) area_p a ≡ ops.mem_get c area_p a
  patch_site-get c s a n m = mem.keeps _ (s.pc + 1) s.end a m ∙ mem.keeps c s.pc jmp_word a n

  -- A site that lies apart from a patched one is as before.
  patch_site-apart :
      (c : C) (s r : Site) (b : Bool)
      → IsApart s r
      → is_idle_loop ops (if b then patch_site ops c r else c) s ≡ is_idle_loop ops c s
  unfolding is_idle_loop
  patch_site-apart c s r false h = refl
  patch_site-apart c s r true h =
      ap₂ (λ x y. (x == s.do_word) && (y == s.la_word))
        (patch_site-get c r s.pc (λ e. omega (arith, h)) (λ e. omega (arith, h)))
        (patch_site-get c r (s.pc + 1) (λ e. omega (arith, h)) (λ e. omega (arith, h)))

  -- A site is not an idle loop after its turn.
  patch_site-done :
      (c : C) (s : Site) (b : Bool)
      → is_idle_loop ops c s ≡ b
      → s.pc + 1 < size_p
      → s.do_word ≢ jmp_word
      → is_idle_loop ops (if b then patch_site ops c s else c) s ≡ false
  unfolding is_idle_loop
  patch_site-done c s false e h n = e
  patch_site-done c s true e h n =
      let first : ops.mem_get (patch_site ops c s) area_p s.pc ≡ jmp_word =
        mem.keeps _ (s.pc + 1) s.end s.pc (λ e. omega arith)
        ∙ mem.reads c s.pc jmp_word (omega arith) (omega arith) in
      let q : (jmp_word == s.do_word) ≡ false = ground (arith, n) in rw (first, q) refl

  skip_sites-apart :
      (ss : List Site) (c : C) (n : ℕ) (s : Site)
      → All (IsApart s) ss
      → is_idle_loop ops (skip_sites ops c n ss).0 s ≡ is_idle_loop ops c s
  unfolding skip_sites
  skip_sites-apart [] c n s h = refl
  skip_sites-apart (r ∷ ss) c n s h =
      skip_sites-apart ss _ _ s h.1 ∙ patch_site-apart c s r (is_idle_loop ops c r) h.0

  skip_sites-done :
      (ss : List Site) (c : C) (n : ℕ)
      → IsPatchable ss
      → All (λ s. is_idle_loop ops (skip_sites ops c n ss).0 s ≡ false) ss
  unfolding skip_sites
  skip_sites-done [] c n h = tt
  skip_sites-done (s ∷ ss) c n (h, j, a, p) = (
    skip_sites-apart ss _ _ s a ∙ patch_site-done c s (is_idle_loop ops c s) refl h j,
    skip_sites-done ss _ _ p,
  )

  skip_sites-none :
      (ss : List Site) (c : C) (n : ℕ)
      → All (λ s. is_idle_loop ops c s ≡ false) ss
      → skip_sites ops c n ss ≡ (c, n)
  unfolding skip_sites
  skip_sites-none [] c n h = refl
  skip_sites-none (s ∷ ss) c n h = rw h.0 (skip_sites-none ss c n h.1)

  sites-IsPatchable : IsPatchable sites
  sites-IsPatchable = omega arith

  -- A second pass over the idle loops finds none: `skipIdleLoops` after itself changes nothing and
  -- counts nothing.
  pub skip_idle_loops_lem :
      (c : C) → skip_idle_loops ops (skip_idle_loops ops c).0 ≡ ((skip_idle_loops ops c).0, 0)
  skip_idle_loops_lem c = skip_sites-none sites _ 0 (skip_sites-done sites c 0 sites-IsPatchable)
