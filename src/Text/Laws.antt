-- ===== src/Text/Laws.antt =====
-- What printing and reading numbers, and comparing and searching text, have to do with one another.
use schwung_monomodule.Prelude.{
  All, All-append, Bool-cases, inl, inr, ltb→lt, ℕ, zero, suc, ◌+◌, ◌-◌, ◌*◌, ◌/◌, ◌%◌, ◌≤◌, ◌<◌,
  ◌≡◌, ◌↔◌, refl, sym, ap, ◌∙◌, true, false, some, [], ◌∷◌, ◌++◌, arith, ltb, append_assoc,
}
use schwung_monomodule.Prelude.Int.{pos}
use schwung_monomodule.Text.{
  Bytes, same, after, after_first, is_digit, skip_spaces, digits, unsigned, signed, strtol, decimal,
  print, with_sign,
}

pub same_iff : (s t : Bytes) → (same s t ≡ true) ↔ (s ≡ t)
unfolding same
same_iff [] [] = (λ _. refl, λ _. refl)
same_iff [] (b ∷ t) = (λ h. cc, λ h. cc)
same_iff (a ∷ s) [] = (λ h. cc, λ h. cc)
same_iff (a ∷ s) (b ∷ t) = ground (arith, same_iff s t)

pub after-append : (t s : Bytes) → after (t ++ s) t ≡ some s
unfolding after
after-append [] s = refl
after-append (b ∷ t) s = ground (arith, after-append t s)

-- Text that does not begin with a digit.
abbrev pub StopsDigits : Bytes → Type 0
StopsDigits [] = Unit {0}
StopsDigits (c ∷ s) = is_digit c ≡ false

digits_stop : (acc : ℕ) (s : Bytes) → StopsDigits s → digits acc s ≡ (acc, s)
unfolding digits
digits_stop acc [] h = refl
digits_stop acc (c ∷ s) h = rw h

digits_step :
    (acc d : ℕ) (s : Bytes) → d < 10 → digits acc ((b'0' + d) ∷ s) ≡ digits (acc * 10 + d) s
unfolding digits
digits_step acc d s h = ground (arith, ap (λ k. digits (acc * 10 + k) s) (digit_value d))
  where
    digit_value : (k : ℕ) → b'0' + k - b'0' ≡ k
    digit_value k = omega arith

digits-decimal : (f n : ℕ) (rest : Bytes) → n ≤ f → digits 0 (decimal f n ++ rest) ≡ digits n rest
unfolding decimal
digits-decimal zero n rest h =
    digits_step 0 (n % 10) rest (omega arith) ∙ ap (λ k. digits k rest) (omega arith)
digits-decimal (suc f) n rest h = elim (Bool-cases (ltb n 10)) [
  | inl small ↦
      rw small (digits_step 0 n rest (ltb→lt n 10 small) ∙ ap (λ k. digits k rest) (omega arith))
  | inr large ↦ rw large (
      ap (digits 0) (append_assoc (decimal f (n / 10)) ((b'0' + n % 10) ∷ []) rest)
      ∙ digits-decimal f (n / 10) ((b'0' + n % 10) ∷ rest) (ground arith)
      ∙ digits_step (n / 10) (n % 10) rest (omega arith)
      ∙ ap (λ k. digits k rest) (omega arith))
]

-- The first byte of a printed number is a digit.
decimal-head : (f n : ℕ) → (c : ℕ) × (s : Bytes) × (decimal f n ≡ c ∷ s) × (is_digit c ≡ true)
unfolding decimal
decimal-head zero n = (b'0' + n % 10, [], refl, ground arith)
decimal-head (suc f) n = elim (Bool-cases (ltb n 10)) [
  | inl small ↦ (b'0' + n, [], rw small, ground arith)
  | inr large ↦
      let (c, s, e, d) = decimal-head f (n / 10) in
      (c, s ++ ((b'0' + n % 10) ∷ []), rw (large, e), d)
]

strtol_digit :
    (c : ℕ) (s : Bytes)
    → is_digit c ≡ true
    → strtol (c ∷ s) ≡ with_sign pos (some (digits 0 (c ∷ s)))
unfolding strtol skip_spaces signed unsigned
strtol_digit c s h = ground arith

-- `strtol` reads back what `%d` printed of a number that is not negative, and leaves the text
-- behind it, which does not begin with a digit.
pub strtol-print :
    (n : ℕ) (rest : Bytes) → StopsDigits rest → strtol (print (pos n) ++ rest) ≡ some (pos n, rest)
unfolding print
strtol-print n rest h =
    let (c, s, e, d) = decimal-head n n in
    ap (λ t. strtol (t ++ rest)) e
    ∙ strtol_digit c (s ++ rest) d
    ∙ ap (λ t. with_sign pos (some (digits 0 (t ++ rest)))) (sym e)
    ∙ ap (λ r. with_sign pos (some r))
        (digits-decimal n n rest (omega arith) ∙ digits_stop n rest h)

-- Text whose bytes are digits or commas.
abbrev pub IsPlain : ℕ → Type 0
IsPlain c = (c < b'0' → c ≡ b',') × (c ≤ b'9')

pub decimal-IsPlain : (f n : ℕ) → All IsPlain (decimal f n)
unfolding decimal
decimal-IsPlain zero n = (omega arith, tt)
decimal-IsPlain (suc f) n = elim (Bool-cases (ltb n 10)) [
  | inl small ↦ rw small (ground arith)
  | inr large ↦
      rw large
        (All-append IsPlain (decimal f (n / 10)) _ (decimal-IsPlain f (n / 10)) (omega arith, tt))
]

-- A search for text that begins with a byte above the digits passes over digits and commas.
pub after_first-plain :
    (ds rest t : Bytes) (c : ℕ)
    → All IsPlain ds
    → b'9' < c
    → after_first (ds ++ rest) (c ∷ t) ≡ after_first rest (c ∷ t)
unfolding after_first after
after_first-plain [] rest t c p h = refl
after_first-plain (d ∷ ds) rest t c p h = ground (arith, p.0, after_first-plain ds rest t c p.1 h)
