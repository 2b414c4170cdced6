-- ===== src/Plugin/State/RoundTrip/Writing.antt =====
-- The text of a state as writeState of src/plugin/mnm_plugin.cpp writes it.
use schwung_monomodule.Prelude.{
  ℕ, ◌<◌, ◌≡◌, refl, sym, ap, ◌∙◌, List, [], ◌∷◌, ◌++◌, arith, ltb, ltb→lt, zero, suc, ◌+◌, ◌-◌,
  ◌≤◌, Bool, true, false, take, length, if◌then◌else◌, append_assoc, append-nil, subst,
}
use schwung_monomodule.Prelude.Int.{pos}
use schwung_monomodule.Text.{Bytes, codes, print}
use schwung_monomodule.Plugin.State.{Output, emit, emit_values, print_at, size_left}

-- The values as `writeState` prints them.
unfoldable pub values_text : List ℕ → Bytes
values_text [] = []
values_text (x ∷ []) = print (pos x)
values_text (x ∷ (y ∷ xs)) = print (pos x) ++ (b',' ∷ values_text (y ∷ xs))

-- What fits was added to what fitted before.
pub record Fits (len : ℕ) (o : Output) (t : Bytes) (o' : Output) : Type 0 where
  pub before : o.n < len
  pub text : o'.text ≡ o.text ++ t

take-whole : {A : Type 0} (n : ℕ) (xs : List A) → length xs ≤ n → take n xs ≡ xs
take-whole zero [] h = refl
take-whole zero (x ∷ xs) h = absurd (omega (arith, h))
take-whole (suc n) [] h = refl
take-whole (suc n) (x ∷ xs) h = ap (λ ys. x ∷ ys) (take-whole n xs (omega (arith, h)))

pub print_at-Fits :
    (len size : ℕ) (o : Output) (t : Bytes)
    → o.n + size ≡ len
    → (print_at size o t).n < len
    → Fits len o t (print_at size o t)
unfolding print_at
print_at-Fits len size o t e h = record {
  before = omega (arith, h);
  text = ap (λ u. o.text ++ u) (take-whole (size - 1) t (omega (arith, e, h)));
}

pub emit-Fits :
    (len : ℕ) (o : Output) (t : Bytes) → (emit len o t).n < len → Fits len o t (emit len o t)
unfolding emit
emit-Fits len o t = chosen (ltb o.n len) refl
  where
    room : o.n < len → o.n + size_left len o.n ≡ len
    room k = unfold size_left in ground (arith, k)

    chosen :
        (b : Bool)
        → ltb o.n len ≡ b
        → (if b then print_at (size_left len o.n) o t else o).n < len
        → Fits len o t (if b then print_at (size_left len o.n) o t else o)
    chosen true e h = print_at-Fits len (size_left len o.n) o t (room (ltb→lt o.n len e)) h
    chosen false e h = absurd (ground (arith, e, h))

pub Fits-trans :
    {len : ℕ} {o p q : Output} (s t : Bytes)
    → Fits len o s p
    → Fits len p t q
    → Fits len o (s ++ t) q
Fits-trans {o = o} s t f g = record {
  before = f.before;
  text = g.text ∙ ap (λ u. u ++ t) f.text ∙ append_assoc o.text s t;
}

pub emit_values-Fits :
    (len : ℕ) (xs : List ℕ) (o : Output)
    → (emit_values len o xs).n < len
    → Fits len o (values_text xs) (emit_values len o xs)
unfolding emit_values values_text
emit_values-Fits len [] o h = record { before = h; text = sym (append-nil o.text) }
emit_values-Fits len (x ∷ []) o h = emit-Fits len o (print (pos x)) h
emit_values-Fits len (x ∷ (y ∷ xs)) o h =
    let rest = emit_values-Fits len (y ∷ xs) (emit len o (print (pos x) ++ codes ",")) h in
    subst (λ t. Fits len o t (emit_values len o (x ∷ (y ∷ xs))))
      (append_assoc (print (pos x)) (codes ",") (values_text (y ∷ xs)))
      (Fits-trans (print (pos x) ++ codes ",") (values_text (y ∷ xs))
        (emit-Fits len o (print (pos x) ++ codes ",") rest.before) rest)

-- The text of a state from its first field on.
unfoldable pub fields : ℕ → ℕ → ℕ → List ℕ → List ℕ → Bytes
fields m l d page lfo =
    codes "m="
    ++ (print (pos m)
        ++ (codes ";l="
            ++ (print (pos l)
                ++ (codes ";d="
                    ++ (print (pos d)
                        ++ (codes ";p="
                            ++ (values_text page
                                ++ (codes ";f=" ++ (values_text lfo ++ codes "\"}")))))))))
