-- ===== src/Plugin/State/RoundTrip/Reading.antt =====
-- Numbers and the header of a state read back: readInts and readState of src/plugin/mnm_plugin.cpp.
use schwung_monomodule.Prelude.{
  ℕ, suc, ◌≤◌, ◌≡◌, refl, ap, ◌∙◌, some, List, [], ◌∷◌, ◌++◌, arith, length, append_assoc, All,
  subst, All-append,
}
use schwung_monomodule.Prelude.Int.{ℤ, pos, clamp, clamp_0}
use schwung_monomodule.Text.{Bytes, codes, print}
use schwung_monomodule.Text.Laws.{strtol-print, StopsDigits, IsPlain, decimal-IsPlain, after-append}
use schwung_monomodule.Shm.{max_depth}
use schwung_monomodule.Plugin.Params.Valid.{IsRaw}
use schwung_monomodule.Plugin.State.{skip_comma, read_ints, scan_int, scan_header}
use schwung_monomodule.Plugin.State.RoundTrip.Writing.{values_text}

pub raw_clamp : {x : ℕ} → IsRaw x → clamp_0 (pos x) 127 ≡ x
raw_clamp h = ground arith

read_ints_step :
    (n x : ℕ) (rest : Bytes) {xs : List ℕ}
    → IsRaw x
    → StopsDigits rest
    → read_ints n (skip_comma rest) ≡ some xs
    → read_ints (suc n) (print (pos x) ++ rest) ≡ some (x ∷ xs)
unfolding read_ints
read_ints_step n x rest {xs} h s e =
    rw (strtol-print x rest s, read_ints, e) (ap (λ y. some (y ∷ xs)) (raw_clamp h))

read_ints-values :
    (xs : List ℕ) (rest : Bytes)
    → All IsRaw xs
    → StopsDigits rest
    → read_ints (length xs) (values_text xs ++ rest) ≡ some xs
unfolding values_text
read_ints-values [] rest h s = unfold read_ints in refl
read_ints-values (x ∷ []) rest h s = read_ints_step 0 x rest h.0 s (unfold read_ints in refl)
read_ints-values (x ∷ (y ∷ xs)) rest h s =
    ap (read_ints (suc (suc (length xs)))) (append_assoc (print (pos x)) _ rest)
    ∙ read_ints_step (suc (length xs)) x (b',' ∷ (values_text (y ∷ xs) ++ rest)) h.0 refl
        (read_ints-values (y ∷ xs) rest h.1 s)

pub read_ints-values_text :
    {n : ℕ} (xs : List ℕ) (rest : Bytes)
    → length xs ≡ n
    → All IsRaw xs
    → StopsDigits rest
    → read_ints n (values_text xs ++ rest) ≡ some xs
read_ints-values_text xs rest e h s =
    subst (λ n. read_ints n (values_text xs ++ rest) ≡ some xs) e (read_ints-values xs rest h s)

pub depth_clamp : {d : ℕ} → 1 ≤ d → d ≤ max_depth → clamp (pos d) 1 max_depth ≡ d
depth_clamp lo hi = ground arith

pub values_text-IsPlain : (xs : List ℕ) → All IsPlain (values_text xs)
unfolding values_text print
values_text-IsPlain [] = tt
values_text-IsPlain (x ∷ []) = decimal-IsPlain x x
values_text-IsPlain (x ∷ (y ∷ xs)) =
    All-append IsPlain (print (pos x)) _ (decimal-IsPlain x x)
      (omega arith, values_text-IsPlain (y ∷ xs))

pub scan_int-print :
    (literal : Bytes) (n : ℕ) (rest : Bytes)
    → StopsDigits rest
    → scan_int literal (literal ++ (print (pos n) ++ rest)) ≡ some (pos n, rest)
unfolding scan_int
scan_int-print literal n rest s =
    rw (after-append literal (print (pos n) ++ rest), scan_int) (strtol-print n rest s)

pub scan_header_lem :
    (s : Bytes) {m l d : ℤ} {t u v : Bytes}
    → scan_int (codes "m=") s ≡ some (m, t)
    → scan_int (codes ";l=") t ≡ some (l, u)
    → scan_int (codes ";d=") u ≡ some (d, v)
    → scan_header s ≡ some (record { machine = m; level = l; depth = d })
unfolding scan_header
scan_header_lem s e f g = rw (e, scan_header) (rw (f, scan_header) (rw (g, scan_header)))
