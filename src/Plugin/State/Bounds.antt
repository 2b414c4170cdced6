-- ===== src/Plugin/State/Bounds.antt =====
-- What writeState of src/plugin/mnm_plugin.cpp writes to of its buffer.
use schwung_monomodule.Prelude.{
  ℕ, ◌+◌, ◌≤◌, ◌<◌, List, [], ◌∷◌, ◌++◌, arith, length, ltb, ltb→lt, ◌==◌, min, max, Bool-cases,
  inl, inr,
}
use schwung_monomodule.Prelude.Int.{pos}
use schwung_monomodule.Text.{Bytes, codes, print}
use schwung_monomodule.Plugin.Instance.{Instance}
use schwung_monomodule.Plugin.State.{
  Output, size_left, print_at, emit, emit_values, head_text, emit_state, empty_output,
}

reach_le : (r n l size len : ℕ) → r ≤ len → n + size ≤ len → max r (n + min (l + 1) size) ≤ len
reach_le r n l size len h k = omega (arith, h, k)

print_at-reach :
    (len size : ℕ) (o : Output) (t : Bytes)
    → o.reach ≤ len
    → o.n + size ≤ len
    → (print_at size o t).reach ≤ len
unfolding print_at
print_at-reach len size o t h k = elim (Bool-cases (size == 0)) [
  | inl e ↦ rw e h
  | inr e ↦ rw e (reach_le o.reach o.n (length t) size len h k)
]

emit-reach : (len : ℕ) (o : Output) (t : Bytes) → o.reach ≤ len → (emit len o t).reach ≤ len
unfolding emit
emit-reach len o t h = elim (Bool-cases (ltb o.n len)) [
  | inl e ↦ rw e (print_at-reach len (size_left len o.n) o t h (room (ltb→lt o.n len e)))
  | inr e ↦ rw e h
]
  where
    room : o.n < len → o.n + size_left len o.n ≤ len
    room k = unfold size_left in ground (arith, k)

emit_values-reach :
    (len : ℕ) (o : Output) (xs : List ℕ) → o.reach ≤ len → (emit_values len o xs).reach ≤ len
unfolding emit_values
emit_values-reach len o [] h = h
emit_values-reach len o (x ∷ []) h = emit-reach len o (print (pos x)) h
emit_values-reach len o (x ∷ (y ∷ xs)) h =
    emit_values-reach len (emit len o (print (pos x) ++ codes ",")) (y ∷ xs)
      (emit-reach len o (print (pos x) ++ codes ",") h)

-- Whatever the length of its buffer, `writeState` writes to no byte behind it, closing zeros included,
-- whether the text fits or the answer is -1.
pub emit_state-reach : (len : ℕ) (in' : Instance) → (emit_state len in').reach ≤ len
unfolding emit_state
emit_state-reach len in' = emit-reach len _ (codes "\"}") (
    emit_values-reach len _ in'.params.lfo (
      emit-reach len _ (codes ";f=") (
        emit_values-reach len _ in'.params.page
          (print_at-reach len len empty_output (head_text in') (omega arith) (omega arith)))))
