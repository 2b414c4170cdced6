-- ===== src/Shm/Ring.antt =====
-- The command ring of src/common/mnm_shm.h holds a bounded queue.
use mathlib.Core.List.{foldl}
use schwung_monomodule.Prelude.{
  ℕ, zero, suc, ◌+◌, ◌%◌, ◌^◌, ◌≤◌, ◌<◌, ◌≡◌, refl, ap, ap₂, Bool, true, false, List, [], ◌∷◌, ◌++◌,
  some, arith, length, ltb, ◌==◌, if◌then◌else◌, u32, sub32, update, update_self, update_ne,
  Bool-cases, inl, inr, ==_iff, lt→ltb, ◌∙◌,
}
use schwung_monomodule.Shm.{Cmd, Segment, cmd_slots, push_cmd, drain}

-- The `n` commands from ring position `r` on.
abbrev pub window : (ℕ → Cmd) → ℕ → ℕ → List Cmd
window cmds r zero = []
window cmds r (suc n) = cmds (r % cmd_slots) ∷ window cmds (u32 (r + 1)) n

abbrev pub count : Segment → ℕ
count s = sub32 s.cmd_write s.cmd_read

-- The queued commands, oldest first.
abbrev pub contents : Segment → List Cmd
contents s = window s.cmds s.cmd_read (count s)

pub record IsValid (s : Segment) : Type 0 where
  pub write_in : s.cmd_write < 2 ^ 32
  pub read_in : s.cmd_read < 2 ^ 32
  pub bounded : count s ≤ cmd_slots

pub length-window : (cmds : ℕ → Cmd) (r n : ℕ) → length (window cmds r n) ≡ n
length-window cmds r zero = refl
length-window cmds r (suc n) = ap suc (length-window cmds (u32 (r + 1)) n)

-- A write past a window of fewer than 1024 commands leaves it alone and extends it by one.
pub window-update :
    (cmds : ℕ → Cmd) (cmd : Cmd) (n r w : ℕ)
    → r < 2 ^ 32
    → n < cmd_slots
    → w ≡ u32 (r + n)
    → window (update cmds (w % cmd_slots) cmd) r (suc n) ≡ window cmds r n ++ (cmd ∷ [])
window-update cmds cmd zero r w hr hn e = ap (λ x. x ∷ []) (update_self cmds _ _ cmd (omega arith))
window-update cmds cmd (suc n) r w hr hn e =
    ap₂ ◌∷◌ (update_ne cmds _ _ cmd (omega arith))
      (window-update cmds cmd n (u32 (r + 1)) w (omega arith) (omega arith) (omega arith))

-- The queue that a ring of 1024 slots stands for: a put into a full one is refused.
pub put : List Cmd → Cmd → Bool × List Cmd
put q cmd = if ltb (length q) cmd_slots then (true, q ++ (cmd ∷ [])) else (false, q)

-- `pushCmd` keeps the ring valid: its counters stay words, and it never holds more than 1024 commands.
pub push_cmd-IsValid : {s : Segment} (cmd : Cmd) → IsValid s → IsValid (push_cmd s cmd).1
unfolding push_cmd
push_cmd-IsValid cmd v = ground arith

push_cmd-full : (s : Segment) (cmd : Cmd) → cmd_slots ≤ count s → push_cmd s cmd ≡ (false, s)
unfolding push_cmd
push_cmd-full s cmd h = ground arith

push_cmd-free :
    (s : Segment) (cmd : Cmd)
    → count s < cmd_slots
    → push_cmd s cmd ≡ (
      true,
      record s {
        cmds = update s.cmds (s.cmd_write % cmd_slots) cmd;
        cmd_write = u32 (s.cmd_write + 1);
      },
    )
unfolding push_cmd
push_cmd-free s cmd h = ground arith

count-suc : {s : Segment} → IsValid s → sub32 (u32 (s.cmd_write + 1)) s.cmd_read ≡ suc (count s)
count-suc v = omega (arith, v)

-- On a valid segment `pushCmd` gives the answer of the bounded queue, and leaves its contents.
pub push_cmd_refines :
    {s : Segment} (cmd : Cmd)
    → IsValid s
    → let (done, s') = push_cmd s cmd in (done, contents s') ≡ put (contents s) cmd
unfolding put
push_cmd_refines {s} cmd v = elim (Bool-cases (ltb (count s) cmd_slots)) [
  | inl free ↦
      rw (push_cmd-free s cmd (ground arith), length-window, free, count-suc v)
        (ap (λ q. (true, q))
          (window-update s.cmds cmd (count s) s.cmd_read s.cmd_write v.read_in (ground arith)
            (omega (arith, v))))
  | inr full ↦ rw (push_cmd-full s cmd (ground arith), length-window, full)
]

-- With room in the ring a push appends its command.
pub push_cmd-room :
    {s : Segment} (cmd : Cmd)
    → IsValid s
    → length (contents s) < cmd_slots
    → contents (push_cmd s cmd).1 ≡ contents s ++ (cmd ∷ [])
unfolding put
push_cmd-room {s} cmd v h =
    ap (λ (r : Bool × List Cmd). r.1) (push_cmd_refines cmd v)
    ∙ ap
        (λ b.
          (if◌then◌else◌ {A = Bool × List Cmd} b (true, contents s ++ (cmd ∷ []))
            (false, contents s)).1)
        (lt→ltb _ _ h)

-- With more fuel than queued commands, the child's loop runs its body on each of them in order.
pub drain_lem {ℓ} :
    {S : Type ℓ} (body : S → Cmd → S) (cmds : ℕ → Cmd) (fuel n r w : ℕ) (s : S)
    → r < 2 ^ 32
    → w ≡ u32 (r + n)
    → n < 2 ^ 32
    → n < fuel
    → drain fuel cmds body r w s ≡ some (foldl body s (window cmds r n))
unfolding drain
drain_lem body cmds zero n r w s hr e hn h = elim h [ ]
drain_lem body cmds (suc fuel) zero r w s hr e hn h = rw ((==_iff r w).1 (omega arith), drain)
drain_lem body cmds (suc fuel) (suc n) r w s hr e hn h = elim (Bool-cases (r == w)) [
  | inl same ↦ absurd (omega (arith, (==_iff r w).0 same))
  | inr more ↦
      rw (more, drain)
        (drain_lem body cmds fuel n (u32 (r + 1)) w (body s (cmds (r % cmd_slots))) (omega arith)
          (omega arith) (omega arith) (omega arith))
]

-- Draining a valid ring runs the body over its contents in order, and ends; 1025 rounds of fuel
-- are enough.
pub drain_refines {ℓ} :
    {S : Type ℓ} (body : S → Cmd → S) {s : Segment} (start : S)
    → IsValid s
    → drain (cmd_slots + 1) s.cmds body s.cmd_read s.cmd_write start
      ≡ some (foldl body start (contents s))
drain_refines body {s} start v =
    drain_lem body s.cmds _ (count s) s.cmd_read s.cmd_write start v.read_in (omega (arith, v))
      (omega (arith, v)) (omega (arith, v))
