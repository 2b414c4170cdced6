-- ===== src/Shm/Spsc.antt =====
-- src/common/mnm_shm.h (pushCmd) against src/child/mnm_engine.cpp (the command loop): the two
-- processes interleaved, a shared access at a time. The acquire and release pairs of the code order
-- the slot's write before the store of `cmd_write`, and its read before the store of `cmd_read`, as
-- the steps here are ordered.
use schwung_monomodule.Prelude.{
  ℕ, zero, suc, ◌+◌, ◌%◌, ◌^◌, ◌≤◌, ◌<◌, ◌≡◌, ◌≢◌, refl, ap₂, ap, ◌∙◌, subst, List, [], ◌∷◌, ◌++◌,
  arith, u32, sub32, update, update_ne, update_self, sym, append_assoc,
}
use schwung_monomodule.Shm.{Cmd, Segment, cmd_slots}
use schwung_monomodule.Shm.Ring.{window, count, contents, IsValid}

-- Where the callback stands in `pushCmd`, with its locals.
pub data Producer : Type 0 where
  ready : Producer
  loaded : (cmd : Cmd) (w r : ℕ) → Producer
  stored : (cmd : Cmd) (w : ℕ) → Producer

-- Where the child stands in its command loop.
pub data Consumer : Type 0 where
  away : Consumer
  looping : (r w : ℕ) → Consumer

-- `accepted` are the commands that `pushCmd` has answered true to, `delivered` those that the child
-- has taken, oldest first.
pub record System : Type 0 where
  pub seg : Segment
  pub producer : Producer
  pub consumer : Consumer
  pub accepted : List Cmd
  pub delivered : List Cmd

pub data Step (s : System) : System → Type 0 where
  load :
      (cmd : Cmd)
      → s.producer ≡ ready
      → Step s (record s { producer = loaded cmd s.seg.cmd_write s.seg.cmd_read })
  refuse :
      (cmd : Cmd) (w r : ℕ)
      → s.producer ≡ loaded cmd w r
      → cmd_slots ≤ sub32 w r
      → Step s (record s { producer = ready })
  fill :
      (cmd : Cmd) (w r : ℕ)
      → s.producer ≡ loaded cmd w r
      → sub32 w r < cmd_slots
      → Step s (record s {
        seg = record s.seg { cmds = update s.seg.cmds (w % cmd_slots) cmd };
        producer = stored cmd w;
      })
  publish :
      (cmd : Cmd) (w : ℕ)
      → s.producer ≡ stored cmd w
      → Step s (record s {
        seg = record s.seg { cmd_write = u32 (w + 1) };
        producer = ready;
        accepted = s.accepted ++ (cmd ∷ []);
      })
  begin :
      s.consumer ≡ away → Step s (record s { consumer = looping s.seg.cmd_read s.seg.cmd_write })
  take :
      (r w : ℕ)
      → s.consumer ≡ looping r w
      → r ≢ w
      → Step s (record s {
        consumer = looping (u32 (r + 1)) w;
        delivered = s.delivered ++ (s.seg.cmds (r % cmd_slots) ∷ []);
      })
  finish :
      (r w : ℕ)
      → s.consumer ≡ looping r w
      → r ≡ w
      → Step s (record s { seg = record s.seg { cmd_read = r }; consumer = away })

pub data Reach (s : System) : System → Type 0 where
  here : Reach s s
  next : {t u : System} → Reach s t → Step t u → Reach s u

-- The position up to which the child has taken commands.
abbrev pub position : Consumer → ℕ → ℕ
position away read = read
position (looping r w) read = r

-- What the callback's locals say about the segment.
abbrev pub IsFresh : Producer → Segment → Type 0
IsFresh ready g = Unit {0}
IsFresh (loaded cmd w r) g =
    (w ≡ g.cmd_write) × (r < 2 ^ 32) × (sub32 g.cmd_write g.cmd_read ≤ sub32 w r)
IsFresh (stored cmd w) g =
    (w ≡ g.cmd_write) × (sub32 g.cmd_write g.cmd_read < cmd_slots) × (g.cmds (w % cmd_slots) ≡ cmd)

-- What the child's locals say about `cmd_write`.
abbrev pub IsBehind : Consumer → ℕ → Type 0
IsBehind away write = Unit {0}
IsBehind (looping r w) write = (w < 2 ^ 32) × (sub32 w r ≤ sub32 write r)

-- The commands that are accepted and not yet taken.
abbrev pub pending : Segment → Consumer → List Cmd
pending g c = window g.cmds (position c g.cmd_read) (sub32 g.cmd_write (position c g.cmd_read))

-- A write at least a window's length ahead, and less than the ring's, leaves the window alone.
window-update_past :
    (cmds : ℕ → Cmd) (cmd : Cmd) (n k r w : ℕ)
    → r < 2 ^ 32
    → n ≤ k
    → k < cmd_slots
    → w ≡ u32 (r + k)
    → window (update cmds (w % cmd_slots) cmd) r n ≡ window cmds r n
window-update_past cmds cmd zero k r w hr h hk e = refl
window-update_past cmds cmd (suc n) zero r w hr h hk e = absurd (omega arith)
window-update_past cmds cmd (suc n) (suc k) r w hr h hk e =
    ap₂ ◌∷◌ (update_ne cmds _ _ cmd (omega arith)) (
      window-update_past cmds cmd n k (u32 (r + 1)) w (omega arith) (omega arith) (omega arith)
        (omega arith))

window-snoc :
    (cmds : ℕ → Cmd) (n r w : ℕ)
    → r < 2 ^ 32
    → w ≡ u32 (r + n)
    → window cmds r (suc n) ≡ window cmds r n ++ (cmds (w % cmd_slots) ∷ [])
window-snoc cmds zero r w hr e = ap (λ i. cmds i ∷ []) (omega arith)
window-snoc cmds (suc n) r w hr e =
    ap (λ q. cmds (r % cmd_slots) ∷ q)
      (window-snoc cmds n (u32 (r + 1)) w (omega arith) (omega arith))

module _ (g : Segment) where
  -- The invariant of a segment with the callback at `p` and the child at `c`.
  pub record Inv (p : Producer) (c : Consumer) (accepted delivered : List Cmd) : Type 0 where
    pub write_in : g.cmd_write < 2 ^ 32
    pub read_in : g.cmd_read < 2 ^ 32
    pub position_in : position c g.cmd_read < 2 ^ 32
    pub bounded : sub32 g.cmd_write g.cmd_read ≤ cmd_slots
    pub between : sub32 g.cmd_write (position c g.cmd_read) ≤ sub32 g.cmd_write g.cmd_read
    pub fresh : IsFresh p g
    pub behind : IsBehind c g.cmd_write
    pub fifo : accepted ≡ delivered ++ pending g c

-- Another command does not bring the child's snapshot ahead of `cmd_write`.
IsBehind-publish :
    (c : Consumer) (read : ℕ) {w : ℕ}
    → w < 2 ^ 32
    → position c read < 2 ^ 32
    → sub32 w (position c read) < cmd_slots
    → IsBehind c w
    → IsBehind c (u32 (w + 1))
IsBehind-publish away read hw hp h b = tt
IsBehind-publish (looping r w') read hw hp h b = omega arith

-- A later `cmd_read` leaves the callback's stale copy on the safe side.
IsFresh-finish :
    (p : Producer) (g : Segment) (r : ℕ)
    → sub32 g.cmd_write r ≤ sub32 g.cmd_write g.cmd_read
    → IsFresh p g
    → IsFresh p (record g { cmd_read = r })
IsFresh-finish ready g r h f = tt
IsFresh-finish (loaded cmd w r') g r h f = omega arith
IsFresh-finish (stored cmd w) g r h f = (f.0, omega (arith, f), f.2)

module _ {g : Segment} {xs ys : List Cmd} where
  module _ {c : Consumer} where
    load-Inv :
        {p : Producer} (cmd : Cmd)
        → Inv g p c xs ys
        → Inv g (loaded cmd g.cmd_write g.cmd_read) c xs ys
    load-Inv cmd v = record {
      write_in = v.write_in;
      read_in = v.read_in;
      position_in = v.position_in;
      bounded = v.bounded;
      between = v.between;
      fresh = (refl, v.read_in, omega arith);
      behind = v.behind;
      fifo = v.fifo;
    }

    refuse-Inv : {p : Producer} → Inv g p c xs ys → Inv g ready c xs ys
    refuse-Inv v = record {
      write_in = v.write_in;
      read_in = v.read_in;
      position_in = v.position_in;
      bounded = v.bounded;
      between = v.between;
      fresh = tt;
      behind = v.behind;
      fifo = v.fifo;
    }

    fill-Inv :
        (cmd : Cmd) (w r : ℕ)
        → sub32 w r < cmd_slots
        → Inv g (loaded cmd w r) c xs ys
        → Inv (record g { cmds = update g.cmds (w % cmd_slots) cmd }) (stored cmd w) c xs ys
    fill-Inv cmd w r h v = record {
      write_in = v.write_in;
      read_in = v.read_in;
      position_in = v.position_in;
      bounded = v.bounded;
      between = v.between;
      fresh = (v.fresh.0, omega (arith, v), update_self g.cmds _ _ cmd refl);
      behind = v.behind;
      fifo =
          v.fifo
          ∙ ap (λ q. ys ++ q)
              (sym (
                window-update_past g.cmds cmd n n (position c g.cmd_read) w v.position_in
                  (omega arith) (omega (arith, v)) (omega (arith, v))));
    }
      where
        n : ℕ
        n = sub32 g.cmd_write (position c g.cmd_read)

    grown :
        {cmd : Cmd} {w : ℕ}
        → Inv g (stored cmd w) c xs ys
        → sub32 (u32 (w + 1)) (position c g.cmd_read)
          ≡ suc (sub32 g.cmd_write (position c g.cmd_read))
    grown v = omega (arith, v)

    publish-Inv :
        (cmd : Cmd) (w : ℕ)
        → Inv g (stored cmd w) c xs ys
        → Inv (record g { cmd_write = u32 (w + 1) }) ready c (xs ++ (cmd ∷ [])) ys
    publish-Inv cmd w v = record {
      write_in = omega arith;
      read_in = v.read_in;
      position_in = v.position_in;
      bounded = omega (arith, v);
      between = omega (arith, v);
      fresh = tt;
      behind =
          let e : w ≡ g.cmd_write = v.fresh.0 in
          rw e (IsBehind-publish c g.cmd_read v.write_in v.position_in (omega (arith, v)) v.behind);
      fifo =
          rw
            (
              grown v,
              window-snoc g.cmds (sub32 g.cmd_write (position c g.cmd_read)) (position c g.cmd_read)
                  w v.position_in (omega (arith, v)),
              v.fresh.2,
              v.fifo,
            )
            (append_assoc ys _ (cmd ∷ []));
    }

  begin-Inv : {p : Producer} → Inv g p away xs ys → Inv g p (looping g.cmd_read g.cmd_write) xs ys
  begin-Inv v = record {
    write_in = v.write_in;
    read_in = v.read_in;
    position_in = v.read_in;
    bounded = v.bounded;
    between = v.between;
    fresh = v.fresh;
    behind = (v.write_in, omega arith);
    fifo = v.fifo;
  }

  left :
      {p : Producer} {r w : ℕ}
      → Inv g p (looping r w) xs ys
      → r ≢ w
      → sub32 g.cmd_write r ≡ suc (sub32 g.cmd_write (u32 (r + 1)))
  left v ne = omega (arith, v)

  take-Inv :
      {p : Producer} (r w : ℕ)
      → r ≢ w
      → Inv g p (looping r w) xs ys
      → Inv g p (looping (u32 (r + 1)) w) xs (ys ++ (g.cmds (r % cmd_slots) ∷ []))
  take-Inv r w ne v = record {
    write_in = v.write_in;
    read_in = v.read_in;
    position_in = omega arith;
    bounded = v.bounded;
    between = omega (arith, v);
    fresh = v.fresh;
    behind = (v.behind.0, omega (arith, v));
    fifo =
        v.fifo
        ∙ ap (λ k. ys ++ window g.cmds r k) (left v ne)
        ∙ sym (append_assoc ys (g.cmds (r % cmd_slots) ∷ []) _);
  }

  finish-Inv :
      {p : Producer} (r w : ℕ)
      → Inv g p (looping r w) xs ys
      → Inv (record g { cmd_read = r }) p away xs ys
  finish-Inv {p} r w v = record {
    write_in = v.write_in;
    read_in = v.position_in;
    position_in = v.position_in;
    bounded = omega (arith, v);
    between = omega arith;
    fresh = IsFresh-finish p g r v.between v.fresh;
    behind = tt;
    fifo = v.fifo;
  }

abbrev pub Holds : System → Type 0
Holds s = Inv s.seg s.producer s.consumer s.accepted s.delivered

Step-Holds : {s t : System} → Step s t → Holds s → Holds t
Step-Holds (load cmd e) v = load-Inv cmd v
Step-Holds (refuse cmd w r e h) v = refuse-Inv v
Step-Holds {s} (fill cmd w r e h) v =
    fill-Inv cmd w r h (subst (λ p. Inv s.seg p s.consumer s.accepted s.delivered) e v)
Step-Holds {s} (publish cmd w e) v =
    publish-Inv cmd w (subst (λ p. Inv s.seg p s.consumer s.accepted s.delivered) e v)
Step-Holds {s} (begin e) v =
    begin-Inv (subst (λ c. Inv s.seg s.producer c s.accepted s.delivered) e v)
Step-Holds {s} (take r w e ne) v =
    take-Inv r w ne (subst (λ c. Inv s.seg s.producer c s.accepted s.delivered) e v)
Step-Holds {s} (finish r w e _) v =
    finish-Inv r w (subst (λ c. Inv s.seg s.producer c s.accepted s.delivered) e v)

Reach-Holds : {s t : System} → Holds s → Reach s t → Holds t
Reach-Holds h here = h
Reach-Holds h (next r st) = Step-Holds st (Reach-Holds h r)

-- Neither process inside its loop; what the ring holds counts as accepted.
abbrev pub initial : Segment → System
initial g = record {
  seg = g;
  producer = ready;
  consumer = away;
  accepted = contents g;
  delivered = [];
}

-- However the callback's pushes and the child's reads interleave, from a valid ring: the commands
-- taken, followed by those still in the ring, are exactly the commands accepted, in order; and the
-- ring never holds more than 1024.
pub delivery :
    {g : Segment} {t : System}
    → IsValid g
    → Reach (initial g) t
    → (t.accepted ≡ t.delivered ++ pending t.seg t.consumer) × (count t.seg ≤ cmd_slots)
delivery {g} {t} v r = (h.fifo, h.bounded)
  where
    h : Holds t
    h =
        Reach-Holds
          (record {
            write_in = v.write_in;
            read_in = v.read_in;
            position_in = v.read_in;
            bounded = v.bounded;
            between = omega arith;
            fresh = tt;
            behind = tt;
            fifo = refl;
          })
          r
