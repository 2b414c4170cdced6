-- ===== src/Shm/Tests.antt =====
-- Concrete rings, and the theorems about them at these.
use schwung_monomodule.Prelude.{
  ℕ, ◌+◌, ◌-◌, ◌^◌, ◌≤◌, ◌≡◌, refl, false, List, [], ◌∷◌, ◌++◌, some, arith,
}
use schwung_monomodule.Prelude.Int.{pos}
use schwung_monomodule.Shm.{Cmd, Segment, Op, Phase, cmd_slots, push_cmd, drain}
use schwung_monomodule.Shm.Ring.{
  IsValid, count, contents, put, push_cmd-IsValid, push_cmd_refines, drain_refines,
}
use schwung_monomodule.Shm.Spsc.{
  System, Producer, Consumer, Reach, here, next, load, fill, publish, begin, take, initial, pending,
  delivery,
}

abbrev pub note : ℕ → Cmd
note n = record { op = Op.note_on; engine = 0; a = n; b = 0; c = pos 0 }

abbrev pub zeroed : Segment
zeroed = record {
  engines = 1;
  has_input = false;
  depth = 2;
  host_block = 0;
  produced = 0;
  underruns = 0;
  skips = 0;
  heartbeat = 0;
  shutdown = false;
  phase = Phase.ready;
  child_pid = 0;
  error = [];
  cmd_write = 0;
  cmd_read = 0;
  cmds = λ _. note 0;
  stats = λ _. record {
    last_us = 0;
    max_us = 0;
    blocks = 0;
    faulted = 0;
    parked = 0;
    parked_blocks = 0;
  };
  out = λ _ _. [];
  input = λ _. [];
}

-- Two commands queued, across the wrap of the counters.
abbrev wrapped : Segment
wrapped = record zeroed { cmd_write = 1; cmd_read = 2 ^ 32 - 1; cmds = note }

wrapped-IsValid : IsValid wrapped
wrapped-IsValid = omega arith

contents-wrapped : contents wrapped ≡ note 1023 ∷ note 0 ∷ []
contents-wrapped = refl

push_cmd-IsValid_example : IsValid (push_cmd wrapped (note 60)).1
push_cmd-IsValid_example = push_cmd-IsValid (note 60) wrapped-IsValid

push_cmd_refines_example :
    let (done, s) = push_cmd wrapped (note 60) in
    (done, contents s) ≡ put (note 1023 ∷ note 0 ∷ []) (note 60)
push_cmd_refines_example = push_cmd_refines (note 60) wrapped-IsValid

drain_refines_example :
    drain
      (cmd_slots + 1)
      wrapped.cmds
      (λ (q : List Cmd) c. q ++ (c ∷ []))
      wrapped.cmd_read
      wrapped.cmd_write
      []
    ≡ some (note 1023 ∷ note 0 ∷ [])
drain_refines_example =
    drain_refines (λ (q : List Cmd) c. q ++ (c ∷ [])) {s = wrapped} [] wrapped-IsValid

-- The child starts its loop, takes one command, and the callback pushes a third meanwhile.
abbrev overlapped : System
overlapped = record {
  seg = record wrapped { cmds = λ i. (push_cmd wrapped (note 60)).1.cmds i; cmd_write = 2 };
  producer = Producer.ready;
  consumer = Consumer.looping 0 1;
  accepted = note 1023 ∷ note 0 ∷ note 60 ∷ [];
  delivered = note 1023 ∷ [];
}

overlapped-Reach : Reach (initial wrapped) overlapped
unfolding push_cmd
overlapped-Reach =
    next
      (next
        (next (next (next here (begin refl)) (load (note 60) refl))
          (fill (note 60) 1 (2 ^ 32 - 1) refl (omega arith)))
        (take (2 ^ 32 - 1) 1 refl (omega arith)))
      (publish (note 60) 1 refl)

delivery_example :
    (note 1023 ∷ note 0 ∷ note 60 ∷ []
      ≡ (note 1023 ∷ []) ++ pending overlapped.seg overlapped.consumer)
    × (count overlapped.seg ≤ cmd_slots)
delivery_example = delivery wrapped-IsValid overlapped-Reach
