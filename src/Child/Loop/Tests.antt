-- ===== src/Child/Loop/Tests.antt =====
-- An iteration of the engine process with a note in the ring.
use schwung_monomodule.Prelude.{ℕ, ◌≡◌, Option, some, [], ◌∷◌, arith}
use schwung_monomodule.Prelude.Int.{pos}
use schwung_monomodule.Shm.{Op, Cmd, push_cmd}
use schwung_monomodule.Shm.Ring
use schwung_monomodule.Shm.Ring.{push_cmd-IsValid}
use schwung_monomodule.Shm.Tests.{zeroed}
use schwung_monomodule.Child.Tests.{gate_ops, gate_render, idle_engine}
use schwung_monomodule.Child.Loop.{Child, Round, iterate}
use schwung_monomodule.Child.Loop.Rounds.{Ends, plan_of, iterate_lem}

abbrev note : Cmd
note = record { op = Op.note_on; engine = 0; a = 60; b = 100; c = pos 0 }

abbrev pub started : Child (Option ℕ)
started = record { seg = (push_cmd zeroed note).1; engines = idle_engine ∷ []; next = 0 }

pub started-IsValid : Ring.IsValid started.seg
started-IsValid = push_cmd-IsValid note (omega arith)

iterate_lem_example :
    (r : Round (Option ℕ)) × (iterate gate_ops gate_render (λ k. 100) started ≡ some r)
    × Ends gate_ops gate_render (plan_of started) started r
iterate_lem_example = iterate_lem gate_ops gate_render (λ k. 100) started started-IsValid
