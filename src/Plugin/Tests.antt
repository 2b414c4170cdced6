-- ===== src/Plugin/Tests.antt =====
-- The theorems about an instance at a new instance of the generator.
use schwung_monomodule.Prelude.{false, ℕ, ◌≤◌, ◌≡◌, refl, true, none, some, [], ◌∷◌, arith}
use schwung_monomodule.Prelude.Int.{pos, negsuc}
use schwung_monomodule.Text.{Bytes, codes, print}
use schwung_monomodule.Shm.{Segment, Phase}
use schwung_monomodule.Shm.Tests.{zeroed}
use schwung_monomodule.Ui.{Tables, ParamDef, IsTables}
use schwung_monomodule.Ui.One
use schwung_monomodule.Ui.Checks.{tables-IsTables}
use schwung_monomodule.Plugin.Params.{
  load_defaults, load_defaults_from, load_default, machine_syn_defaults, syn_defaults_from,
}
use schwung_monomodule.Plugin.Convert.{ReadDouble, valid_machine, find_machine, to_raw, from_raw}
use schwung_monomodule.Plugin.Convert.Laws.{from_raw-to_raw}
use schwung_monomodule.Plugin.Instance.{Instance}
use schwung_monomodule.Plugin.Replay.{Queued}
use schwung_monomodule.Plugin.State.{
  write_state, parse_state, emit_state, emit_values, emit, print_at, size_left, head_text,
}
use schwung_monomodule.Plugin.State.Bounds.{emit_state-reach}
use schwung_monomodule.Plugin.State.RoundTrip.{parse_state-write_state}
use schwung_monomodule.Plugin.Entry.{create, create_params, set_param}
use schwung_monomodule.Plugin.Supervisor.{Supervisor, Report, iterate}
use schwung_monomodule.Plugin.Supervisor.Policy.{IsBounded, iterate-IsBounded}
use schwung_monomodule.Plugin.Entry.Sounds.{IsValid}
use schwung_monomodule.Plugin.Entry.Valid.{set_param-IsValid, create-IsValid}

abbrev pub one : Tables
one = One.tables true

pub one-IsTables : IsTables one
one-IsTables = (tables-IsTables true).0

-- CHORUS is machine 15, FM+ PAR is machine 9.
abbrev pub fresh : Instance
fresh = create one 15 9

pub fresh-IsValid : IsValid fresh
fresh-IsValid = create-IsValid one 15 9 one-IsTables (omega arith) (omega arith)

create-IsValid_example : IsValid (create one 15 9)
create-IsValid_example = create-IsValid one 15 9 one-IsTables (omega arith) (omega arith)

-- No number is read off a text.
abbrev pub no_number : ReadDouble
no_number = λ _. none

set_param-IsValid_example :
    IsValid (set_param one no_number 5 fresh (some (codes "synth:level")) (some (codes "999")))
set_param-IsValid_example =
    set_param-IsValid one-IsTables no_number 5 fresh-IsValid (some (codes "synth:level"))
      (some (codes "999"))

abbrev text : Bytes
text = (emit_state 65536 fresh).text

fresh-text : write_state 65536 fresh ≡ some text
unfolding write_state emit_state emit_values emit print_at size_left head_text print create
    create_params One.tables load_defaults load_defaults_from load_default machine_syn_defaults
    syn_defaults_from
fresh-text = refl

fresh-known : valid_machine one.machines (pos fresh.params.machine) ≡ true
unfolding valid_machine find_machine create create_params One.tables load_defaults
    load_defaults_from load_default
fresh-known = refl

parse_state-write_state_example :
    parse_state one fresh.params text
    ≡ some (
      record fresh.params {
        machine = fresh.params.machine;
        level = fresh.params.level;
        page = fresh.params.page;
        lfo = fresh.params.lfo;
      },
      fresh.depth,
    )
parse_state-write_state_example =
    parse_state-write_state one 65536 fresh fresh.params fresh-IsValid.table fresh-known
      (fresh-IsValid.depth_in.0) (fresh-IsValid.depth_in.1) fresh-text

-- The new instance with an engine's segment, its ring empty.
abbrev pub connected : Instance
connected = record fresh { seg = some zeroed }

connected-Queued : Queued connected []
connected-Queued = record { segment = zeroed; published = refl; valid = omega arith; holds = refl }

abbrev wave : ParamDef
wave = record {
  key = codes "lfo1_mult";
  page = 4;
  index = 5;
  kind = 2;
  count = 3;
  machine = negsuc 0;
  default_raw = 0;
  values = some (codes "1X" ∷ codes "2X" ∷ codes "4X" ∷ []);
}

from_raw-to_raw_example :
    (raw : ℕ) × (to_raw one.syn_labels no_number wave (codes "4X") 9 ≡ some raw)
    × (raw ≤ 127)
    × (from_raw one.syn_labels wave raw 9 ≡ codes "4X")
from_raw-to_raw_example =
    from_raw-to_raw one.syn_labels no_number wave (codes "1X" ∷ codes "2X" ∷ codes "4X" ∷ []) 2 9
      refl refl refl (omega arith) (omega arith)

-- Four failures in a row, and no process.
abbrev failing : Supervisor
failing = record {
  running = false;
  last_heartbeat = 0;
  last_host_block = 0;
  stalled_polls = 0;
  boot_polls = 0;
  failures = 4;
  published = true;
  gave_up = false;
  seg_gen = 4;
  respawns = 4;
  report = Report.exited 6;
}

iterate-IsBounded_example : IsBounded (iterate false 2 true (λ s. s) (some 6) (failing, zeroed)).0
iterate-IsBounded_example =
    iterate-IsBounded false 2 true (λ s. s) (some 6) failing zeroed
      (record { bounded = omega arith; trying = λ e. cc })

-- No process has said that it is ready.
abbrev unready : Segment
unready = record zeroed { phase = Phase.spawning }

-- It is started once more, and ends.
abbrev stopped : Supervisor × Segment
stopped = iterate false 2 true (λ s. s) (some 6) (failing, unready)

-- Ten bytes are not enough for the text: what is written ends with the buffer.
emit_state-reach_example : (emit_state 10 fresh).reach ≤ 10
emit_state-reach_example = emit_state-reach 10 fresh
