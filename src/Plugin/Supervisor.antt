-- ===== src/Plugin/Supervisor.antt =====
-- The restart policy of src/plugin/mnm_plugin.cpp (supervise): what a poll of the engine process does, and
-- when a new process is started.
pub mod Policy
pub mod Silence
pub mod Presets
use schwung_monomodule.Prelude.{
  ℕ, zero, suc, ◌+◌, ◌*◌, ◌-◌, Bool, true, false, not, ◌&&◌, ◌||◌, Option, none, some, List, [],
  ◌∷◌, leb, ltb, ◌==◌, if◌then◌else◌, u32, sub32,
}
use schwung_monomodule.Text.{after, codes}
use schwung_monomodule.Shm.{Segment, Phase}
use schwung_monomodule.Plugin.Audio.{is_ready, reset_segment}

abbrev pub max_quick_failures : ℕ
max_quick_failures = 5

abbrev pub boot_timeout_polls : ℕ
boot_timeout_polls = 300

abbrev pub max_stalled_polls : ℕ
max_stalled_polls = 10

-- What `in.error` says.
pub data Report : Type 0 where
  clear cannot_start no_start no_response : Report
  boot_error : List ℕ → Report
  exited : ℕ → Report

-- The locals of `supervise`, and what it changes of the instance. `running` is `pid > 0`.
pub record Supervisor : Type 0 where
  pub running : Bool
  pub last_heartbeat : ℕ
  pub last_host_block : ℕ
  pub stalled_polls : ℕ
  pub boot_polls : ℕ
  pub failures : ℕ
  pub published : Bool
  pub gave_up : Bool
  pub seg_gen : ℕ
  pub respawns : ℕ
  pub report : Report

abbrev is_failed : Phase → Bool
is_failed Phase.failed = true
is_failed _ = false

-- `gaveUp || failures >= kMaxQuickFailures`
unfoldable pub gives_up : Supervisor → Bool
gives_up v = v.gave_up || leb max_quick_failures v.failures

-- How long it sleeps before a start, in milliseconds: the first restart comes at once.
unfoldable pub back_off : Supervisor → ℕ
back_off v = if ltb 1 v.failures then 1000 * (v.failures - 1) else 0

-- A start while no process runs. `spawned` is the answer of spawnChild.
unfoldable pub start : Bool → ℕ → Bool → Supervisor × Segment → Supervisor × Segment
start fx depth spawned (v, s) =
    if gives_up v
    then (record v { gave_up = true }, s)
    else if spawned
    then (
      record v {
        running = true;
        published = true;
        seg_gen = u32 (v.seg_gen + 1);
        stalled_polls = 0;
        boot_polls = 0;
      },
      reset_segment s fx depth,
    )
    else (record v { failures = v.failures + 1; report = cannot_start }, reset_segment s fx depth)

abbrev silenced : Segment → Segment
silenced s = record s { phase = Phase.spawning }

-- The process has ended: a boot that failed is not tried again.
unfoldable pub ended : ℕ → Supervisor × Segment → Supervisor × Segment
ended status (v, s) =
    let gone = record v { running = false; respawns = u32 (v.respawns + 1) } in
    (
      if is_failed s.phase
          then record gone { gave_up = true; report = boot_error s.error }
          else record gone { report = exited status; failures = v.failures + 1 },
      silenced s,
    )

-- A process that hangs is killed.
unfoldable pub killed : Supervisor × Segment → Supervisor × Segment
killed (v, s) = (
  record v { running = false; failures = v.failures + 1; respawns = u32 (v.respawns + 1) },
  silenced s,
)

-- `strncmp(in.error, "engine", 6) == 0`
unfoldable pub about_engine : Report → Bool
about_engine no_start = true
about_engine no_response = true
about_engine (exited _) = true
about_engine (boot_error text) = elim (after text (codes "engine")) [ none ↦ false | some _ ↦ true ]
about_engine _ = false

-- The end of a poll that found nothing wrong.
unfoldable pub settled : Supervisor × Segment → Supervisor × Segment
settled (v, s) = (
  record v {
    report =
        if is_ready s.phase && (v.failures == 0 && about_engine v.report) then clear else v.report;
    last_heartbeat = s.heartbeat;
    last_host_block = s.host_block;
  },
  s,
)

-- Still booting.
unfoldable pub booting : Supervisor × Segment → Supervisor × Segment
booting (v, s) =
    let n = v.boot_polls + 1 in
    if leb boot_timeout_polls n
    then killed (record v { boot_polls = n; report = no_start }, s)
    else settled (record v { boot_polls = n }, s)

-- The callback goes on, the loop of the process does not.
unfoldable pub stalled : Supervisor × Segment → Supervisor × Segment
stalled (v, s) =
    let n = v.stalled_polls + 1 in
    if leb max_stalled_polls n
    then killed (record v { stalled_polls = n; report = no_response }, s)
    else settled (record v { stalled_polls = n }, s)

unfoldable pub healthy : Supervisor × Segment → Supervisor × Segment
healthy (v, s) = settled (
  record v {
    stalled_polls = 0;
    failures = if ltb 0 (sub32 s.host_block v.last_host_block) then 0 else v.failures;
  },
  s,
)

-- The poll of a process that lives.
unfoldable pub watch : Supervisor × Segment → Supervisor × Segment
watch (v, s) =
    if not (is_ready s.phase)
    then booting (v, s)
    else if s.heartbeat == v.last_heartbeat && not (s.host_block == v.last_host_block)
    then stalled (v, s)
    else healthy (v, s)

-- A poll, every 100 ms: `status` is the exit that waitpid reports, if any.
unfoldable pub poll : Option ℕ → Supervisor × Segment → Supervisor × Segment
poll none x = watch x
poll (some status) x = ended status x

-- An iteration of the loop of `supervise`, while it is not asked to stop. What lies outside is its
-- arguments: whether spawnChild succeeds, what the callback and the process do to the segment during
-- the sleep, and what waitpid says.
unfoldable pub iterate :
    Bool → ℕ → Bool → (Segment → Segment) → Option ℕ → Supervisor × Segment → Supervisor × Segment
iterate fx depth spawned sleep status (v, s) =
    if v.running
    then poll status (v, sleep s)
    else let (w, t) = start fx depth spawned (v, s) in
      if w.running then poll status (w, sleep t) else (w, t)
