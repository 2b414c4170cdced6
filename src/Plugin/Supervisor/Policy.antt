-- ===== src/Plugin/Supervisor/Policy.antt =====
-- The failures that supervise of src/plugin/mnm_plugin.cpp counts.
use schwung_monomodule.Prelude.{
  ℕ, ◌+◌, ◌≤◌, ◌<◌, ◌≡◌, refl, Bool, true, false, not, ◌&&◌, Option, none, some, arith, leb, ltb,
  ◌==◌, if◌then◌else◌, Bool-cases, not_leb→lt, inl, inr, sub32,
}
use schwung_monomodule.Shm.{Segment}
use schwung_monomodule.Plugin.Audio.{is_ready}
use schwung_monomodule.Plugin.Supervisor.{
  Supervisor, max_quick_failures, gives_up, start, ended, killed, settled, booting, stalled,
  healthy, watch, poll, iterate, is_failed, boot_timeout_polls, max_stalled_polls,
}

-- At most five failures in a row, and fewer while a process runs, which then has not been given up.
pub record IsBounded (v : Supervisor) : Type 0 where
  pub bounded : v.failures ≤ max_quick_failures
  pub trying : v.running ≡ true → (v.failures < max_quick_failures) × (v.gave_up ≡ false)

start-IsBounded :
    (fx : Bool) (depth : ℕ) (spawned : Bool) (v : Supervisor) (s : Segment)
    → v.running ≡ false
    → IsBounded v
    → IsBounded (start fx depth spawned (v, s)).0
unfolding start gives_up
start-IsBounded fx depth spawned v s r h = elim (Bool-cases v.gave_up) [
  | inl g ↦ rw g (record { bounded = h.bounded; trying = λ e. cc })
  | inr g ↦ elim (Bool-cases (leb max_quick_failures v.failures)) [
    | inl f ↦ rw (g, f) (record { bounded = h.bounded; trying = λ e. cc })
    | inr f ↦ elim (Bool-cases spawned) [
      | inl p ↦
          rw (g, f, p)
            (record {
              bounded = h.bounded;
              trying = λ _. (not_leb→lt max_quick_failures v.failures f, refl);
            })
      | inr p ↦
          rw (g, f, p)
            (record {
              bounded = omega (arith, not_leb→lt max_quick_failures v.failures f);
              trying = λ e. cc;
            })
    ]
  ]
]

killed-IsBounded :
    (v : Supervisor) (s : Segment) → v.failures < max_quick_failures → IsBounded (killed (v, s)).0
unfolding killed
killed-IsBounded v s h = record { bounded = omega (arith, h); trying = λ e. cc }

settled-IsBounded : (v : Supervisor) (s : Segment) → IsBounded v → IsBounded (settled (v, s)).0
unfolding settled
settled-IsBounded v s h = record { bounded = h.bounded; trying = h.trying }

module _ (v : Supervisor) (s : Segment) (r : v.running ≡ true) (h : IsBounded v) where
  ended-IsBounded : (status : ℕ) → IsBounded (ended status (v, s)).0
  unfolding ended
  ended-IsBounded status = elim (Bool-cases (is_failed s.phase)) [
    | inl e ↦ rw e (record { bounded = h.bounded; trying = λ e. cc })
    | inr e ↦ rw e (record { bounded = omega (arith, (h.trying r).0); trying = λ e. cc })
  ]

  booting-IsBounded : IsBounded (booting (v, s)).0
  unfolding booting
  booting-IsBounded = elim (Bool-cases (leb boot_timeout_polls (v.boot_polls + 1))) [
    | inl e ↦ rw e (killed-IsBounded _ s (h.trying r).0)
    | inr e ↦ rw e (settled-IsBounded _ s (record { bounded = h.bounded; trying = h.trying }))
  ]

  stalled-IsBounded : IsBounded (stalled (v, s)).0
  unfolding stalled
  stalled-IsBounded = elim (Bool-cases (leb max_stalled_polls (v.stalled_polls + 1))) [
    | inl e ↦ rw e (killed-IsBounded _ s (h.trying r).0)
    | inr e ↦ rw e (settled-IsBounded _ s (record { bounded = h.bounded; trying = h.trying }))
  ]

  healthy-IsBounded : IsBounded (healthy (v, s)).0
  unfolding healthy
  healthy-IsBounded = settled-IsBounded _ s (counted (ltb 0 (sub32 s.host_block v.last_host_block)))
    where
      counted :
          (b : Bool)
          → IsBounded (record v { stalled_polls = 0; failures = if b then 0 else v.failures })
      counted true = record { bounded = omega arith; trying = λ e. (omega arith, (h.trying e).1) }
      counted false = record { bounded = h.bounded; trying = h.trying }

  poll-IsBounded : (status : Option ℕ) → IsBounded (poll status (v, s)).0
  unfolding poll watch
  poll-IsBounded (some status) = ended-IsBounded status
  poll-IsBounded none = elim (Bool-cases (is_ready s.phase)) [
    | inr e ↦ rw e booting-IsBounded
    | inl e ↦
        elim (Bool-cases
          (s.heartbeat == v.last_heartbeat && not (s.host_block == v.last_host_block))) [
            | inl f ↦ rw (e, f) stalled-IsBounded
            | inr f ↦ rw (e, f) healthy-IsBounded
          ]
  ]

-- An iteration of the supervisor keeps the failures in a row at most five, whatever the process, the
-- callback and the system do; while a process runs they are fewer and it has not been given up.
pub iterate-IsBounded :
    (fx : Bool) (depth : ℕ) (spawned : Bool) (sleep : Segment → Segment) (status : Option ℕ)
    (v : Supervisor) (s : Segment)
    → IsBounded v
    → IsBounded (iterate fx depth spawned sleep status (v, s)).0
unfolding iterate
iterate-IsBounded fx depth spawned sleep status v s h = chosen v.running refl
  where
    polled :
        (w : Supervisor) (t : Segment) (b : Bool)
        → w.running ≡ b
        → IsBounded w
        → IsBounded (if b then poll status (w, sleep t) else (w, t)).0
    polled w t true r k = poll-IsBounded w (sleep t) r k status
    polled w t false r k = k

    chosen :
        (b : Bool)
        → v.running ≡ b
        → IsBounded
            (if b
              then poll status (v, sleep s)
              else let (w, t) = start fx depth spawned (v, s) in
                if w.running then poll status (w, sleep t) else (w, t)).0
    chosen true r = poll-IsBounded v (sleep s) r h status
    chosen false r =
        let (w, t) = start fx depth spawned (v, s) in
        polled w t w.running refl (start-IsBounded fx depth spawned v s r h)
