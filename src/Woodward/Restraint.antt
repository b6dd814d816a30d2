-- ===== src/Woodward/Restraint.antt =====
-- When woodward kicks a service: never in the startup grace, never before the fourth missed
-- heartbeat, and then surely.
use douglas.Base.{
  ℕ, ◌+◌, ◌≤◌, ◌<◌, ◌≡◌, refl, true, List, [], ◌∷◌, arith, Bool-cases, inl, inr, length,
}
use douglas.Woodward.Tally.{
  ServiceCheckResult, okay, needs_kick, missed_heartbeat, SupervisionDecision, check, given_up,
  ServiceTally, has_elapsed, restart_window_seconds, forget_restarts, forget_kicks, decide,
  record_heartbeat, record_missed_heartbeat, is_in_grace,
}
use douglas.Woodward.Check.{
  Tick, ServiceCheck, Execution, note_given_up, note_recovered, act, take_heartbeat, after_decision,
  check_one_service, check_rounds,
}

-- What `decide` leaves alone.
pub record Keeps (t u : ServiceTally) : Type 0 where
  pub failures : u.failure_count ≡ t.failure_count
  pub recovering : u.recovering_since ≡ t.recovering_since

forget_restarts-Keeps : (now : ℕ) (t : ServiceTally) → Keeps t (forget_restarts now t)
unfolding forget_restarts
forget_restarts-Keeps now t =
    elim (Bool-cases (has_elapsed now t.last_restart_at restart_window_seconds)) [
      | inl e ↦ rw e (record { failures = refl; recovering = refl })
      | inr e ↦ rw e (record { failures = refl; recovering = refl })
    ]

forget_kicks-Keeps : (now : ℕ) (t : ServiceTally) → Keeps t (forget_kicks now t)
unfolding forget_kicks
forget_kicks-Keeps now t =
    elim (Bool-cases (has_elapsed now t.last_kick_at restart_window_seconds)) [
      | inl e ↦ rw e (record { failures = refl; recovering = refl })
      | inr e ↦ rw e (record { failures = refl; recovering = refl })
    ]

pub decide-Keeps : (a b : ℕ) (t : ServiceTally) → Keeps t (decide a b t).0
unfolding decide
decide-Keeps a b t =
    let k = forget_restarts-Keeps a t in
    let l = forget_kicks-Keeps b (forget_restarts a t) in record { failures = cc; recovering = cc }

-- The tally that a check has after its decision.
abbrev pub decided : Tick → ServiceCheck → ServiceCheck
decided tick s = record s { tally = (decide tick.restart_now tick.kick_now s.tally).0 }

-- Without a kick, a check executes nothing and adds at most one to the failure count.
abbrev pub IsQuiet : ServiceTally → ServiceCheck × List Execution → Type 0
IsQuiet t (s, executed) = (executed ≡ []) × (s.tally.failure_count ≤ t.failure_count + 1)

note_given_up-IsQuiet :
    (tick : Tick) (s : ServiceCheck) → IsQuiet s.tally (note_given_up tick s, [])
unfolding note_given_up
note_given_up-IsQuiet tick s = ground arith

note_recovered-IsQuiet :
    (tick : Tick) (s : ServiceCheck) (t : ServiceTally)
    → s.tally.failure_count ≤ t.failure_count + 1
    → IsQuiet t (note_recovered tick s, [])
unfolding note_recovered
note_recovered-IsQuiet tick s t h = ground arith

act-IsQuiet :
    (tick : Tick) (s : ServiceCheck) (t : ServiceTally) (r : ServiceCheckResult)
    → (r ≡ needs_kick → ⊥)
    → s.tally.failure_count ≤ t.failure_count + 1
    → IsQuiet t (act tick s r)
unfolding act
act-IsQuiet tick s t okay n h = note_recovered-IsQuiet tick s t h
act-IsQuiet tick s t missed_heartbeat n h = (refl, h)
act-IsQuiet tick s t needs_kick n h = absurd (n refl)

after_decision-IsQuiet :
    (tick : Tick) (s : ServiceCheck) (d : SupervisionDecision)
    → ((take_heartbeat tick s.tally).1 ≡ needs_kick → ⊥)
    → (take_heartbeat tick s.tally).0.failure_count ≤ s.tally.failure_count + 1
    → IsQuiet s.tally (after_decision tick s d)
after_decision-IsQuiet tick s given_up n h = note_given_up-IsQuiet tick s
after_decision-IsQuiet tick s check n h = act-IsQuiet tick _ s.tally _ n h

take_heartbeat_grace :
    (tick : Tick) (t : ServiceTally)
    → is_in_grace tick.grace_now t.recovering_since ≡ true
    → ((take_heartbeat tick t).1 ≡ needs_kick → ⊥)
      × ((take_heartbeat tick t).0.failure_count ≤ t.failure_count + 1)
unfolding take_heartbeat record_heartbeat record_missed_heartbeat
take_heartbeat_grace tick t g = (λ e. ground arith, ground arith)

take_heartbeat_few :
    (tick : Tick) (t : ServiceTally)
    → t.failure_count < 3
    → ((take_heartbeat tick t).1 ≡ needs_kick → ⊥)
      × ((take_heartbeat tick t).0.failure_count ≤ t.failure_count + 1)
unfolding take_heartbeat record_heartbeat record_missed_heartbeat
take_heartbeat_few tick t f = (λ e. ground arith, ground arith)

-- A check whose heartbeat asks for no kick is quiet.
check_one_service-IsQuiet :
    (tick : Tick) (s : ServiceCheck)
    → ((take_heartbeat tick (decided tick s).tally).1 ≡ needs_kick → ⊥)
      × ((take_heartbeat tick (decided tick s).tally).0.failure_count
          ≤ (decided tick s).tally.failure_count + 1)
    → IsQuiet s.tally (check_one_service tick s)
unfolding check_one_service
check_one_service-IsQuiet tick s (n, h) =
    let q = after_decision-IsQuiet tick (decided tick s) _ n h in
    (q.0, omega (arith, (decide-Keeps tick.restart_now tick.kick_now s.tally).failures, q.1))

-- A service that is still in its startup grace, 90 seconds from when it was first seen or last
-- kicked, is not kicked, and the check counts at most one failure.
pub check_one_service_grace :
    (tick : Tick) (s : ServiceCheck)
    → is_in_grace tick.grace_now s.tally.recovering_since ≡ true
    → IsQuiet s.tally (check_one_service tick s)
check_one_service_grace tick s g =
    let k = decide-Keeps tick.restart_now tick.kick_now s.tally in
    check_one_service-IsQuiet tick s
      (take_heartbeat_grace tick (decided tick s).tally (rw k.recovering g))

check_one_service_few :
    (tick : Tick) (s : ServiceCheck)
    → s.tally.failure_count < 3
    → IsQuiet s.tally (check_one_service tick s)
check_one_service_few tick s f =
    let k = decide-Keeps tick.restart_now tick.kick_now s.tally in
    check_one_service-IsQuiet tick s
      (take_heartbeat_few tick (decided tick s).tally (omega (arith, k.failures)))

-- Nothing is executed before the fourth missed heartbeat: as long as the checks and the failures
-- counted before them are three at most, whatever the host answers.
pub check_rounds_quiet :
    (ticks : List Tick) (s : ServiceCheck)
    → length ticks + s.tally.failure_count ≤ 3
    → (check_rounds ticks s).1 ≡ []
unfolding check_rounds
check_rounds_quiet [] s h = refl
check_rounds_quiet (tick ∷ ticks) s h =
    let q = check_one_service_few tick s (omega arith) in
    rw q.0 (check_rounds_quiet ticks (check_one_service tick s).0 (omega (arith, q.1)))
