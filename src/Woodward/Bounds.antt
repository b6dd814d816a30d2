-- ===== src/Woodward/Bounds.antt =====
-- The counters of woodward/src/lib.rs stay small, and giving up is never for good.
use douglas.Base.{
  ℕ, ◌≤◌, ◌<◌, ◌≡◌, refl, Bool, true, false, Option, none, some, List, [], ◌∷◌, arith, Bool-cases,
  ◌⊎◌, inl, inr, if◌then◌else◌,
}
use douglas.Woodward.Tally.{
  ServiceCheckResult, okay, needs_kick, missed_heartbeat, SupervisionDecision, check, given_up,
  ServiceTally, new, has_elapsed, elapsed_exceeds, restart_window_seconds, forget_restarts,
  forget_kicks, decide, record_heartbeat, record_missed_heartbeat, record_kick_success,
  record_kick_failure, is_exhausted,
}
use douglas.Woodward.Check.{
  Tick, ServiceCheck, note_given_up, note_recovered, kick_service, act, take_heartbeat,
  after_decision, check_one_service, check_rounds, record_kick, KickOutcome, kicked, kick_failed,
  kick_panicked,
}

-- The counters that `u8` holds do not come near its end, and a counter that is not zero has a time
-- from which its window runs.
pub record IsBounded (t : ServiceTally) : Type 0 where
  pub restarts : t.restart_count ≤ 4
  pub kicks : t.consecutive_kick_failures ≤ 3
  pub failures : t.failure_count < 256
  pub restarts_timed : t.last_restart_at ≡ none → t.restart_count ≡ 0
  pub kicks_timed : t.last_kick_at ≡ none → t.consecutive_kick_failures ≡ 0

-- A tally that may be kicked.
pub record IsReady (t : ServiceTally) : Type 0 where
  pub bounded : IsBounded t
  pub restarts_left : t.restart_count ≤ 3
  pub kicks_left : t.consecutive_kick_failures ≤ 2

pub new-IsBounded : (now : ℕ) → IsBounded (new now)
unfolding new
new-IsBounded now = ground arith

forget_restarts-IsBounded :
    (now : ℕ) (t : ServiceTally) → IsBounded t → IsBounded (forget_restarts now t)
unfolding forget_restarts
forget_restarts-IsBounded now t h =
    elim (Bool-cases (has_elapsed now t.last_restart_at restart_window_seconds)) [
      | inl e ↦ rw e (ground arith)
      | inr e ↦ rw e h
    ]

forget_kicks-IsBounded : (now : ℕ) (t : ServiceTally) → IsBounded t → IsBounded (forget_kicks now t)
unfolding forget_kicks
forget_kicks-IsBounded now t h =
    elim (Bool-cases (has_elapsed now t.last_kick_at restart_window_seconds)) [
      | inl e ↦ rw e (ground arith)
      | inr e ↦ rw e h
    ]

pub decide-IsBounded :
    (restart_now kick_now : ℕ) (t : ServiceTally)
    → IsBounded t
    → IsBounded (decide restart_now kick_now t).0
unfolding decide
decide-IsBounded restart_now kick_now t h =
    forget_kicks-IsBounded kick_now (forget_restarts restart_now t)
      (forget_restarts-IsBounded restart_now t h)

pub is_exhausted-IsReady : (t : ServiceTally) → is_exhausted t ≡ false → IsBounded t → IsReady t
is_exhausted-IsReady t e h = ground arith

check_not_exhausted : (b : Bool) → (if b then given_up else check) ≡ check → b ≡ false
check_not_exhausted b e = ground arith

pub decide-IsReady :
    (restart_now kick_now : ℕ) (t : ServiceTally)
    → IsBounded t
    → (decide restart_now kick_now t).1 ≡ check
    → IsReady (decide restart_now kick_now t).0
unfolding decide
decide-IsReady restart_now kick_now t h e =
    is_exhausted-IsReady _ (check_not_exhausted _ e) (decide-IsBounded restart_now kick_now t h)

record_heartbeat-IsBounded : (t : ServiceTally) → IsBounded t → IsBounded (record_heartbeat t).0
unfolding record_heartbeat
record_heartbeat-IsBounded t h = ground arith

record_missed_heartbeat-IsReady :
    (now : ℕ) (t : ServiceTally) → IsReady t → IsReady (record_missed_heartbeat now t).0
unfolding record_missed_heartbeat
record_missed_heartbeat-IsReady now t h = ground arith

record_heartbeat-IsReady : (t : ServiceTally) → IsReady t → IsReady (record_heartbeat t).0
unfolding record_heartbeat
record_heartbeat-IsReady t h = ground arith

record_kick-IsBounded :
    (k : KickOutcome) (now : ℕ) (t : ServiceTally) → IsReady t → IsBounded (record_kick k now t)
unfolding record_kick_success record_kick_failure
record_kick-IsBounded kicked now t h = ground arith
record_kick-IsBounded kick_failed now t h = ground arith
record_kick-IsBounded kick_panicked now t h = ground arith

pub take_heartbeat-IsReady :
    (tick : Tick) (t : ServiceTally) → IsReady t → IsReady (take_heartbeat tick t).0
unfolding take_heartbeat
take_heartbeat-IsReady tick t h =
    ground (arith, record_heartbeat-IsReady t h, record_missed_heartbeat-IsReady tick.grace_now t h)

note_given_up-IsBounded :
    (tick : Tick) (s : ServiceCheck) → IsBounded s.tally → IsBounded (note_given_up tick s).tally
unfolding note_given_up
note_given_up-IsBounded tick s h = ground arith

note_recovered-IsBounded :
    (tick : Tick) (s : ServiceCheck) → IsBounded s.tally → IsBounded (note_recovered tick s).tally
unfolding note_recovered
note_recovered-IsBounded tick s h = ground arith

act-IsBounded :
    (tick : Tick) (s : ServiceCheck) (r : ServiceCheckResult)
    → IsReady s.tally
    → IsBounded (act tick s r).0.tally
unfolding act kick_service
act-IsBounded tick s okay h = note_recovered-IsBounded tick s h.bounded
act-IsBounded tick s missed_heartbeat h = h.bounded
act-IsBounded tick s needs_kick h = record_kick-IsBounded tick.kick_ends tick.kicked_now s.tally h

after_decision-IsBounded :
    (tick : Tick) (s : ServiceCheck) (d : SupervisionDecision)
    → IsBounded s.tally
    → (d ≡ check → IsReady s.tally)
    → IsBounded (after_decision tick s d).0.tally
after_decision-IsBounded tick s given_up h r = note_given_up-IsBounded tick s h
after_decision-IsBounded tick s check h r =
    act-IsBounded tick _ _ (take_heartbeat-IsReady tick s.tally (r refl))

-- Every check keeps the counters bounded: at most four restarts and three failed kicks are counted,
-- the failure count stays a byte, and a counter that is not zero has its time.
pub check_one_service-IsBounded :
    (tick : Tick) (s : ServiceCheck)
    → IsBounded s.tally
    → IsBounded (check_one_service tick s).0.tally
unfolding check_one_service
check_one_service-IsBounded tick s h =
    after_decision-IsBounded tick _ _ (decide-IsBounded tick.restart_now tick.kick_now s.tally h)
      (decide-IsReady tick.restart_now tick.kick_now s.tally h)

-- So do all the rounds.
pub check_rounds-IsBounded :
    (ticks : List Tick) (s : ServiceCheck)
    → IsBounded s.tally
    → IsBounded (check_rounds ticks s).0.tally
unfolding check_rounds
check_rounds-IsBounded [] s h = h
check_rounds-IsBounded (tick ∷ ticks) s h =
    check_rounds-IsBounded ticks (check_one_service tick s).0 (check_one_service-IsBounded tick s h)

-- The moment of a counter's last event, if there is one, lies further back than the window.
abbrev pub HasPassed : ℕ → Option ℕ → Type 0
HasPassed now none = Unit
HasPassed now (some since) = elapsed_exceeds now since restart_window_seconds ≡ true

passed_cases :
    (now : ℕ) (last : Option ℕ)
    → HasPassed now last
    → (last ≡ none) ⊎ (has_elapsed now last restart_window_seconds ≡ true)
passed_cases now none h = inl refl
passed_cases now (some since) h = inr h

forget_restarts_clears :
    (now : ℕ) (t : ServiceTally)
    → IsBounded t
    → HasPassed now t.last_restart_at
    → (forget_restarts now t).restart_count ≡ 0
unfolding forget_restarts
forget_restarts_clears now t h p = ground (arith, passed_cases now t.last_restart_at p)

forget_restarts_keeps :
    (now : ℕ) (t : ServiceTally) → (forget_restarts now t).last_kick_at ≡ t.last_kick_at
unfolding forget_restarts
forget_restarts_keeps now t =
    elim (Bool-cases (has_elapsed now t.last_restart_at restart_window_seconds)) [
      | inl e ↦ rw e
      | inr e ↦ rw e
    ]

forget_kicks_clears :
    (now : ℕ) (t : ServiceTally)
    → IsBounded t
    → HasPassed now t.last_kick_at
    → ((forget_kicks now t).consecutive_kick_failures ≡ 0)
      × ((forget_kicks now t).restart_count ≡ t.restart_count)
unfolding forget_kicks
forget_kicks_clears now t h p = elim (passed_cases now t.last_kick_at p) [
  | inl e ↦ rw e (h.kicks_timed e, refl)
  | inr e ↦ rw e (refl, refl)
]

-- Giving up is not for good: once the windows of the last restart and of the last kick have passed,
-- the service is checked again, with a clean count of restarts and of failed kicks.
pub decide_resumes :
    (restart_now kick_now : ℕ) (t : ServiceTally)
    → IsBounded t
    → HasPassed restart_now t.last_restart_at
    → HasPassed kick_now t.last_kick_at
    → let (t', decision) = decide restart_now kick_now t in
      (decision ≡ check) × (t'.restart_count ≡ 0) × (t'.consecutive_kick_failures ≡ 0)
unfolding decide
decide_resumes restart_now kick_now t h r k =
    let t₁ = forget_restarts restart_now t in
    let restarts = forget_restarts_clears restart_now t h r in
    let kicks =
      forget_kicks_clears kick_now t₁ (forget_restarts-IsBounded restart_now t h)
        (rw (forget_restarts_keeps restart_now t) k) in
    ground (arith, restarts, kicks)
