-- ===== src/Woodward/Budget.antt =====
-- How often woodward restarts a service: at most four times in any five minutes.
use douglas.Base.{
  ℕ, suc, ◌+◌, ◌*◌, ◌≤◌, ◌≡◌, refl, false, Option, none, some, List, [], ◌∷◌, ◌++◌, arith,
  Bool-cases, inl, inr, All,
}
use douglas.Woodward.Tally.{
  ServiceCheckResult, okay, needs_kick, missed_heartbeat, SupervisionDecision, check, given_up,
  ServiceTally, has_elapsed, restart_window_seconds, nanos_per_second, forget_restarts,
  forget_kicks, decide, record_heartbeat, record_missed_heartbeat, record_kick_success,
  record_kick_failure,
}
use douglas.Woodward.Check.{
  Tick, ServiceCheck, Execution, KickOutcome, kicked, kick_failed, kick_panicked, kick,
  kick_service, act, take_heartbeat, after_decision, check_one_service, check_rounds, note_given_up,
  note_recovered, record_kick,
}
use douglas.Woodward.Bounds.{
  IsBounded, IsReady, decide-IsReady, take_heartbeat-IsReady, check_one_service-IsBounded,
  check_rounds-IsBounded,
}

-- The executions that ended well.
abbrev count_kicked : KickOutcome → ℕ → ℕ
count_kicked kicked n = suc n
count_kicked kick_failed n = n
count_kicked kick_panicked n = n

abbrev pub successes : List Execution → ℕ
successes [] = 0
successes (e ∷ es) = count_kicked e.ended (successes es)

-- The window of five minutes from `start`.
abbrev pub InWindow : ℕ → ℕ → Type 0
InWindow start now = (start ≤ now) × (now ≤ start + restart_window_seconds * nanos_per_second)

-- The readings that count restarts.
abbrev pub IsWithin : ℕ → Tick → Type 0
IsWithin start tick = InWindow start tick.restart_now × InWindow start tick.kicked_now

-- Restarts are counted since `start` at the earliest.
abbrev pub CountsSince : ℕ → Option ℕ → Type 0
CountsSince start none = Unit
CountsSince start (some since) = start ≤ since

-- What a check does to the count of restarts.
record Step (start : ℕ) (t u : ServiceTally) (n : ℕ) : Type 0 where
  counted : u.restart_count ≡ t.restart_count + n
  since : CountsSince start u.last_restart_at

not_elapsed :
    (start now : ℕ) (last : Option ℕ)
    → InWindow start now
    → CountsSince start last
    → has_elapsed now last restart_window_seconds ≡ false
not_elapsed start now none w c = refl
not_elapsed start now (some since) w c = ground arith

forget_restarts_within :
    (start now : ℕ) (t : ServiceTally)
    → InWindow start now
    → CountsSince start t.last_restart_at
    → forget_restarts now t ≡ t
unfolding forget_restarts
forget_restarts_within start now t w c = rw (not_elapsed start now t.last_restart_at w c)

-- Two tallies that agree on the restarts.
record SameRestarts (t u : ServiceTally) : Type 0 where
  counts : u.restart_count ≡ t.restart_count
  times : u.last_restart_at ≡ t.last_restart_at

forget_kicks-SameRestarts : (now : ℕ) (t : ServiceTally) → SameRestarts t (forget_kicks now t)
unfolding forget_kicks
forget_kicks-SameRestarts now t =
    elim (Bool-cases (has_elapsed now t.last_kick_at restart_window_seconds)) [
      | inl e ↦ rw e (record { counts = refl; times = refl })
      | inr e ↦ rw e (record { counts = refl; times = refl })
    ]

decide-SameRestarts :
    (start a b : ℕ) (t : ServiceTally)
    → InWindow start a
    → CountsSince start t.last_restart_at
    → SameRestarts t (decide a b t).0
unfolding decide
decide-SameRestarts start a b t w c =
    rw (forget_restarts_within start a t w c) (forget_kicks-SameRestarts b t)

take_heartbeat-SameRestarts :
    (tick : Tick) (t : ServiceTally) → SameRestarts t (take_heartbeat tick t).0
unfolding take_heartbeat record_heartbeat record_missed_heartbeat
take_heartbeat-SameRestarts tick t = ground arith

note_given_up-SameRestarts :
    (tick : Tick) (s : ServiceCheck) → SameRestarts s.tally (note_given_up tick s).tally
unfolding note_given_up
note_given_up-SameRestarts tick s = ground arith

note_recovered-SameRestarts :
    (tick : Tick) (s : ServiceCheck) → SameRestarts s.tally (note_recovered tick s).tally
unfolding note_recovered
note_recovered-SameRestarts tick s = ground arith

SameRestarts-Step :
    (start : ℕ) (t u : ServiceTally)
    → CountsSince start t.last_restart_at
    → SameRestarts t u
    → Step start t u 0
SameRestarts-Step start t u c same = record {
  counted = omega (arith, same.counts);
  since = rw same.times c;
}

record_kick-Step :
    (start now : ℕ) (k : KickOutcome) (t : ServiceTally)
    → IsReady t
    → start ≤ now
    → CountsSince start t.last_restart_at
    → Step start t (record_kick k now t) (count_kicked k 0)
unfolding record_kick_success record_kick_failure
record_kick-Step start now kicked t r h c = record { counted = ground arith; since = h }
record_kick-Step start now kick_failed t r h c = record { counted = omega arith; since = c }
record_kick-Step start now kick_panicked t r h c = record { counted = omega arith; since = c }

act-Step :
    (start : ℕ) (tick : Tick) (s : ServiceCheck) (r : ServiceCheckResult)
    → IsReady s.tally
    → start ≤ tick.kicked_now
    → CountsSince start s.tally.last_restart_at
    → Step start s.tally (act tick s r).0.tally (successes (act tick s r).1)
unfolding act kick_service kick
act-Step start tick s okay r h c =
    SameRestarts-Step start _ _ c (note_recovered-SameRestarts tick s)
act-Step start tick s missed_heartbeat r h c =
    SameRestarts-Step start _ _ c (record { counts = refl; times = refl })
act-Step start tick s needs_kick r h c =
    record_kick-Step start tick.kicked_now tick.kick_ends s.tally r h c

Step-trans :
    (start : ℕ) {t u v : ServiceTally} {n : ℕ}
    → SameRestarts t u
    → Step start u v n
    → Step start t v n
Step-trans start same st = record {
  counted = omega (arith, same.counts, st.counted);
  since = st.since;
}

after_decision-Step :
    (start : ℕ) (tick : Tick) (s : ServiceCheck) (d : SupervisionDecision)
    → (d ≡ check → IsReady s.tally)
    → start ≤ tick.kicked_now
    → CountsSince start s.tally.last_restart_at
    → Step start s.tally (after_decision tick s d).0.tally (successes (after_decision tick s d).1)
after_decision-Step start tick s given_up r h c =
    SameRestarts-Step start _ _ c (note_given_up-SameRestarts tick s)
after_decision-Step start tick s check r h c =
    let same = take_heartbeat-SameRestarts tick s.tally in
    Step-trans start same (
      act-Step start tick (record s { tally = (take_heartbeat tick s.tally).0 }) _
        (take_heartbeat-IsReady tick s.tally (r refl)) h (rw same.times c))

check_one_service-Step :
    (start : ℕ) (tick : Tick) (s : ServiceCheck)
    → IsBounded s.tally
    → IsWithin start tick
    → CountsSince start s.tally.last_restart_at
    → Step start s.tally (check_one_service tick s).0.tally (successes (check_one_service tick s).1)
unfolding check_one_service
check_one_service-Step start tick s b w c =
    let same = decide-SameRestarts start tick.restart_now tick.kick_now s.tally w.0 c in
    Step-trans start same (
      after_decision-Step start tick
        (record s { tally = (decide tick.restart_now tick.kick_now s.tally).0 }) _
        (decide-IsReady tick.restart_now tick.kick_now s.tally b) w.1.0 (rw same.times c))

successes-append : (es fs : List Execution) → successes (es ++ fs) ≡ successes es + successes fs
successes-append [] fs = omega arith
successes-append (e ∷ es) fs = ground (arith, successes-append es fs)

rounds_counted :
    (start : ℕ) (ticks : List Tick) (s : ServiceCheck)
    → IsBounded s.tally
    → All (IsWithin start) ticks
    → CountsSince start s.tally.last_restart_at
    → (check_rounds ticks s).0.tally.restart_count
      ≡ s.tally.restart_count + successes (check_rounds ticks s).1
unfolding check_rounds
rounds_counted start [] s b w c = omega arith
rounds_counted start (tick ∷ ticks) s b w c =
    let step = check_one_service-Step start tick s b w.0 c in
    let s' = (check_one_service tick s).0 in
    omega (
      arith,
      step.counted,
      rounds_counted start ticks s' (check_one_service-IsBounded tick s b) w.1 step.since,
      successes-append (check_one_service tick s).1 (check_rounds ticks s').1,
    )

-- However the checks go, as long as the clock readings that count restarts lie within five minutes
-- and the restarts already counted do too, woodward restarts the service at most four times,
-- those restarts included.
pub restarts_bounded :
    (start : ℕ) (ticks : List Tick) (s : ServiceCheck)
    → IsBounded s.tally
    → All (IsWithin start) ticks
    → CountsSince start s.tally.last_restart_at
    → s.tally.restart_count + successes (check_rounds ticks s).1 ≤ 4
restarts_bounded start ticks s b w c =
    omega (arith, rounds_counted start ticks s b w c, (check_rounds-IsBounded ticks s b).restarts)
