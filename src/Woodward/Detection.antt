-- ===== src/Woodward/Detection.antt =====
-- A silent service is found out: after its grace, the fourth check without a timely heartbeat
-- kicks it.
use douglas.Base.{
  ℕ, ◌+◌, ◌*◌, ◌≤◌, ◌<◌, ◌≡◌, refl, true, false, Option, List, [], ◌∷◌, ◌++◌, arith, leb, ltb,
  Bool-cases, inl, inr, if◌then◌else◌, length, All, ◌∙◌,
}
use douglas.Woodward.Tally.{
  needs_kick, missed_heartbeat, check, ServiceTally, has_elapsed, restart_window_seconds,
  nanos_per_second, max_elapsed_seconds, forget_restarts, forget_kicks, decide,
  record_missed_heartbeat, is_in_grace, is_exhausted,
}
use douglas.Woodward.Check.{
  Tick, ServiceCheck, KickOutcome, heartbeat_age, kick, kick_service, act, take_heartbeat,
  check_one_service, check_rounds,
}
use douglas.Woodward.Bounds.{IsReady, take_heartbeat-IsReady}
use douglas.Woodward.Restraint.{decide-Keeps}

-- The heartbeat is more than 15 seconds old, or cannot be read.
abbrev pub IsStale : Tick → Type 0
IsStale tick =
    leb (heartbeat_age tick.age_now tick.heartbeat) (max_elapsed_seconds * nanos_per_second) ≡ false

forget_restarts-IsReady : (now : ℕ) (t : ServiceTally) → IsReady t → IsReady (forget_restarts now t)
unfolding forget_restarts
forget_restarts-IsReady now t h =
    elim (Bool-cases (has_elapsed now t.last_restart_at restart_window_seconds)) [
      | inl e ↦ rw e (ground arith)
      | inr e ↦ rw e h
    ]

forget_kicks-IsReady : (now : ℕ) (t : ServiceTally) → IsReady t → IsReady (forget_kicks now t)
unfolding forget_kicks
forget_kicks-IsReady now t h =
    elim (Bool-cases (has_elapsed now t.last_kick_at restart_window_seconds)) [
      | inl e ↦ rw e (ground arith)
      | inr e ↦ rw e h
    ]

IsReady-not_exhausted : (t : ServiceTally) → IsReady t → is_exhausted t ≡ false
IsReady-not_exhausted t h = ground arith

decide_checks :
    (a b : ℕ) (t : ServiceTally) → IsReady t → IsReady (decide a b t).0 × ((decide a b t).1 ≡ check)
unfolding decide
decide_checks a b t h =
    let r = forget_kicks-IsReady b _ (forget_restarts-IsReady a t h) in
    (r, rw (IsReady-not_exhausted _ r))

take_heartbeat_silent :
    (tick : Tick) (t : ServiceTally) (n : ℕ)
    → IsStale tick
    → is_in_grace tick.grace_now t.recovering_since ≡ false
    → t.failure_count ≡ n
    → n ≤ 3
    → ((take_heartbeat tick t).0.failure_count ≡ n + 1)
      × ((take_heartbeat tick t).0.recovering_since ≡ t.recovering_since)
      × ((take_heartbeat tick t).1 ≡ (if ltb n 3 then missed_heartbeat else needs_kick))
unfolding take_heartbeat record_missed_heartbeat
take_heartbeat_silent tick t n st g e h = rw (st, g) (ground arith)

abbrev decided : Tick → ServiceCheck → ServiceCheck
decided tick s = record s { tally = (decide tick.restart_now tick.kick_now s.tally).0 }

abbrev heard : Tick → ServiceCheck → ServiceCheck
heard tick s = record s { tally = (take_heartbeat tick (decided tick s).tally).0 }

check_one_service_silent :
    (tick : Tick) (s : ServiceCheck)
    → IsReady s.tally
    → check_one_service tick s
      ≡ act tick (heard tick s) (take_heartbeat tick (decided tick s).tally).1
unfolding check_one_service
check_one_service_silent tick s h = rw (decide_checks tick.restart_now tick.kick_now s.tally h).1

-- A check that hears nothing from a service outside its grace.
abbrev pub IsSilent : Option ℕ → Tick → Type 0
IsSilent recovering_since tick =
    IsStale tick × (is_in_grace tick.grace_now recovering_since ≡ false)

heard_silent :
    (tick : Tick) (s : ServiceCheck) (n : ℕ)
    → IsSilent s.tally.recovering_since tick
    → s.tally.failure_count ≡ n
    → n ≤ 3
    → ((heard tick s).tally.failure_count ≡ n + 1)
      × ((heard tick s).tally.recovering_since ≡ s.tally.recovering_since)
      × ((take_heartbeat tick (decided tick s).tally).1
          ≡ (if ltb n 3 then missed_heartbeat else needs_kick))
heard_silent tick s n (st, g) e h =
    let d = decide-Keeps tick.restart_now tick.kick_now s.tally in
    let (f, r, result) =
      take_heartbeat_silent tick (decided tick s).tally n st (rw d.recovering g) (d.failures ∙ e)
        h in
    (f, r ∙ d.recovering, result)

silent_step :
    (tick : Tick) (s : ServiceCheck) (n : ℕ)
    → IsReady s.tally
    → IsSilent s.tally.recovering_since tick
    → s.tally.failure_count ≡ n
    → n < 3
    → check_one_service tick s ≡ (heard tick s, [])
unfolding act
silent_step tick s n r si e h =
    let lt : ltb n 3 ≡ true = ground arith in
    rw (check_one_service_silent tick s r)
      (rw (heard_silent tick s n si e (omega arith)).2 (rw lt refl))

silent_kick :
    (tick : Tick) (s : ServiceCheck)
    → IsReady s.tally
    → IsSilent s.tally.recovering_since tick
    → s.tally.failure_count ≡ 3
    → (check_one_service tick s).1 ≡ kick s tick.kick_ends ∷ []
unfolding act kick_service kick
silent_kick tick s r si e =
    rw (check_one_service_silent tick s r) (rw (heard_silent tick s 3 si e (omega arith)).2 refl)

heard-IsReady : (tick : Tick) (s : ServiceCheck) → IsReady s.tally → IsReady (heard tick s).tally
heard-IsReady tick s r =
    take_heartbeat-IsReady tick _ (decide_checks tick.restart_now tick.kick_now s.tally r).0

kick-heard : (tick : Tick) (s : ServiceCheck) (k : KickOutcome) → kick (heard tick s) k ≡ kick s k
unfolding kick
kick-heard tick s k = refl

silent_rounds :
    (ticks : List Tick) (last : Tick) (s : ServiceCheck) (n : ℕ)
    → IsReady s.tally
    → All (IsSilent s.tally.recovering_since) ticks
    → IsSilent s.tally.recovering_since last
    → s.tally.failure_count ≡ n
    → length ticks + n ≡ 3
    → (check_rounds (ticks ++ last ∷ []) s).1 ≡ kick s last.kick_ends ∷ []
unfolding check_rounds
silent_rounds [] last s n r si l e h = rw (silent_kick last s r l (omega arith)) refl
silent_rounds (tick ∷ ticks) last s n r si l e h =
    let (f, since, _) = heard_silent tick s n si.0 e (omega arith) in
    rw (silent_step tick s n r si.0 e (omega arith)) (
      silent_rounds ticks last (heard tick s) (n + 1) (heard-IsReady tick s r) (rw since si.1)
        (rw since l) f (omega arith)
      ∙ rw (kick-heard tick s last.kick_ends))

-- A service that is not given up, outside its startup grace, is kicked after four failures in all:
-- if the checks hear nothing in time, then the one that counts the fourth failure executes
-- `sudo -n <binary> kick <service>`, and the checks before it execute nothing.
pub silent_service_kicked :
    (ticks : List Tick) (last : Tick) (s : ServiceCheck)
    → IsReady s.tally
    → All (IsSilent s.tally.recovering_since) ticks
    → IsSilent s.tally.recovering_since last
    → length ticks + s.tally.failure_count ≡ 3
    → (check_rounds (ticks ++ last ∷ []) s).1 ≡ kick s last.kick_ends ∷ []
silent_service_kicked ticks last s r si l h =
    silent_rounds ticks last s s.tally.failure_count r si l refl h
