-- ===== src/Woodward/Marker.antt =====
-- The failure marker: what the flag in the tally says of the file, and what it does not.
use douglas.Base.{
  ℕ, ◌+◌, ◌≤◌, ◌<◌, ◌≡◌, ◌↔◌, refl, Bool, true, false, arith, Bool-cases, sym, ◌∙◌, inl, inr,
  if◌then◌else◌, ◌==◌,
}
use douglas.Woodward.Tally.{
  ServiceCheckResult, okay, needs_kick, missed_heartbeat, SupervisionDecision, check, given_up,
  ServiceTally, has_elapsed, restart_window_seconds, forget_restarts, forget_kicks, decide,
  record_heartbeat, record_missed_heartbeat, record_kick_success, record_kick_failure, is_in_grace,
}
use douglas.Woodward.Check.{
  Tick, ServiceCheck, Marker, absent, torn, intact, KickOutcome, kicked, kick_failed, kick_panicked,
  record_kick, note_given_up, note_recovered, kick_service, act, take_heartbeat, after_decision,
  check_one_service,
}

abbrev pub is_intact : Marker → Bool
is_intact absent = false
is_intact torn = false
is_intact (intact _) = true

-- The flag is set only while a whole marker lies on disk.
abbrev pub IsMarked : ServiceCheck → Type 0
IsMarked s = s.tally.failure_marked ≡ true → is_intact s.marker ≡ true

abbrev SameFlag : ServiceTally → ServiceTally → Type 0
SameFlag t u = u.failure_marked ≡ t.failure_marked

forget_restarts-SameFlag : (now : ℕ) (t : ServiceTally) → SameFlag t (forget_restarts now t)
unfolding forget_restarts
forget_restarts-SameFlag now t =
    elim (Bool-cases (has_elapsed now t.last_restart_at restart_window_seconds)) [
      | inl e ↦ rw e
      | inr e ↦ rw e
    ]

forget_kicks-SameFlag : (now : ℕ) (t : ServiceTally) → SameFlag t (forget_kicks now t)
unfolding forget_kicks
forget_kicks-SameFlag now t =
    elim (Bool-cases (has_elapsed now t.last_kick_at restart_window_seconds)) [
      | inl e ↦ rw e
      | inr e ↦ rw e
    ]

decide-SameFlag : (a b : ℕ) (t : ServiceTally) → SameFlag t (decide a b t).0
unfolding decide
decide-SameFlag a b t = forget_kicks-SameFlag b (forget_restarts a t) ∙ forget_restarts-SameFlag a t

take_heartbeat-SameFlag : (tick : Tick) (t : ServiceTally) → SameFlag t (take_heartbeat tick t).0
unfolding take_heartbeat record_heartbeat record_missed_heartbeat
take_heartbeat-SameFlag tick t = ground arith

record_kick-SameFlag :
    (k : KickOutcome) (now : ℕ) (t : ServiceTally) → SameFlag t (record_kick k now t)
unfolding record_kick_success record_kick_failure
record_kick-SameFlag kicked now t = refl
record_kick-SameFlag kick_failed now t = refl
record_kick-SameFlag kick_panicked now t = refl

note_given_up-IsMarked :
    (tick : Tick) (s : ServiceCheck) → IsMarked s → IsMarked (note_given_up tick s)
unfolding note_given_up
note_given_up-IsMarked tick s h m = ground (arith, h)

note_recovered-IsMarked :
    (tick : Tick) (s : ServiceCheck) → IsMarked s → IsMarked (note_recovered tick s)
unfolding note_recovered
note_recovered-IsMarked tick s h m = ground (arith, h)

act-IsMarked :
    (tick : Tick) (s : ServiceCheck) (r : ServiceCheckResult)
    → IsMarked s
    → IsMarked (act tick s r).0
unfolding act kick_service
act-IsMarked tick s okay h = note_recovered-IsMarked tick s h
act-IsMarked tick s missed_heartbeat h = h
act-IsMarked tick s needs_kick h =
    λ m. h (sym (record_kick-SameFlag tick.kick_ends tick.kicked_now s.tally) ∙ m)

after_decision-IsMarked :
    (tick : Tick) (s : ServiceCheck) (d : SupervisionDecision)
    → IsMarked s
    → IsMarked (after_decision tick s d).0
after_decision-IsMarked tick s given_up h = note_given_up-IsMarked tick s h
after_decision-IsMarked tick s check h =
    act-IsMarked tick (record s { tally = (take_heartbeat tick s.tally).0 }) _
      (λ m. h (sym (take_heartbeat-SameFlag tick s.tally) ∙ m))

-- Every check keeps it so: `failure_marked` is set only while a whole marker lies on disk, whichever
-- writes and deletes fail.
pub check_one_service-IsMarked :
    (tick : Tick) (s : ServiceCheck) → IsMarked s → IsMarked (check_one_service tick s).0
unfolding check_one_service
check_one_service-IsMarked tick s h =
    after_decision-IsMarked tick
      (record s { tally = (decide tick.restart_now tick.kick_now s.tally).0 }) _
      (λ m. h (sym (decide-SameFlag tick.restart_now tick.kick_now s.tally) ∙ m))

note_recovered_unmarked :
    (tick : Tick) (s : ServiceCheck) → s.tally.failure_marked ≡ false → note_recovered tick s ≡ s
unfolding note_recovered
note_recovered_unmarked tick s f = rw f

act_unmarked :
    (tick : Tick) (s : ServiceCheck) (r : ServiceCheckResult)
    → s.tally.failure_marked ≡ false
    → ((act tick s r).0.marker ≡ s.marker) × ((act tick s r).0.tally.failure_marked ≡ false)
unfolding act kick_service
act_unmarked tick s okay f = rw (note_recovered_unmarked tick s f) (refl, f)
act_unmarked tick s missed_heartbeat f = (refl, f)
act_unmarked tick s needs_kick f =
    (refl, record_kick-SameFlag tick.kick_ends tick.kicked_now s.tally ∙ f)

-- The other way round it does not hold. A marker that was there before the flag (woodward has been
-- restarted since it gave up) is not cleared by a check that does not give up, however well the
-- service is: the marker stays as it is and the flag stays unset.
pub check_one_service_stale_marker :
    (tick : Tick) (s : ServiceCheck)
    → s.tally.failure_marked ≡ false
    → (decide tick.restart_now tick.kick_now s.tally).1 ≡ check
    → let s' = (check_one_service tick s).0 in
      (s'.marker ≡ s.marker) × (s'.tally.failure_marked ≡ false)
unfolding check_one_service
check_one_service_stale_marker tick s f d =
    let t = (decide tick.restart_now tick.kick_now s.tally).0 in
    let flag =
      take_heartbeat-SameFlag tick t ∙ decide-SameFlag tick.restart_now tick.kick_now s.tally ∙ f in
    rw d (act_unmarked tick (record s { tally = (take_heartbeat tick t).0 }) _ flag)

-- At a count below 256, a missed heartbeat asks for a kick exactly outside the grace and where three
-- failures or more are counted, but not at a count of 255. In the grace the count stays as it is.
-- Outside of it the count grows by one, and at 255 the `u8` wraps to 0.
pub record_missed_heartbeat_kicks :
    (now : ℕ) (t : ServiceTally)
    → t.failure_count < 256
    → let (t', result) = record_missed_heartbeat now t in
      let grace = is_in_grace now t.recovering_since in
      ((result ≡ needs_kick) ↔ ((grace ≡ false) × (3 ≤ t.failure_count) × (t.failure_count < 255)))
      × (t'.failure_count ≡ (
          if grace
          then t.failure_count
          else if t.failure_count == 255
          then 0
          else t.failure_count + 1))
unfolding record_missed_heartbeat
record_missed_heartbeat_kicks now t h = elim (Bool-cases (is_in_grace now t.recovering_since)) [
  | inl e ↦ rw e (((λ k. absurd (cc k)), (λ k. absurd (cc k.0))), refl)
  | inr e ↦ rw e (((λ k. (refl, ground arith, ground arith)), (λ k. ground arith)), ground arith)
]
