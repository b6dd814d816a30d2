-- ===== src/Tests/Woodward.antt =====
-- A service that woodward supervises.
use douglas.Base.{
  ℕ, ◌+◌, ◌*◌, ◌≤◌, ◌<◌, ◌≡◌, ◌↔◌, refl, Bool, true, false, none, some, List, [], ◌∷◌, ◌++◌, arith,
}
use douglas.Woodward.Tally
use douglas.Woodward.Tally.{
  ServiceTally, nanos_per_second, decide, check, forget_restarts, forget_kicks,
  record_missed_heartbeat, needs_kick, missed_heartbeat,
}
use douglas.Woodward.Check.{
  Tick, ServiceCheck, kicked, absent, intact, SupervisionFailure, heartbeat_age, kick,
  check_one_service, check_rounds,
}
use douglas.Woodward.Bounds.{IsBounded}
use douglas.Woodward.Restraint.{check_rounds_quiet}
use douglas.Woodward.Detection.{silent_service_kicked}
use douglas.Woodward.Budget.{successes, restarts_bounded}
use douglas.Woodward.Marker.{
  IsMarked, check_one_service-IsMarked, check_one_service_stale_marker,
  record_missed_heartbeat_kicks,
}

abbrev seconds : ℕ → ℕ
seconds n = n * nanos_per_second

-- Every reading is `n` seconds, and no heartbeat can be read.
abbrev silence : ℕ → Tick
silence n = record {
  restart_now = seconds n;
  kick_now = seconds n;
  age_now = seconds n;
  grace_now = seconds n;
  gave_up_now = seconds n;
  kicked_now = seconds n;
  heartbeat = none;
  kick_ends = kicked;
  write_succeeds = true;
  failed_write_leaves = absent;
  delete_succeeds = true;
}

abbrev fresh : ServiceTally
fresh = record {
  failure_count = 0;
  restart_count = 0;
  consecutive_kick_failures = 0;
  last_restart_at = none;
  last_kick_at = none;
  recovering_since = some 0;
  failure_marked = false;
}

abbrev bract : ServiceCheck
bract = record {
  service_name = "bract";
  binary_link = "/var/lib/douglas/bin/douglas";
  marker = absent;
  tally = fresh;
}

new_is_fresh : Tally.new 0 ≡ fresh
unfolding Tally.new
new_is_fresh = refl

fresh-IsBounded : IsBounded fresh
fresh-IsBounded = ground arith

abbrev ticks : List Tick
ticks = silence 100 ∷ silence 105 ∷ silence 110 ∷ []

check_rounds_quiet_example : (check_rounds ticks bract).1 ≡ []
check_rounds_quiet_example = check_rounds_quiet ticks bract (omega arith)

silent_service_kicked_example :
    (check_rounds (ticks ++ silence 115 ∷ []) bract).1 ≡ kick bract kicked ∷ []
unfolding heartbeat_age
silent_service_kicked_example =
    silent_service_kicked ticks (silence 115) bract (ground arith)
      ((refl, refl), ((refl, refl), ((refl, refl), tt))) (refl, refl) refl

restarts_bounded_example : 0 + successes (check_rounds ticks bract).1 ≤ 4
restarts_bounded_example =
    restarts_bounded (seconds 100) ticks bract fresh-IsBounded (omega arith) tt

abbrev given_up_tally : ServiceTally
given_up_tally = record fresh {
  restart_count = 4;
  last_restart_at = some (seconds 100);
  last_kick_at = some (seconds 100);
}

check_one_service-IsMarked_example : IsMarked (check_one_service (silence 100) bract).0
check_one_service-IsMarked_example = check_one_service-IsMarked (silence 100) bract (λ e. cc)

-- The marker of an earlier woodward, beside a healthy service.
abbrev left_over : SupervisionFailure
left_over = record { service_name = "bract"; gave_up_at = 0; restart_count = 4; kick_failures = 0 }

abbrev healthy : Tick
healthy = record (silence 100) { heartbeat = some (record { pid = 42; written_at = seconds 99 }) }

check_one_service_stale_marker_example :
    let s = (check_one_service healthy (record bract { marker = intact left_over })).0 in
    (s.marker ≡ intact left_over) × (s.tally.failure_marked ≡ false)
unfolding decide forget_restarts forget_kicks
check_one_service_stale_marker_example =
    check_one_service_stale_marker healthy (record bract { marker = intact left_over }) refl refl

abbrev worn : ServiceTally
worn = record fresh { failure_count = 255; recovering_since = none }

record_missed_heartbeat_kicks_example :
    let (t, result) = record_missed_heartbeat 0 worn in
    ((result ≡ needs_kick) ↔ ((◌≡◌ {A = Bool} false false) × (3 ≤ 255) × (255 < 255)))
    × (t.failure_count ≡ 0)
record_missed_heartbeat_kicks_example = record_missed_heartbeat_kicks 0 worn (omega arith)
