-- ===== src/Woodward/Tally.antt =====
-- `ServiceTally` of woodward/src/lib.rs. A `SystemTime` is a number of nanoseconds since some
-- moment before all readings; each reading of the clock is an argument. The `u8` counters wrap, as
-- they do in a release build.
use douglas.Base.{
  ℕ, ◌+◌, ◌-◌, ◌/◌, ◌%◌, Bool, false, not, ◌&&◌, ◌||◌, Option, none, some, ltb, leb, if◌then◌else◌,
}

abbrev pub max_elapsed_seconds : ℕ
max_elapsed_seconds = 15

abbrev pub startup_grace_seconds : ℕ
startup_grace_seconds = 90

abbrev pub max_missed_heartbeats : ℕ
max_missed_heartbeats = 3

abbrev pub max_failed_restarts : ℕ
max_failed_restarts = 3

abbrev pub max_kick_failures : ℕ
max_kick_failures = 3

abbrev pub restart_window_seconds : ℕ
restart_window_seconds = 300

abbrev pub nanos_per_second : ℕ
nanos_per_second = 1_000_000_000

-- `u8` addition.
abbrev pub add_u8 : ℕ → ℕ → ℕ
add_u8 a b = (a + b) % 256

pub data ServiceCheckResult : Type 0 where
  okay needs_kick missed_heartbeat : ServiceCheckResult

pub data SupervisionDecision : Type 0 where
  check given_up : SupervisionDecision

pub record ServiceTally : Type 0 where
  pub failure_count : ℕ
  pub restart_count : ℕ
  pub consecutive_kick_failures : ℕ
  pub last_restart_at : Option ℕ
  pub last_kick_at : Option ℕ
  pub recovering_since : Option ℕ
  pub failure_marked : Bool

unfoldable pub new : ℕ → ServiceTally
new now = record {
  failure_count = 0;
  restart_count = 0;
  consecutive_kick_failures = 0;
  last_restart_at = none;
  last_kick_at = none;
  recovering_since = some now;
  failure_marked = false;
}

-- `duration_since` fails for a moment in the future, and `as_secs` cuts off the fraction.
abbrev pub elapsed_exceeds : ℕ → ℕ → ℕ → Bool
elapsed_exceeds now since seconds = leb since now && ltb seconds ((now - since) / nanos_per_second)

abbrev pub has_elapsed : ℕ → Option ℕ → ℕ → Bool
has_elapsed now none seconds = false
has_elapsed now (some since) seconds = elapsed_exceeds now since seconds

-- The first `if let` of `decide`.
unfoldable pub forget_restarts : ℕ → ServiceTally → ServiceTally
forget_restarts now t =
    if has_elapsed now t.last_restart_at restart_window_seconds
    then record t { restart_count = 0; last_restart_at = none }
    else t

-- The second one.
unfoldable pub forget_kicks : ℕ → ServiceTally → ServiceTally
forget_kicks now t =
    if has_elapsed now t.last_kick_at restart_window_seconds
    then record t { consecutive_kick_failures = 0; last_kick_at = none }
    else t

abbrev pub is_exhausted : ServiceTally → Bool
is_exhausted t =
    leb max_kick_failures t.consecutive_kick_failures || ltb max_failed_restarts t.restart_count

-- The clock is read once for each window.
unfoldable pub decide : ℕ → ℕ → ServiceTally → ServiceTally × SupervisionDecision
decide restart_now kick_now t =
    let t' = forget_kicks kick_now (forget_restarts restart_now t) in
    (t', if is_exhausted t' then given_up else check)

unfoldable pub record_heartbeat : ServiceTally → ServiceTally × ServiceCheckResult
record_heartbeat t =
    (record t { failure_count = 0; consecutive_kick_failures = 0; recovering_since = none }, okay)

abbrev pub is_in_grace : ℕ → Option ℕ → Bool
is_in_grace now none = false
is_in_grace now (some since) = not (elapsed_exceeds now since startup_grace_seconds)

unfoldable pub record_missed_heartbeat : ℕ → ServiceTally → ServiceTally × ServiceCheckResult
record_missed_heartbeat now t =
    if is_in_grace now t.recovering_since
    then (t, missed_heartbeat)
    else (let count = add_u8 t.failure_count 1 in
        (
          record t { failure_count = count },
          if ltb max_missed_heartbeats count then needs_kick else missed_heartbeat,
        ))

unfoldable pub record_kick_success : ℕ → ServiceTally → ServiceTally
record_kick_success now t = record t {
  failure_count = 0;
  consecutive_kick_failures = 0;
  restart_count = add_u8 t.restart_count 1;
  last_restart_at = some now;
  last_kick_at = some now;
  recovering_since = some now;
}

unfoldable pub record_kick_failure : ℕ → ServiceTally → ServiceTally
record_kick_failure now t = record t {
  consecutive_kick_failures = add_u8 t.consecutive_kick_failures 1;
  last_kick_at = some now;
}
