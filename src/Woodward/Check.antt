-- ===== src/Woodward/Check.antt =====
-- `ServiceCheck`, `check_one_service` and the helpers that it calls, of woodward/src/lib.rs and
-- heartbeat/src/lib.rs. What the host answers in one check is a `Tick`; messages are left out.
use douglas.Base.{
  ℕ, ◌+◌, ◌-◌, ◌*◌, ◌^◌, String, Bool, true, false, Option, none, some, List, [], ◌∷◌, ◌++◌, leb,
  if◌then◌else◌,
}
use douglas.Woodward.Tally.{
  max_elapsed_seconds, nanos_per_second, ServiceCheckResult, okay, needs_kick, missed_heartbeat,
  SupervisionDecision, check, given_up, ServiceTally, decide, record_heartbeat,
  record_missed_heartbeat, record_kick_success, record_kick_failure,
}

pub record SupervisionFailure : Type 0 where
  pub service_name : String
  pub gave_up_at : ℕ
  pub restart_count : ℕ
  pub kick_failures : ℕ

-- The file at `failure_marker`: not there, a whole marker, or what a failed write left.
pub data Marker : Type 0 where
  absent torn : Marker
  intact : SupervisionFailure → Marker

pub record Heartbeat : Type 0 where
  pub pid : ℕ
  pub written_at : ℕ

-- How the blocking task that runs `kick` ends.
pub data KickOutcome : Type 0 where
  kicked kick_failed kick_panicked : KickOutcome

-- The answers of the host during one check: the readings of the clock, the heartbeat file (`none`
-- if it cannot be read or parsed), and how each operation ends.
pub record Tick : Type 0 where
  pub restart_now : ℕ
  pub kick_now : ℕ
  pub age_now : ℕ
  pub grace_now : ℕ
  pub gave_up_now : ℕ
  pub kicked_now : ℕ
  pub heartbeat : Option Heartbeat
  pub kick_ends : KickOutcome
  pub write_succeeds : Bool
  pub failed_write_leaves : Marker
  pub delete_succeeds : Bool

pub record ServiceCheck : Type 0 where
  pub service_name : String
  pub binary_link : String
  pub marker : Marker
  pub tally : ServiceTally

-- A call of `os.execute`, with how it ended.
pub record Execution : Type 0 where
  pub program : String
  pub args : List String
  pub ended : KickOutcome

-- `Duration::MAX`
abbrev pub duration_max : ℕ
duration_max = (2 ^ 64 - 1) * nanos_per_second + 999_999_999

-- `Heartbeat::age` and `heartbeat_age`
unfoldable pub heartbeat_age : ℕ → Option Heartbeat → ℕ
heartbeat_age now none = duration_max
heartbeat_age now (some h) = if leb h.written_at now then now - h.written_at else duration_max

unfoldable pub kick : ServiceCheck → KickOutcome → Execution
kick s ended = record {
  program = "sudo";
  args = "-n" ∷ s.binary_link ∷ "kick" ∷ s.service_name ∷ [];
  ended = ended;
}

unfoldable pub supervision_failure : Tick → ServiceCheck → SupervisionFailure
supervision_failure tick s = record {
  service_name = s.service_name;
  gave_up_at = tick.gave_up_now;
  restart_count = s.tally.restart_count;
  kick_failures = s.tally.consecutive_kick_failures;
}

-- `mark_failed` writes the marker.
unfoldable pub note_given_up : Tick → ServiceCheck → ServiceCheck
note_given_up tick s =
    if s.tally.failure_marked
    then s
    else if tick.write_succeeds
    then record s {
      marker = intact (supervision_failure tick s);
      tally = record tally { failure_marked = true };
    }
    else record s { marker = tick.failed_write_leaves }
  where
    open s use {tally}

-- `clear_failure` deletes the marker; a delete that fails leaves the file.
unfoldable pub note_recovered : Tick → ServiceCheck → ServiceCheck
note_recovered tick s =
    if s.tally.failure_marked
    then (if tick.delete_succeeds
        then record s { marker = absent; tally = record tally { failure_marked = false } }
        else s)
    else s
  where
    open s use {tally}

abbrev pub record_kick : KickOutcome → ℕ → ServiceTally → ServiceTally
record_kick kicked now t = record_kick_success now t
record_kick kick_failed now t = record_kick_failure now t
record_kick kick_panicked now t = record_kick_failure now t

unfoldable pub kick_service : Tick → ServiceCheck → ServiceCheck × List Execution
kick_service tick s = (
  record s { tally = record_kick tick.kick_ends tick.kicked_now s.tally },
  kick s tick.kick_ends ∷ [],
)

-- The match on the result of the heartbeat.
unfoldable pub act : Tick → ServiceCheck → ServiceCheckResult → ServiceCheck × List Execution
act tick s okay = (note_recovered tick s, [])
act tick s missed_heartbeat = (s, [])
act tick s needs_kick = kick_service tick s

unfoldable pub take_heartbeat : Tick → ServiceTally → ServiceTally × ServiceCheckResult
take_heartbeat tick t =
    if leb (heartbeat_age tick.age_now tick.heartbeat) (max_elapsed_seconds * nanos_per_second)
    then record_heartbeat t
    else record_missed_heartbeat tick.grace_now t

abbrev pub after_decision :
    Tick → ServiceCheck → SupervisionDecision → ServiceCheck × List Execution
after_decision tick s given_up = (note_given_up tick s, [])
after_decision tick s check =
    let (t, result) = take_heartbeat tick s.tally in act tick (record s { tally = t }) result

unfoldable pub check_one_service : Tick → ServiceCheck → ServiceCheck × List Execution
check_one_service tick s =
    let (t, decision) = decide tick.restart_now tick.kick_now s.tally in
    after_decision tick (record s { tally = t }) decision

-- The rounds of `check_task`, as one service sees them: a tick for each, with all that was
-- executed, in order.
unfoldable pub check_rounds : List Tick → ServiceCheck → ServiceCheck × List Execution
check_rounds [] s = (s, [])
check_rounds (tick ∷ ticks) s =
    let (s', first) = check_one_service tick s in
    let (s'', later) = check_rounds ticks s' in (s'', first ++ later)
