-- ===== src/Seedbank/Operations.antt =====
-- The operations of `impl Seedbank for Server` of seedbank/src/lib.rs.
use douglas.Base.{
  ℕ, ◌+◌, ◌%◌, String, Bool, true, false, not, Option, none, some, ◌∷◌, ok, err, str_eq, ltb,
  if◌then◌else◌,
}
use douglas.Host.{Answer, done, fails}
use douglas.Seedbank.{
  already_exists, not_found, default_already_claimed, invalid_version, file_system_error, Stored,
  absent, garbled, holds, HealthCheckLog, DesiredRunStatus, stopped, Seed, empty_seed, Op, ◌>>=◌,
  return, fail, call, find, drop_seed, exists, read, of_seed, left_by, write_result, write_seed,
  ensure_exists, first, others,
}
use douglas.Seedbank.Ids.{get_next_id}

-- `load_id` and `load_version`: a file that is not there is a seedling that is not there.
abbrev pub or_not_found : String → Option ℕ → Op ℕ
or_not_found name none = fail (not_found name)
or_not_found name (some v) = return v

abbrev pub load_version : String → Op ℕ
load_version name = read (λ b. of_seed (λ s. s.version) (find name b.seeds)) >>= or_not_found name

abbrev pub load_id : String → Op ℕ
load_id name = read (λ b. of_seed (λ s. s.id) (find name b.seeds)) >>= or_not_found name

-- `create_recursively` of the folder.
abbrev pub make_answered : String → Answer → Op (Unit {0})
make_answered name done b = (
  ok tt,
  record b {
    seeds = if exists name b then b.seeds else (name, empty_seed) ∷ b.seeds;
    answers = others b.answers;
  },
)
make_answered name (fails e part) b =
    (err (file_system_error e), record b { answers = others b.answers })

unfoldable pub make_folder : String → Op (Unit {0})
make_folder name b = make_answered name (first b.answers) b

unfoldable pub write_id : String → ℕ → Op (Unit {0})
write_id name id = write_seed name (λ a s. record s { id = left_by id s.id a })

unfoldable pub write_version : String → ℕ → Op (Unit {0})
write_version name version =
    write_seed name (λ a s. record s { version = left_by version s.version a })

-- The purge of mounts, the encoding, the mounts and the definition, then the version.
unfoldable pub write_definition : String → ℕ → Op (Unit {0})
write_definition name version =
    call >>= λ _. call >>= λ _. call >>= λ _. call >>= λ _. write_version name version

unfoldable pub create : String → ℕ → Op (Unit {0})
create name version b =
    if exists name b
    then (err (already_exists name), b)
    else (get_next_id >>= λ id.
          make_folder name >>= λ _. write_id name id >>= λ _. write_definition name version)
        b

abbrev pub newer : String → ℕ → ℕ → Op (Unit {0})
newer name version current =
    if ltb current version
    then (call >>= λ _. write_definition name version)
    else fail invalid_version

-- The current definition is loaded by one call.
unfoldable pub update : String → ℕ → Op (Unit {0})
update name version b =
    if exists name b
    then (load_version name >>= newer name version) b
    else (err (not_found name), b)

-- A folder whose deletion stops in between is left without its files.
abbrev delete_answered : String → Answer → Op (Unit {0})
delete_answered name done b =
    (ok tt, record b { seeds = drop_seed name b.seeds; answers = others b.answers })
delete_answered name (fails e none) b =
    (err (file_system_error e), record b { answers = others b.answers })
delete_answered name (fails e (some part)) b = (
  err (file_system_error e),
  record b { seeds = (name, empty_seed) ∷ drop_seed name b.seeds; answers = others b.answers },
)

unfoldable pub delete : String → Op (Unit {0})
delete name b =
    if exists name b then delete_answered name (first b.answers) b else (err (not_found name), b)

unfoldable pub default_seedling : Op (Option String)
default_seedling = read (λ b. b.default)

abbrev pub write_default : String → Op (Unit {0})
write_default name b = (
  write_result (first b.answers),
  record b { default = left_by name b.default (first b.answers); answers = others b.answers },
)

abbrev pub claim : String → Option String → Op (Unit {0})
claim name none = write_default name
claim name (some current) =
    if not (str_eq current name) then fail (default_already_claimed current) else return tt

unfoldable pub claim_default : String → Op (Unit {0})
claim_default name b =
    if exists name b then (default_seedling >>= claim name) b else (err (not_found name), b)

abbrev forget : Answer → Op (Unit {0})
forget done b = (ok tt, record b { default = absent; answers = others b.answers })
forget (fails e part) b = (err (file_system_error e), record b { answers = others b.answers })

abbrev release : String → Option String → Op (Unit {0})
release name none = return tt
release name (some current) =
    if str_eq current name then (λ b. forget (first b.answers) b) else return tt

unfoldable pub release_default : String → Op (Unit {0})
release_default name = default_seedling >>= release name

unfoldable pub set_desired_run_status : String → DesiredRunStatus → Op (Unit {0})
set_desired_run_status name status = ensure_exists name >>= λ _.
    write_seed name (λ a s. record s { desired_run_state = left_by status s.desired_run_state a })

abbrev pub or_stopped : Option DesiredRunStatus → Op DesiredRunStatus
or_stopped none = return stopped
or_stopped (some status) = return status

unfoldable pub get_desired_run_status : String → Op DesiredRunStatus
get_desired_run_status name = ensure_exists name >>= λ _.
    read (λ b. of_seed (λ s. s.desired_run_state) (find name b.seeds)) >>= or_stopped

-- `HealthCheckLog` of seedbank_types/src/lib.rs. The count is a byte.
abbrev pub new_log : ℕ → HealthCheckLog
new_log now = record { fail_count = 1; updated_at = now }

abbrev pub increment : ℕ → HealthCheckLog → HealthCheckLog
increment now log = record { fail_count = (log.fail_count + 1) % 256; updated_at = now }

abbrev pub reached_max_fail_count : HealthCheckLog → Bool
reached_max_fail_count log = ltb 5 log.fail_count

abbrev pub next_log : ℕ → Option HealthCheckLog → HealthCheckLog
next_log now none = new_log now
next_log now (some log) = increment now log

abbrev pub write_health_log : String → HealthCheckLog → Op (Unit {0})
write_health_log name log =
    write_seed name (λ a s. record s { health_log = left_by log s.health_log a })

abbrev pub store_log : String → HealthCheckLog → Op Bool
store_log name log =
    if reached_max_fail_count log
    then return true
    else (write_health_log name log >>= λ _. return false)

unfoldable pub health_check_log : String → Op (Option HealthCheckLog)
health_check_log name =
    ensure_exists name >>= λ _. read (λ b. of_seed (λ s. s.health_log) (find name b.seeds))

unfoldable pub increment_health_log_fail_count : String → ℕ → Op Bool
increment_health_log_fail_count name now = ensure_exists name >>= λ _.
    read (λ b. of_seed (λ s. s.health_log) (find name b.seeds)) >>= λ found.
    store_log name (next_log now found)

-- `inspect.exists`, then the deletion of the file.
abbrev has_log : Stored HealthCheckLog → Bool
has_log absent = false
has_log garbled = true
has_log (holds log) = true

abbrev without_log : Answer → Seed → Seed
without_log done s = record s { health_log = absent }
without_log (fails e part) s = s

abbrev clear_log : String → Op (Unit {0})
clear_log name b =
    if has_log (of_seed (λ s. s.health_log) (find name b.seeds))
    then write_seed name without_log b
    else (ok tt, b)

unfoldable pub reset_health_log : String → Op (Unit {0})
reset_health_log name = ensure_exists name >>= λ _. clear_log name
