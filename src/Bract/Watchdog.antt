-- ===== src/Bract/Watchdog.antt =====
-- bract/src/blueprints/watchdog.rs: a sweep over the seedlings, which stops, starts or checks each.
pub mod Sweep
pub mod GivingUp
pub mod Patience
pub mod Discovered
use douglas.Base.{
  ℕ, String, Bool, true, false, not, ◌&&◌, ◌||◌, Option, none, some, List, [], ◌∷◌, ◌++◌, Result,
  ok, err, if◌then◌else◌, map,
}
use douglas.Stateful.{Op, ◌>>=◌, return}
use douglas.Seedbank as Bank
use douglas.Seedbank.{HealthCheckLog, DesiredRunStatus, running, stopped}
use douglas.Seedbank.Ids.{list_seedlings}
use douglas.Seedbank.Operations.{
  get_desired_run_status, health_check_log, reset_health_log, reached_max_fail_count,
}
use douglas.Blueprint.Executor.{Command}
use douglas.Bract.Containers.{
  World, BractError, watchdog, ContainerName, seedling, status_is_running, Act, on_bank,
  container_exists, container_status, run_shell_health_check, step, run_steps,
}
use douglas.Bract.StopSeedling.{stop_seedling}
use douglas.Bract.StartSeedling.{Surroundings, start_seedling, record_health_check_failure}

pub record State : Type 0 where
  pub needing_start : List String
  pub needing_stop : List String
  pub needing_health_recheck : List String

abbrev pub status_of : ContainerName → Bool → Act Bool
status_of name false = return false
status_of name true = container_status name >>= λ status. return (status_is_running status)

unfoldable pub container_is_running : String → Act Bool
container_is_running name = container_exists (seedling name) >>= status_of (seedling name)

abbrev pub reached : Option HealthCheckLog → Bool
reached none = false
reached (some log) = reached_max_fail_count log

abbrev pub is_stopped : DesiredRunStatus → Bool
is_stopped stopped = true
is_stopped running = false

-- One round of the loop, on what was found of a seedling.
abbrev pub sort_in : String → DesiredRunStatus → Bool → Bool → State → State
sort_in name desired is_running has_reached s =
    if is_running
    then (if has_reached || is_stopped desired
        then record s { needing_stop = s.needing_stop ++ name ∷ [] }
        else record s { needing_health_recheck = s.needing_health_recheck ++ name ∷ [] })
    else if not has_reached && not (is_stopped desired)
    then record s { needing_start = s.needing_start ++ name ∷ [] }
    else s

unfoldable pub discover_each : List String → State → Act State
discover_each [] s = return s
discover_each (name ∷ names) s = on_bank (get_desired_run_status name) >>= λ desired.
    container_is_running name >>= λ is_running. on_bank (health_check_log name) >>= λ log.
    discover_each names (sort_in name desired is_running (reached log) s)

abbrev pub nothing_found : State
nothing_found = record { needing_start = []; needing_stop = []; needing_health_recheck = [] }

unfoldable pub discover : Act State
discover = on_bank list_seedlings >>= λ seeds. discover_each (map (λ s. s.0) seeds) nothing_found

abbrev pub stop_step : String → Command World BractError
stop_step name = step "Stop seedling" (stop_seedling name watchdog) (return tt)

-- `reconcile` stands for reconcile_seedling.rs.
abbrev pub reconcile_step : (String → Act (Unit {0})) → String → Command World BractError
reconcile_step reconcile name =
    step "Reconcile seedling" (on_bank Bank.call >>= λ _. reconcile name) (return tt)

abbrev pub start_step : Surroundings → ℕ → String → Command World BractError
start_step env now name = step "Start seedling" (start_seedling env name watchdog now) (return tt)

unfoldable pub recheck : ℕ → String → Act (Unit {0})
recheck now name = on_bank Bank.call >>= λ _.
    run_shell_health_check (seedling name) >>= λ is_healthy.
    if is_healthy
    then on_bank (reset_health_log name)
    else record_health_check_failure name (seedling name) now

abbrev pub recheck_step : ℕ → String → Command World BractError
recheck_step now name = step "Rechecking seedling health" (recheck now name) (return tt)

module _ (env : Surroundings) (reconcile : String → Act (Unit {0})) (now : ℕ) where
  abbrev pub stop_steps : List String → List (Command World BractError)
  stop_steps [] = []
  stop_steps (name ∷ names) = stop_step name ∷ stop_steps names

  abbrev pub start_steps : List String → List (Command World BractError)
  start_steps [] = []
  start_steps (name ∷ names) =
      reconcile_step reconcile name ∷ start_step env now name ∷ start_steps names

  abbrev pub recheck_steps : List String → List (Command World BractError)
  recheck_steps [] = []
  recheck_steps (name ∷ names) = recheck_step now name ∷ recheck_steps names

  unfoldable pub create_plan : State → Result BractError (List (Command World BractError))
  create_plan s = ok (
      stop_steps s.needing_stop
      ++ start_steps s.needing_start
      ++ recheck_steps s.needing_health_recheck)

  -- A sweep.
  unfoldable pub execute : Act (Unit {0})
  execute = discover >>= λ s. run_steps (create_plan s)
