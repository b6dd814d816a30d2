-- ===== src/Bract/StartSeedling.antt =====
-- bract/src/blueprints/start_seedling.rs: a seedling that is set up is started and its health checked.
use douglas.Base.{
  ℕ, String, Bool, true, false, not, ◌&&◌, Option, none, some, List, [], ◌∷◌, ◌++◌, Result, ok, err,
  if◌then◌else◌,
}
use douglas.Stateful.{◌>>=◌, return, fail}
use douglas.Seedbank as Bank
use douglas.Seedbank.{HealthCheckLog, DesiredRunStatus, running, stopped}
use douglas.Seedbank.Operations.{
  set_desired_run_status, health_check_log, increment_health_log_fail_count, reset_health_log,
  reached_max_fail_count,
}
use douglas.Blueprint.Executor.{Command}
use douglas.Bract.Containers.{
  World, BractError, cannot_start_seedling, core_seedling, failed_to_start, RequestedBy, operator,
  watchdog, Origin, ContainerName, seedling, agent, ContainerPresence, presence_exists, is_running,
  status_is_running, Status, Act, on_bank, observe_container, container_origin, container_exists,
  container_status, start_container, stop_container, run_shell_health_check, ignore_missing,
  core_seedling_forbidden_for, step, run_steps,
}
use douglas.Bract.StopSeedling.{when}

pub data Readiness : Type 0 where
  mounts_not_initialized ready_stopped ready_running : Readiness

pub record Found : Type 0 where
  pub origin : Option Origin
  pub has_health_check_failure : Bool
  pub readiness : Readiness

pub data Seedling : Type 0 where
  undefined missing_credentials gave_up missing_image missing_container : Seedling
  found : Found → Seedling

pub record State : Type 0 where
  pub agent_container : ContainerPresence
  pub seedling : Seedling

-- What the rolodex, the images of the docker daemon and the mounts answer, each call with its error.
pub record Surroundings : Type 0 where
  pub has_service_account : String → Result BractError Bool
  pub image_exists : String → Result BractError Bool
  pub mounts_are_initialized : String → Result BractError Bool

abbrev pub asked : {A : Type 0} → Result BractError A → Act A
asked r w = (r, w)

abbrev pub is_some : {A : Type 0} → Option A → Bool
is_some none = false
is_some (some _) = true

abbrev pub has_given_up : RequestedBy → Option HealthCheckLog → Bool
has_given_up operator log = false
has_given_up watchdog none = false
has_given_up watchdog (some log) = reached_max_fail_count log

abbrev pub readiness_of : Status → Readiness
readiness_of status = if status_is_running status then ready_running else ready_stopped

-- `record_health_check_failure`. `now` is the time of the clock.
unfoldable pub record_health_check_failure : String → ContainerName → ℕ → Act (Unit {0})
record_health_check_failure name container now =
    on_bank (increment_health_log_fail_count name now) >>= λ reached.
    if reached
    then (on_bank (set_desired_run_status name stopped) >>= λ _. stop_container container)
    else return tt

module _ (env : Surroundings) where
  abbrev pub discover_ready : String → Bool → Act Readiness
  discover_ready name false = return mounts_not_initialized
  discover_ready name true =
      container_status (seedling name) >>= λ status. return (readiness_of status)

  abbrev pub discover_container : String → Option HealthCheckLog → Act Seedling
  discover_container name log = container_exists (seedling name) >>= λ there.
      if there
      then (container_origin (seedling name) >>= λ origin.
          asked (env.mounts_are_initialized name) >>= λ mounted.
          discover_ready name mounted >>= λ readiness. return (
            found (record {
              origin = origin;
              has_health_check_failure = is_some log;
              readiness = readiness;
            })))
      else return missing_container

  abbrev pub discover_known : String → RequestedBy → Act Seedling
  discover_known name requested_by = on_bank (health_check_log name) >>= λ log.
      if has_given_up requested_by log
      then return gave_up
      else (on_bank Bank.call >>= λ _. asked (env.image_exists name) >>= λ image.
          if image then discover_container name log else return missing_image)

  -- `discover_seedling`. The load of the definition is one call of the seedbank.
  unfoldable pub discover_seedling : String → RequestedBy → Act Seedling
  discover_seedling name requested_by w =
      if Bank.exists name w.bank
      then (asked (env.has_service_account name) >>= λ account.
            if account then discover_known name requested_by else return missing_credentials)
          w
      else (ok undefined, w)

  unfoldable pub discover : String → RequestedBy → Act State
  discover name requested_by = observe_container (agent name) >>= λ agent_container.
      discover_seedling name requested_by >>= λ s.
      return (record { agent_container = agent_container; seedling = s })

abbrev pub set_desired_run_status_to_running : String → Command World BractError
set_desired_run_status_to_running name =
    step "Setting desired running state to running" (on_bank (set_desired_run_status name running))
      (return tt)

abbrev pub healthy_if_running : ContainerName → Bool → Act Bool
healthy_if_running container true = run_shell_health_check container
healthy_if_running container false = return false

-- `container_is_running`, then the health check.
abbrev pub is_healthy : ContainerName → Act Bool
is_healthy container =
    container_status container >>= λ status. healthy_if_running container (status_is_running status)

abbrev pub start_agent_container : String → Command World BractError
start_agent_container name =
    step "Starting agent container"
      (start_container (agent name) >>= λ _.
        is_healthy (agent name) >>= λ healthy. if healthy then return tt else fail failed_to_start)
      (ignore_missing (stop_container (agent name)))

abbrev pub unless_running : ContainerName → Bool → Act (Unit {0})
unless_running container true = return tt
unless_running container false = start_container container

abbrev pub start_seedling_step : String → Bool → ℕ → Command World BractError
start_seedling_step name already_running now =
    step "Starting seedling"
      (unless_running (seedling name) already_running >>= λ _.
        is_healthy (seedling name) >>= λ healthy.
        if healthy
        then return tt
        else (record_health_check_failure name (seedling name) now >>= λ _. fail failed_to_start))
      (if already_running then return tt else ignore_missing (stop_container (seedling name)))

abbrev pub clear_health_check_logs : String → Command World BractError
clear_health_check_logs name =
    step "Clearing seedling health check logs" (on_bank (reset_health_log name)) (return tt)

abbrev pub steps : String → ContainerPresence → Bool → ℕ → List (Command World BractError)
steps name agent_container already_running now =
    set_desired_run_status_to_running name
    ∷ (when (presence_exists agent_container && not (is_running agent_container))
          (start_agent_container name ∷ [])
        ++ start_seedling_step name already_running now ∷ clear_health_check_logs name ∷ [])

abbrev pub plan_ready :
    String → State → Found → Readiness → ℕ → Result BractError (List (Command World BractError))
plan_ready name state f mounts_not_initialized now =
    err (cannot_start_seedling "Could not initialize")
plan_ready name state f ready_running now =
    if not f.has_health_check_failure
    then err (cannot_start_seedling "The seedling is already running")
    else ok (steps name state.agent_container true now)
plan_ready name state f ready_stopped now = ok (steps name state.agent_container false now)

abbrev pub plan_seedling :
    String
    → State
    → Seedling
    → RequestedBy
    → ℕ
    → Result BractError (List (Command World BractError))
plan_seedling name state undefined by now = err (cannot_start_seedling "Seedling not defined")
plan_seedling name state gave_up by now =
    err (cannot_start_seedling "Seedling has failed its health checks")
plan_seedling name state missing_credentials by now =
    err (cannot_start_seedling "Seedling credentials not created yet")
plan_seedling name state missing_image by now =
    err (cannot_start_seedling "Docker instance not initialized")
plan_seedling name state missing_container by now =
    err (cannot_start_seedling "Docker instance not initialized")
plan_seedling name state (found f) by now =
    if core_seedling_forbidden_for f.origin by
    then err (core_seedling name)
    else plan_ready name state f f.readiness now

unfoldable pub create_plan :
    String → State → RequestedBy → ℕ → Result BractError (List (Command World BractError))
create_plan name state requested_by now = plan_seedling name state state.seedling requested_by now

-- The definition is loaded once more, for the address of the agent.
unfoldable pub start_seedling : Surroundings → String → RequestedBy → ℕ → Act (Unit {0})
start_seedling env name requested_by now = discover env name requested_by >>= λ state.
    on_bank Bank.call >>= λ _. run_steps (create_plan name state requested_by now)
