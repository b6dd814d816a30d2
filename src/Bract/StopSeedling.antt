-- ===== src/Bract/StopSeedling.antt =====
-- bract/src/blueprints/stop_seedling.rs: the container of a seedling and that of its agent are stopped.
use douglas.Base.{
  String, Bool, true, false, ◌&&◌, Option, none, List, [], ◌∷◌, ◌++◌, Result, ok, err,
  if◌then◌else◌,
}
use douglas.Stateful.{◌>>=◌, return}
use douglas.Seedbank.{stopped}
use douglas.Seedbank.Operations.{set_desired_run_status}
use douglas.Blueprint.Executor.{Command}
use douglas.Bract.Containers.{
  World, BractError, core_seedling, RequestedBy, Origin, ContainerName, seedling, agent,
  ContainerPresence, presence_exists, is_running, Act, on_bank, observe_container, container_origin,
  core_seedling_forbidden_for, step, stop_container_step, run_steps,
}

pub record State : Type 0 where
  pub container : ContainerPresence
  pub origin : Option Origin
  pub agent_container : ContainerPresence

abbrev pub origin_of : ContainerName → ContainerPresence → Act (Option Origin)
origin_of name container = if presence_exists container then container_origin name else return none

-- `StateObserver::discover`
unfoldable pub discover : String → Act State
discover name = observe_container (agent name) >>= λ agent_container.
    observe_container (seedling name) >>= λ container.
    origin_of (seedling name) container >>= λ origin.
    return (record { container = container; origin = origin; agent_container = agent_container })

abbrev pub set_desired_run_status_to_stopped : String → Command World BractError
set_desired_run_status_to_stopped name =
    step "Setting desired running state to stopped" (on_bank (set_desired_run_status name stopped))
      (return tt)

abbrev pub when : {A : Type 1} → Bool → List A → List A
when true xs = xs
when false xs = []

abbrev pub steps : String → State → List (Command World BractError)
steps name state =
    set_desired_run_status_to_stopped name
    ∷ (when (is_running state.container) (stop_container_step (seedling name) ∷ [])
        ++ when (is_running state.agent_container) (stop_container_step (agent name) ∷ []))

unfoldable pub create_plan :
    String → State → RequestedBy → Result BractError (List (Command World BractError))
create_plan name state requested_by =
    if presence_exists state.container && core_seedling_forbidden_for state.origin requested_by
    then err (core_seedling name)
    else ok (steps name state)

unfoldable pub stop_seedling : String → RequestedBy → Act (Unit {0})
stop_seedling name requested_by =
    discover name >>= λ state. run_steps (create_plan name state requested_by)
