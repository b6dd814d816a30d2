-- ===== src/Bract/Containers.antt =====
-- bract/src/blueprints/mod.rs and container_steps.rs: the containers of the seedlings, and what the
-- blueprints of bract call. The docker daemon is a list of containers, with how its calls end.
use douglas.Base.{
  String, Bool, true, false, ◌&&◌, Option, none, some, List, [], ◌∷◌, Result, ok, err, map_err,
  str_eq, if◌then◌else◌, map,
}
use douglas.Stateful.{Op, ◌>>=◌, return}
use douglas.Seedbank.{Bank}
use douglas.Seedbank as Bank
use douglas.Blueprint.Executor.{Command}
use douglas.Blueprint.Plan.{Reason, run_plan}

-- `Status` of docker_types/src/lib.rs.
pub data Status : Type 0 where
  created running paused restarting removing exited dead : Status

pub data DockerError : Type 0 where
  resource_not_found ambiguous_match_error : DockerError
  general_error : String → DockerError

pub data BractError : Type 0 where
  docker_error : DockerError → BractError
  seedbank_error : Bank.Error → BractError
  cannot_start_seedling core_seedling : String → BractError
  failed_to_start : BractError
  failed_bootstrap : List String → BractError

pub data RequestedBy : Type 0 where
  operator watchdog : RequestedBy

pub data Origin : Type 0 where
  core user : Origin

-- `container_name` and `agent_container_name` of a seedling.
pub data ContainerName : Type 0 where
  seedling agent : String → ContainerName

abbrev pub same_container : ContainerName → ContainerName → Bool
same_container (seedling a) (seedling b) = str_eq a b
same_container (agent a) (agent b) = str_eq a b
same_container (seedling _) (agent _) = false
same_container (agent _) (seedling _) = false

pub record Container : Type 0 where
  pub status : Status
  pub origin : Option Origin

-- `failures` has an entry for each call, and a call beyond the list goes well; `health` is what the
-- health checks find, the next one first.
pub record Docker : Type 0 where
  pub containers : List (ContainerName × Container)
  pub failures : List (Option DockerError)
  pub health : List Bool

pub record World : Type 0 where
  pub bank : Bank
  pub docker : Docker

abbrev pub Act {ℓ} : Type ℓ → Type ℓ
Act A = Op World BractError A

abbrev pub on_bank : {A : Type 0} → Bank.Op A → Act A
on_bank op w =
    let (r, b) = op w.bank in (map_err seedbank_error r, record { bank = b; docker = w.docker })

unfoldable pub find_container : ContainerName → List (ContainerName × Container) → Option Container
find_container name [] = none
find_container name ((n, c) ∷ cs) =
    let rest = find_container name cs in if same_container n name then some c else rest

unfoldable pub set_status :
    ContainerName → Status → List (ContainerName × Container) → List (ContainerName × Container)
set_status name status [] = []
set_status name status ((n, c) ∷ cs) =
    let rest = set_status name status cs in
    if same_container n name then (n, record c { status = status }) ∷ rest else (n, c) ∷ rest

abbrev pub failure : List (Option DockerError) → Option DockerError
failure [] = none
failure (f ∷ _) = f

abbrev pub later : {A : Type 0} → List A → List A
later [] = []
later (_ ∷ rest) = rest

abbrev pub answered : {A : Type 0} → Option DockerError → Result DockerError A → Result BractError A
answered none r = map_err docker_error r
answered (some e) r = err (docker_error e)

abbrev pub changed : Option DockerError → Docker → Docker → Docker
changed none new old = new
changed (some e) new old = old

-- A call of the daemon: it fails, or it does what it is for.
abbrev pub call : {A : Type 0} → (Docker → Result DockerError A × Docker) → Act A
call f w =
    let d : Docker = record w.docker { failures = later w.docker.failures } in
    let (r, d') = f d in
    let o = failure w.docker.failures in
    (answered o r, record { bank = w.bank; docker = changed o d' d })

abbrev pub is_some : {A : Type 0} → Option A → Bool
is_some none = false
is_some (some _) = true

abbrev pub query_exists : ContainerName → Docker → Result DockerError Bool × Docker
query_exists name d = (ok (is_some (find_container name d.containers)), d)

unfoldable pub container_exists : ContainerName → Act Bool
container_exists name = call (query_exists name)

abbrev pub or_not_found : {A : Type 0} → (Container → A) → Option Container → Result DockerError A
or_not_found f none = err resource_not_found
or_not_found f (some c) = ok (f c)

abbrev pub query_status : ContainerName → Docker → Result DockerError Status × Docker
query_status name d = (or_not_found (λ c. c.status) (find_container name d.containers), d)

unfoldable pub container_status : ContainerName → Act Status
container_status name = call (query_status name)

-- `labels::get_origin` of `container_labels`.
unfoldable pub container_origin : ContainerName → Act (Option Origin)
container_origin name =
    call (λ d. (or_not_found (λ c. c.origin) (find_container name d.containers), d))

abbrev pub set_found : ContainerName → Status → Docker → Result DockerError (Unit {0}) × Docker
set_found name status d = (
  or_not_found (λ c. tt) (find_container name d.containers),
  record d { containers = set_status name status d.containers },
)

unfoldable pub stop_container : ContainerName → Act (Unit {0})
stop_container name = call (set_found name exited)

unfoldable pub start_container : ContainerName → Act (Unit {0})
start_container name = call (set_found name running)

abbrev pub next_health : List Bool → Bool
next_health [] = true
next_health (h ∷ _) = h

-- `run_shell_health_check`, of start_seedling.rs, as one call: it says whether the command ended with
-- the exit code 0 in time.
unfoldable pub run_shell_health_check : ContainerName → Act Bool
run_shell_health_check name =
    call (λ d. (ok (next_health d.health), record d { health = later d.health }))

abbrev pub ignored : Result BractError (Unit {0}) → Result BractError (Unit {0})
ignored (err (docker_error resource_not_found)) = ok tt
ignored r = r

-- `ignore_missing`
abbrev pub ignore_missing : Act (Unit {0}) → Act (Unit {0})
ignore_missing op w = let (r, w') = op w in (ignored r, w')

abbrev pub is_core : Option Origin → Bool
is_core (some core) = true
is_core (some user) = false
is_core none = false

abbrev pub is_operator : RequestedBy → Bool
is_operator operator = true
is_operator watchdog = false

abbrev pub core_seedling_forbidden_for : Option Origin → RequestedBy → Bool
core_seedling_forbidden_for origin requested_by = is_core origin && is_operator requested_by

pub data ContainerPresence : Type 0 where
  absent : ContainerPresence
  present : Status → ContainerPresence

abbrev pub presence_exists : ContainerPresence → Bool
presence_exists absent = false
presence_exists (present _) = true

abbrev pub status_is_running : Status → Bool
status_is_running running = true
status_is_running _ = false

abbrev pub is_running : ContainerPresence → Bool
is_running absent = false
is_running (present status) = status_is_running status

abbrev pub observed : Result BractError Status × World → Result BractError ContainerPresence × World
observed (ok status, w) = (ok (present status), w)
observed (err (docker_error resource_not_found), w) = (ok absent, w)
observed (err e, w) = (err e, w)

abbrev pub observe_status : ContainerName → Bool → Act ContainerPresence
observe_status name false = return absent
observe_status name true = λ w. observed (container_status name w)

unfoldable pub observe_container : ContainerName → Act ContainerPresence
observe_container name = container_exists name >>= observe_status name

-- A boxed command without a state of its own. `skip` is never set by these blueprints.
abbrev pub step : String → Act (Unit {0}) → Act (Unit {0}) → Command World BractError
step name run rollback = record {
  State = Unit;
  state = tt;
  name = λ s. name;
  run = λ s w. let (r, w') = run w in (r, s, w');
  rollback = λ s w. let (r, w') = rollback w in (r, s, w');
  skip = λ s w. false;
}

-- `StopContainerStep`
abbrev pub stop_container_step : ContainerName → Command World BractError
stop_container_step name =
    step "Stopping container" (stop_container name) (ignore_missing (start_container name))

abbrev pub failed_steps : List (Reason BractError) → BractError
failed_steps reasons = failed_bootstrap (map (λ r. r.step_name) reasons)

-- The plan of a blueprint as one operation.
abbrev pub run_steps : Result BractError (List (Command World BractError)) → Act (Unit {0})
run_steps plan w = run_plan plan w failed_steps
