-- ===== src/Tests/Bract.antt =====
-- Runs of the blueprints of bract on a host with three seedlings.
use douglas.Base.{◌≡◌, refl, String, Option, some, List, [], ◌∷◌, ok, err, arith}
use douglas.Seedbank as Bank
use douglas.Seedbank.{
  Stored, absent, holds, running, stopped, Seed, find, set, call, exists, empty_seed,
}
use douglas.Seedbank.Ids.{list_seedlings}
use douglas.Seedbank.Operations.{
  get_desired_run_status, health_check_log, set_desired_run_status, increment_health_log_fail_count,
}
use douglas.Seedbank.HealthLogs.{AreLow, IsBelow, increment-IsBelow}
use douglas.Blueprint.Plan.{run_plan}
use douglas.Bract.Containers as Docker
use douglas.Bract.Containers.{
  World, Container, ContainerName, seedling, agent, exited, core, user, operator, core_seedling,
  container_exists, container_status, container_origin, find_container, set_status,
  observe_container, stop_container,
}
use douglas.Bract.StopSeedling as Stop
use douglas.Bract.StopSeedling.{stop_seedling}
use douglas.Bract.Watchdog.{State, container_is_running, discover_each, discover}
use douglas.Bract.Watchdog.GivingUp.{calm}
use douglas.Bract.Watchdog.Patience.{
  rechecks, failing, IsGivenUp, failing_seedling_stopped, patient_until_five,
}
use douglas.Bract.Watchdog.Discovered.{Justified, discover-Justified}

abbrev wanted : Seed
wanted = record empty_seed { desired_run_state = holds running }

-- Two failed checks.
abbrev failed_twice : Seed
failed_twice = record wanted { health_log = holds (record { fail_count = 2; updated_at = 10 }) }

abbrev unwanted : Seed
unwanted = record empty_seed { desired_run_state = holds stopped }

abbrev seeds : List (String × Seed)
seeds = ("web", failed_twice) ∷ ("mail", wanted) ∷ ("old", unwanted) ∷ []

abbrev up : Container
up = record { status = Docker.running; origin = some user }

abbrev containers : List (ContainerName × Container)
containers =
    (seedling "web", up)
    ∷ (seedling "mail", record { status = exited; origin = some core })
    ∷ (seedling "old", up)
    ∷ []

abbrev sweep : State
sweep = record {
  needing_start = "mail" ∷ [];
  needing_stop = "old" ∷ [];
  needing_health_recheck = "web" ∷ [];
}

found : (discover (calm seeds absent containers [])).0 ≡ ok sweep
unfolding discover discover_each list_seedlings call get_desired_run_status health_check_log exists
    find container_is_running container_exists container_status find_container
found = refl

discover-Justified_example : Justified seeds containers sweep
discover-Justified_example = discover-Justified (calm seeds absent containers []) sweep found

web_found : find "web" seeds ≡ some failed_twice
unfolding find
web_found = refl

web_container : find_container (seedling "web") containers ≡ some up
unfolding find_container
web_container = refl

failing_seedling_stopped_example :
    IsGivenUp "web" 20 absent containers [] up
      (rechecks 4 20 "web" (calm seeds absent containers (failing 4 [])))
failing_seedling_stopped_example =
    failing_seedling_stopped "web" 20 absent containers [] 3 2 10 seeds failed_twice up refl
      web_found refl web_container

patient_until_five_example :
    (rechecks 3 20 "web" (calm seeds absent containers (failing 3 []))).docker.containers
    ≡ containers
patient_until_five_example =
    patient_until_five "web" 20 absent containers [] 3 2 10 seeds failed_twice (omega arith)
      web_found refl

-- An operator does not stop a core seedling.
core_refused :
    (stop_seedling "mail" operator (calm seeds absent containers [])).0 ≡ err (core_seedling "mail")
unfolding stop_seedling Stop.discover Stop.create_plan observe_container container_exists
    container_status container_origin find_container run_plan
core_refused = refl

old_stopped :
    find_container
      (seedling "old")
      (stop_seedling "old" operator (calm seeds absent containers [])).1.docker.containers
    ≡ some (record up { status = exited })
unfolding stop_seedling Stop.discover Stop.create_plan observe_container container_exists
    container_status container_origin find_container run_plan set_desired_run_status exists find
    stop_container set_status
old_stopped = refl

abbrev bank : Bank.Bank
bank = record { seeds = seeds; default = absent; answers = [] }

abbrev third_failure : Option Bank.HealthCheckLog
third_failure = some (record { fail_count = 3; updated_at = 20 })

counted :
    (health_check_log "web" (increment_health_log_fail_count "web" 20 bank).1).0 ≡ ok third_failure
unfolding health_check_log increment_health_log_fail_count exists find set
counted = refl

increment-IsBelow_example :
    AreLow (increment_health_log_fail_count "web" 20 bank).1.seeds × IsBelow third_failure
increment-IsBelow_example =
    increment-IsBelow "web" "web" 20 bank third_failure (omega arith, (tt, (tt, tt))) counted
