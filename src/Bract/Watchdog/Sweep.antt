-- ===== src/Bract/Watchdog/Sweep.antt =====
-- What bract/src/blueprints/watchdog.rs finds of the seedlings, whichever calls fail.
use douglas.Base.{
  ◌≡◌, refl, ◌∙◌, sym, ap, subst, String, Bool, true, false, Option, none, some, Result, ok,
  map_err-eq-ok, ok-injective, inl, inr, Bool-cases,
}
use douglas.Stateful.{>>=-ok, return}
use douglas.Seedbank as Bank
use douglas.Seedbank.{
  Stored, absent, holds, garbled, DesiredRunStatus, running, stopped, Bank, Seed, find, of_seed,
  read_stored, first,
}
use douglas.Seedbank.Operations.{get_desired_run_status, health_check_log, or_stopped}
use douglas.Seedbank.Creation.{Quiet, >>=-Quiet}
use douglas.Bract.Containers.{
  World, docker_error, Docker, DockerError, Container, ContainerName, seedling, status_is_running,
  Status, on_bank, container_exists, container_status, find_container, call, answered, changed,
  failure, or_not_found, is_some, later, query_exists, query_status,
}
use douglas.Bract.Watchdog.{status_of, container_is_running}

-- An operation that leaves the seedlings and the containers as they are.
abbrev pub Keeps : World → World → Type 0
Keeps w w' = (w'.bank.seeds ≡ w.bank.seeds) × (w'.docker.containers ≡ w.docker.containers)

pub Keeps-trans : (u v w : World) → Keeps u v → Keeps v w → Keeps u w
Keeps-trans u v w (a, b) (c, d) = (c ∙ a, d ∙ b)

pub on_bank-Keeps : {A : Type 0} (op : Bank.Op A) (w : World) → Quiet op → Keeps w (on_bank op w).1
on_bank-Keeps op w q = (q w.bank, refl)

call-Keeps :
    {A : Type 0} (f : Docker → Result DockerError A × Docker) (w : World)
    → ((d : Docker) → (f d).1.containers ≡ d.containers)
    → Keeps w (call f w).1
call-Keeps f w h = (refl, go (failure w.docker.failures))
  where
    go :
        (o : Option DockerError)
        → (changed o
            (f (record w.docker { failures = later w.docker.failures })).1
            (record w.docker { failures = later w.docker.failures })).containers
          ≡ w.docker.containers
    go none = h _
    go (some e) = refl

pub ensure_exists-Quiet : (name : String) → Quiet (Bank.ensure_exists name)
ensure_exists-Quiet name b = elim (Bool-cases (Bank.exists name b)) [
  | inl e ↦ rw e refl
  | inr e ↦ rw e refl
]

or_stopped-Quiet : (o : Option DesiredRunStatus) → Quiet (or_stopped o)
or_stopped-Quiet none b = refl
or_stopped-Quiet (some d) b = refl

pub get_desired-Quiet : (name : String) → Quiet (get_desired_run_status name)
unfolding get_desired_run_status
get_desired-Quiet name = >>=-Quiet (Bank.ensure_exists name) _ (ensure_exists-Quiet name) λ _.
    >>=-Quiet (Bank.read (λ b. of_seed (λ s. s.desired_run_state) (find name b.seeds))) or_stopped
      (λ b. refl) or_stopped-Quiet

pub health_log-Quiet : (name : String) → Quiet (health_check_log name)
unfolding health_check_log
health_log-Quiet name = >>=-Quiet (Bank.ensure_exists name) _ (ensure_exists-Quiet name) λ _ b. refl

exists-Keeps : (name : ContainerName) (w : World) → Keeps w (container_exists name w).1
unfolding container_exists
exists-Keeps name w = call-Keeps (query_exists name) w (λ d. refl)

status-Keeps : (name : ContainerName) (w : World) → Keeps w (container_status name w).1
unfolding container_status
status-Keeps name w = call-Keeps (query_status name) w (λ d. refl)

call-ok :
    {A : Type 0} (f : Docker → Result DockerError A × Docker) (w : World) (a : A)
    → (call f w).0 ≡ ok a
    → (f (record w.docker { failures = later w.docker.failures })).0 ≡ ok a
call-ok {A = A} f w a e =
    go (failure w.docker.failures) (f (record w.docker { failures = later w.docker.failures })).0 e
  where
    go : (o : Option DockerError) (r : Result DockerError A) → answered o r ≡ ok a → r ≡ ok a
    go none r h = map_err-eq-ok docker_error r a h
    go (some x) r h = absurd (cc h)

-- Whether the container of a seedling runs.
abbrev pub runs_in : Option Container → Bool
runs_in none = false
runs_in (some c) = status_is_running c.status

or_not_found-ok :
    (o : Option Container) (status : Status)
    → or_not_found (λ c. c.status) o ≡ ok status
    → runs_in o ≡ status_is_running status
or_not_found-ok none status e = absurd (cc e)
or_not_found-ok (some c) status e = ap status_is_running (ok-injective e)

not_there : (o : Option Container) → is_some o ≡ false → runs_in o ≡ false
not_there none e = refl
not_there (some c) e = absurd (cc e)

status_of-ok :
    (name : String) (there : Bool) (w : World) (b : Bool)
    → is_some (find_container (seedling name) w.docker.containers) ≡ there
    → (status_of (seedling name) there w).0 ≡ ok b
    → (runs_in (find_container (seedling name) w.docker.containers) ≡ b)
      × Keeps w (status_of (seedling name) there w).1
unfolding container_status
status_of-ok name false w b at e = (not_there _ at ∙ ok-injective e, (refl, refl))
status_of-ok name true w b at e =
    let (status, e₁, s₁) =
      >>=-ok (container_status (seedling name)) (λ status. return (status_is_running status)) w b
        e in
    let found =
      or_not_found-ok (find_container (seedling name) w.docker.containers) status
        (call-ok (query_status (seedling name)) w status e₁) in
    let same : status_is_running status ≡ b = ok-injective (sym (ap (λ x. x.0) s₁) ∙ e) in
    (found ∙ same, subst (λ x. Keeps w x.1) (sym s₁) (status-Keeps (seedling name) w))

pub running-ok :
    (name : String) (w : World) (b : Bool)
    → (container_is_running name w).0 ≡ ok b
    → (runs_in (find_container (seedling name) w.docker.containers) ≡ b)
      × Keeps w (container_is_running name w).1
unfolding container_is_running container_exists
running-ok name w b e =
    let (there, e₁, s₁) =
      >>=-ok (container_exists (seedling name)) (status_of (seedling name)) w b e in
    let left = (container_exists (seedling name) w).1 in
    let kept = exists-Keeps (seedling name) w in
    let at = ok-injective (call-ok (query_exists (seedling name)) w there e₁) in
    let at' = ap (λ cs. is_some (find_container (seedling name) cs)) kept.1 ∙ at in
    let (found, kept') = status_of-ok name there left b at' (sym (ap (λ x. x.0) s₁) ∙ e) in
    (
      sym (ap (λ cs. runs_in (find_container (seedling name) cs)) kept.1) ∙ found,
      subst (λ x. Keeps w x.1) (sym s₁)
          (Keeps-trans w left (status_of (seedling name) there left).1 kept kept'),
    )
