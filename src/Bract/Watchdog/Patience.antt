-- ===== src/Bract/Watchdog/Patience.antt =====
-- How many failed health checks bract/src/blueprints/watchdog.rs waits for before it stops a seedling.
use douglas.Base.{
  ℕ, zero, suc, ◌+◌, ◌≤◌, ◌≡◌, refl, ◌∙◌, sym, ap, subst, String, Bool, false, some, List, [], ◌∷◌,
  arith, Bool-cases, inl, inr, some-injective,
}
use douglas.Seedbank.{Stored, holds, stopped, Seed, find}
use douglas.Seedbank.Creation.{find-set}
use douglas.Bract.Containers.{
  World, Container, ContainerName, seedling, same_container, exited, Status, find_container,
  set_status,
}
use douglas.Bract.Watchdog.{recheck}
use douglas.Bract.Watchdog.GivingUp.{calm, log_of, recheck-below, recheck-limit}

-- The world after `n` sweeps that check the seedling.
abbrev pub rechecks : ℕ → ℕ → String → World → World
rechecks zero now name w = w
rechecks (suc n) now name w = rechecks n now name (recheck now name w).1

-- The next `n` checks fail.
abbrev pub failing : ℕ → List Bool → List Bool
failing zero health = health
failing (suc n) health = false ∷ failing n health

find_container-set_status :
    (name : ContainerName) (status : Status) (cs : List (ContainerName × Container)) (c : Container)
    → find_container name cs ≡ some c
    → find_container name (set_status name status cs) ≡ some (record c { status = status })
unfolding find_container set_status
find_container-set_status name status [] c e = absurd (cc e)
find_container-set_status name status ((n, d) ∷ cs) c e =
    elim (Bool-cases (same_container n name)) [
      | inl h ↦
          rw (h, h)
            (ap {A = Container} (λ x. some (record x { status = status }))
              (some-injective (rw h at e)))
      | inr h ↦ rw (h, h) (find_container-set_status name status cs c (rw h at e))
    ]

module _ (name : String) (now : ℕ) (default : Stored String)
    (containers : List (ContainerName × Container)) (health : List Bool) where
  abbrev pub IsGivenUp : Container → World → Type 0
  IsGivenUp c w =
      ((s : Seed) × (find name w.bank.seeds ≡ some s) × (s.desired_run_state ≡ holds stopped))
      × (find_container (seedling name) w.docker.containers ≡ some (record c { status = exited }))

  -- A seedling with `k` failures in its log is stopped by the failure that makes them six: its
  -- container is stopped then, and its desired status is stopped.
  pub failing_seedling_stopped :
      (n k at : ℕ) (seeds : List (String × Seed)) (s : Seed) (c : Container)
      → k + n ≡ 5
      → find name seeds ≡ some s
      → s.health_log ≡ log_of k at
      → find_container (seedling name) containers ≡ some c
      → IsGivenUp c
          (rechecks (suc n) now name (calm seeds default containers (failing (suc n) health)))
  failing_seedling_stopped zero k at seeds s c five found log there =
      subst (λ x. IsGivenUp c x.1)
        (sym (
          recheck-limit name now seeds default containers health s k at found log c (omega arith)
            there))
        (
          (record s { desired_run_state = holds stopped }, find-set name s _ seeds found, refl),
          find_container-set_status (seedling name) exited containers c there,
        )
  failing_seedling_stopped (suc n) k at seeds s c five found log there =
      subst (λ x. IsGivenUp c (rechecks (suc n) now name x.1))
        (sym (
          recheck-below name now seeds default containers (failing (suc n) health) s k at found log
            (omega arith)))
        (failing_seedling_stopped n (suc k) now _ (record s { health_log = log_of (suc k) now }) c
          (omega arith) (find-set name s _ seeds found) refl there)

  -- Up to five failures leave every container as it is.
  pub patient_until_five :
      (n k at : ℕ) (seeds : List (String × Seed)) (s : Seed)
      → k + n ≤ 5
      → find name seeds ≡ some s
      → s.health_log ≡ log_of k at
      → (rechecks n now name (calm seeds default containers (failing n health))).docker.containers
        ≡ containers
  patient_until_five zero k at seeds s five found log = refl
  patient_until_five (suc n) k at seeds s five found log =
      ap (λ x. (rechecks n now name x.1).docker.containers)
        (recheck-below name now seeds default containers (failing n health) s k at found log
          (omega arith))
      ∙ patient_until_five n (suc k) now _ (record s { health_log = log_of (suc k) now })
          (omega arith) (find-set name s _ seeds found) refl
