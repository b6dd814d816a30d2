-- ===== src/Bract/Watchdog/GivingUp.antt =====
-- The failed health checks that bract/src/blueprints/watchdog.rs counts in the seedbank, until it
-- gives a seedling up.
use douglas.Base.{
  ℕ, zero, suc, ◌+◌, ◌%◌, ◌≤◌, ◌<◌, ◌≡◌, refl, ◌∙◌, ap, String, Bool, true, false, Option, none,
  some, List, [], ◌∷◌, ok, map_err, arith,
}
use douglas.Seedbank as Bank
use douglas.Host.{Answer, done}
use douglas.Stateful.{◌>>=◌, continue_with}
use douglas.Seedbank.{
  Stored, absent, holds, HealthCheckLog, running, stopped, Seed, Bank, find, set, call, exists,
}
use douglas.Seedbank.Operations.{
  increment_health_log_fail_count, set_desired_run_status, reached_max_fail_count, store_log,
  write_health_log, next_log,
}
use douglas.Bract.Containers.{
  World, seedbank_error, Act, on_bank, Container, ContainerName, seedling, exited,
  run_shell_health_check, find_container, set_status, stop_container,
}
use douglas.Bract.StartSeedling.{record_health_check_failure}
use douglas.Bract.Watchdog.{recheck}

-- A host on which no call fails, and the health checks find what is listed.
abbrev pub calm :
    List (String × Seed) → Stored String → List (ContainerName × Container) → List Bool → World
calm seeds default containers health = record {
  bank = record { seeds = seeds; default = default; answers = [] };
  docker = record { containers = containers; failures = []; health = health };
}

-- The log after `k` failed checks, the last one at `at`.
abbrev pub log_of : ℕ → ℕ → Stored HealthCheckLog
log_of zero at = absent
log_of (suc k) at = holds (record { fail_count = suc k; updated_at = at })

abbrev bank_of : List (String × Seed) → Stored String → Bank
bank_of seeds default = record { seeds = seeds; default = default; answers = [] }

-- A call that went well is followed by the next.
bank_next :
    {A B : Type 0} (op : Bank.Op A) (next : A → Bank.Op B) (b b' : Bank) (a : A)
    → op b ≡ (ok a, b')
    → Bank.continue_with next (op b) ≡ next a b'
bank_next op next b b' a e = ap (Bank.continue_with next) e

act_next :
    {A B : Type 0} (op : Act A) (next : A → Act B) (w w' : World) (a : A)
    → op w ≡ (ok a, w')
    → (op >>= next) w ≡ next a w'
act_next op next w w' a e = ap (continue_with next) e

on_bank-ok :
    {A : Type 0} (op : Bank.Op A) (w : World) (b' : Bank) (a : A)
    → op w.bank ≡ (ok a, b')
    → on_bank op w ≡ (ok a, record { bank = b'; docker = w.docker })
on_bank-ok op w b' a e =
    ap (λ x. (map_err seedbank_error x.0, record { bank = x.1; docker = w.docker })) e

-- What reading that log gives.
abbrev pub logged : ℕ → ℕ → Option HealthCheckLog
logged zero at = none
logged (suc k) at = some (record { fail_count = suc k; updated_at = at })

next_log-logged :
    (k at now : ℕ)
    → k ≤ 5
    → next_log now (logged k at) ≡ record { fail_count = suc k; updated_at = now }
next_log-logged zero at now h = refl
next_log-logged (suc k) at now h =
    let small : (suc k + 1) % 256 ≡ suc (suc k) = omega arith in
    ap (λ n. record { fail_count = n; updated_at = now }) small

module _ (name : String) (seeds : List (String × Seed)) (default : Stored String) (s : Seed)
    (found : find name seeds ≡ some s) where
  ensure_exists-found :
      Bank.ensure_exists name (bank_of seeds default) ≡ (ok tt, bank_of seeds default)
  unfolding exists
  ensure_exists-found = rw found refl

  write_seed-found :
      (f : Answer → Seed → Seed)
      → Bank.write_seed name f (bank_of seeds default)
        ≡ (ok tt, bank_of (set name (f done s) seeds) default)
  write_seed-found f = rw found refl

  read_log-found :
      (k at : ℕ)
      → s.health_log ≡ log_of k at
      → Bank.read
          (λ b. Bank.of_seed (λ s. s.health_log) (find name b.seeds))
          (bank_of seeds default)
        ≡ (ok (logged k at), bank_of seeds default)
  read_log-found zero at log = rw (found, log) refl
  read_log-found (suc k) at log = rw (found, log) refl

  store_log-below :
      (log : HealthCheckLog)
      → reached_max_fail_count log ≡ false
      → store_log name log (bank_of seeds default)
        ≡ (ok false, bank_of (set name (record s { health_log = holds log }) seeds) default)
  unfolding write_health_log
  store_log-below log h = rw h (
      bank_next (write_health_log name log) (λ _ b. (ok false, b)) (bank_of seeds default) _ tt
        (write_seed-found (λ a s. record s { health_log = Bank.left_by log s.health_log a })))

  increment_calm :
      (now k at : ℕ) (reached : Bool) (b : Bank)
      → s.health_log ≡ log_of k at
      → store_log name (next_log now (logged k at)) (bank_of seeds default) ≡ (ok reached, b)
      → increment_health_log_fail_count name now (bank_of seeds default) ≡ (ok reached, b)
  unfolding increment_health_log_fail_count
  increment_calm now k at reached b log stored =
      bank_next (Bank.ensure_exists name) _ (bank_of seeds default) (bank_of seeds default) tt
        ensure_exists-found
      ∙ bank_next (Bank.read (λ b. Bank.of_seed (λ s. s.health_log) (find name b.seeds)))
          (λ found. store_log name (next_log now found)) (bank_of seeds default)
          (bank_of seeds default) (logged k at) (read_log-found k at log)
      ∙ stored

  set_desired_calm :
      set_desired_run_status name stopped (bank_of seeds default)
      ≡ (ok tt, bank_of (set name (record s { desired_run_state = holds stopped }) seeds) default)
  unfolding set_desired_run_status
  set_desired_calm =
      bank_next (Bank.ensure_exists name) _ (bank_of seeds default) (bank_of seeds default) tt
        ensure_exists-found
      ∙ write_seed-found
          (λ a s. record s { desired_run_state = Bank.left_by stopped s.desired_run_state a })

module _ (name : String) (now : ℕ) (seeds : List (String × Seed)) (default : Stored String)
    (containers : List (ContainerName × Container)) (health : List Bool) (s : Seed) (k at : ℕ)
    (found : find name seeds ≡ some s) (log : s.health_log ≡ log_of k at) where
  -- A check that fails comes to the record of the failure.
  recheck-failing :
      recheck now name (calm seeds default containers (false ∷ health))
      ≡ record_health_check_failure name (seedling name) now (calm seeds default containers health)
  unfolding recheck run_shell_health_check call
  recheck-failing = refl

  pub recheck-below :
      k < 5
      → recheck now name (calm seeds default containers (false ∷ health)) ≡ (
        ok tt,
        calm
            (set name (record s { health_log = log_of (suc k) now }) seeds)
            default
            containers
            health,
      )
  unfolding record_health_check_failure
  recheck-below h =
      recheck-failing
      ∙ act_next (on_bank (increment_health_log_fail_count name now)) _
          (calm seeds default containers health) _ false
          (on_bank-ok (increment_health_log_fail_count name now)
            (calm seeds default containers health)
            (bank_of (set name (record s { health_log = log_of (suc k) now }) seeds) default) false
            (increment_calm name seeds default s found now k at false _ log (
              ap (λ l. store_log name l (bank_of seeds default))
                (next_log-logged k at now (omega arith))
              ∙ store_log-below name seeds default s found
                  (record { fail_count = suc k; updated_at = now }) (ground arith))))

  -- The sixth failure in a row is not written. The seedling is given up.
  pub recheck-limit :
      (c : Container)
      → k ≡ 5
      → find_container (seedling name) containers ≡ some c
      → recheck now name (calm seeds default containers (false ∷ health)) ≡ (
        ok tt,
        calm
            (set name (record s { desired_run_state = holds stopped }) seeds)
            default
            (set_status (seedling name) exited containers)
            health,
      )
  unfolding record_health_check_failure stop_container
  recheck-limit c five there =
      recheck-failing
      ∙ act_next (on_bank (increment_health_log_fail_count name now)) _
          (calm seeds default containers health) (calm seeds default containers health) true
          (on_bank-ok (increment_health_log_fail_count name now)
            (calm seeds default containers health) (bank_of seeds default) true
            (increment_calm name seeds default s found now k at true (bank_of seeds default) log (
              ap (λ l. store_log name l (bank_of seeds default))
                (next_log-logged k at now (omega arith))
              ∙ rw five refl)))
      ∙ act_next (on_bank (set_desired_run_status name stopped))
          (λ _. stop_container (seedling name)) (calm seeds default containers health) _ tt
          (on_bank-ok (set_desired_run_status name stopped) (calm seeds default containers health) _
            tt (set_desired_calm name seeds default s found))
      ∙ rw there refl
