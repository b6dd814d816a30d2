-- ===== src/Upgrade/Health.antt =====
-- `ConfirmHealthy` of src/bootstrap/upgrade.rs. What the heartbeat file and the operating system say
-- of each service at each poll is an argument; a duration is a number of milliseconds.
pub mod Noted
pub mod Confirmed
use douglas.Base.{
  ℕ, zero, suc, ◌+◌, ◌/◌, ◌≤◌, ◌<◌, ◌≡◌, refl, sym, ap, ◌∙◌, ◌↔◌, String, Bool, true, false, Option,
  none, some, List, [], ◌∷◌, Result, ok, err, ◌>>=◌, >>=-eq-ok, ok-injective, map_err, str_eq,
  str_eq_iff, ltb, ◌==◌, if◌then◌else◌, All, arith, Bool-cases, Option-cases, inl, inr,
}

pub data Reason : Type 0 where
  heartbeat_not_read process_not_checked : String → Reason
  not_running : ℕ → Reason
  restarted : ℕ → ℕ → Reason

-- `UpgradeError::Unhealthy`
pub record Unhealthy : Type 0 where
  pub service : String
  pub reason : Reason

pub record Reading : Type 0 where
  pub pid : Result String ℕ
  pub is_active : ℕ → Result String Bool

abbrev pub Poll : Type 0
Poll = String → Reading

abbrev pub Seen : Type 0
Seen = List (String × ℕ)

unfoldable pub get : String → Seen → Option ℕ
get s [] = none
get s ((t, pid) ∷ seen) = let rest = get s seen in if str_eq t s then some pid else rest

abbrev pub core_services : List String
core_services = "bract" ∷ "resin" ∷ "seedbank" ∷ "woodward" ∷ []

abbrev unhealthy : String → Reason → Unhealthy
unhealthy service reason = record { service = service; reason = reason }

abbrev pub compare_seen : String → ℕ → Option ℕ → Seen → Result Unhealthy Seen
compare_seen service pid none seen = ok ((service, pid) ∷ seen)
compare_seen service pid (some earlier) seen =
    if earlier == pid
    then ok ((service, pid) ∷ seen)
    else err (unhealthy service (restarted earlier pid))

-- One turn of the loop of `check_once`.
unfoldable pub check_service : Poll → String → Seen → Result Unhealthy Seen
check_service poll service seen = do
  pid ← map_err (λ e. unhealthy service (heartbeat_not_read e)) (poll service).pid
  alive ← map_err (λ e. unhealthy service (process_not_checked e)) ((poll service).is_active pid)
  if alive
      then compare_seen service pid (get service seen) seen
      else err (unhealthy service (not_running pid))

unfoldable pub check_services : Poll → List String → Seen → Result Unhealthy Seen
check_services poll [] seen = ok seen
check_services poll (service ∷ services) seen =
    check_service poll service seen >>= check_services poll services

abbrev pub check_once : Poll → Seen → Result Unhealthy Seen
check_once poll seen = check_services poll core_services seen

abbrev pub at_least_one : ℕ → ℕ
at_least_one zero = 1
at_least_one (suc n) = suc n

unfoldable pub polls : ℕ → ℕ → ℕ
polls soak interval = soak / at_least_one interval

-- The polls that are left, from poll `i`.
unfoldable pub poll_loop : ℕ → ℕ → (ℕ → Poll) → Seen → Result Unhealthy Seen
poll_loop zero i host seen = ok seen
poll_loop (suc n) i host seen = check_once (host i) seen >>= poll_loop n (suc i) host

abbrev pub health_soak : ℕ
health_soak = 10000

abbrev pub health_interval : ℕ
health_interval = 1000

-- `0..=self.polls()`
unfoldable pub confirm_healthy : (ℕ → Poll) → Result Unhealthy (Unit {0})
confirm_healthy host =
    poll_loop (suc (polls health_soak health_interval)) 0 host [] >>= λ seen. ok tt
