-- ===== src/Upgrade/Health/Confirmed.antt =====
-- What it takes for `ConfirmHealthy` to succeed.
use douglas.Base.{
  some-injective, ℕ, zero, suc, ◌+◌, ◌≤◌, ◌<◌, ◌≡◌, refl, sym, ap, ◌∙◌, ◌↔◌, String, true, false,
  Option, none, some, List, [], ◌∷◌, ok, >>=-eq-ok, str_eq, str_eq_iff, ==_iff, All, All-map, arith,
  Bool-cases, inl, inr,
}
use douglas.Upgrade.Health.{
  Poll, Seen, get, core_services, compare_seen, check_service, check_services, polls, poll_loop,
  confirm_healthy,
}
use douglas.Upgrade.Health.Noted.{Runs, Noted, poll_loop-ok}

-- Every entry is the process that `pids` has for the service.
abbrev Agrees : (String → ℕ) → Seen → Type 0
Agrees pids seen = (s : String) (pid : ℕ) → get s seen ≡ some pid → pid ≡ pids s

insert-Agrees :
    (pids : String → ℕ) (s : String) (seen : Seen)
    → Agrees pids seen
    → Agrees pids ((s, pids s) ∷ seen)
unfolding get
insert-Agrees pids s seen agrees t pid g = elim (Bool-cases (str_eq s t)) [
  | inl e ↦ some-injective (sym g ∙ found e) ∙ ap pids ((str_eq_iff s t).0 e)
  | inr e ↦ agrees t pid (sym (passed e) ∙ g)
]
  where
    found : str_eq s t ≡ true → get t ((s, pids s) ∷ seen) ≡ some (pids s)
    found e = rw e refl

    passed : str_eq s t ≡ false → get t ((s, pids s) ∷ seen) ≡ get t seen
    passed e = rw e refl

compare_seen-Agrees :
    (pids : String → ℕ) (s : String) (o : Option ℕ) (seen : Seen)
    → ((pid : ℕ) → o ≡ some pid → pid ≡ pids s)
    → compare_seen s (pids s) o seen ≡ ok ((s, pids s) ∷ seen)
compare_seen-Agrees pids s none seen agrees = refl
compare_seen-Agrees pids s (some earlier) seen agrees =
    rw ((==_iff earlier (pids s)).1 (agrees earlier refl)) refl

check_service-Agrees :
    (poll : Poll) (pids : String → ℕ) (s : String) (seen : Seen)
    → Agrees pids seen
    → Runs poll s (pids s)
    → check_service poll s seen ≡ ok ((s, pids s) ∷ seen)
unfolding check_service
check_service-Agrees poll pids s seen agrees (read, active) =
    rw (read, active) (compare_seen-Agrees pids s (get s seen) seen (agrees s))

check_services-Agrees :
    (poll : Poll) (pids : String → ℕ) (services : List String) (seen : Seen)
    → Agrees pids seen
    → All (λ s. Runs poll s (pids s)) services
    → (later : Seen) × (check_services poll services seen ≡ ok later) × Agrees pids later
unfolding check_services
check_services-Agrees poll pids [] seen agrees all = (seen, refl, agrees)
check_services-Agrees poll pids (s ∷ services) seen agrees (runs, all) =
    let (later, e, agrees') =
      check_services-Agrees poll pids services ((s, pids s) ∷ seen)
        (insert-Agrees pids s seen agrees) all in
    (later, rw (check_service-Agrees poll pids s seen agrees runs) e, agrees')

poll_loop-Agrees :
    (n i : ℕ) (host : ℕ → Poll) (pids : String → ℕ) (seen : Seen)
    → Agrees pids seen
    → ((j : ℕ) → i ≤ j → j < i + n → All (λ s. Runs (host j) s (pids s)) core_services)
    → (later : Seen) × (poll_loop n i host seen ≡ ok later)
unfolding poll_loop
poll_loop-Agrees zero i host pids seen agrees all = (seen, refl)
poll_loop-Agrees (suc n) i host pids seen agrees all =
    let (middle, e, agrees') =
      check_services-Agrees (host i) pids core_services seen agrees
        (all i (omega arith) (omega arith)) in
    let (later, e') =
      poll_loop-Agrees n (suc i) host pids middle agrees'
        (λ j a b. all j (omega arith) (omega arith)) in
    (later, rw e e')

abbrev or_zero : Option ℕ → ℕ
or_zero none = 0
or_zero (some n) = n

-- The new version is confirmed exactly when at each of the eleven polls every core service has a
-- heartbeat that can be read, from a process that runs, and that process is the same at all polls.
pub confirm_healthy_iff :
    (host : ℕ → Poll)
    → (confirm_healthy host ≡ ok tt) ↔ (
        (pids : String → ℕ) × ((j : ℕ)
          → j ≤ 10
          → All (λ s. Runs (host j) s (pids s)) core_services))
unfolding confirm_healthy polls get
confirm_healthy_iff host = (sound, complete)
  where
    sound :
        confirm_healthy host ≡ ok tt
        → (pids : String → ℕ) × ((j : ℕ)
            → j ≤ 10
            → All (λ s. Runs (host j) s (pids s)) core_services)
    sound e =
        let (seen, e₁, e₂) = >>=-eq-ok (poll_loop 11 0 host []) _ e in
        (
          (λ s. or_zero (get s seen)),
          λ j a.
              All-map (Noted (host j) seen) (λ s. Runs (host j) s (or_zero (get s seen)))
                core_services (λ s (pid, runs, g). rw g runs)
                ((poll_loop-ok 11 0 host [] seen e₁).0 j (omega arith) (omega arith)),
        )

    complete :
        ((pids : String → ℕ) × ((j : ℕ)
            → j ≤ 10
            → All (λ s. Runs (host j) s (pids s)) core_services))
        → confirm_healthy host ≡ ok tt
    complete (pids, all) =
        let (later, e) =
          poll_loop-Agrees 11 0 host pids [] nothing (λ j a b. all j (omega arith)) in
        rw e refl
      where
        nothing : Agrees pids []
        nothing s pid g = absurd (cc g)
