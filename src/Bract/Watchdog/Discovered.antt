-- ===== src/Bract/Watchdog/Discovered.antt =====
-- The three lists of a sweep of bract/src/blueprints/watchdog.rs, against what is on the host.
use douglas.Base.{
  ◌≡◌, refl, ◌∙◌, sym, ap, subst, String, Bool, true, false, Option, none, some, List, [], ◌∷◌,
  ◌++◌, ok, map_err-eq-ok, ok-injective, In, inl, inr, ◌⊎◌, map,
}
use douglas.Stateful.{>>=-ok}
use douglas.Seedbank as Bank
use douglas.Seedbank.{
  Stored, absent, holds, garbled, HealthCheckLog, DesiredRunStatus, running, stopped, Bank, Seed,
  find, of_seed, read_stored, first,
}
use douglas.Seedbank.Ids.{list_seedlings, >>=-eq-ok}
use douglas.Seedbank.Operations.{get_desired_run_status, health_check_log, or_stopped}
use douglas.Seedbank.Rules.{read_stored-holds}
use douglas.Seedbank.Creation.{list_seedlings-Quiet}
use douglas.Bract.Containers.{
  World, seedbank_error, Container, ContainerName, seedling, on_bank, find_container,
}
use douglas.Bract.Watchdog.{
  State, container_is_running, reached, sort_in, discover_each, discover, nothing_found,
}
use douglas.Bract.Watchdog.Sweep.{
  Keeps, Keeps-trans, on_bank-Keeps, get_desired-Quiet, health_log-Quiet, runs_in, running-ok,
  ensure_exists-Quiet,
}

module _ (seeds : List (String × Seed)) (containers : List (ContainerName × Container)) where
  abbrev pub runs : String → Bool
  runs name = runs_in (find_container (seedling name) containers)

  -- The file of the seedling says that it is to run.
  abbrev pub IsWanted : String → Type 0
  IsWanted name = of_seed (λ s. s.desired_run_state) (find name seeds) ≡ holds running

  -- What is started is wanted and does not run; what is stopped runs; what is checked is wanted and runs.
  abbrev pub Justified : State → Type 0
  Justified s =
      ((name : String) → In name s.needing_start → IsWanted name × (runs name ≡ false))
      × ((name : String) → In name s.needing_stop → runs name ≡ true)
      × ((name : String) → In name s.needing_health_recheck → IsWanted name × (runs name ≡ true))

  In-snoc : (name x : String) (xs : List String) → In name (xs ++ x ∷ []) → In name xs ⊎ (name ≡ x)
  In-snoc name x [] (inl e) = inr e
  In-snoc name x [] (inr i) = elim i [ ]
  In-snoc name x (y ∷ xs) (inl e) = inl (inl e)
  In-snoc name x (y ∷ xs) (inr i) = elim (In-snoc name x xs i) [
    | inl j ↦ inl (inr j)
    | inr e ↦ inr e
  ]

  In-snoc-all :
      (P : String → Type 0) (x : String) (xs : List String)
      → ((name : String) → In name xs → P name)
      → P x
      → (name : String) → In name (xs ++ x ∷ [])
      → P name
  In-snoc-all P x xs h p name i = elim (In-snoc name x xs i) [
    | inl j ↦ h name j
    | inr e ↦ subst P (sym e) p
  ]

  sort_in-Justified :
      (name : String) (desired : DesiredRunStatus) (is_running has_reached : Bool) (s : State)
      → Justified s
      → (desired ≡ running → IsWanted name)
      → runs name ≡ is_running
      → Justified (sort_in name desired is_running has_reached s)
  sort_in-Justified name running true true s (a, b, c) w r =
      (a, In-snoc-all (λ n. runs n ≡ true) name s.needing_stop b r, c)
  sort_in-Justified name stopped true true s (a, b, c) w r =
      (a, In-snoc-all (λ n. runs n ≡ true) name s.needing_stop b r, c)
  sort_in-Justified name stopped true false s (a, b, c) w r =
      (a, In-snoc-all (λ n. runs n ≡ true) name s.needing_stop b r, c)
  sort_in-Justified name running true false s (a, b, c) w r = (
    a,
    b,
    In-snoc-all (λ n. IsWanted n × (runs n ≡ true)) name s.needing_health_recheck c (w refl, r),
  )
  sort_in-Justified name running false false s (a, b, c) w r =
      (In-snoc-all (λ n. IsWanted n × (runs n ≡ false)) name s.needing_start a (w refl, r), b, c)
  sort_in-Justified name stopped false false s j w r = j
  sort_in-Justified name running false true s j w r = j
  sort_in-Justified name stopped false true s j w r = j

or_stopped-running :
    (o : Option DesiredRunStatus) (b : Bank) (d : DesiredRunStatus)
    → (or_stopped o b).0 ≡ ok d
    → d ≡ running
    → o ≡ some running
or_stopped-running none b d e r =
    let clash : stopped ≡ running = ok-injective e ∙ r in absurd (cc clash)
or_stopped-running (some x) b d e r = ap some (ok-injective e ∙ r)

get_desired-running :
    (name : String) (b : Bank) (d : DesiredRunStatus)
    → (get_desired_run_status name b).0 ≡ ok d
    → d ≡ running
    → of_seed (λ s. s.desired_run_state) (find name b.seeds) ≡ holds running
unfolding get_desired_run_status
get_desired-running name b d e r =
    let file : Bank → Stored DesiredRunStatus =
      λ k. of_seed (λ s. s.desired_run_state) (find name k.seeds) in
    let (u, e₁, s₁) =
      >>=-eq-ok (Bank.ensure_exists name) (λ _. Bank.◌>>=◌ (Bank.read file) or_stopped) b d e in
    let b₁ = (Bank.ensure_exists name b).1 in
    let (o, e₂, s₂) = >>=-eq-ok (Bank.read file) or_stopped b₁ d (sym (ap (λ x. x.0) s₁) ∙ e) in
    let is_running =
      or_stopped-running o (Bank.read file b₁).1 d (sym (ap (λ x. x.0) (s₁ ∙ s₂)) ∙ e) r in
    ap (λ seeds. of_seed (λ s. s.desired_run_state) (find name seeds))
      (sym (ensure_exists-Quiet name b))
    ∙ read_stored-holds (file b₁) (first b₁.answers) running (e₂ ∙ ap ok is_running)

carried :
    (w w' : World) (t : State)
    → Keeps w w'
    → Justified w.bank.seeds w.docker.containers t
    → Justified w'.bank.seeds w'.docker.containers t
carried w w' t (a, b) j =
    subst (λ x. Justified x w'.docker.containers t) (sym a)
      (subst (λ y. Justified w.bank.seeds y t) (sym b) j)

discover_each-Justified :
    (names : List String) (s₀ s : State) (w : World)
    → Justified w.bank.seeds w.docker.containers s₀
    → (discover_each names s₀ w).0 ≡ ok s
    → Justified w.bank.seeds w.docker.containers s
unfolding discover_each
discover_each-Justified [] s₀ s w j e =
    subst (Justified w.bank.seeds w.docker.containers) (ok-injective e) j
discover_each-Justified (name ∷ names) s₀ s w j e =
    let (desired, e₁, s₁) = >>=-ok (on_bank (get_desired_run_status name)) _ w s e in
    let w₁ = (on_bank (get_desired_run_status name) w).1 in
    let k₁ = on_bank-Keeps (get_desired_run_status name) w (get_desired-Quiet name) in
    let (is_running, e₂, s₂) =
      >>=-ok (container_is_running name) _ w₁ s (sym (ap (λ x. x.0) s₁) ∙ e) in
    let w₂ = (container_is_running name w₁).1 in
    let (runs, k₂) = running-ok name w₁ is_running e₂ in
    let (log, e₃, s₃) =
      >>=-ok (on_bank (health_check_log name)) _ w₂ s (sym (ap (λ x. x.0) (s₁ ∙ s₂)) ∙ e) in
    let w₃ = (on_bank (health_check_log name) w₂).1 in
    let k₃ = on_bank-Keeps (health_check_log name) w₂ (health_log-Quiet name) in
    let kept = Keeps-trans w w₁ w₃ k₁ (Keeps-trans w₁ w₂ w₃ k₂ k₃) in
    let wanted : desired ≡ running → IsWanted w.bank.seeds w.docker.containers name =
      get_desired-running name w.bank desired
        (map_err-eq-ok seedbank_error (get_desired_run_status name w.bank).0 desired e₁) in
    let sorted =
      sort_in-Justified w.bank.seeds w.docker.containers name desired is_running (reached log) s₀ j
        wanted (sym (ap (λ cs. runs_in (find_container (seedling name) cs)) k₁.1) ∙ runs) in
    carried w₃ w s (sym kept.0, sym kept.1)
      (discover_each-Justified names (sort_in name desired is_running (reached log) s₀) s w₃
        (carried w w₃ (sort_in name desired is_running (reached log) s₀) kept sorted)
        (sym (ap (λ x. x.0) (s₁ ∙ s₂ ∙ s₃)) ∙ e))

-- Whichever calls fail, a sweep that finds out about all seedlings starts only those that are wanted
-- and do not run, stops only those that run, and checks only those that are wanted and run.
pub discover-Justified :
    (w : World) (s : State) → (discover w).0 ≡ ok s → Justified w.bank.seeds w.docker.containers s
unfolding discover
discover-Justified w s e =
    let (seeds, e₁, s₁) =
      >>=-ok (on_bank list_seedlings) (λ seeds. discover_each (map (λ s. s.0) seeds) nothing_found)
        w s e in
    let w₁ = (on_bank list_seedlings w).1 in
    let kept = on_bank-Keeps list_seedlings w list_seedlings-Quiet in
    carried w₁ w s (sym kept.0, sym kept.1)
      (discover_each-Justified (map (λ s. s.0) seeds) nothing_found s w₁
        ((λ name i. elim i [ ]), (λ name i. elim i [ ]), (λ name i. elim i [ ]))
        (sym (ap (λ x. x.0) s₁) ∙ e))
