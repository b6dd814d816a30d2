-- ===== src/Seedbank/Rules.antt =====
-- What the operations of the seedbank promise.
use douglas.Base.{
  ℕ, ◌≤◌, ◌<◌, ◌≡◌, refl, sym, ap, ◌∙◌, subst, ◌↔◌, ◌⊎◌, inl, inr, String, Bool, true, false,
  Option, none, some, Result, ok, err, ok-injective, some-injective, str_eq, str_eq_iff, ltb,
  if◌then◌else◌, Bool-cases, arith,
}
use douglas.Host.{Answer, done, fails}
use douglas.Seedbank.{
  Error, not_found, default_already_claimed, invalid_version, Stored, absent, garbled, holds,
  HealthCheckLog, Bank, ◌>>=◌, return, find, exists, read, read_stored, of_seed, left_by,
  write_result, ensure_exists, first,
}
use douglas.Seedbank.Ids.{>>=-eq-ok}
use douglas.Seedbank.Operations.{
  load_version, or_not_found, newer, update, default_seedling, claim, claim_default, next_log,
  reached_max_fail_count, store_log, increment_health_log_fail_count, write_health_log,
}

-- A test before an operation was passed.
pub tested :
    {A : Type 0} (t : Bool) (r s : Result Error A × Bank) (x : Error) (v : A)
    → s.0 ≡ err x
    → (if t then r else s).0 ≡ ok v
    → (t ≡ true) × ((if t then r else s) ≡ r)
tested true r s x v f e = (refl, refl)
tested false r s x v f e = absurd (cc (f, e))

or_not_found-ok :
    (name : String) (o : Option ℕ) (b : Bank) (v : ℕ)
    → (or_not_found name o b).0 ≡ ok v
    → o ≡ some v
or_not_found-ok name none b v e = absurd (cc e)
or_not_found-ok name (some w) b v e = ap some (ok-injective e)

pub read_stored-holds :
    {A : Type 0} (s : Stored A) (a : Answer) (v : A) → read_stored s a ≡ ok (some v) → s ≡ holds v
read_stored-holds absent a v e = absurd (cc e)
read_stored-holds garbled done v e = absurd (cc e)
read_stored-holds garbled (fails x part) v e = absurd (cc e)
read_stored-holds (holds w) done v e = ap holds (some-injective (ok-injective e))
read_stored-holds (holds w) (fails x part) v e = absurd (cc e)

newer-ok :
    (name : String) (version current : ℕ) (b : Bank)
    → (newer name version current b).0 ≡ ok tt
    → current < version
newer-ok name version current b e = elim (Bool-cases (ltb current version)) [
  | inl t ↦ ground (arith, t)
  | inr t ↦ absurd (cc (e, refused t))
]
  where
    refused : ltb current version ≡ false → (newer name version current b).0 ≡ err invalid_version
    refused t = rw (newer, t) refl

-- An update that goes well had a version that is newer than the one in the folder.
pub update-newer :
    (name : String) (version : ℕ) (b : Bank)
    → (update name version b).0 ≡ ok tt
    → (current : ℕ) × (of_seed (λ s. s.version) (find name b.seeds) ≡ holds current)
      × (current < version)
unfolding update
update-newer name version b e =
    let (t, s) = tested (exists name b) _ (err (not_found name), b) (not_found name) tt refl e in
    let e' = sym (ap (λ r. r.0) s) ∙ e in
    let (current, e₁, s₁) = >>=-eq-ok (load_version name) (newer name version) b tt e' in
    let file : Bank → Stored ℕ = λ k. of_seed (λ x. x.version) (find name k.seeds) in
    let (found, e₂, s₂) = >>=-eq-ok (read file) (or_not_found name) b current e₁ in
    (
      current,
      read_stored-holds (file b) (first b.answers) current (
          e₂
          ∙ ap ok
              (or_not_found-ok name found (read file b).1 current (sym (ap (λ r. r.0) s₂) ∙ e₁))),
      newer-ok name version current (load_version name b).1 (sym (ap (λ r. r.0) s₁) ∙ e'),
    )

write-default-ok :
    (name : String) (a : Answer) (old : Stored String)
    → write_result a ≡ ok tt
    → left_by name old a ≡ holds name
write-default-ok name done old e = refl
write-default-ok name (fails x part) old e = absurd (cc e)

claim-ok :
    (name : String) (found : Option String) (b : Bank)
    → (claim name found b).0 ≡ ok tt
    → ((found ≡ none) × ((claim name found b).1.default ≡ holds name))
      ⊎ ((found ≡ some name) × ((claim name found b).1 ≡ b))
claim-ok name none b e = inl (refl, write-default-ok name (first b.answers) b.default e)
claim-ok name (some current) b e = elim (Bool-cases (str_eq current name)) [
  | inl t ↦ inr (ap some ((str_eq_iff current name).0 t), mine t)
  | inr t ↦ absurd (cc (e, refused t))
]
  where
    mine : str_eq current name ≡ true → (claim name (some current) b).1 ≡ b
    mine t = rw (claim, t) refl

    refused :
        str_eq current name ≡ false
        → (claim name (some current) b).0 ≡ err (default_already_claimed current)
    refused t = rw (claim, t) refl

read_stored-none : {A : Type 0} (s : Stored A) (a : Answer) → read_stored s a ≡ ok none → s ≡ absent
read_stored-none absent a e = refl
read_stored-none garbled done e = absurd (cc e)
read_stored-none garbled (fails x part) e = absurd (cc e)
read_stored-none (holds w) done e = absurd (cc e)
read_stored-none (holds w) (fails x part) e = absurd (cc e)

-- A claim of the default that goes well is of a seedling that exists and leaves it as the default,
-- and nobody else had it: there was no default, or it was this seedling already.
pub claim_default-ok :
    (name : String) (b : Bank)
    → (claim_default name b).0 ≡ ok tt
    → (exists name b ≡ true)
      × ((claim_default name b).1.default ≡ holds name)
      × ((b.default ≡ absent) ⊎ (b.default ≡ holds name))
unfolding claim_default default_seedling
claim_default-ok name b e =
    let (t, s) = tested (exists name b) _ (err (not_found name), b) (not_found name) tt refl e in
    let e' = sym (ap (λ r. r.0) s) ∙ e in
    let (found, e₁, s₁) = >>=-eq-ok default_seedling (claim name) b tt e' in
    let b₁ = (default_seedling b).1 in
    let whole = ap (λ r. r.1.default) (s ∙ s₁) in
    let rest : ((claim_default name b).1.default ≡ holds name)
        × ((b.default ≡ absent) ⊎ (b.default ≡ holds name)) =
      elim (claim-ok name found b₁ (sym (ap (λ r. r.0) s₁) ∙ e')) [
        | inl p ↦ (whole ∙ p.1, inl (read_stored-none b.default (first b.answers) (e₁ ∙ ap ok p.0)))
        | inr p ↦
            let h = read_stored-holds b.default (first b.answers) name (e₁ ∙ ap ok p.0) in
            (whole ∙ ap (λ k. k.default) p.1 ∙ h, inr h)
      ] in
    (t, rest.0, rest.1)

-- The health log that is there, if it can be read.
abbrev pub IsLog : Stored HealthCheckLog → Option HealthCheckLog → Type 0
IsLog s none = s ≡ absent
IsLog s (some log) = s ≡ holds log

read_stored-IsLog :
    (s : Stored HealthCheckLog) (a : Answer) (found : Option HealthCheckLog)
    → read_stored s a ≡ ok found
    → IsLog s found
read_stored-IsLog s a none e = read_stored-none s a e
read_stored-IsLog s a (some log) e = read_stored-holds s a log e

-- The sixth failure in a row is reported, where five are stored at most.
abbrev pub IsReached : Option HealthCheckLog → Bool → Type 0
IsReached none reached = reached ≡ false
IsReached (some log) reached = log.fail_count ≤ 5 → (reached ≡ true) ↔ (log.fail_count ≡ 5)

store_log-ok :
    (name : String) (log : HealthCheckLog) (b : Bank) (reached : Bool)
    → (store_log name log b).0 ≡ ok reached
    → reached ≡ reached_max_fail_count log
store_log-ok name log b reached e = elim (Bool-cases (reached_max_fail_count log)) [
  | inl t ↦ ok-injective (sym e ∙ at_limit t) ∙ sym t
  | inr t ↦
      let (u, e₁, s₁) =
        >>=-eq-ok (write_health_log name log) (λ _. return false) b reached
          (sym (ap (λ r. r.0) (below t)) ∙ e) in
      ok-injective (sym e ∙ ap (λ r. r.0) (below t ∙ s₁)) ∙ sym t
]
  where
    at_limit : reached_max_fail_count log ≡ true → (store_log name log b).0 ≡ ok true
    at_limit t = rw (store_log, t) refl

    below :
        reached_max_fail_count log ≡ false
        → store_log name log b ≡ (write_health_log name log >>= λ _. return false) b
    below t = rw (store_log, t) refl

next_log-IsReached :
    (now : ℕ) (found : Option HealthCheckLog)
    → IsReached found (reached_max_fail_count (next_log now found))
next_log-IsReached now none = refl
next_log-IsReached now (some log) = λ short. ((λ e. ground arith), λ e. ground arith)

-- A failed health check that is counted is reported as the one too many exactly if five were stored;
-- the first one, where no log is stored, is not.
pub increment-IsReached :
    (name : String) (now : ℕ) (b : Bank) (reached : Bool)
    → (increment_health_log_fail_count name now b).0 ≡ ok reached
    → (found : Option HealthCheckLog) × IsLog
        (of_seed (λ s. s.health_log) (find name b.seeds))
        found
      × IsReached found reached
unfolding increment_health_log_fail_count
increment-IsReached name now b reached e =
    let (u, e₁, s₁) = >>=-eq-ok (ensure_exists name) _ b reached e in
    let b₁ = (ensure_exists name b).1 in
    let file : Bank → Stored HealthCheckLog =
      λ k. of_seed (λ x. x.health_log) (find name k.seeds) in
    let (found, e₂, s₂) =
      >>=-eq-ok (read file) (λ f. store_log name (next_log now f)) b₁ reached
        (sym (ap (λ r. r.0) s₁) ∙ e) in
    let is_reached =
      store_log-ok name (next_log now found) (read file b₁).1 reached
        (sym (ap (λ r. r.0) (s₁ ∙ s₂)) ∙ e) in
    (
      found,
      subst (λ k. IsLog (file k) found) (kept e₁)
          (read_stored-IsLog (file b₁) (first b₁.answers) found e₂),
      subst (IsReached found) (sym is_reached) (next_log-IsReached now found),
    )
  where
    kept : (ensure_exists name b).0 ≡ ok tt → (ensure_exists name b).1 ≡ b
    kept h = ap (λ r. r.1) (tested (exists name b) _ _ (not_found name) tt refl h).1
