-- ===== src/Seedbank/HealthLogs.antt =====
-- The health logs that seedbank/src/lib.rs stores.
use douglas.Base.{
  ℕ, ◌≤◌, ◌≡◌, refl, ◌∙◌, sym, ap, subst, String, false, Option, none, some, List, [], ◌∷◌, Result,
  ok, err, arith, str_eq, Bool-cases, inl, inr, some-injective,
}
use douglas.Host.{Answer, done, fails}
use douglas.Seedbank.{
  Error, Stored, absent, garbled, holds, HealthCheckLog, Seed, Bank, Op, ◌>>=◌, return,
  continue_with, find, set, change, exists, read, of_seed, left_by, write_seed, ensure_exists,
  first,
}
use douglas.Seedbank.Operations.{
  reached_max_fail_count, next_log, write_health_log, store_log, increment_health_log_fail_count,
  health_check_log,
}
use douglas.Seedbank.Ids.{>>=-eq-ok}
use douglas.Seedbank.Rules.{read_stored-holds}

-- A log that is stored counts at most five failures.
abbrev pub IsLow : Stored HealthCheckLog → Type 0
IsLow absent = Unit
IsLow garbled = Unit
IsLow (holds log) = log.fail_count ≤ 5

abbrev pub AreLow : List (String × Seed) → Type 0
AreLow [] = Unit
AreLow ((name, s) ∷ seeds) = IsLow s.health_log × AreLow seeds

set-AreLow :
    (name : String) (t : Seed) (seeds : List (String × Seed))
    → AreLow seeds
    → IsLow t.health_log
    → AreLow (set name t seeds)
unfolding set
set-AreLow name t [] h k = tt
set-AreLow name t ((n, s) ∷ seeds) (a, h) k = elim (Bool-cases (str_eq n name)) [
  | inl e ↦ rw e (k, h)
  | inr e ↦ rw e (a, set-AreLow name t seeds h k)
]

find-IsLow :
    (name : String) (s : Seed) (seeds : List (String × Seed))
    → AreLow seeds
    → find name seeds ≡ some s
    → IsLow s.health_log
unfolding find
find-IsLow name s [] h e = absurd (cc e)
find-IsLow name s ((n, t) ∷ seeds) (a, h) e = elim (Bool-cases (str_eq n name)) [
  | inl k ↦ subst (λ x. IsLow x.health_log) (some-injective (rw k at e)) a
  | inr k ↦ find-IsLow name s seeds h (rw k at e)
]

-- An operation that keeps the logs low, however it ends.
abbrev Preserves : {A : Type 0} → Op A → Type 0
Preserves op = (b : Bank) → AreLow b.seeds → AreLow (op b).1.seeds

>>=-Preserves :
    {A B : Type 0} (op : Op A) (next : A → Op B)
    → Preserves op
    → ((a : A) → Preserves (next a))
    → Preserves (op >>= next)
>>=-Preserves {A = A} {B = B} op next p q b h = went (op b) (p b h)
  where
    went : (r : Result Error A × Bank) → AreLow r.1.seeds → AreLow (continue_with next r).1.seeds
    went (ok a, b') k = q a b' k
    went (err e, b') k = k

write_seed-Preserves :
    (name : String) (f : Answer → Seed → Seed)
    → ((a : Answer) (s : Seed) → IsLow s.health_log → IsLow (f a s).health_log)
    → Preserves (write_seed name f)
write_seed-Preserves name f keeps b h = went (find name b.seeds) refl
  where
    went :
        (o : Option Seed)
        → find name b.seeds ≡ o
        → AreLow (change (f (first b.answers)) name o b.seeds)
    went none e = h
    went (some s) e =
        set-AreLow name (f (first b.answers) s) b.seeds h
          (keeps (first b.answers) s (find-IsLow name s b.seeds h e))

left_by-IsLow :
    (log : HealthCheckLog) (old : Stored HealthCheckLog) (a : Answer)
    → log.fail_count ≤ 5
    → IsLow old
    → IsLow (left_by log old a)
left_by-IsLow log old done h k = h
left_by-IsLow log old (fails e none) h k = k
left_by-IsLow log old (fails e (some part)) h k = tt

ensure_exists-Preserves : (name : String) → Preserves (ensure_exists name)
ensure_exists-Preserves name b h = elim (Bool-cases (exists name b)) [
  | inl e ↦ rw e h
  | inr e ↦ rw e h
]

store_log-Preserves : (name : String) (log : HealthCheckLog) → Preserves (store_log name log)
unfolding write_health_log
store_log-Preserves name log b h = elim (Bool-cases (reached_max_fail_count log)) [
  | inl e ↦ rw e h
  | inr e ↦ rw e (
      >>=-Preserves (write_health_log name log) (λ _. return false)
        (write_seed-Preserves name (λ a s. record s { health_log = left_by log s.health_log a })
          (λ a s. left_by-IsLow log s.health_log a (ground arith)))
        (λ _ b' k. k) b h)
]

increment-Preserves :
    (name : String) (now : ℕ) → Preserves (increment_health_log_fail_count name now)
unfolding increment_health_log_fail_count
increment-Preserves name now =
    >>=-Preserves (ensure_exists name) _ (ensure_exists-Preserves name) λ _.
      >>=-Preserves (read (λ b. of_seed (λ s. s.health_log) (find name b.seeds)))
        (λ found. store_log name (next_log now found)) (λ b h. h)
        (λ found. store_log-Preserves name (next_log now found))

-- The log that a seedling is given is never one that has reached the maximum.
abbrev pub IsBelow : Option HealthCheckLog → Type 0
IsBelow none = Unit
IsBelow (some log) = reached_max_fail_count log ≡ false

of_seed-IsLow :
    (o : Option Seed) (log : HealthCheckLog)
    → ((s : Seed) → o ≡ some s → IsLow s.health_log)
    → of_seed (λ s. s.health_log) o ≡ holds log
    → log.fail_count ≤ 5
of_seed-IsLow none log h e = absurd (cc e)
of_seed-IsLow (some s) log h e = subst IsLow e (h s refl)

health_check_log-IsBelow :
    (name : String) (b : Bank) (log : Option HealthCheckLog)
    → AreLow b.seeds
    → (health_check_log name b).0 ≡ ok log
    → IsBelow log
unfolding health_check_log
health_check_log-IsBelow name b none h e = tt
health_check_log-IsBelow name b (some log) h e =
    let file : Bank → Stored HealthCheckLog =
      λ k. of_seed (λ s. s.health_log) (find name k.seeds) in
    let (u, e₁, s₁) = >>=-eq-ok (ensure_exists name) (λ _. read file) b (some log) e in
    let b₁ = (ensure_exists name b).1 in
    let stored = read_stored-holds (file b₁) (first b₁.answers) log (sym (ap (λ x. x.0) s₁) ∙ e) in
    let low =
      of_seed-IsLow (find name b₁.seeds) log
        (λ s. find-IsLow name s b₁.seeds (ensure_exists-Preserves name b h)) stored in
    ground arith

-- A failure that is counted, whatever fails in between, leaves every log at five failures or fewer,
-- so that no log that is asked for afterwards has reached the maximum.
pub increment-IsBelow :
    (name other : String) (now : ℕ) (b : Bank) (log : Option HealthCheckLog)
    → AreLow b.seeds
    → (health_check_log other (increment_health_log_fail_count name now b).1).0 ≡ ok log
    → AreLow (increment_health_log_fail_count name now b).1.seeds × IsBelow log
increment-IsBelow name other now b log h e =
    let low = increment-Preserves name now b h in
    (low, health_check_log-IsBelow other (increment_health_log_fail_count name now b).1 log low e)
