-- ===== src/Seedbank.antt =====
-- The store of seedbank/src/lib.rs: the folder of each seedling by its name, and the default. A file
-- is kept as what its text parses to. The mounts and the definition are left out: their purge,
-- encoding and writing are three calls, which may fail.
pub mod Ids
pub mod Operations
pub mod Rules
pub mod Creation
pub mod HealthLogs
use douglas.Base.{
  ℕ, zero, suc, ◌+◌, ◌%◌, ◌<◌, ◌≡◌, String, Bool, true, false, Option, none, some, List, [], ◌∷◌,
  Result, ok, err, str_eq, ltb, ◌==◌, if◌then◌else◌, map,
}
use douglas.Files.{FileSystemError}
use douglas.Host.{Answer, done, fails}

pub data Error : Type 0 where
  already_exists not_found default_already_claimed : String → Error
  invalid_version too_many_seedlings : Error
  unparsable : Error
  file_system_error : FileSystemError → Error

-- A file that is not there, one that does not parse, or what it holds.
pub data Stored (A : Type 0) : Type 0 where
  absent garbled : Stored A
  holds : A → Stored A

pub record HealthCheckLog : Type 0 where
  pub fail_count : ℕ
  pub updated_at : ℕ

pub data DesiredRunStatus : Type 0 where
  running stopped : DesiredRunStatus

pub record Seed : Type 0 where
  pub id : Stored ℕ
  pub version : Stored ℕ
  pub health_log : Stored HealthCheckLog
  pub desired_run_state : Stored DesiredRunStatus

abbrev pub empty_seed : Seed
empty_seed = record {
  id = absent;
  version = absent;
  health_log = absent;
  desired_run_state = absent;
}

pub record Bank : Type 0 where
  pub seeds : List (String × Seed)
  pub default : Stored String
  pub answers : List Answer

abbrev pub Op : Type 0 → Type 0
Op A = Bank → Result Error A × Bank

abbrev pub continue_with :
    {A B : Type 0} → (A → Op B) → Result Error A × Bank → Result Error B × Bank
continue_with next (ok a, b) = next a b
continue_with next (err e, b) = (err e, b)

infixl 5 ◌>>=◌
abbrev pub ◌>>=◌ : {A B : Type 0} → Op A → (A → Op B) → Op B
op >>= next = λ b. continue_with next (op b)

abbrev pub return : {A : Type 0} → A → Op A
return a b = (ok a, b)

abbrev pub fail : {A : Type 0} → Error → Op A
fail e b = (err e, b)

abbrev pub first : List Answer → Answer
first [] = done
first (a ∷ _) = a

abbrev pub others : List Answer → List Answer
others [] = []
others (_ ∷ rest) = rest

abbrev pub answered : Answer → Op (Unit {0})
answered done b = (ok tt, record b { answers = others b.answers })
answered (fails e part) b = (err (file_system_error e), record b { answers = others b.answers })

-- A call that changes nothing here.
unfoldable pub call : Op (Unit {0})
call b = answered (first b.answers) b

unfoldable pub find : String → List (String × Seed) → Option Seed
find name [] = none
find name ((n, s) ∷ seeds) = let rest = find name seeds in if str_eq n name then some s else rest

unfoldable pub set : String → Seed → List (String × Seed) → List (String × Seed)
set name seed [] = []
set name seed ((n, s) ∷ seeds) =
    let rest = set name seed seeds in if str_eq n name then (n, seed) ∷ seeds else (n, s) ∷ rest

unfoldable pub drop_seed : String → List (String × Seed) → List (String × Seed)
drop_seed name [] = []
drop_seed name ((n, s) ∷ seeds) =
    let rest = drop_seed name seeds in if str_eq n name then rest else (n, s) ∷ rest

abbrev pub is_some : {A : Type 0} → Option A → Bool
is_some none = false
is_some (some a) = true

unfoldable pub exists : String → Bank → Bool
exists name b = is_some (find name b.seeds)

-- What reading a file finds. A file that is there does not fail as one that is not.
abbrev pub read_stored : {A : Type 0} → Stored A → Answer → Result Error (Option A)
read_stored absent a = ok none
read_stored garbled done = err unparsable
read_stored garbled (fails e part) = err (file_system_error e)
read_stored (holds v) done = ok (some v)
read_stored (holds v) (fails e part) = err (file_system_error e)

abbrev pub read : {A : Type 0} → (Bank → Stored A) → Op (Option A)
read file b = (read_stored (file b) (first b.answers), record b { answers = others b.answers })

abbrev pub of_seed : {A : Type 0} → (Seed → Stored A) → Option Seed → Stored A
of_seed file none = absent
of_seed file (some s) = file s

-- What a write leaves in the file.
abbrev pub left_by : {A : Type 0} → A → Stored A → Answer → Stored A
left_by v old done = holds v
left_by v old (fails e none) = old
left_by v old (fails e (some part)) = garbled

abbrev pub write_result : Answer → Result Error (Unit {0})
write_result done = ok tt
write_result (fails e part) = err (file_system_error e)

abbrev pub change :
    (Seed → Seed) → String → Option Seed → List (String × Seed) → List (String × Seed)
change f name none seeds = seeds
change f name (some s) seeds = set name (f s) seeds

abbrev pub write_seed : String → (Answer → Seed → Seed) → Op (Unit {0})
write_seed name f b = (
  write_result (first b.answers),
  record b {
    seeds = change (f (first b.answers)) name (find name b.seeds) b.seeds;
    answers = others b.answers;
  },
)

abbrev pub ensure_exists : String → Op (Unit {0})
ensure_exists name b = if exists name b then (ok tt, b) else (err (not_found name), b)
