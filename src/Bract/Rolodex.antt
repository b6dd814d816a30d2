-- ===== src/Bract/Rolodex.antt =====
-- bract/src/rolodex/mod.rs: the users and groups that belong to full names. Each full name is
-- recorded in a file with the name of its user or group. The accounts of the host are an interface.
pub mod Naming
pub mod SystemNames
pub mod Accounts
pub mod Probing
pub mod Reserving
pub mod Located
pub mod Reserved
pub mod Directory
pub mod Inserting
pub mod Refinement
pub mod Finding
use douglas.Base.{
  ℕ, zero, suc, Bool, true, false, Option, none, some, List, [], ◌∷◌, ◌++◌, Result, ok, err,
  if◌then◌else◌,
}
use douglas.Text.{Text, codes, same_text}
use douglas.Paths.{FilePath, join_name}
use douglas.Files.{FileSystemError}
use douglas.Disk.{File, lookup}
use douglas.Host.{Host, Failure, Answer, done, fails, answer, set_disk, read_all, write_all}
use douglas.Stateful.{Op, ◌>>=◌, return, fail, failing_as}
use Naming.{derive_system_name, salted}

pub data CredentialsError : Type 0 where
  user_not_found_error group_not_found_error : Text → CredentialsError
  general_error : Text → CredentialsError

-- What the rolodex calls of `Credentials`, over an unknown state.
pub record Credentials : Type 1 where
  pub State : Type 0
  pub group_exists : Text → State → Bool
  pub user_exists : Text → State → Bool
  pub get_group_id : Text → State → Option ℕ
  pub get_user_id : Text → State → Option ℕ
  pub create_group : Text → Op State CredentialsError ℕ
  pub create_user : Text → Text → List Text → Op State CredentialsError ℕ
  pub join_group : Text → Text → Op State CredentialsError (Unit {0})
  pub set_primary_group : Text → Text → Op State CredentialsError ℕ

pub data RolodexError : Type 0 where
  file_system_error : FileSystemError → RolodexError
  credentials_error : CredentialsError → RolodexError
  exhausted_name_space unknown_guest : Text → RolodexError

pub record Credential : Type 0 where
  pub id : ℕ
  pub full_name : Text
  pub system_name : Text

pub record ServiceAccount : Type 0 where
  pub user : Credential
  pub group : Credential

abbrev pub max_attempts : ℕ
max_attempts = 16

-- `Folder::create_recursively`, which may fail. The folders are not kept.
abbrev pub create_answered : Answer → Host → Failure × Host
create_answered done h = (ok tt, set_disk h.disk h)
create_answered (fails e part) h = (err e, set_disk h.disk h)

unfoldable pub create_recursively : FilePath → Host → Failure × Host
create_recursively p h = create_answered (answer h) h

abbrev pub users_root : FilePath → FilePath
users_root root = join_name root (codes "users")

abbrev pub groups_root : FilePath → FilePath
groups_root root = join_name root (codes "groups")

abbrev pub Search : Type 0
Search = Op Host RolodexError (Option Text)

-- A record that is there: it is of this name, or the next attempt follows.
abbrev pub compare_record : Text → Text → Search → List ℕ → Search
compare_record full_name system_name next existing =
    if same_text existing full_name then return (some system_name) else next

abbrev pub absent_record : FilePath → Text → Text → Bool → Search
absent_record path full_name system_name false = return none
absent_record path full_name system_name true =
    failing_as file_system_error (write_all path full_name) >>= λ _. return (some system_name)

abbrev pub at_record : FilePath → Text → Text → Bool → Search → Option File → Search
at_record path full_name system_name create next none =
    absent_record path full_name system_name create
at_record path full_name system_name create next (some _) =
    failing_as file_system_error (read_all path) >>= compare_record full_name system_name next

module _ (sha256 : Text → List ℕ) where
  -- The attempts that are left, from `attempt` on.
  unfoldable pub locate_from : ℕ → ℕ → FilePath → Text → Bool → Search
  locate_from zero attempt kind_root full_name create h = (err (exhausted_name_space full_name), h)
  locate_from (suc left) attempt kind_root full_name create h =
      let system_name = derive_system_name sha256 (salted full_name attempt) in
      at_record (join_name kind_root system_name) full_name system_name create
        (locate_from left (suc attempt) kind_root full_name create)
        (lookup (join_name kind_root system_name) h.disk) h

  abbrev pub make_root : FilePath → Bool → Op Host RolodexError (Unit {0})
  make_root kind_root false = return tt
  make_root kind_root true = failing_as file_system_error (create_recursively kind_root)

  unfoldable pub locate : FilePath → Text → Bool → Search
  locate kind_root full_name create =
      make_root kind_root create >>= λ _. locate_from max_attempts 0 kind_root full_name create

  abbrev pub or_exhausted : Text → Option Text → Op Host RolodexError Text
  or_exhausted full_name none = fail (exhausted_name_space full_name)
  or_exhausted full_name (some system_name) = return system_name

  unfoldable pub reserve : FilePath → Text → Op Host RolodexError Text
  reserve kind_root full_name = locate kind_root full_name true >>= or_exhausted full_name
