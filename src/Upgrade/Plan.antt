-- ===== src/Upgrade/Plan.antt =====
-- `discover` and `create_plan` of src/bootstrap/upgrade.rs. What the observer is told is its
-- argument; a step is the name of a command with what it is made from.
use douglas.Base.{
  String, Bool, true, false, not, ◌&&◌, ◌||◌, Option, none, some, List, [], ◌∷◌, ◌++◌, Result, ok,
  err, str_eq, if◌then◌else◌,
}
use douglas.Paths.{FilePath}
use douglas.Files.{FileSystemError}
use douglas.Version.{Version, lt_version}
use douglas.Release.{ReleaseMetadata, Difference, differences}

pub record Release : Type 0 where
  pub version : Version
  pub metadata : ReleaseMetadata

pub data UpgradeError : Type 0 where
  must_be_root : UpgradeError
  missing : FilePath → UpgradeError
  invalid_executable : String → UpgradeError
  invalid_upgrade invalid_rollback : UpgradeError
  cannot_roll_back one_way : List Difference → UpgradeError

pub data Direction : Type 0 where
  upgrade rollback : Direction

pub data State : Type 0 where
  not_root missing wrong_version_order : State
  upgradable :
      (current candidate : Version) (one_way : List Difference)
      (is_marked_as_executable is_owned_by_douglas_admin : Bool)
      → State

-- What the credentials, the file system and the verifier answer. The error of the verifier is its
-- text, and the words around it are left out.
pub record Observed : Type 0 where
  pub is_root : Bool
  pub exists : Bool
  pub external : Result String Release
  pub internal : Result String Release
  pub executable_by_owner_and_group : Result FileSystemError (Bool × Bool)
  pub user_and_group : Result FileSystemError (String × String)

abbrev pub in_order : Direction → Version → Version → Bool
in_order upgrade external internal = lt_version internal external
in_order rollback external internal = lt_version external internal

abbrev pub is_executable : Result FileSystemError (Bool × Bool) → Bool
is_executable (ok (by_owner, by_group)) = by_owner || by_group
is_executable (err _) = false

abbrev pub is_admin : Result FileSystemError (String × String) → Bool
is_admin (ok (user, group)) = str_eq user "root" && str_eq group "douglas-admin"
is_admin (err _) = false

abbrev pub discover_releases :
    Observed → Direction → Result String Release → Result String Release → Result UpgradeError State
discover_releases o direction (err e) internal = err (invalid_executable e)
discover_releases o direction (ok external) (err e) = err (invalid_executable e)
discover_releases o direction (ok external) (ok internal) =
    if not (in_order direction external.version internal.version)
    then ok wrong_version_order
    else ok (
        upgradable internal.version external.version
          (differences internal.metadata external.metadata)
          (is_executable o.executable_by_owner_and_group) (is_admin o.user_and_group))

unfoldable pub discover : Observed → Direction → Result UpgradeError State
discover o direction =
    if not o.is_root
    then ok not_root
    else if not o.exists
    then ok State.missing
    else discover_releases o direction o.external o.internal

pub data Step : Type 0 where
  mark_executable : FilePath → Step
  set_ownership : FilePath → String → String → Step
  retain_previous_binary : Version → Step
  restart_previous_version : Step
  record_upgrade : Version → Version → Step
  kill_service : String → Step
  stop_bract : Bool → Step
  overwrite_douglas_executable : FilePath → Version → Bool → Step
  start_new_version confirm_healthy clear_upgrade_record : Step

abbrev pub stop_services_steps : List Step
stop_services_steps =
    kill_service "woodward" ∷ stop_bract false ∷ kill_service "resin" ∷ kill_service "seedbank" ∷ []

-- The match on `one_way`.
abbrev pub refuse : Direction → Bool → List Difference → Option UpgradeError
refuse direction allow_one_way [] = none
refuse upgrade allow_one_way (d ∷ ds) = if allow_one_way then none else some (one_way (d ∷ ds))
refuse rollback allow_one_way (d ∷ ds) = some (cannot_roll_back (d ∷ ds))

abbrev pub is_restorable : List Difference → Bool
is_restorable [] = true
is_restorable (_ ∷ _) = false

abbrev pub steps : FilePath → Version → Version → Bool → Bool → Bool → List Step
steps path current candidate restorable is_marked_as_executable is_owned_by_douglas_admin =
    (if is_marked_as_executable then [] else mark_executable path ∷ [])
    ++ (if is_owned_by_douglas_admin then [] else set_ownership path "root" "douglas-admin" ∷ [])
    ++ retain_previous_binary current ∷ (if restorable then restart_previous_version ∷ [] else [])
    ++ record_upgrade current candidate ∷ stop_services_steps
    ++ overwrite_douglas_executable path current restorable
      ∷ start_new_version
      ∷ confirm_healthy
      ∷ clear_upgrade_record
      ∷ []

abbrev pub unless : Option UpgradeError → List Step → Result UpgradeError (List Step)
unless none plan = ok plan
unless (some e) plan = err e

abbrev wrong_order : Direction → UpgradeError
wrong_order upgrade = invalid_upgrade
wrong_order rollback = invalid_rollback

-- The presentation that the steps print with is left out.
unfoldable pub create_plan : State → FilePath → Bool → Direction → Result UpgradeError (List Step)
create_plan not_root path allow_one_way direction = err must_be_root
create_plan missing path allow_one_way direction = err (UpgradeError.missing path)
create_plan wrong_version_order path allow_one_way direction = err (wrong_order direction)
create_plan (upgradable current candidate found marked owned) path allow_one_way direction =
    unless (refuse direction allow_one_way found)
      (steps path current candidate (is_restorable found) marked owned)
