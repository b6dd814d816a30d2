-- ===== src/Upgrade/Steps.antt =====
-- The steps of src/bootstrap/upgrade.rs that change files: what `run` and `rollback` do to the host.
-- `binary_dir` and what reading the link `binary_link` answers are fixed for the whole upgrade.
use douglas.Base.{
  Bool, true, false, not, Option, none, some, List, [], ◌∷◌, ◌++◌, Result, ok, err, ok_or, ◌>>=◌,
  if◌then◌else◌,
}
use douglas.Text.{Text, codes}
use douglas.Paths.{FilePath, join, join_name, file_name, with_file_name}
use douglas.Files.{FileSystemError, invalid_path, is_cross_device}
use douglas.Version.{Version}
use douglas.Retention.{retained_name, partial_name, retained_count, expired}
use douglas.Host.{Host, Failure, rename, delete, get_mode, change_mode, list_folder}
use douglas.StagedCopy.{install_copy}

pub record Folders : Type 0 where
  pub binary_dir : FilePath
  pub link : Result FileSystemError FilePath

-- `retention::retained_path` and `retention::partial_path`
abbrev pub retained_path : FilePath → Version → FilePath
retained_path binary_dir version = join_name binary_dir (retained_name version)

abbrev with_suffix : FilePath → (Text → Text) → Option Text → Option FilePath
with_suffix p suffix none = none
with_suffix p suffix (some name) = some (with_file_name p (suffix name))

unfoldable pub partial_path : FilePath → Option FilePath
partial_path retained = with_suffix retained partial_name (file_name retained)

unfoldable pub staging_path : FilePath → Result FileSystemError FilePath
staging_path target =
    ok_or (with_suffix target (λ name. name ++ codes ".upgrade") (file_name target))
      (invalid_path target)

-- `follow_symbolic`, joined to the folder.
unfoldable pub install_target : Folders → Result FileSystemError FilePath
install_target c = c.link >>= λ target. ok (join c.binary_dir target)

-- What goes on with a path, or leaves with an error.
abbrev pub with_path :
    Result FileSystemError FilePath → (FilePath → Host → Failure × Host) → Host → Failure × Host
with_path (ok p) next h = next p h
with_path (err e) next h = (err e, h)

abbrev pub after : Failure × Host → (Host → Failure × Host) → Failure × Host
after (ok _, h) next = next h
after (err e, h) next = (err e, h)

abbrev set_executable : FilePath → Result FileSystemError (Bool × Bool) × Host → Failure × Host
set_executable path (ok (by_owner, by_group), h) = change_mode path (true, true) h
set_executable path (err e, h) = (err e, h)

-- `MarkExecutable`
unfoldable pub mark_executable : FilePath → Host → Failure × Host
mark_executable path h = set_executable path (get_mode path h)

-- The loop of `prune`: an error is passed over.
unfoldable pub delete_each : FilePath → List Text → Host → Host
delete_each binary_dir [] h = h
delete_each binary_dir (name ∷ names) h =
    delete_each binary_dir names (delete (join_name binary_dir name) h).1

abbrev pub prune_listed : FilePath → Result FileSystemError (List Text) × Host → Host
prune_listed binary_dir (ok names, h) = delete_each binary_dir (expired names retained_count) h
prune_listed binary_dir (err e, h) = h

unfoldable pub prune : FilePath → Host → Host
prune binary_dir h = prune_listed binary_dir (list_folder binary_dir h)

-- `RetainPreviousBinary`
abbrev pub copy_aside : Folders → Version → Host → Failure × Host
copy_aside c current h =
    let retained = retained_path c.binary_dir current in
    with_path (install_target c)
      (λ target.
        with_path (ok_or (partial_path retained) (invalid_path retained))
          (λ partial. install_copy target partial retained))
      h

unfoldable pub retain_previous_binary : Folders → Version → Host → Failure × Host
retain_previous_binary c current h =
    after (copy_aside c current h) (λ h'. (ok tt, prune c.binary_dir h'))

-- `OverwriteDouglasExecutable`
unfoldable pub restore_previous : Folders → Version → Host → Failure × Host
restore_previous c previous h =
    with_path (install_target c)
      (λ target.
        with_path (staging_path target)
          (λ staging. install_copy (retained_path c.binary_dir previous) staging target))
      h

unfoldable pub copy_into_place : FilePath → FilePath → Host → Failure × Host
copy_into_place path target h =
    after (with_path (staging_path target) (λ staging. install_copy path staging target) h)
      (λ h'. (ok tt, (delete path h').1))

abbrev pub or_copy : FilePath → FilePath → Failure × Host → Failure × Host
or_copy path target (ok _, h) = (ok tt, h)
or_copy path target (err e, h) = elim (is_cross_device e) [
  | true ↦ copy_into_place path target h
  | false ↦ (err e, h)
]

unfoldable pub overwrite : Folders → FilePath → Host → Failure × Host
overwrite c path h =
    with_path (install_target c) (λ target h'. or_copy path target (rename path target h')) h

unfoldable pub rollback_overwrite : Folders → Version → Bool → Host → Failure × Host
rollback_overwrite c previous restorable h =
    if not restorable then (ok tt, h) else restore_previous c previous h
