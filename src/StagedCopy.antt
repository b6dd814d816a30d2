-- ===== src/StagedCopy.antt =====
-- src/bootstrap/staged_copy.rs: a copy is made at a staging path and renamed into place.
pub mod Owner
pub mod Atomic
use douglas.Base.{String, ◌≡◌, Result, ok, err}
use douglas.Paths.{FilePath}
use douglas.Files.{FileSystemError}
use douglas.Host.{
  Host, Failure, copy, rename, delete, get_user_and_group_ownership,
  change_user_and_group_ownership,
}

-- The two calls of the closure behind `and_then`.
abbrev pub give : FilePath → Result FileSystemError (String × String) × Host → Failure × Host
give to (ok (user, group), h) = change_user_and_group_ownership to user group h
give to (err e, h) = (err e, h)

abbrev pub keep_owner : FilePath → FilePath → Failure × Host → Failure × Host
keep_owner from to (ok _, h) = give to (get_user_and_group_ownership from h)
keep_owner from to (err e, h) = (err e, h)

-- `if result.is_err() { let _ = deleter.delete(to); }`
abbrev pub clean_up : FilePath → Failure × Host → Failure × Host
clean_up to (ok u, h) = (ok u, h)
clean_up to (err e, h) = (err e, (delete to h).1)

unfoldable pub copy_keeping_owner : FilePath → FilePath → Host → Failure × Host
copy_keeping_owner from to h = clean_up to (keep_owner from to (copy from to h))

abbrev pub rename_staged : FilePath → FilePath → Failure × Host → Failure × Host
rename_staged staging target (ok _, h) = clean_up staging (rename staging target h)
rename_staged staging target (err e, h) = (err e, h)

unfoldable pub install_copy : FilePath → FilePath → FilePath → Host → Failure × Host
install_copy from staging target h =
    rename_staged staging target (copy_keeping_owner from staging h)
