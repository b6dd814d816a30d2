-- ===== src/Installation.antt =====
-- src/bootstrap/compatibility.rs and src/bootstrap/journal.rs: the install marker and the journal of an
-- upgrade, two JSON files. The JSON encodings are serde's: parameters.
pub mod Recorded
use douglas.Base.{
  ℕ, String, Bool, true, false, not, Option, none, some, List, [], ◌∷◌, Result, ok, err, map_err,
  if◌then◌else◌,
}
use douglas.Text.{Text}
use douglas.Paths.{FilePath}
use douglas.Files.{FileSystemError, is_not_found}
use douglas.Host.{Host, Failure, read_all, write_all, delete}
use douglas.Release.{ReleaseMetadata, InstallMarker, Conflict, start_conflicts}
use douglas.Release.Trailer.{Json, ReleaseError, malformed}

-- `read_if_present` of src/util.rs
abbrev pub if_present : Result FileSystemError (List ℕ) → Result FileSystemError (Option (List ℕ))
if_present (ok contents) = ok (some contents)
if_present (err e) = if is_not_found e then ok none else err e

unfoldable pub read_if_present : FilePath → Host → Result FileSystemError (Option (List ℕ)) × Host
read_if_present p h = let (r, h') = read_all p h in (if_present r, h')

pub data CompatibilityError : Type 0 where
  unreadable write_failed : FilePath → FileSystemError → CompatibilityError
  invalid : FilePath → ReleaseError → CompatibilityError
  incompatible : List Conflict → CompatibilityError

abbrev pub check_conflicts : List Conflict → Result CompatibilityError (Unit {0})
check_conflicts [] = ok tt
check_conflicts (c ∷ cs) = err (incompatible (c ∷ cs))

module _ (json : Json InstallMarker) where
  abbrev pub check_marker :
      FilePath
      → ReleaseMetadata
      → Result String InstallMarker
      → Result CompatibilityError (Unit {0})
  check_marker path running (err e) = err (invalid path (malformed e))
  check_marker path running (ok marker) = check_conflicts (start_conflicts marker running)

  abbrev pub check_raw :
      FilePath
      → ReleaseMetadata
      → Result FileSystemError (Option (List ℕ))
      → Result CompatibilityError (Unit {0})
  check_raw path running (err e) = err (unreadable path e)
  check_raw path running (ok none) = ok tt
  check_raw path running (ok (some raw)) = check_marker path running (json.from_slice raw)

  -- `path` is `DouglasFolders::install_marker`.
  unfoldable pub ensure_compatible :
      FilePath → ReleaseMetadata → Host → Result CompatibilityError (Unit {0}) × Host
  ensure_compatible path running h =
      let (r, h') = read_if_present path h in (check_raw path running r, h')

  abbrev pub write_marker :
      FilePath → Result String (List ℕ) → Host → Result CompatibilityError (Unit {0}) × Host
  write_marker path (err e) h = (err (invalid path (malformed e)), h)
  write_marker path (ok text) h =
      let (r, h') = write_all path text h in (map_err (write_failed path) r, h')

  unfoldable pub record_install :
      FilePath → Text → ReleaseMetadata → Host → Result CompatibilityError (Unit {0}) × Host
  record_install path version running h =
      write_marker path (json.to_vec (record { version = version; metadata = running })) h

pub record UpgradeJournal : Type 0 where
  pub from : Text
  pub to : Text
  pub previous_binary : FilePath
  pub pid : ℕ

pub data JournalError : Type 0 where
  serialize : FilePath → String → JournalError
  journal_unreadable : FilePath → FileSystemError → JournalError
  journal_invalid : FilePath → String → JournalError
  journal_write_failed remove_failed : FilePath → FileSystemError → JournalError

module _ (json : Json UpgradeJournal) where
  abbrev pub write_journal :
      FilePath → Result String (List ℕ) → Host → Result JournalError (Unit {0}) × Host
  write_journal path (err e) h = (err (serialize path e), h)
  write_journal path (ok text) h =
      let (r, h') = write_all path text h in (map_err (journal_write_failed path) r, h')

  -- `record`, which is a keyword here. `path` is `DouglasFolders::upgrade_journal`.
  unfoldable pub record_journal :
      FilePath → UpgradeJournal → Host → Result JournalError (Unit {0}) × Host
  record_journal path journal h = write_journal path (json.to_vec journal) h

  abbrev pub parse_journal :
      FilePath → Result String UpgradeJournal → Result JournalError (Option UpgradeJournal)
  parse_journal path (ok journal) = ok (some journal)
  parse_journal path (err e) = err (journal_invalid path e)

  abbrev pub load_raw :
      FilePath
      → Result FileSystemError (Option (List ℕ))
      → Result JournalError (Option UpgradeJournal)
  load_raw path (err e) = err (journal_unreadable path e)
  load_raw path (ok none) = ok none
  load_raw path (ok (some raw)) = parse_journal path (json.from_slice raw)

  unfoldable pub load : FilePath → Host → Result JournalError (Option UpgradeJournal) × Host
  load path h = let (r, h') = read_if_present path h in (load_raw path r, h')

-- `matches!(os.is_active_pid(journal.pid), Ok(false))`
abbrev pub is_interrupted : Result String Bool → Bool
is_interrupted (ok active) = not active
is_interrupted (err e) = false

abbrev pub removed : FilePath → Failure → Result JournalError (Unit {0})
removed path (ok _) = ok tt
removed path (err e) = if not (is_not_found e) then err (remove_failed path e) else ok tt

unfoldable pub clear : FilePath → Host → Result JournalError (Unit {0}) × Host
clear path h = let (r, h') = delete path h in (removed path r, h')
