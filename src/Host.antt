-- ===== src/Host.antt =====
-- The operations on files of file_system/src/lib.rs. How the operating system answers each call is
-- in the state: a list of answers, one for each call, and a call beyond the list goes well.
pub mod Effects
use douglas.Base.{
  ℕ, ◌≡◌, refl, String, Bool, true, false, Option, none, some, List, [], ◌∷◌, ◌++◌, Result, ok, err,
  if◌then◌else◌, map,
}
use douglas.Text.{Text}
use douglas.Paths.{FilePath, same_path}
use douglas.Files.{
  FileSystemError, IoErrorKind, not_found, io_error, io_error_at_path, system_error,
}
use douglas.Disk.{File, Disk, lookup, put, remove, entries}

-- A call that fails has its error; where it writes a file, it may have written some bytes before.
pub data Answer : Type 0 where
  done : Answer
  fails : FileSystemError → Option (List ℕ) → Answer

pub record Host : Type 0 where
  pub disk : Disk
  pub answers : List Answer

abbrev first : List Answer → Answer
first [] = done
first (a ∷ _) = a

abbrev others : List Answer → List Answer
others [] = []
others (_ ∷ rest) = rest

abbrev pub answer : Host → Answer
answer h = first h.answers

abbrev pub set_disk : Disk → Host → Host
set_disk d h = record { disk = d; answers = others h.answers }

abbrev pub Failure : Type 0
Failure = Result FileSystemError (Unit {0})

-- A file that the process makes is its own; one that it writes over keeps its owner.
abbrev pub owned_like : Option File → List ℕ → File → File
owned_like none bytes f = record {
  contents = bytes;
  owner = "root";
  group = "root";
  executable_by_owner = f.executable_by_owner;
  executable_by_group = f.executable_by_group;
}
owned_like (some old) bytes f = record {
  contents = bytes;
  owner = old.owner;
  group = old.group;
  executable_by_owner = f.executable_by_owner;
  executable_by_group = f.executable_by_group;
}

-- What lies at `to` when a copy of `f` stops in between.
abbrev torn : FilePath → File → Option (List ℕ) → Disk → Disk
torn to f none d = d
torn to f (some bytes) d = put to (owned_like (lookup to d) bytes f) d

-- `std::fs::copy` onto itself empties the file.
abbrev pub copied : FilePath → FilePath → File → List ℕ
copied from to f = if same_path from to then [] else f.contents

abbrev copy_found : FilePath → FilePath → Option File → Answer → Host → Failure × Host
copy_found from to none a h = (err (io_error_at_path from not_found), set_disk h.disk h)
copy_found from to (some f) (fails e bytes) h = (err e, set_disk (torn to f bytes h.disk) h)
copy_found from to (some f) done h =
    (ok tt, set_disk (put to (owned_like (lookup to h.disk) (copied from to f) f) h.disk) h)

unfoldable pub copy : FilePath → FilePath → Host → Failure × Host
copy from to h = copy_found from to (lookup from h.disk) (answer h) h

abbrev pub rename_found : FilePath → FilePath → Option File → Answer → Host → Failure × Host
rename_found from to none a h = (err (io_error_at_path from not_found), set_disk h.disk h)
rename_found from to (some f) (fails e bytes) h = (err e, set_disk h.disk h)
rename_found from to (some f) done h = (ok tt, set_disk (put to f (remove from h.disk)) h)

-- `rename` is atomic: it happens or it does not.
unfoldable pub rename : FilePath → FilePath → Host → Failure × Host
rename from to h = rename_found from to (lookup from h.disk) (answer h) h

abbrev pub delete_found : FilePath → Option File → Answer → Host → Failure × Host
delete_found p none a h = (ok tt, h)
delete_found p (some f) (fails e bytes) h = (err e, set_disk h.disk h)
delete_found p (some f) done h = (ok tt, set_disk (remove p h.disk) h)

-- A file that is not there is deleted without a call.
unfoldable pub delete : FilePath → Host → Failure × Host
delete p h = delete_found p (lookup p h.disk) (answer h) h

abbrev owner_found : Option File → Answer → Result FileSystemError (String × String)
owner_found none a = err (system_error "ENOENT: No such file or directory")
owner_found (some f) (fails e bytes) = err e
owner_found (some f) done = ok (f.owner, f.group)

unfoldable pub get_user_and_group_ownership :
    FilePath → Host → Result FileSystemError (String × String) × Host
get_user_and_group_ownership p h = (owner_found (lookup p h.disk) (answer h), set_disk h.disk h)

abbrev chown_found : FilePath → String → String → Option File → Answer → Host → Failure × Host
chown_found p user group none a h = (err (io_error not_found), set_disk h.disk h)
chown_found p user group (some f) (fails e bytes) h = (err e, set_disk h.disk h)
chown_found p user group (some f) done h =
    (ok tt, set_disk (put p (record f { owner = user; group = group }) h.disk) h)

unfoldable pub change_user_and_group_ownership : FilePath → String → String → Host → Failure × Host
change_user_and_group_ownership p user group h =
    chown_found p user group (lookup p h.disk) (answer h) h

abbrev mode_found : Option File → Answer → Result FileSystemError (Bool × Bool)
mode_found none a = err (system_error "ENOENT: No such file or directory")
mode_found (some f) (fails e bytes) = err e
mode_found (some f) done = ok (f.executable_by_owner, f.executable_by_group)

-- Of the mode, the bits that let the owner and the group execute the file.
unfoldable pub get_mode : FilePath → Host → Result FileSystemError (Bool × Bool) × Host
get_mode p h = (mode_found (lookup p h.disk) (answer h), set_disk h.disk h)

abbrev chmod_found : FilePath → Bool × Bool → Option File → Answer → Host → Failure × Host
chmod_found p mode none a h = (err (io_error not_found), set_disk h.disk h)
chmod_found p mode (some f) (fails e bytes) h = (err e, set_disk h.disk h)
chmod_found p (by_owner, by_group) (some f) done h = (
  ok tt,
  set_disk
      (put p (record f { executable_by_owner = by_owner; executable_by_group = by_group }) h.disk)
      h,
)

unfoldable pub change_mode : FilePath → Bool × Bool → Host → Failure × Host
change_mode p mode h = chmod_found p mode (lookup p h.disk) (answer h) h

abbrev listed : FilePath → Answer → Disk → Result FileSystemError (List Text)
listed dir (fails e bytes) d = err e
listed dir done d = ok (entries dir d)

-- `Folder::entries`, by the names alone.
unfoldable pub list_folder : FilePath → Host → Result FileSystemError (List Text) × Host
list_folder dir h = (listed dir (answer h) h.disk, set_disk h.disk h)

abbrev read_found : FilePath → Option File → Answer → Result FileSystemError (List ℕ)
read_found p none a = err (io_error_at_path p not_found)
read_found p (some f) (fails e bytes) = err e
read_found p (some f) done = ok f.contents

unfoldable pub read_all : FilePath → Host → Result FileSystemError (List ℕ) × Host
read_all p h = (read_found p (lookup p h.disk) (answer h), set_disk h.disk h)

-- A file that is written again keeps its owner and its mode.
abbrev pub written : Option File → List ℕ → File
written none bytes = record {
  contents = bytes;
  owner = "root";
  group = "root";
  executable_by_owner = false;
  executable_by_group = false;
}
written (some old) bytes = record old { contents = bytes }

abbrev write_answered : FilePath → List ℕ → Answer → Host → Failure × Host
write_answered p bytes (fails e none) h = (err e, set_disk h.disk h)
write_answered p bytes (fails e (some part)) h =
    (err e, set_disk (put p (written (lookup p h.disk) part) h.disk) h)
write_answered p bytes done h = (ok tt, set_disk (put p (written (lookup p h.disk) bytes) h.disk) h)

-- `write_all` and `write_all_bytes`
unfoldable pub write_all : FilePath → List ℕ → Host → Failure × Host
write_all p bytes h = write_answered p bytes (answer h) h

abbrev pub appended : Option File → List ℕ → File
appended none bytes = written none bytes
appended (some old) bytes = record old { contents = old.contents ++ bytes }

abbrev pub append_answered : FilePath → List ℕ → Answer → Host → Failure × Host
append_answered p bytes (fails e none) h = (err e, set_disk h.disk h)
append_answered p bytes (fails e (some part)) h =
    (err e, set_disk (put p (appended (lookup p h.disk) part) h.disk) h)
append_answered p bytes done h =
    (ok tt, set_disk (put p (appended (lookup p h.disk) bytes) h.disk) h)

-- A file that is not there is made.
unfoldable pub append_all_bytes : FilePath → List ℕ → Host → Failure × Host
append_all_bytes p bytes h = append_answered p bytes (answer h) h
