-- ===== src/Tests/Upgrade.antt =====
-- One upgrade on a small disk: the link points to `douglas.bin`, version 0.0.1 runs.
use douglas.Base.{
  subst, ok-injective, In, ℕ, ◌≡◌, refl, String, true, false, none, some, List, [], ◌∷◌, ok, err,
}
use douglas.Text.{codes, show_u8, split, parse_u8}
use douglas.Paths.{FilePath, same_path, file_name, with_file_name}
use douglas.Files.{FileSystemError, crosses_devices, other, io_error_at_path, is_cross_device}
use douglas.Disk.{File, Disk, lookup, remove, entries}
use douglas.Host.{
  Host, Answer, fails, copy, rename, delete, get_user_and_group_ownership,
  change_user_and_group_ownership, list_folder,
}
use douglas.Host.Effects.{Touches}
use douglas.StagedCopy.{copy_keeping_owner, install_copy}
use douglas.StagedCopy.Atomic.{install_copy-ok}
use douglas.Version.{Version, to_string, from_str}
use douglas.Sort.{sort}
use douglas.Retention.{retained_name, partial_name, expired, retained, parse_retained}
use douglas.Upgrade.Steps.{
  Folders, partial_path, staging_path, install_target, copy_aside, prune, retain_previous_binary,
  delete_each, overwrite, copy_into_place, restore_previous, rollback_overwrite,
}
use douglas.Upgrade.Installed.{IsPlace, Moved, overwrite-err}
use douglas.Upgrade.Restored.{IsAside, Survives, retain_previous_binary-ok, upgrade_restores}

abbrev pub bin : FilePath
bin = record { absolute = true; names = codes "bin" ∷ [] }

abbrev pub in_bin : String → FilePath
in_bin name = record { absolute = true; names = codes name ∷ codes "bin" ∷ [] }

abbrev pub target : FilePath
target = in_bin "douglas.bin"

abbrev pub fresh_path : FilePath
fresh_path = record { absolute = true; names = codes "new" ∷ codes "tmp" ∷ [] }

abbrev pub folders : Folders
folders = record {
  binary_dir = bin;
  link = ok (record { absolute = false; names = codes "douglas.bin" ∷ [] });
}

abbrev pub binary : ℕ → File
binary n = record {
  contents = n ∷ [];
  owner = "root";
  group = "douglas-admin";
  executable_by_owner = true;
  executable_by_group = true;
}

abbrev pub running : Version
running = record { major = 0; minor = 0; patch = 1 }

abbrev pub disk : Disk
disk = (target, binary 1) ∷ (fresh_path, binary 2) ∷ []

abbrev pub host : List Answer → Host
host answers = record { disk = disk; answers = answers }

-- The rename of the new binary finds that it crosses devices.
abbrev crossing : Answer
crossing = fails (io_error_at_path fresh_path crosses_devices) none

pub place : IsPlace folders fresh_path (in_bin "douglas.bin.upgrade") target
unfolding install_target staging_path file_name with_file_name same_path
place = record {
  target_is = refl;
  staging_is = refl;
  path_staging = refl;
  path_target = refl;
  staging_target = refl;
}

overwritten : (overwrite folders fresh_path (host (crossing ∷ []))).0 ≡ ok tt
unfolding overwrite install_target copy_into_place staging_path file_name with_file_name same_path
    lookup remove copy rename delete get_user_and_group_ownership change_user_and_group_ownership
    copy_keeping_owner install_copy is_cross_device
overwritten = refl

abbrev pub refused : FileSystemError
refused = io_error_at_path fresh_path (other "EACCES")

overwrite_fails : (overwrite folders fresh_path (host (fails refused none ∷ []))).0 ≡ err refused
unfolding overwrite install_target lookup rename is_cross_device same_path
overwrite_fails = refl

overwrite-err_example :
    Touches
      (in_bin "douglas.bin.upgrade")
      (host (fails refused none ∷ []))
      (overwrite folders fresh_path (host (fails refused none ∷ []))).1
overwrite-err_example =
    overwrite-err folders fresh_path (in_bin "douglas.bin.upgrade") target place
      (host (fails refused none ∷ [])) refused overwrite_fails

installed : (install_copy fresh_path (in_bin "staging") target (host [])).0 ≡ ok tt
unfolding install_copy copy_keeping_owner same_path lookup remove copy rename delete
    get_user_and_group_ownership change_user_and_group_ownership
installed = refl

install_copy-ok_example :
    (f : File) × (lookup fresh_path disk ≡ some f)
    × (lookup target (install_copy fresh_path (in_bin "staging") target (host [])).1.disk ≡ some f)
    × (lookup
          (in_bin "staging")
          (install_copy fresh_path (in_bin "staging") target (host [])).1.disk
        ≡ none)
unfolding same_path
install_copy-ok_example =
    install_copy-ok fresh_path (in_bin "staging") target (host []) refl refl installed

-- The copy stops after a byte, and what it left is deleted.
abbrev stopping : List Answer
stopping = fails refused (some (2 ∷ [])) ∷ []

stopped : (install_copy fresh_path (in_bin "staging") target (host stopping)).0 ≡ err refused
unfolding install_copy copy_keeping_owner same_path lookup remove copy delete
stopped = refl

pub aside : IsAside folders running target (in_bin "douglas-0.0.1.partial")
unfolding install_target partial_path file_name with_file_name same_path retained_name to_string
    show_u8 partial_name
aside = record {
  target_is = refl;
  partial_is = refl;
  target_partial = refl;
  partial_retained = refl;
  target_retained = refl;
}

pub survives : Survives bin (retained_name running) (copy_aside folders running (host [])).1
unfolding install_target partial_path staging_path file_name with_file_name same_path retained_name
    to_string show_u8 install_copy copy_keeping_owner lookup remove copy rename delete
    get_user_and_group_ownership change_user_and_group_ownership list_folder entries expired sort
    retained parse_retained from_str split parse_u8 partial_name
survives names e i =
    absurd
      (subst (λ l. In (retained_name running) (expired l 3) → ⊥) (ok-injective e) nothing_expires i)
  where
    nothing_expires :
        In (retained_name running) (expired (retained_name running ∷ codes "douglas.bin" ∷ []) 3)
        → ⊥
    nothing_expires j = j

retains : (retain_previous_binary folders running (host [])).0 ≡ ok tt
unfolding install_target partial_path staging_path file_name with_file_name same_path retained_name
    to_string show_u8 install_copy copy_keeping_owner lookup remove copy rename delete
    get_user_and_group_ownership change_user_and_group_ownership list_folder entries expired sort
    retained parse_retained from_str split parse_u8 partial_name retain_previous_binary prune
    delete_each
retains = refl

retain_previous_binary-ok_example :
    Moved target
      (in_bin "douglas-0.0.1")
      (host [])
      (retain_previous_binary folders running (host [])).1
unfolding retained_name to_string show_u8
retain_previous_binary-ok_example =
    retain_previous_binary-ok folders running target (in_bin "douglas-0.0.1.partial") (host [])
      aside survives retains

abbrev kept : Host
kept = (retain_previous_binary folders running (host [])).1

then_overwritten : (overwrite folders fresh_path kept).0 ≡ ok tt
unfolding install_target partial_path staging_path file_name with_file_name same_path retained_name
    to_string show_u8 install_copy copy_keeping_owner lookup remove copy rename delete
    get_user_and_group_ownership change_user_and_group_ownership list_folder entries expired sort
    retained parse_retained from_str split parse_u8 partial_name retain_previous_binary prune
    delete_each overwrite is_cross_device copy_into_place
then_overwritten = refl

rolled_back :
    (rollback_overwrite folders running true (overwrite folders fresh_path kept).1).0 ≡ ok tt
unfolding install_target partial_path staging_path file_name with_file_name same_path retained_name
    to_string show_u8 install_copy copy_keeping_owner lookup remove copy rename delete
    get_user_and_group_ownership change_user_and_group_ownership list_folder entries expired sort
    retained parse_retained from_str split parse_u8 partial_name retain_previous_binary prune
    delete_each overwrite is_cross_device copy_into_place rollback_overwrite restore_previous
rolled_back = refl

upgrade_restores_example :
    lookup target
      (rollback_overwrite folders running true (overwrite folders fresh_path kept).1).1.disk
    ≡ lookup target disk
unfolding same_path retained_name to_string show_u8
upgrade_restores_example =
    upgrade_restores folders running fresh_path (in_bin "douglas.bin.upgrade") target
      (in_bin "douglas-0.0.1.partial") (host []) aside place refl refl survives retains
      then_overwritten rolled_back
