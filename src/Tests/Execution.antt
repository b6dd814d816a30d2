-- ===== src/Tests/Execution.antt =====
-- The upgrade of Tests.Upgrade as a run of the executor whose last step fails.
use douglas.Base.{none, ◌∷◌, ◌≡◌, refl, false, List, [], ok, err}
use douglas.Text.{codes, show_u8, split, parse_u8}
use douglas.Paths.{same_path, file_name, with_file_name}
use douglas.Sort.{sort}
use douglas.Disk.{lookup, remove, entries}
use douglas.Host.{
  Host, copy, rename, delete, get_user_and_group_ownership, change_user_and_group_ownership,
  list_folder,
}
use douglas.StagedCopy.{copy_keeping_owner, install_copy}
use douglas.Version.{to_string, from_str}
use douglas.Retention.{retained_name, partial_name, expired, retained, parse_retained}
use douglas.Blueprint.Executor.{rollback, run}
use douglas.Upgrade.Steps.{partial_path, install_target, prune, delete_each, retain_previous_binary}
use douglas.Upgrade.Executed.{HostCommand, steps}
use douglas.Tests.Upgrade.{
  in_bin, target, fresh_path, folders, running, disk, binary, place, aside, refused,
}

abbrev unhealthy : HostCommand
unhealthy = record {
  State = Unit {0};
  state = tt;
  name = λ _. "Confirm the new version is healthy";
  run = λ _ h. (err refused, tt, h);
  rollback = λ _ h. (ok tt, tt, h);
  skip = λ _ h. false;
}

abbrev upgrade_steps : List HostCommand
upgrade_steps =
    steps folders running fresh_path (in_bin "douglas.bin.upgrade") target
      (in_bin "douglas-0.0.1.partial") (codes "douglas.bin") aside place refl unhealthy

-- After a rollback three newer versions are kept, and the pruning takes the one just retained.
abbrev after_rollback : Host
after_rollback = record {
  disk =
      (in_bin "douglas-0.0.2", binary 2)
      ∷ (in_bin "douglas-0.0.3", binary 3)
      ∷ (in_bin "douglas-0.0.4", binary 4)
      ∷ disk;
  answers = [];
}

retained_is_pruned :
    ((retain_previous_binary folders running after_rollback).0 ≡ ok tt)
    × (lookup
          (in_bin "douglas-0.0.1")
          (retain_previous_binary folders running after_rollback).1.disk
        ≡ none)
unfolding install_target partial_path file_name with_file_name same_path retained_name to_string
    show_u8 install_copy copy_keeping_owner lookup remove copy rename delete
    get_user_and_group_ownership change_user_and_group_ownership list_folder entries expired sort
    retained parse_retained from_str split parse_u8 partial_name retain_previous_binary prune
    delete_each
retained_is_pruned = (refl, refl)
