-- ===== src/Upgrade/Executed.antt =====
-- The steps that change files as commands of the executor, and a run of them that fails.
use douglas.Base.{ℕ, ◌≡◌, String, Bool, true, false, List, [], ◌∷◌, ok}
use douglas.Text.{Text}
use douglas.Paths.{FilePath, join_name}
use douglas.Files.{FileSystemError}
use douglas.Disk.{lookup}
use douglas.Host.{Host, Failure}
use douglas.Version.{Version}
use douglas.Blueprint.Executor.{
  Command, ExecutionResult, success, failed, Outcome, run_command, rollback, run,
}
use douglas.Upgrade.Steps.{
  Folders, retained_path, retain_previous_binary, overwrite, rollback_overwrite,
}
use douglas.Upgrade.Installed.{IsPlace}
use douglas.Upgrade.Restored.{IsAside}

abbrev pub HostCommand : Type 1
HostCommand = Command Host FileSystemError

abbrev with_state : Failure × Host → Failure × Unit {0} × Host
with_state (r, h) = (r, tt, h)

-- `RetainPreviousBinary`, with the default `rollback` and `skip` of the trait.
abbrev pub retain_command : Folders → Version → HostCommand
retain_command c current = record {
  State = Unit {0};
  state = tt;
  name = λ _. "Keep the current version for rollback";
  run = λ _ h. with_state (retain_previous_binary c current h);
  rollback = λ _ h. (ok tt, tt, h);
  skip = λ _ h. false;
}

-- `OverwriteDouglasExecutable`
abbrev pub overwrite_command : Folders → FilePath → Version → Bool → HostCommand
overwrite_command c path previous restorable = record {
  State = Unit {0};
  state = tt;
  name = λ _. "Overwrite current version with new version";
  run = λ _ h. with_state (overwrite c path h);
  rollback = λ _ h. with_state (rollback_overwrite c previous restorable h);
  skip = λ _ h. false;
}

module _ (c : Folders) (current : Version) (path staging target partial : FilePath) (name : Text)
    (a : IsAside c current target partial) (p : IsPlace c path staging target)
    (in_folder : target ≡ join_name c.binary_dir name) where
  -- The two steps, and one that comes after them.
  abbrev pub steps : HostCommand → List HostCommand
  steps later = retain_command c current ∷ overwrite_command c path current true ∷ later ∷ []

  abbrev retained : FilePath
  retained = retained_path c.binary_dir current

  errors_of : ExecutionResult FileSystemError → List FileSystemError
  errors_of success = []
  errors_of (failed i n e errors) = errors

  abbrev Same : Host → Outcome Host FileSystemError → Type 0
  Same h o =
      (i : ℕ) (n : String) (e : FileSystemError)
      → o.0 ≡ failed i n e []
      → lookup target o.2.disk ≡ lookup target h.disk

  -- What the later step may do: it leaves the retained file alone.
  abbrev pub Spares : HostCommand → Type 0
  Spares later = (k : Host) → lookup retained (run_command later k).2.disk ≡ lookup retained k.disk
