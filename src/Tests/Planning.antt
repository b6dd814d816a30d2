-- ===== src/Tests/Planning.antt =====
-- A rollback from 0.0.2 to 0.0.1, and a host on which every service runs.
use douglas.Base.{ℕ, ◌≤◌, ◌≡◌, ◌↔◌, refl, String, true, false, List, [], ◌∷◌, ok, All}
use douglas.Text.{codes}
use douglas.Paths.{FilePath}
use douglas.Version.{lt_version}
use douglas.Release.{
  ReleaseMetadata, differences, core_changes, core_additions, get, start_conflicts,
}
use douglas.Release.Conflicts.{IsMap}
use douglas.Upgrade.Plan.{
  Release, rollback, State, upgradable, Observed, Step, steps, discover, create_plan,
}
use douglas.Upgrade.Planned.{IsPlanned, create_plan_iff, rollback_starts}
use douglas.Upgrade.Health.{Poll, core_services, confirm_healthy}
use douglas.Upgrade.Health.Noted.{Runs}
use douglas.Upgrade.Health.Confirmed.{confirm_healthy_iff}

abbrev metadata : ReleaseMetadata
metadata = record { format = 1; core = ("openbao", 1) ∷ ("traefik", 1) ∷ [] }

abbrev release : ℕ → Release
release n = record { version = record { major = 0; minor = 0; patch = n }; metadata = metadata }

abbrev observed : Observed
observed = record {
  is_root = true;
  exists = true;
  external = ok (release 1);
  internal = ok (release 2);
  executable_by_owner_and_group = ok (true, true);
  user_and_group = ok ("root", "douglas-admin");
}

abbrev path : FilePath
path = record { absolute = true; names = codes "douglas-rollback.staging" ∷ codes "bin" ∷ [] }

abbrev state : State
state = upgradable (release 2).version (release 1).version [] true true

abbrev plan : List Step
plan = steps path (release 2).version (release 1).version true true true

discovered : discover observed rollback ≡ ok state
unfolding discover differences core_changes core_additions get
discovered = refl

planned : create_plan state path false rollback ≡ ok plan
unfolding create_plan
planned = refl

metadata-IsMap : IsMap metadata.core
unfolding get
metadata-IsMap = (refl, (refl, tt))

create_plan_iff_example :
    (create_plan state path false rollback ≡ ok plan) ↔ IsPlanned state path false rollback plan
create_plan_iff_example = create_plan_iff state path false rollback plan

rollback_starts_example :
    (lt_version (release 1).version (release 2).version ≡ true)
    × (start_conflicts (record { version = codes "0.0.2"; metadata = metadata }) metadata ≡ [])
rollback_starts_example =
    rollback_starts observed state path false plan (release 1) (release 2) (codes "0.0.2") refl refl
      metadata-IsMap metadata-IsMap discovered planned

-- Every service runs as process 7.
abbrev all_run : ℕ → Poll
all_run j service = record { pid = ok 7; is_active = λ pid. ok true }

confirm_healthy_iff_example : (confirm_healthy all_run ≡ ok tt) ↔ (
    (pids : String → ℕ) × ((j : ℕ) → j ≤ 10 → All (λ s. Runs (all_run j) s (pids s)) core_services))
confirm_healthy_iff_example = confirm_healthy_iff all_run
