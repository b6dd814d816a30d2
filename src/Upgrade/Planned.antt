-- ===== src/Upgrade/Planned.antt =====
-- What it takes to get a plan from `discover` and `create_plan` of src/bootstrap/upgrade.rs.
use douglas.Base.{
  ◌≢◌, if◌then◌else◌, subst, ◌≡◌, refl, sym, ap, ◌∙◌, ◌↔◌, ◌⊎◌, inl, inr, Bool, true, false, not,
  Option, none, some, List, [], ◌∷◌, ◌++◌, Result, ok, ok-injective, arith,
}
use douglas.Text.{Text}
use douglas.Paths.{FilePath}
use douglas.Version.{Version, lt_version}
use douglas.Release.{Difference, differences, start_conflicts}
use douglas.Release.Conflicts.{IsMap, differences_iff, differences-start_conflicts}
use douglas.Upgrade.Plan.{
  Release, UpgradeError, Direction, upgrade, rollback, State, not_root, missing,
  wrong_version_order, upgradable, Observed, in_order, discover, discover_releases, Step,
  mark_executable, set_ownership, retain_previous_binary, restart_previous_version, record_upgrade,
  kill_service, stop_bract, overwrite_douglas_executable, start_new_version, confirm_healthy,
  clear_upgrade_record, steps, refuse, is_restorable, create_plan, unless,
}

-- A release that differs is installed only by an upgrade that was allowed to be one-way.
abbrev pub IsAllowed : Direction → Bool → List Difference → Type 0
IsAllowed direction allow_one_way found =
    (found ≡ []) ⊎ ((direction ≡ upgrade) × (allow_one_way ≡ true))

-- The steps that prepare a candidate, by whether it is executable and whether douglas owns it.
abbrev pub preparation : FilePath → Bool → Bool → List Step
preparation path true true = []
preparation path true false = set_ownership path "root" "douglas-admin" ∷ []
preparation path false true = mark_executable path ∷ []
preparation path false false = mark_executable path ∷ set_ownership path "root" "douglas-admin" ∷ []

-- The earlier version is started again, and its binary restored, where a later step fails.
abbrev pub safe_upgrade : FilePath → Version → Version → List Step
safe_upgrade path current candidate =
    retain_previous_binary current
    ∷ restart_previous_version
    ∷ record_upgrade current candidate
    ∷ kill_service "woodward"
    ∷ stop_bract false
    ∷ kill_service "resin"
    ∷ kill_service "seedbank"
    ∷ overwrite_douglas_executable path current true
    ∷ start_new_version
    ∷ confirm_healthy
    ∷ clear_upgrade_record
    ∷ []

-- Without a way back.
abbrev pub one_way_upgrade : FilePath → Version → Version → List Step
one_way_upgrade path current candidate =
    retain_previous_binary current
    ∷ record_upgrade current candidate
    ∷ kill_service "woodward"
    ∷ stop_bract false
    ∷ kill_service "resin"
    ∷ kill_service "seedbank"
    ∷ overwrite_douglas_executable path current false
    ∷ start_new_version
    ∷ confirm_healthy
    ∷ clear_upgrade_record
    ∷ []

-- `rest` has the way back exactly if there is no difference.
abbrev pub IsRest : FilePath → Version → Version → List Difference → List Step → Type 0
IsRest path current candidate found rest =
    ((found ≡ []) × (rest ≡ safe_upgrade path current candidate))
    ⊎ ((found ≢ []) × (rest ≡ one_way_upgrade path current candidate))

-- What a plan is made from.
pub record IsPlanned (state : State) (path : FilePath) (allow_one_way : Bool)
    (direction : Direction) (plan : List Step) : Type 0 where
  pub current : Version
  pub candidate : Version
  pub found : List Difference
  pub marked : Bool
  pub owned : Bool
  pub rest : List Step
  pub state_is : state ≡ upgradable current candidate found marked owned
  pub allowed : IsAllowed direction allow_one_way found
  pub rest_is : IsRest path current candidate found rest
  pub plan_is : plan ≡ preparation path marked owned ++ rest

-- The steps that come after the preparation.
rest_of : FilePath → Version → Version → List Difference → List Step
rest_of path current candidate [] = safe_upgrade path current candidate
rest_of path current candidate (_ ∷ _) = one_way_upgrade path current candidate

rest_of-IsRest :
    (path : FilePath) (current candidate : Version) (found : List Difference)
    → IsRest path current candidate found (rest_of path current candidate found)
unfolding rest_of
rest_of-IsRest path current candidate [] = inl (refl, refl)
rest_of-IsRest path current candidate (d ∷ ds) = inr ((λ e. cc), refl)

IsRest-rest_of :
    (path : FilePath) (current candidate : Version) (found : List Difference) (rest : List Step)
    → IsRest path current candidate found rest
    → rest ≡ rest_of path current candidate found
unfolding rest_of
IsRest-rest_of path current candidate [] rest (inl (e, same)) = same
IsRest-rest_of path current candidate [] rest (inr (differ, same)) = absurd (differ refl)
IsRest-rest_of path current candidate (d ∷ ds) rest (inl (e, same)) = absurd (cc e)
IsRest-rest_of path current candidate (d ∷ ds) rest (inr (differ, same)) = same

steps-rest_of :
    (path : FilePath) (current candidate : Version) (found : List Difference) (marked owned : Bool)
    → steps path current candidate (is_restorable found) marked owned
      ≡ preparation path marked owned ++ rest_of path current candidate found
unfolding rest_of
steps-rest_of path current candidate [] true true = refl
steps-rest_of path current candidate [] true false = refl
steps-rest_of path current candidate [] false true = refl
steps-rest_of path current candidate [] false false = refl
steps-rest_of path current candidate (d ∷ ds) true true = refl
steps-rest_of path current candidate (d ∷ ds) true false = refl
steps-rest_of path current candidate (d ∷ ds) false true = refl
steps-rest_of path current candidate (d ∷ ds) false false = refl

allowed_one_way :
    (direction : Direction) (allow_one_way : Bool) (d : Difference) (ds : List Difference)
    → IsAllowed direction allow_one_way (d ∷ ds)
    → (direction ≡ upgrade) × (allow_one_way ≡ true)
allowed_one_way direction allow d ds (inl e) = absurd (cc e)
allowed_one_way direction allow d ds (inr a) = a

refuse_iff :
    (direction : Direction) (allow_one_way : Bool) (found : List Difference)
    → (refuse direction allow_one_way found ≡ none) ↔ IsAllowed direction allow_one_way found
refuse_iff direction allow [] = ((λ e. inl refl), λ a. refl)
refuse_iff upgrade true (d ∷ ds) = ((λ e. inr (refl, refl)), λ a. refl)
refuse_iff upgrade false (d ∷ ds) =
    ((λ e. absurd (cc e)), λ a. absurd (cc (allowed_one_way upgrade false d ds a).1))
refuse_iff rollback allow (d ∷ ds) =
    ((λ e. absurd (cc e)), λ a. absurd (cc (allowed_one_way rollback allow d ds a).0))

unless-ok :
    (refused : Option UpgradeError) (all plan : List Step)
    → unless refused all ≡ ok plan
    → (refused ≡ none) × (plan ≡ all)
unless-ok none all plan e = (refl, sym (ok-injective e))
unless-ok (some x) all plan e = absurd (cc e)

create_plan-ok :
    (state : State) (path : FilePath) (allow_one_way : Bool) (direction : Direction)
    (plan : List Step)
    → create_plan state path allow_one_way direction ≡ ok plan
    → IsPlanned state path allow_one_way direction plan
unfolding create_plan
create_plan-ok not_root path allow direction plan e = absurd (cc e)
create_plan-ok missing path allow direction plan e = absurd (cc e)
create_plan-ok wrong_version_order path allow direction plan e = absurd (cc e)
create_plan-ok (upgradable current candidate found marked owned) path allow direction plan e =
    let (r, s) = unless-ok (refuse direction allow found) _ plan e in
    record {
      current = current;
      candidate = candidate;
      found = found;
      marked = marked;
      owned = owned;
      rest = rest_of path current candidate found;
      state_is = refl;
      allowed = (refuse_iff direction allow found).0 r;
      rest_is = rest_of-IsRest path current candidate found;
      plan_is = s ∙ steps-rest_of path current candidate found marked owned;
    }

IsPlanned-create_plan :
    (state : State) (path : FilePath) (allow_one_way : Bool) (direction : Direction)
    (plan : List Step)
    → IsPlanned state path allow_one_way direction plan
    → create_plan state path allow_one_way direction ≡ ok plan
unfolding create_plan
IsPlanned-create_plan state path allow direction plan p =
    subst (λ s. create_plan s path allow direction ≡ ok plan) (sym p.state_is)
      (rw ((refuse_iff direction allow p.found).1 p.allowed) (
        ap ok (
          steps-rest_of path p.current p.candidate p.found p.marked p.owned
          ∙ ap (λ rest. preparation path p.marked p.owned ++ rest)
              (sym (IsRest-rest_of path p.current p.candidate p.found p.rest p.rest_is))
          ∙ sym p.plan_is)))

-- A plan is made exactly for a host that can be upgraded (or rolled back) and whose releases have no
-- difference, or whose upgrade was allowed to be one-way. It is the preparation that the candidate
-- lacks and then, exactly if there is no difference, the steps with the restart of the earlier
-- version and an overwriting that restores its binary, otherwise those without them.
pub create_plan_iff :
    (state : State) (path : FilePath) (allow_one_way : Bool) (direction : Direction)
    (plan : List Step)
    → (create_plan state path allow_one_way direction ≡ ok plan)
      ↔ IsPlanned state path allow_one_way direction plan
create_plan_iff state path allow direction plan = (
  create_plan-ok state path allow direction plan,
  IsPlanned-create_plan state path allow direction plan,
)

abbrev found_of : State → List Difference
found_of (upgradable current candidate found marked owned) = found
found_of _ = []

-- A test that leaves with another state was passed.
passed :
    (failed : Bool) (other s t : State) (rest : Result UpgradeError State)
    → other ≢ t
    → (if failed then ok other else rest) ≡ ok t
    → (failed ≡ false) × (rest ≡ ok t)
passed true other s t rest differ e = absurd (differ (ok-injective e))
passed false other s t rest differ e = (refl, e)

discover_releases-upgradable :
    (o : Observed) (direction : Direction) (new old : Release) (current candidate : Version)
    (found : List Difference) (marked owned : Bool)
    → discover_releases o direction (ok new) (ok old)
      ≡ ok (upgradable current candidate found marked owned)
    → (in_order direction new.version old.version ≡ true)
      × (differences old.metadata new.metadata ≡ found)
discover_releases-upgradable o direction new old c d found m w e =
    let (r, s) =
      passed (not (in_order direction new.version old.version)) wrong_version_order not_root
        (upgradable c d found m w) _ (λ x. cc) e in
    (not-false _ r, ap found_of (ok-injective s))
  where
    not-false : (b : Bool) → not b ≡ false → b ≡ true
    not-false b h = ground arith

discover-upgradable :
    (o : Observed) (direction : Direction) (current candidate : Version) (found : List Difference)
    (marked owned : Bool)
    → discover o direction ≡ ok (upgradable current candidate found marked owned)
    → discover_releases o direction o.external o.internal
      ≡ ok (upgradable current candidate found marked owned)
unfolding discover
discover-upgradable o direction c d found m w e =
    let s = passed (not o.is_root) not_root not_root (upgradable c d found m w) _ (λ x. cc) e in
    (passed (not o.exists) missing not_root (upgradable c d found m w) _ (λ x. cc) s.1).1

-- A rollback is planned only to an older release that starts on the data of this host: whatever
-- version the install marker names, if it has the metadata of the running release, then the release
-- to go back to finds no conflict.
pub rollback_starts :
    (o : Observed) (state : State) (path : FilePath) (allow_one_way : Bool) (plan : List Step)
    (new old : Release) (version : Text)
    → o.external ≡ ok new
    → o.internal ≡ ok old
    → IsMap new.metadata.core
    → IsMap old.metadata.core
    → discover o rollback ≡ ok state
    → create_plan state path allow_one_way rollback ≡ ok plan
    → (lt_version new.version old.version ≡ true)
      × (start_conflicts (record { version = version; metadata = old.metadata }) new.metadata ≡ [])
rollback_starts o state path allow plan new old version x i u w d e =
    let p = create_plan-ok state path allow rollback plan e in
    let f =
      discover-upgradable o rollback p.current p.candidate p.found p.marked p.owned
        (d ∙ ap ok p.state_is) in
    let (ordered, none_found) =
      discover_releases-upgradable o rollback new old p.current p.candidate p.found p.marked p.owned
        (sym (rw (x, i) refl) ∙ f) in
    let (format, core) =
      (differences_iff old.metadata new.metadata w u).0
        (none_found ∙ not_one_way p.found p.allowed) in
    (
      ordered,
      differences-start_conflicts new.metadata old.metadata version u w
          ((differences_iff new.metadata old.metadata u w).1 (sym format, λ k. sym (core k))),
    )
  where
    not_one_way : (found : List Difference) → IsAllowed rollback allow found → found ≡ []
    not_one_way found (inl h) = h
    not_one_way found (inr h) = absurd (cc h.0)
