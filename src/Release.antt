-- ===== src/Release.antt =====
-- release/src/lib.rs: release metadata, what stops a start, how two releases differ, and the block
-- of metadata at the end of a binary. A `BTreeMap` is its list of entries in the order of the keys.
pub mod Conflicts
pub mod Trailer
use Prim.Native.String.{compare}
use Prim.Native.Nat.{Ordering}
use douglas.Base.{
  ℕ, ◌+◌, ◌-◌, ◌*◌, ◌/◌, ◌%◌, ◌^◌, ◌≤◌, ◌<◌, ◌≡◌, String, Bool, true, false, not, Option, none,
  some, List, [], ◌∷◌, ◌++◌, Result, ok, err, ltb, leb, ◌==◌, str_eq, if◌then◌else◌, length, take,
  drop, ◌>>=◌, map,
}
use douglas.Text.{Text}

abbrev pub Core : Type 0
Core = List (String × ℕ)

unfoldable pub get : String → Core → Option ℕ
get k [] = none
get k ((j, v) ∷ m) = let rest = get k m in if str_eq j k then some v else rest

-- `BTreeMap::insert`
unfoldable pub insert : String → ℕ → Core → Core
insert k v [] = (k, v) ∷ []
insert k v ((j, w) ∷ m) = elim (compare k j) [
  | Ordering.lt ↦ (k, v) ∷ (j, w) ∷ m
  | Ordering.eq ↦ (k, v) ∷ m
  | Ordering.gt ↦ (j, w) ∷ insert k v m
]

unfoldable pub collect : Core → Core
unfolding insert
collect [] = []
collect ((k, v) ∷ m) = insert k v (collect m)

pub record ReleaseMetadata : Type 0 where
  pub format : ℕ
  pub core : Core

pub record InstallMarker : Type 0 where
  pub version : Text
  pub metadata : ReleaseMetadata

-- config/src/lib.rs
abbrev pub data_format : ℕ
data_format = 1

abbrev pub core_versions : Core
core_versions = ("traefik", 1) ∷ ("openbao", 1) ∷ []

unfoldable pub current : ReleaseMetadata
unfolding collect
current = record { format = data_format; core = collect core_versions }

pub data Conflict : Type 0 where
  format_newer : ℕ → ℕ → Conflict
  core_newer : String → ℕ → ℕ → Conflict
  core_unknown : String → ℕ → Conflict

abbrev pub core_conflict : String → ℕ → Option ℕ → List Conflict → List Conflict
core_conflict seedling installed none conflicts = core_unknown seedling installed ∷ conflicts
core_conflict seedling installed (some running) conflicts =
    if ltb running installed then core_newer seedling installed running ∷ conflicts else conflicts

-- The loop over the marker's core seedlings.
unfoldable pub core_conflicts : Core → Core → List Conflict
core_conflicts [] running = []
core_conflicts ((seedling, installed) ∷ rest) running =
    core_conflict seedling installed (get seedling running) (core_conflicts rest running)

unfoldable pub start_conflicts : InstallMarker → ReleaseMetadata → List Conflict
start_conflicts marker running =
    (if ltb running.format marker.metadata.format
      then format_newer marker.metadata.format running.format ∷ []
      else [])
    ++ core_conflicts marker.metadata.core running.core

pub data Difference : Type 0 where
  format : ℕ → ℕ → Difference
  core_version : String → ℕ → ℕ → Difference
  core_added : String → ℕ → Difference
  core_removed : String → ℕ → Difference

abbrev pub core_change : String → ℕ → Option ℕ → List Difference → List Difference
core_change seedling from none result = core_removed seedling from ∷ result
core_change seedling from (some to) result =
    if to == from then result else core_version seedling from to ∷ result

-- The loop over `from.core`.
unfoldable pub core_changes : Core → Core → List Difference
core_changes [] to = []
core_changes ((seedling, from) ∷ rest) to =
    core_change seedling from (get seedling to) (core_changes rest to)

abbrev pub core_addition : String → ℕ → Option ℕ → List Difference → List Difference
core_addition seedling version none result = core_added seedling version ∷ result
core_addition seedling version (some _) result = result

-- The loop over `to.core`.
unfoldable pub core_additions : Core → Core → List Difference
core_additions from [] = []
core_additions from ((seedling, version) ∷ rest) =
    core_addition seedling version (get seedling from) (core_additions from rest)

unfoldable pub differences : ReleaseMetadata → ReleaseMetadata → List Difference
differences from to =
    (if from.format == to.format then [] else format from.format to.format ∷ [])
    ++ (core_changes from.core to.core ++ core_additions from.core to.core)
