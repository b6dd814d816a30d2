-- ===== src/Release/Conflicts.antt =====
-- When a release may start on what is installed, and when two releases agree.
use douglas.Base.{
  All-map, ℕ, ◌≤◌, ◌≡◌, ◌↔◌, refl, ◌∙◌, sym, String, Option, none, some, List, [], ◌∷◌, ◌++◌, arith,
  inl, inr, ◌≢◌, Bool-cases, Option-cases, ltb, ◌==◌, str_eq, str_eq_iff, if◌then◌else◌, All,
}
use douglas.Text.{Text}
use douglas.Release.{
  Core, get, ReleaseMetadata, InstallMarker, Conflict, core_conflict, core_conflicts,
  start_conflicts, Difference, core_change, core_changes, core_addition, core_additions,
  differences,
}

-- The running release knows the seedling at this version or a newer one.
abbrev Knows : Option ℕ → ℕ → Type 0
Knows none installed = ⊥
Knows (some running) installed = installed ≤ running

-- A release can run on a marker's data: it reads that format, and knows every core seedling.
abbrev pub CanStart : InstallMarker → ReleaseMetadata → Type 0
CanStart marker running =
    (marker.metadata.format ≤ running.format)
    × All (λ p. Knows (get p.0 running.core) p.1) marker.metadata.core

core_conflict_iff :
    (s : String) (i : ℕ) (o : Option ℕ) (cs : List Conflict)
    → (core_conflict s i o cs ≡ []) ↔ (Knows o i × (cs ≡ []))
core_conflict_iff s i none cs = ((λ e. absurd (cc e)), λ h. absurd h.0)
core_conflict_iff s i (some r) cs = ((λ e. ground arith), λ h. ground arith)

core_conflicts_iff :
    (installed running : Core)
    → (core_conflicts installed running ≡ []) ↔ All (λ p. Knows (get p.0 running) p.1) installed
unfolding core_conflicts
core_conflicts_iff [] running = ((λ _. tt), λ _. refl)
core_conflicts_iff ((s, i) ∷ rest) running =
    let first = core_conflict_iff s i (get s running) (core_conflicts rest running) in
    let others = core_conflicts_iff rest running in
    ((λ e. let (k, r) = first.0 e in (k, others.0 r)), λ h. first.1 (h.0, others.1 h.1))

-- There is no conflict exactly when the release can run on the data.
pub start_conflicts_iff :
    (marker : InstallMarker) (running : ReleaseMetadata)
    → (start_conflicts marker running ≡ []) ↔ CanStart marker running
unfolding start_conflicts
start_conflicts_iff marker running =
    let (sound, complete) = core_conflicts_iff marker.metadata.core running.core in
    elim (Bool-cases (ltb running.format marker.metadata.format)) [
      | inl newer ↦ rw newer ((λ e. absurd (cc e)), λ h. absurd (ground (arith, newer, h.0)))
      | inr older ↦ rw older ((λ e. (ground (arith, older), sound e)), λ h. complete h.1)
    ]

-- The same seedlings at the same versions.
abbrev pub SameCore : Core → Core → Type 0
SameCore m n = (k : String) → get k m ≡ get k n

-- No key occurs twice, as in a map.
abbrev pub IsMap : Core → Type 0
IsMap [] = Unit
IsMap ((k, v) ∷ m) = (get k m ≡ none) × IsMap m

get-All :
    (P : String → ℕ → Type 0) (k : String) (v : ℕ) (m : Core)
    → All (λ p. P p.0 p.1) m
    → get k m ≡ some v
    → P k v
unfolding get
get-All P k v [] a e = absurd (cc e)
get-All P k v ((j, w) ∷ m) a e = elim (Bool-cases (str_eq j k)) [
  | inl same ↦
      let key : j ≡ k = (str_eq_iff j k).0 same in
      let value : w ≡ v = ground (arith, same, e) in rw (← key, ← value) a.0
  | inr other ↦ get-All P k v m a.1 (ground (arith, other, e))
]

get_behind :
    (k j : String) (v w : ℕ) (m : Core)
    → get k m ≡ none
    → get j m ≡ some w
    → get j ((k, v) ∷ m) ≡ some w
unfolding get
get_behind k j v w m absent e = elim (Bool-cases (str_eq k j)) [
  | inl same ↦ absurd (cc (absent, e, (str_eq_iff k j).0 same))
  | inr other ↦ rw other e
]

get_front : (k : String) (v : ℕ) (m : Core) → get k ((k, v) ∷ m) ≡ some v
unfolding get
get_front k v m = rw ((str_eq_iff k k).1 refl)

entries_found :
    (all rest : Core)
    → IsMap rest
    → ((k : String) (v : ℕ) → get k rest ≡ some v → get k all ≡ some v)
    → All (λ p. get p.0 all ≡ some p.1) rest
entries_found all [] u h = tt
entries_found all ((k, v) ∷ rest) u h = (
  h k v (get_front k v rest),
  entries_found all rest u.1 (λ j w e. h j w (get_behind k j v w rest u.0 e)),
)

-- A map's entries are what `get` finds.
pub IsMap-entries : (m : Core) → IsMap m → All (λ p. get p.0 m ≡ some p.1) m
IsMap-entries m u = entries_found m m u (λ k v e. e)

core_changes_iff :
    (from to : Core) → (core_changes from to ≡ []) ↔ All (λ p. get p.0 to ≡ some p.1) from
unfolding core_changes
core_changes_iff [] to = ((λ _. tt), λ _. refl)
core_changes_iff ((k, v) ∷ rest) to =
    let first = core_change_iff k v (get k to) (core_changes rest to) in
    let others = core_changes_iff rest to in
    ((λ e. let (p, r) = first.0 e in (p, others.0 r)), λ h. first.1 (h.0, others.1 h.1))
  where
    core_change_iff :
        (k : String) (v : ℕ) (o : Option ℕ) (ds : List Difference)
        → (core_change k v o ds ≡ []) ↔ ((o ≡ some v) × (ds ≡ []))
    core_change_iff k v none ds = ((λ e. absurd (cc e)), λ h. absurd (cc h.0))
    core_change_iff k v (some w) ds = ((λ e. (ground arith, ground arith)), λ h. ground arith)

core_additions_iff :
    (from to : Core) → (core_additions from to ≡ []) ↔ All (λ p. get p.0 from ≢ none) to
unfolding core_additions
core_additions_iff from [] = ((λ _. tt), λ _. refl)
core_additions_iff from ((k, v) ∷ rest) =
    let first = core_addition_iff k v (get k from) (core_additions from rest) in
    let others = core_additions_iff from rest in
    ((λ e. let (p, r) = first.0 e in (p, others.0 r)), λ h. first.1 (h.0, others.1 h.1))
  where
    core_addition_iff :
        (k : String) (v : ℕ) (o : Option ℕ) (ds : List Difference)
        → (core_addition k v o ds ≡ []) ↔ ((o ≢ none) × (ds ≡ []))
    core_addition_iff k v none ds = ((λ e. absurd (cc e)), λ h. absurd (h.0 refl))
    core_addition_iff k v (some w) ds = ((λ e. ((λ z. absurd (cc z)), e)), λ h. h.1)

append-nil_iff {ℓ} : {A : Type ℓ} (xs ys : List A) → (xs ++ ys ≡ []) ↔ ((xs ≡ []) × (ys ≡ []))
append-nil_iff [] ys = ((λ e. (refl, e)), λ h. h.1)
append-nil_iff (x ∷ xs) ys = ((λ e. absurd (cc e)), λ h. absurd (cc h.0))

SameCore-entries :
    (from to : Core)
    → All (λ p. get p.0 to ≡ some p.1) from
    → All (λ p. get p.0 from ≢ none) to
    → SameCore from to
SameCore-entries from to a b k = elim (Option-cases (get k from)) [
  | inr (v, e) ↦ rw (e, get-All (λ k v. get k to ≡ some v) k v from a e)
  | inl absent ↦ elim (Option-cases (get k to)) [
    | inl none_too ↦ rw (absent, none_too)
    | inr (w, e) ↦ absurd (get-All (λ k v. get k from ≢ none) k w to b e absent)
  ]
]

entries-SameCore :
    (from to : Core) → IsMap from → SameCore from to → All (λ p. get p.0 to ≡ some p.1) from
entries-SameCore from to u same =
    All-map (λ p. get p.0 from ≡ some p.1) (λ p. get p.0 to ≡ some p.1) from
      (λ p e. sym (same p.0) ∙ e) (IsMap-entries from u)

format_iff : (a b : ℕ) → ((if a == b then [] else Difference.format a b ∷ []) ≡ []) ↔ (a ≡ b)
format_iff a b = ((λ e. ground arith), λ e. ground arith)

-- Two releases have no difference exactly when their formats agree and their core maps have the
-- same seedlings at the same versions.
pub differences_iff :
    (from to : ReleaseMetadata)
    → IsMap from.core
    → IsMap to.core
    → (differences from to ≡ []) ↔ ((from.format ≡ to.format) × SameCore from.core to.core)
unfolding differences
differences_iff from to u w = (agree, none_differ)
  where
    agree : differences from to ≡ [] → (from.format ≡ to.format) × SameCore from.core to.core
    agree e =
        let (f, rest) = (append-nil_iff _ _).0 e in
        let (c, a) = (append-nil_iff _ _).0 rest in
        (
          (format_iff from.format to.format).0 f,
          SameCore-entries from.core to.core ((core_changes_iff from.core to.core).0 c)
              ((core_additions_iff from.core to.core).0 a),
        )

    none_differ : (from.format ≡ to.format) × SameCore from.core to.core → differences from to ≡ []
    none_differ h = (append-nil_iff _ _).1 (
      (format_iff from.format to.format).1 h.0,
      (append-nil_iff _ _).1 (
        (core_changes_iff from.core to.core).1 (entries-SameCore from.core to.core u h.1),
        (core_additions_iff from.core to.core).1 (
            All-map (λ p. get p.0 from.core ≡ some p.1) (λ p. get p.0 from.core ≢ none) to.core
              (λ p e z. absurd (cc (e, z)))
              (entries-SameCore to.core from.core w (λ k. sym (h.1 k)))),
      ),
    )

-- What makes a rollback safe: if two releases have no difference, then the old one starts on the
-- data that the new one has marked, whatever version the marker names.
pub differences-start_conflicts :
    (old new : ReleaseMetadata) (version : Text)
    → IsMap old.core
    → IsMap new.core
    → differences old new ≡ []
    → start_conflicts (record { version = version; metadata = new }) old ≡ []
differences-start_conflicts old new version u w e =
    let (f, same) = (differences_iff old new u w).0 e in
    (start_conflicts_iff _ old).1 (
      omega (arith, f),
      All-map (λ p. get p.0 old.core ≡ some p.1) (λ p. Knows (get p.0 old.core) p.1) new.core
          (λ p found. rw found (omega arith))
          (entries-SameCore new.core old.core w (λ k. sym (same k))),
    )
