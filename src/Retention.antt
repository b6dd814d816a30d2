-- ===== src/Retention.antt =====
-- src/bootstrap/retention.rs: the versions kept beside the running one.
pub mod Names
pub mod Rollback
pub mod Expiry
use douglas.Base.{
  ℕ, ◌≡◌, Bool, true, false, not, Option, none, some, List, [], ◌∷◌, ◌++◌, map, Result, ok, err,
  ok_or, drop, if◌then◌else◌,
}
use douglas.Text.{Text, codes, strip_prefix}
use douglas.Version.{Version, to_string, from_str, lt_version, same_version}
use douglas.Sort.{sort}

abbrev pub retained_count : ℕ
retained_count = 3

abbrev pub prefix : Text
prefix = codes "douglas-"

unfoldable pub retained_name : Version → Text
retained_name v = prefix ++ to_string v

-- `.ok()`
abbrev pub to_option {ℓ} : {E : Type 0} {A : Type ℓ} → Result E A → Option A
to_option (ok a) = some a
to_option (err e) = none

abbrev pub parse_rest : Option Text → Option Version
parse_rest none = none
parse_rest (some rest) = to_option (from_str rest)

unfoldable pub parse_retained : Text → Option Version
parse_retained name = parse_rest (strip_prefix prefix name)

-- A path in one folder: `join` and `with_file_name` act on the name alone.
unfoldable pub partial_name : Text → Text
partial_name name = name ++ codes ".partial"

pub data RollbackTargetError : Type 0 where
  nothing_to_roll_back_to : RollbackTargetError
  not_kept : Version → List Version → RollbackTargetError
  not_older : Version → Version → RollbackTargetError

abbrev pub push_version : Option Version → Text → List (Version × Text) → List (Version × Text)
push_version none name rest = rest
push_version (some v) name rest = (v, name) ∷ rest

-- The names that parse, with their versions.
unfoldable pub retained : List Text → List (Version × Text)
retained [] = []
retained (name ∷ names) = push_version (parse_retained name) name (retained names)

abbrev pub versions : List Text → List Version
versions names = map (λ p. p.0) (retained names)

-- "Does not come after" for `sort` and for `sort_by_key` with `Reverse`.
abbrev pub oldest_first : Version → Version → Bool
oldest_first a b = not (lt_version b a)

abbrev pub newest_first : Version × Text → Version × Text → Bool
newest_first a b = not (lt_version a.0 b.0)

abbrev pub contains : Version → List Version → Bool
contains v [] = false
contains v (w ∷ ws) = let rest = contains v ws in if same_version w v then true else rest

-- `rfind`: the last entry that passes.
abbrev pub or_older : Option Version → Version → Version → Option Version
or_older (some w) v current = some w
or_older none v current = if lt_version v current then some v else none

unfoldable pub rfind_older : Version → List Version → Option Version
rfind_older current [] = none
rfind_older current (v ∷ vs) = or_older (rfind_older current vs) v current

abbrev requested_target :
    List Version → Version → Option Version → Result RollbackTargetError Version
requested_target kept current none = ok_or (rfind_older current kept) nothing_to_roll_back_to
requested_target kept current (some v) =
    if not (lt_version v current)
    then err (not_older v current)
    else if contains v kept
    then ok v
    else err (not_kept v kept)

unfoldable pub rollback_target :
    List Text → Version → Option Version → Result RollbackTargetError Version
rollback_target names current requested =
    requested_target (sort oldest_first (versions names)) current requested

unfoldable pub expired : List Text → ℕ → List Text
expired names keep = map (λ p. p.1) (drop keep (sort newest_first (retained names)))
