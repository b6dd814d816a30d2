-- ===== src/Tests/Retention.antt =====
-- A folder with three kept versions and other files.
use douglas.Base.{ℕ, ◌≡◌, ◌↔◌, ◌≤◌, refl, none, List, [], ◌∷◌, ok, In, inl, inr, arith}
use douglas.Text.{Text, codes, split, show_u8, parse_u8}
use douglas.Version.{Version, to_string, from_str, next}
use douglas.Retention.{
  parse_retained, retained_name, rollback_target, expired, retained, rfind_older,
}
use douglas.Retention.Rollback.{IsTarget, rollback_target-IsTarget}
use douglas.Retention.Expiry.{count_newer, expired_iff}
use douglas.Sort.{sort}

abbrev version : ℕ → Version
version n = record { major = 0; minor = 0; patch = n }

abbrev names : List Text
names =
    codes "douglas"
    ∷ codes "douglas-0.0.3"
    ∷ codes "douglas-0.0.1"
    ∷ codes "douglas-rollback.staging"
    ∷ codes "douglas-0.0.2"
    ∷ []

rejected_text :
    (parse_retained (codes "douglas-01.2.3") ≡ none)
    × (parse_retained (codes "douglas-1.2.3.partial") ≡ none)
unfolding parse_retained from_str to_string next split show_u8 parse_u8
rejected_text = (refl, refl)

default_target : rollback_target names (version 3) none ≡ ok (version 2)
unfolding rollback_target sort retained rfind_older parse_retained from_str to_string next split
    show_u8 parse_u8
default_target = refl

rollback_target-IsTarget_example : IsTarget names (version 3) none (ok (version 2))
unfolding rollback_target sort retained rfind_older parse_retained from_str to_string next split
    show_u8 parse_u8
rollback_target-IsTarget_example = rollback_target-IsTarget names (version 3) none

expired_of_four : expired names 2 ≡ codes "douglas-0.0.1" ∷ []
unfolding expired sort retained parse_retained from_str to_string next split show_u8 parse_u8
expired_of_four = refl

expired_iff_example :
    In (retained_name (version 1)) (expired names 2) ↔ (2 ≤ count_newer (version 1) names)
unfolding retained_name to_string show_u8
expired_iff_example =
    expired_iff names 2 (version 1) (omega arith) (inr (inr (inl refl))) (omega arith)
