-- ===== src/Upgrade/Rollback.antt =====
-- src/bootstrap/rollback.rs: the choice of a kept version to go back to, and its staging.
use douglas.Base.{
  map_err-eq-ok, ◌≡◌, refl, sym, ap, subst, ◌∙◌, true, Option, none, some, List, Result, ok, err,
  map_err, ok-injective,
}
use douglas.Text.{Text, codes}
use douglas.Paths.{FilePath, join_name}
use douglas.Files.{FileSystemError}
use douglas.Disk.{File, lookup, Differs}
use douglas.Host.{Host, Failure, list_folder, delete}
use douglas.StagedCopy.{copy_keeping_owner}
use douglas.StagedCopy.Owner.{copy_keeping_owner-ok}
use douglas.Version.{Version, VersionParseError, from_str, lt_version}
use douglas.Retention.{RollbackTargetError, rollback_target}
use douglas.Retention.Rollback.{IsTarget, rollback_target-IsTarget}
use douglas.Upgrade.Steps.{retained_path}

pub data RollbackError : Type 0 where
  not_a_version : Text → RollbackError
  listing staging : FileSystemError → RollbackError
  target : RollbackTargetError → RollbackError

abbrev parsed : Text → Result VersionParseError Version → Result RollbackError (Option Version)
parsed text (ok v) = ok (some v)
parsed text (err e) = err (not_a_version text)

-- `.map(…).transpose()`
abbrev parse_requested : Option Text → Result RollbackError (Option Version)
parse_requested none = ok none
parse_requested (some text) = parsed text (from_str text)

abbrev chosen :
    Version
    → Option Version
    → Result FileSystemError (List Text) × Host
    → Result RollbackError Version × Host
chosen current requested (ok names, h) =
    (map_err target (rollback_target names current requested), h)
chosen current requested (err e, h) = (err (listing e), h)

abbrev choose_from :
    FilePath
    → Version
    → Result RollbackError (Option Version)
    → Host
    → Result RollbackError Version × Host
choose_from binary_dir current (ok requested) h =
    chosen current requested (list_folder binary_dir h)
choose_from binary_dir current (err e) h = (err e, h)

unfoldable pub choose :
    FilePath → Version → Option Text → Host → Result RollbackError Version × Host
choose binary_dir current requested h = choose_from binary_dir current (parse_requested requested) h

abbrev pub rollback_staging : FilePath → FilePath
rollback_staging binary_dir = join_name binary_dir (codes "douglas-rollback.staging")

abbrev staged : FilePath → Failure × Host → Result RollbackError FilePath × Host
staged path (ok _, h) = (ok path, h)
staged path (err e, h) = (err (staging e), h)

unfoldable pub stage : FilePath → Version → Host → Result RollbackError FilePath × Host
stage binary_dir version h =
    staged (rollback_staging binary_dir)
      (copy_keeping_owner (retained_path binary_dir version) (rollback_staging binary_dir) h)

unfoldable pub unstage : FilePath → Host → Host
unstage path h = (delete path h).1

IsTarget-older :
    (names : List Text) (current : Version) (requested : Option Version) (v : Version)
    → IsTarget names current requested (ok v)
    → lt_version v current ≡ true
IsTarget-older names current none v t = t.0
IsTarget-older names current (some r) v t = ap (λ x. lt_version x current) t.0 ∙ t.1

choose_from-older :
    (dir : FilePath) (current : Version) (r : Result RollbackError (Option Version)) (h : Host)
    (v : Version)
    → (choose_from dir current r h).0 ≡ ok v
    → lt_version v current ≡ true
choose_from-older dir current (err e) h v c = absurd (cc c)
choose_from-older dir current (ok requested) h v c = listed (list_folder dir h) c
  where
    listed :
        (l : Result FileSystemError (List Text) × Host)
        → (chosen current requested l).0 ≡ ok v
        → lt_version v current ≡ true
    listed (err e, k) d = absurd (cc d)
    listed (ok names, k) d = IsTarget-older names current requested v (
        subst (IsTarget names current requested) (map_err-eq-ok target _ v d)
          (rollback_target-IsTarget names current requested))

staged-ok :
    (path p : FilePath) (r : Failure × Host)
    → (staged path r).0 ≡ ok p
    → (p ≡ path) × (r.0 ≡ ok tt) × ((staged path r).1 ≡ r.1)
staged-ok path p (ok tt, h) e = (sym (ok-injective e), refl, refl)
staged-ok path p (err x, h) e = absurd (cc e)

-- A rollback that chose a version and staged it has, at the path that it hands on, the whole file of
-- a version that is older than the running one.
pub stage-choose :
    (binary_dir : FilePath) (current : Version) (requested : Option Text) (h : Host) (v : Version)
    (p : FilePath)
    → Differs (retained_path binary_dir v) (rollback_staging binary_dir)
    → (choose binary_dir current requested h).0 ≡ ok v
    → (stage binary_dir v (choose binary_dir current requested h).1).0 ≡ ok p
    → (lt_version v current ≡ true)
      × ((f : File) × (lookup
              (retained_path binary_dir v)
              (choose binary_dir current requested h).1.disk
            ≡ some f)
          × (lookup p (stage binary_dir v (choose binary_dir current requested h).1).1.disk
              ≡ some f))
unfolding choose stage
stage-choose dir current requested h v p d c s =
    let h' = (choose dir current requested h).1 in
    let (is_path, copied, same) = staged-ok (rollback_staging dir) p _ s in
    let (f, at_kept, at_staging) =
      copy_keeping_owner-ok (retained_path dir v) (rollback_staging dir) h' d copied in
    (
      choose_from-older dir current (parse_requested requested) h v c,
      (
        f,
        at_kept,
        ap (λ q. lookup q (stage dir v h').1.disk) is_path
            ∙ ap (λ k. lookup (rollback_staging dir) k.disk) same
            ∙ at_staging,
      ),
    )
