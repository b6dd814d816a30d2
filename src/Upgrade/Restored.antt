-- ===== src/Upgrade/Restored.antt =====
-- Retaining the running binary, overwriting it, and restoring it, of src/bootstrap/upgrade.rs.
use douglas.Base.{
  ◌≡◌, refl, sym, ap, ◌∙◌, true, false, some, List, [], ◌∷◌, Result, ok, err, In, inl, inr,
  Bool-cases,
}
use douglas.Text.{Text, same_text}
use douglas.Paths.{FilePath, same_path, same_path_sound, join_name}
use douglas.Files.{FileSystemError}
use douglas.Disk.{lookup, Differs, Differs-sym}
use douglas.Host.{Host, delete, list_folder}
use douglas.Host.Effects.{delete-Touches}
use douglas.StagedCopy.{install_copy}
use douglas.StagedCopy.Atomic.{install_copy-ok}
use douglas.Version.{Version}
use douglas.Retention.{retained_name, expired, retained_count}
use douglas.Upgrade.Steps.{
  Folders, retained_path, partial_path, staging_path, install_target, copy_aside, prune,
  prune_listed, delete_each, retain_previous_binary, restore_previous, overwrite,
  rollback_overwrite,
}
use douglas.Upgrade.Installed.{IsPlace, Moved, after-ok, overwrite-others}

abbrev IsNot : Text → Text → Type 0
IsNot a b = same_text a b ≡ false

join_name-Differs :
    (dir : FilePath) (a b : Text) → (a ≡ b → ⊥) → Differs (join_name dir a) (join_name dir b)
join_name-Differs dir a b differ =
    elim (Bool-cases (same_path (join_name dir a) (join_name dir b))) [
      | inl e ↦ absurd (differ (last_same (ap (λ p. p.names) (same_path_sound _ _ e))))
      | inr e ↦ e
    ]
  where
    last_same : {ns ms : List Text} {x y : Text} → ◌≡◌ {A = List Text} (x ∷ ns) (y ∷ ms) → x ≡ y
    last_same e = cc

-- Deleting other names of the folder leaves a file of it alone.
delete_each-others :
    (dir : FilePath) (kept : Text) (names : List Text) (h : Host)
    → (In kept names → ⊥)
    → lookup (join_name dir kept) (delete_each dir names h).disk
      ≡ lookup (join_name dir kept) h.disk
unfolding delete_each
delete_each-others dir kept [] h out = refl
delete_each-others dir kept (name ∷ names) h out =
    delete_each-others dir kept names (delete (join_name dir name) h).1 (λ i. out (inr i))
    ∙ delete-Touches (join_name dir name) h (join_name dir kept)
        (join_name-Differs dir name kept (λ e. out (inl (sym e))))

-- The pruning that follows on `h` passes over `kept`.
abbrev pub Survives : FilePath → Text → Host → Type 0
Survives dir kept h =
    (names : List Text)
    → (list_folder dir h).0 ≡ ok names
    → In kept (expired names retained_count)
    → ⊥

pub prune-Survives :
    (dir : FilePath) (kept : Text) (h : Host)
    → Survives dir kept h
    → lookup (join_name dir kept) (prune dir h).disk ≡ lookup (join_name dir kept) h.disk
unfolding prune list_folder
prune-Survives dir kept h s = listed (list_folder dir h) s (same_disk dir h)
  where
    same_disk : (d : FilePath) (k : Host) → (list_folder d k).1.disk ≡ k.disk
    same_disk d k = refl

    listed :
        (r : Result FileSystemError (List Text) × Host)
        → ((names : List Text) → r.0 ≡ ok names → In kept (expired names retained_count) → ⊥)
        → r.1.disk ≡ h.disk
        → lookup (join_name dir kept) (prune_listed dir r).disk ≡ lookup (join_name dir kept) h.disk
    listed (ok names, k) out e =
        delete_each-others dir kept (expired names retained_count) k (out names refl)
        ∙ ap (lookup (join_name dir kept)) e
    listed (err x, k) out e = ap (lookup (join_name dir kept)) e

-- The paths of the step that retains the running version.
pub record IsAside (c : Folders) (current : Version) (target partial : FilePath) : Type 0 where
  pub target_is : install_target c ≡ ok target
  pub partial_is : partial_path (retained_path c.binary_dir current) ≡ some partial
  pub target_partial : Differs target partial
  pub partial_retained : Differs partial (retained_path c.binary_dir current)
  pub target_retained : Differs target (retained_path c.binary_dir current)

pub copy_aside_is :
    (c : Folders) (current : Version) (target partial : FilePath) (h : Host)
    → IsAside c current target partial
    → copy_aside c current h ≡ install_copy target partial (retained_path c.binary_dir current) h
copy_aside_is c current target partial h a = rw (a.target_is, a.partial_is) refl

-- The step that keeps the running version has it at its own name, the whole file, if the pruning
-- passes over that name; the target is as it was.
pub retain_previous_binary-ok :
    (c : Folders) (current : Version) (target partial : FilePath) (h : Host)
    → IsAside c current target partial
    → Survives c.binary_dir (retained_name current) (copy_aside c current h).1
    → (retain_previous_binary c current h).0 ≡ ok tt
    → Moved target (retained_path c.binary_dir current) h (retain_previous_binary c current h).1
unfolding retain_previous_binary
retain_previous_binary-ok c current target partial h a survives e =
    let aside = copy_aside c current h in
    let s = copy_aside_is c current target partial h a in
    let (e₁, s₁) = after-ok aside (λ h'. (ok tt, prune c.binary_dir h')) e in
    let (f, at_target, at_retained, clean) =
      install_copy-ok target partial (retained_path c.binary_dir current) h a.target_partial
        a.partial_retained (sym (ap (λ r. r.0) s) ∙ e₁) in
    (
      f,
      at_target,
      ap (λ r. lookup (retained_path c.binary_dir current) r.1.disk) s₁
          ∙ prune-Survives c.binary_dir (retained_name current) aside.1 survives
          ∙ ap (λ r. lookup (retained_path c.binary_dir current) r.1.disk) s
          ∙ at_retained,
    )

-- A rollback of the overwriting step that is restorable puts the retained file at the target.
pub rollback_overwrite-ok :
    (c : Folders) (previous : Version) (target staging : FilePath) (h : Host)
    → install_target c ≡ ok target
    → staging_path target ≡ ok staging
    → Differs (retained_path c.binary_dir previous) staging
    → Differs staging target
    → (rollback_overwrite c previous true h).0 ≡ ok tt
    → Moved (retained_path c.binary_dir previous) target h (rollback_overwrite c previous true h).1
unfolding rollback_overwrite restore_previous
rollback_overwrite-ok c previous target staging h t g d₁ d₂ e =
    let s = restored in
    let (f, at_retained, at_target, clean) =
      install_copy-ok (retained_path c.binary_dir previous) staging target h d₁ d₂
        (sym (ap (λ r. r.0) s) ∙ e) in
    (f, at_retained, ap (λ r. lookup target r.1.disk) s ∙ at_target)
  where
    restored :
        rollback_overwrite c previous true h
        ≡ install_copy (retained_path c.binary_dir previous) staging target h
    restored = rw (t, g) refl

-- The upgrade can be taken back: if the running version was retained and survived the pruning, the
-- new binary was installed over it, and the installation was rolled back, each without an error,
-- then the target is the file that it was, with its contents, owner and mode.
pub upgrade_restores :
    (c : Folders) (current : Version) (path staging target partial : FilePath) (h : Host)
    → IsAside c current target partial
    → IsPlace c path staging target
    → Differs path (retained_path c.binary_dir current)
    → Differs staging (retained_path c.binary_dir current)
    → Survives c.binary_dir (retained_name current) (copy_aside c current h).1
    → (retain_previous_binary c current h).0 ≡ ok tt
    → (overwrite c path (retain_previous_binary c current h).1).0 ≡ ok tt
    → (rollback_overwrite c current true
        (overwrite c path (retain_previous_binary c current h).1).1).0
      ≡ ok tt
    → lookup target
        (rollback_overwrite c current true
          (overwrite c path (retain_previous_binary c current h).1).1).1.disk
      ≡ lookup target h.disk
upgrade_restores c current path staging target partial h a p d₁ d₂ survives e₁ e₂ e₃ =
    let h₁ = (retain_previous_binary c current h).1 in
    let h₂ = (overwrite c path h₁).1 in
    let retained = retained_path c.binary_dir current in
    let (f, at_target, at_retained) =
      retain_previous_binary-ok c current target partial h a survives e₁ in
    let (g, at_retained', at_end) =
      rollback_overwrite-ok c current target staging h₂ p.target_is p.staging_is
        (Differs-sym staging retained d₂) p.staging_target e₃ in
    at_end
    ∙ sym at_retained'
    ∙ overwrite-others c path staging target p retained h₁ d₁ d₂ a.target_retained
    ∙ at_retained
    ∙ sym at_target
