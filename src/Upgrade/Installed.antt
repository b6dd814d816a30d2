-- ===== src/Upgrade/Installed.antt =====
-- What the steps of src/bootstrap/upgrade.rs leave at the path that the link points to, the target.
use douglas.Base.{◌≡◌, refl, sym, ap, ◌∙◌, true, false, some, ok, err, Bool-cases, inl, inr}
use douglas.Paths.{FilePath}
use douglas.Files.{FileSystemError, is_cross_device}
use douglas.Disk.{File, lookup, remove, Differs, lookup-put}
use douglas.Host.{Host, Failure, rename, delete}
use douglas.Host.Effects.{Touches, delete-Touches, rename-ok, rename-err, rename-others}
use douglas.StagedCopy.{install_copy}
use douglas.StagedCopy.Atomic.{install_copy-ok, install_copy-err, install_copy-others}
use douglas.Upgrade.Steps.{
  Folders, staging_path, install_target, with_path, after, copy_into_place, or_copy, overwrite,
}

-- The paths of one upgrade, which are different from each other: the new binary, the staging path
-- and the target.
pub record IsPlace (c : Folders) (path staging target : FilePath) : Type 0 where
  pub target_is : install_target c ≡ ok target
  pub staging_is : staging_path target ≡ ok staging
  pub path_staging : Differs path staging
  pub path_target : Differs path target
  pub staging_target : Differs staging target

-- The file at `path` is at `target` now.
abbrev pub Moved : FilePath → FilePath → Host → Host → Type 0
Moved path target h h' =
    (f : File) × (lookup path h.disk ≡ some f) × (lookup target h'.disk ≡ some f)

pub after-ok :
    (r : Failure × Host) (next : Host → Failure × Host)
    → (after r next).0 ≡ ok tt
    → (r.0 ≡ ok tt) × (after r next ≡ next r.1)
after-ok (ok tt, h) next e = (refl, refl)
after-ok (err x, h) next e = absurd (cc e)

pub after-err :
    (r : Failure × Host) (next : Host → Failure × Host) (x : FileSystemError)
    → ((h : Host) → (next h).0 ≡ ok tt)
    → (after r next).0 ≡ err x
    → (r.0 ≡ err x) × (after r next ≡ r)
after-err (ok tt, h) next x good e = absurd (cc (good h))
after-err (err y, h) next x good e = (e, refl)

module _ (c : Folders) (path staging target : FilePath)
    (place : IsPlace c path staging target) where
  finish : Host → Failure × Host
  finish h' = (ok tt, (delete path h').1)

  copy_into_place_is :
      (h : Host) → copy_into_place path target h ≡ after (install_copy path staging target h) finish
  unfolding copy_into_place finish
  copy_into_place_is h =
      ap (λ s. after (with_path s (λ p. install_copy path p target) h) finish) place.staging_is

  copy_into_place-ok :
      (h : Host)
      → (copy_into_place path target h).0 ≡ ok tt
      → Moved path target h (copy_into_place path target h).1
  unfolding finish
  copy_into_place-ok h e =
      let copied = install_copy path staging target h in
      let same = copy_into_place_is h in
      let (e₁, s₁) = after-ok copied finish (sym (ap (λ r. r.0) same) ∙ e) in
      let (f, at_path, at_target, clean) =
        install_copy-ok path staging target h place.path_staging place.staging_target e₁ in
      (
        f,
        at_path,
        ap (λ r. lookup target r.1.disk) (same ∙ s₁)
            ∙ delete-Touches path copied.1 target place.path_target
            ∙ at_target,
      )

  copy_into_place-err :
      (h : Host) (x : FileSystemError)
      → (copy_into_place path target h).0 ≡ err x
      → Touches staging h (copy_into_place path target h).1
  unfolding finish
  copy_into_place-err h x e q d =
      let copied = install_copy path staging target h in
      let same = copy_into_place_is h in
      let (e₁, s₁) = after-err copied finish x (λ h'. refl) (sym (ap (λ r. r.0) same) ∙ e) in
      ap (λ r. lookup q r.1.disk) (same ∙ s₁) ∙ install_copy-err path staging target h x e₁ q d

  crosses :
      (x : FileSystemError) (h : Host)
      → is_cross_device x ≡ true
      → or_copy path target (err x, h) ≡ copy_into_place path target h
  crosses x h b = rw (or_copy, b) refl

  stays :
      (x : FileSystemError) (h : Host)
      → is_cross_device x ≡ false
      → or_copy path target (err x, h) ≡ (err x, h)
  stays x h b = rw (or_copy, b) refl

  unchanged :
      (h : Host) (x : FileSystemError) (h' : Host)
      → ◌≡◌ {A = Failure × Host} (err x, h') (rename path target h)
      → h'.disk ≡ h.disk
  unchanged h x h' s = ap (λ r. r.1.disk) s ∙ rename-err path target h x (sym (ap (λ r. r.0) s))

  not_ok : (x : FileSystemError) → ◌≡◌ {A = Failure} (err x) (ok tt) → ⊥
  not_ok x e = cc e

  or_copy-ok :
      (h : Host) (r : Failure × Host)
      → r ≡ rename path target h
      → (or_copy path target r).0 ≡ ok tt
      → Moved path target h (or_copy path target r).1
  or_copy-ok h (ok tt, h') s e =
      let (f, at_path, disk) = rename-ok path target h (sym (ap (λ r. r.0) s)) in
      (
        f,
        at_path,
        ap (lookup target) (ap (λ r. r.1.disk) s ∙ disk) ∙ lookup-put target f (remove path h.disk),
      )
  or_copy-ok h (err x, h') s e = elim (Bool-cases (is_cross_device x)) [
    | inl b ↦
        let crossed = crosses x h' b in
        let (f, at_path, at_target) = copy_into_place-ok h' (sym (ap (λ r. r.0) crossed) ∙ e) in
        (
          f,
          sym (ap (lookup path) (unchanged h x h' s)) ∙ at_path,
          ap (λ r. lookup target r.1.disk) crossed ∙ at_target,
        )
    | inr b ↦ absurd (not_ok x (sym (ap (λ r. r.0) (stays x h' b)) ∙ e))
  ]

  or_copy-err :
      (h : Host) (r : Failure × Host) (x : FileSystemError)
      → r ≡ rename path target h
      → (or_copy path target r).0 ≡ err x
      → Touches staging h (or_copy path target r).1
  or_copy-err h (ok tt, h') x s e q d = absurd (cc e)
  or_copy-err h (err y, h') x s e q d = elim (Bool-cases (is_cross_device y)) [
    | inl b ↦
        let crossed = crosses y h' b in
        ap (λ r. lookup q r.1.disk) crossed
        ∙ copy_into_place-err h' x (sym (ap (λ r. r.0) crossed) ∙ e) q d
        ∙ ap (lookup q) (unchanged h y h' s)
    | inr b ↦ ap (λ r. lookup q r.1.disk) (stays y h' b) ∙ ap (lookup q) (unchanged h y h' s)
  ]

  overwrite_is : (h : Host) → overwrite c path h ≡ or_copy path target (rename path target h)
  unfolding overwrite
  overwrite_is h =
      ap (λ s. with_path s (λ t h'. or_copy path t (rename path t h')) h) place.target_is

  -- The new binary is installed when the step says so, whether it is renamed or, across devices,
  -- copied.
  pub overwrite-ok :
      (h : Host) → (overwrite c path h).0 ≡ ok tt → Moved path target h (overwrite c path h).1
  overwrite-ok h e =
      let s = overwrite_is h in
      let (f, at_path, at_target) =
        or_copy-ok h (rename path target h) refl (sym (ap (λ r. r.0) s) ∙ e) in
      (f, at_path, ap (λ r. lookup target r.1.disk) s ∙ at_target)

  -- When it fails, the target is as it was, and so is the new binary: nothing but the staging path
  -- is changed.
  pub overwrite-err :
      (h : Host) (x : FileSystemError)
      → (overwrite c path h).0 ≡ err x
      → Touches staging h (overwrite c path h).1
  overwrite-err h x e q d =
      let s = overwrite_is h in
      ap (λ r. lookup q r.1.disk) s
      ∙ or_copy-err h (rename path target h) x refl (sym (ap (λ r. r.0) s) ∙ e) q d

  copy_into_place-others :
      (q : FilePath) (h : Host)
      → Differs path q
      → Differs staging q
      → Differs target q
      → lookup q (copy_into_place path target h).1.disk ≡ lookup q h.disk
  unfolding finish
  copy_into_place-others q h d₁ d₂ d₃ =
      ap (λ r. lookup q r.1.disk) (copy_into_place_is h)
      ∙ finished (install_copy path staging target h)
      ∙ install_copy-others path staging target q h d₂ d₃
    where
      finished : (r : Failure × Host) → lookup q (after r finish).1.disk ≡ lookup q r.1.disk
      finished (ok tt, k) = delete-Touches path k q d₁
      finished (err x, k) = refl

  or_copy-others :
      (q : FilePath) (h : Host) (r : Failure × Host)
      → Differs path q
      → Differs staging q
      → Differs target q
      → lookup q r.1.disk ≡ lookup q h.disk
      → lookup q (or_copy path target r).1.disk ≡ lookup q h.disk
  or_copy-others q h (ok tt, k) d₁ d₂ d₃ e = e
  or_copy-others q h (err x, k) d₁ d₂ d₃ e = elim (Bool-cases (is_cross_device x)) [
    | inl b ↦ ap (λ r. lookup q r.1.disk) (crosses x k b) ∙ copy_into_place-others q k d₁ d₂ d₃ ∙ e
    | inr b ↦ ap (λ r. lookup q r.1.disk) (stays x k b) ∙ e
  ]

  -- No other file is changed, however the calls end.
  pub overwrite-others :
      (q : FilePath) (h : Host)
      → Differs path q
      → Differs staging q
      → Differs target q
      → lookup q (overwrite c path h).1.disk ≡ lookup q h.disk
  overwrite-others q h d₁ d₂ d₃ =
      ap (λ r. lookup q r.1.disk) (overwrite_is h)
      ∙ or_copy-others q h (rename path target h) d₁ d₂ d₃ (rename-others path target q h d₁ d₃)
