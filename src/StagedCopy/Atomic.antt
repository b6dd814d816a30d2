-- ===== src/StagedCopy/Atomic.antt =====
-- What `install_copy` leaves on the disk.
use douglas.Base.{◌≡◌, refl, sym, ◌∙◌, ap, none, some, ok, err}
use douglas.Paths.{FilePath}
use douglas.Files.{FileSystemError}
use douglas.Disk.{
  File, lookup, remove, Differs, Differs-sym, lookup-put, lookup-put_other, lookup-remove,
}
use douglas.Host.{Host, Failure, rename}
use douglas.Host.Effects.{Touches, delete-Touches, rename-ok, rename-err, rename-others}
use douglas.StagedCopy.{clean_up, copy_keeping_owner, rename_staged, install_copy}
use douglas.StagedCopy.Owner.{
  clean_up-Touches, clean_up-ok, copy_keeping_owner-Touches, copy_keeping_owner-ok,
}

rename_staged-ok :
    (staging target : FilePath) (r : Failure × Host)
    → (rename_staged staging target r).0 ≡ ok tt
    → (r.0 ≡ ok tt)
      × ((rename staging target r.1).0 ≡ ok tt)
      × (rename_staged staging target r ≡ rename staging target r.1)
rename_staged-ok staging target (ok tt, h') e =
    let (e₁, s₁) = clean_up-ok staging (rename staging target h') e in (refl, e₁, s₁)
rename_staged-ok staging target (err x, h') e = absurd (cc e)

-- Where the copy is put in its place, the target is the whole file and the staging path is empty.
pub install_copy-ok :
    (from staging target : FilePath) (h : Host)
    → Differs from staging
    → Differs staging target
    → (install_copy from staging target h).0 ≡ ok tt
    → (f : File) × (lookup from h.disk ≡ some f)
      × (lookup target (install_copy from staging target h).1.disk ≡ some f)
      × (lookup staging (install_copy from staging target h).1.disk ≡ none)
unfolding install_copy
install_copy-ok from staging target h d₁ d₂ e =
    let c = copy_keeping_owner from staging h in
    let (e₁, e₂, s) = rename_staged-ok staging target c e in
    let (f, at_from, at_staging) = copy_keeping_owner-ok from staging h d₁ e₁ in
    let (g, at_staging', disk) = rename-ok staging target c.1 e₂ in
    let whole = ap (λ r. r.1.disk) s ∙ disk in
    (
      f,
      at_from,
      ap (lookup target) whole
          ∙ lookup-put target g (remove staging c.1.disk)
          ∙ sym at_staging'
          ∙ at_staging,
      ap (lookup staging) whole
          ∙ lookup-put_other target staging g (remove staging c.1.disk)
              (Differs-sym staging target d₂)
          ∙ lookup-remove staging c.1.disk,
    )

clean_up-err :
    (p : FilePath) (h : Host) (r : Failure × Host) (x : FileSystemError)
    → ((y : FileSystemError) → r.0 ≡ err y → Touches p h r.1)
    → (clean_up p r).0 ≡ err x
    → Touches p h (clean_up p r).1
clean_up-err p h (ok tt, h') x t e = absurd (cc e)
clean_up-err p h (err y, h') x t e = clean_up-Touches p h (err y, h') (t y refl)

rename_staged-err :
    (staging target : FilePath) (h : Host) (r : Failure × Host) (x : FileSystemError)
    → Touches staging h r.1
    → (rename_staged staging target r).0 ≡ err x
    → Touches staging h (rename_staged staging target r).1
rename_staged-err staging target h (ok tt, h') x t e =
    clean_up-err staging h (rename staging target h') x
      (λ y f q d. ap (lookup q) (rename-err staging target h' y f) ∙ t q d) e
rename_staged-err staging target h (err x', h') x t e = t

-- Where it is not, nothing but the staging path is changed: the target is as it was.
pub install_copy-err :
    (from staging target : FilePath) (h : Host) (x : FileSystemError)
    → (install_copy from staging target h).0 ≡ err x
    → Touches staging h (install_copy from staging target h).1
unfolding install_copy
install_copy-err from staging target h x e =
    rename_staged-err staging target h (copy_keeping_owner from staging h) x
      (copy_keeping_owner-Touches from staging h) e

rename_staged-others :
    (staging target q : FilePath) (h : Host) (r : Failure × Host)
    → Differs staging q
    → Differs target q
    → lookup q r.1.disk ≡ lookup q h.disk
    → lookup q (rename_staged staging target r).1.disk ≡ lookup q h.disk
rename_staged-others staging target q h (ok tt, h') d₁ d₂ e =
    clean_up-others (rename staging target h') (rename-others staging target q h' d₁ d₂ ∙ e)
  where
    clean_up-others :
        (r : Failure × Host)
        → lookup q r.1.disk ≡ lookup q h.disk
        → lookup q (clean_up staging r).1.disk ≡ lookup q h.disk
    clean_up-others (ok tt, k) f = f
    clean_up-others (err x, k) f = delete-Touches staging k q d₁ ∙ f
rename_staged-others staging target q h (err x, h') d₁ d₂ e = e

-- No other file is changed, however the calls end.
pub install_copy-others :
    (from staging target q : FilePath) (h : Host)
    → Differs staging q
    → Differs target q
    → lookup q (install_copy from staging target h).1.disk ≡ lookup q h.disk
unfolding install_copy
install_copy-others from staging target q h d₁ d₂ =
    rename_staged-others staging target q h (copy_keeping_owner from staging h) d₁ d₂
      (copy_keeping_owner-Touches from staging h q d₁)
