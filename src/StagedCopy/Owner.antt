-- ===== src/StagedCopy/Owner.antt =====
-- What `copy_keeping_owner` leaves on the disk.
use douglas.Base.{
  some-injective, ℕ, ◌≡◌, refl, sym, ◌∙◌, ap, String, Option, none, some, List, Result, ok, err,
  arith,
}
use douglas.Paths.{FilePath}
use douglas.Files.{FileSystemError}
use douglas.Disk.{File, lookup, Differs, Differs-sym}
use douglas.Host.{
  Host, Failure, owned_like, copied, copy, delete, get_user_and_group_ownership,
  change_user_and_group_ownership,
}
use douglas.Host.Effects.{
  Touches, Touches-trans, copy-Touches, delete-Touches, chown-Touches, get_ownership_same, copy-ok,
  chown-ok, get_ownership-ok,
}
use douglas.StagedCopy.{give, keep_owner, clean_up, copy_keeping_owner}

pub clean_up-Touches :
    (p : FilePath) (h : Host) (r : Failure × Host) → Touches p h r.1 → Touches p h (clean_up p r).1
clean_up-Touches p h (ok u, h') t = t
clean_up-Touches p h (err e, h') t = Touches-trans p h h' (delete p h').1 t (delete-Touches p h')

give-Touches :
    (p : FilePath) (h : Host) (r : Result FileSystemError (String × String) × Host)
    → Touches p h r.1
    → Touches p h (give p r).1
give-Touches p h (ok (user, group), h') t =
    Touches-trans p h h' (change_user_and_group_ownership p user group h').1 t
      (chown-Touches p user group h')
give-Touches p h (err e, h') t = t

keep_owner-Touches :
    (from to : FilePath) (h : Host) (r : Failure × Host)
    → Touches to h r.1
    → Touches to h (keep_owner from to r).1
keep_owner-Touches from to h (ok u, h') t =
    give-Touches to h (get_user_and_group_ownership from h')
      (λ q d. ap (lookup q) (get_ownership_same from h') ∙ t q d)
keep_owner-Touches from to h (err e, h') t = t

-- Whether the copy is made or not, nothing but its own path is changed.
pub copy_keeping_owner-Touches :
    (from to : FilePath) (h : Host) → Touches to h (copy_keeping_owner from to h).1
unfolding copy_keeping_owner
copy_keeping_owner-Touches from to h =
    clean_up-Touches to h _ (keep_owner-Touches from to h _ (copy-Touches from to h))

give-ok :
    (to : FilePath) (r : Result FileSystemError (String × String) × Host)
    → (give to r).0 ≡ ok tt
    → (user : String) × (group : String) × (r.0 ≡ ok (user, group))
      × ((give to r) ≡ change_user_and_group_ownership to user group r.1)
give-ok to (ok (user, group), h') e = (user, group, refl, refl)
give-ok to (err x, h') e = absurd (cc e)

keep_owner-ok :
    (from to : FilePath) (r : Failure × Host)
    → (keep_owner from to r).0 ≡ ok tt
    → (r.0 ≡ ok tt) × (keep_owner from to r ≡ give to (get_user_and_group_ownership from r.1))
keep_owner-ok from to (ok tt, h') e = (refl, refl)
keep_owner-ok from to (err x, h') e = absurd (cc e)

pub clean_up-ok :
    (p : FilePath) (r : Failure × Host)
    → (clean_up p r).0 ≡ ok tt
    → (r.0 ≡ ok tt) × (clean_up p r ≡ r)
clean_up-ok p (ok tt, h') e = (refl, refl)
clean_up-ok p (err x, h') e = absurd (cc e)

same_fields :
    (f g : File)
    → f.contents ≡ g.contents
    → f.owner ≡ g.owner
    → f.group ≡ g.group
    → f.executable_by_owner ≡ g.executable_by_owner
    → f.executable_by_group ≡ g.executable_by_group
    → f ≡ g
same_fields f g a b c d e = cc

-- The owner and the group of `f` given to what was copied from `f` make it `f`.
same_file :
    (old : Option File) (f g : File) (bytes : List ℕ) (user group : String)
    → some g ≡ some (owned_like old bytes f)
    → bytes ≡ f.contents
    → user ≡ f.owner
    → group ≡ f.group
    → record g { owner = user; group = group } ≡ f
same_file none f g bytes user group e b u v =
    let i = some-injective e in
    same_fields _ f (ap (λ x. x.contents) i ∙ b) u v (ap (λ x. x.executable_by_owner) i)
      (ap (λ x. x.executable_by_group) i)
same_file (some old) f g bytes user group e b u v =
    let i = some-injective e in
    same_fields _ f (ap (λ x. x.contents) i ∙ b) u v (ap (λ x. x.executable_by_owner) i)
      (ap (λ x. x.executable_by_group) i)

copied-Differs : (from to : FilePath) (f : File) → Differs from to → copied from to f ≡ f.contents
copied-Differs from to f d = ground arith

-- A copy that is made is the whole file, with its owner, group and mode.
pub copy_keeping_owner-ok :
    (from to : FilePath) (h : Host)
    → Differs from to
    → (copy_keeping_owner from to h).0 ≡ ok tt
    → (f : File) × (lookup from h.disk ≡ some f)
      × (lookup to (copy_keeping_owner from to h).1.disk ≡ some f)
unfolding copy_keeping_owner
copy_keeping_owner-ok from to h d e =
    let c = copy from to h in
    let (e₁, s₁) = clean_up-ok to (keep_owner from to c) e in
    let (e₂, s₂) = keep_owner-ok from to c e₁ in
    let (f, at_from, at_to) = copy-ok from to h e₂ in
    let o = get_user_and_group_ownership from c.1 in
    let (user, group, e₃, s₃) = give-ok to o (sym (ap (λ r. r.0) s₂) ∙ e₁) in
    let (f', at_from', is_user, is_group) = get_ownership-ok from c.1 user group e₃ in
    let (g, at_to', at_end) = chown-ok to user group o.1 (sym (ap (λ r. r.0) (s₂ ∙ s₃)) ∙ e₁) in
    let same =
      some-injective
        (sym at_from' ∙ copy-Touches from to h from (Differs-sym from to d) ∙ at_from) in
    (
      f,
      at_from,
      ap (λ r. lookup to r.1.disk) (s₁ ∙ s₂ ∙ s₃)
          ∙ at_end
          ∙ ap some (
              same_file (lookup to h.disk) f g (copied from to f) user group
                (sym at_to' ∙ ap (lookup to) (get_ownership_same from c.1) ∙ at_to)
                (copied-Differs from to f d) (is_user ∙ ap (λ x. x.owner) same)
                (is_group ∙ ap (λ x. x.group) same)),
    )
