-- ===== src/Bract/Rolodex/Inserting.antt =====
-- `create_service_account` of bract/src/rolodex/mod.rs in its two halves, and what they add up to.
use douglas.Base.{
  ◌≡◌, refl, ◌∙◌, sym, ap, subst, ℕ, false, Option, none, some, List, [], ok, ok-injective,
  Bool-cases, inl, inr, arith,
}
use douglas.Text.{Text, codes, same_text, same_text_refl, same_text_sound}
use douglas.Paths.{FilePath, join_name, same_path, same_path_sound}
use douglas.Disk.{Disk, Differs, Differs-sym}
use douglas.Stateful.{◌>>=◌, >>=-ok}
use douglas.Bract.Rolodex.{
  Credentials, Credential, ServiceAccount, users_root, groups_root, reserve,
}
use douglas.Bract.Rolodex.Accounts.{
  credential, Book, group_at, user_at, get_or_create_group, get_or_create_user, on_host, Act,
}
use douglas.Bract.Rolodex.Probing.{named, probe_from-cong, is_settled-cong, owner}
use douglas.Bract.Rolodex.Reserved.{
  reserved, IsSettled, Reserves, reserve-Reserves, reserved-injective,
}
use douglas.Bract.Rolodex.Directory.{
  IsLawful, credential_at, with_id, group_of, user_of, Grouped, Enrolled, group_at-Grouped,
  user_at-Enrolled,
}

roots_differ :
    (root : FilePath) (t u : Text)
    → Differs (join_name (users_root root) t) (join_name (groups_root root) u)
roots_differ root t u =
    elim (Bool-cases (same_path (join_name (users_root root) t) (join_name (groups_root root) u))) [
      | inl e ↦
          let same =
            ap (λ p. p.names)
              (same_path_sound (join_name (users_root root) t) (join_name (groups_root root) u)
                e) in
          let clash : codes "users" ≡ codes "groups" = cc in absurd (cc clash)
      | inr e ↦ e
    ]

-- Accounts of other system names are kept, so what is found by an unchanged name is unchanged.
credential_at-cong :
    (g : Text) (o : Option Text) (ids ids' : Text → Option ℕ)
    → ((s : Text) → o ≡ some s → ids' s ≡ ids s)
    → credential_at g ids' o ≡ credential_at g ids o
credential_at-cong g none ids ids' h = refl
credential_at-cong g (some s) ids ids' h = ap (with_id g s) (h s refl)

module _ {C : Credentials} where
  -- A name is reserved, then its account is looked up or made.
  made-ok :
      (reserved_name : Act C Text) (account : Text → Act C ℕ) (f : Text) (b : Book C)
      (c : Credential)
      → ((reserved_name >>= λ s. account s >>= λ id b'. (ok (credential f s id), b')) b).0 ≡ ok c
      → (s : Text) × (id : ℕ) × ((reserved_name b).0 ≡ ok s)
        × ((account s (reserved_name b).1).0 ≡ ok id)
        × (c ≡ credential f s id)
        × ((reserved_name >>= λ s. account s >>= λ id b'. (ok (credential f s id), b')) b
            ≡ (ok c, (account s (reserved_name b).1).1))
  made-ok reserved_name account f b c e =
      let (s, e₁, s₁) =
        >>=-ok reserved_name (λ s. account s >>= λ id b'. (ok (credential f s id), b')) b c e in
      let left = (reserved_name b).1 in
      let (id, e₂, s₂) =
        >>=-ok (account s) (λ id b'. (ok (credential f s id), b')) left c
          (sym (ap (λ x. x.0) s₁) ∙ e) in
      let same : credential f s id ≡ c = ok-injective (sym (ap (λ x. x.0) (s₁ ∙ s₂)) ∙ e) in
      (s, id, e₁, e₂, sym same, s₁ ∙ s₂ ∙ ap (λ x. (ok x, (account s left).1)) same)

module _ (sha256 : Text → List ℕ) (root : FilePath) (C : Credentials) (laws : IsLawful C) where
  abbrev pub groups : FilePath
  groups = groups_root root

  abbrev pub users : FilePath
  users = users_root root

  pub group_made :
      (f : Text) (b : Book C) (c : Credential)
      → IsSettled sha256 groups b.host.disk
      → (get_or_create_group C sha256 root f b).0 ≡ ok c
      → (s : Text) × (id : ℕ) × (c ≡ credential f s id)
        × Reserves sha256 groups f s b.host.disk (get_or_create_group C sha256 root f b).1.host.disk
        × Grouped sha256 root C laws s id b.accounts
            (get_or_create_group C sha256 root f b).1.accounts
  group_made f b c settled e =
      let (s, id, e₁, e₂, is_c, w) =
        made-ok (on_host C (reserve sha256 groups f)) (group_at C) f b c e in
      let left = (on_host C (reserve sha256 groups f) b).1 in
      let (grouped, host) = group_at-Grouped sha256 root C laws s left id e₂ in
      let disk = ap (λ x. x.1.host) w ∙ host in
      (
        s,
        id,
        is_c,
        subst (λ h. Reserves sha256 groups f s b.host.disk h.disk) (sym disk)
            (reserve-Reserves sha256 groups f s b.host settled e₁),
        subst (λ x. Grouped sha256 root C laws s id b.accounts x.1.accounts) (sym w) grouped,
      )

  pub user_made :
      (f primary : Text) (b : Book C) (c : Credential)
      → IsSettled sha256 users b.host.disk
      → (get_or_create_user C sha256 root f primary [] b).0 ≡ ok c
      → (s : Text) × (id : ℕ) × (c ≡ credential f s id)
        × Reserves sha256 users f s b.host.disk
            (get_or_create_user C sha256 root f primary [] b).1.host.disk
        × Enrolled sha256 root C laws s id b.accounts
            (get_or_create_user C sha256 root f primary [] b).1.accounts
  user_made f primary b c settled e =
      let (s, id, e₁, e₂, is_c, w) =
        made-ok (on_host C (reserve sha256 users f)) (λ s. user_at C s primary []) f b c e in
      let left = (on_host C (reserve sha256 users f) b).1 in
      let (enrolled, host) = user_at-Enrolled sha256 root C laws s primary left id e₂ in
      let disk = ap (λ x. x.1.host) w ∙ host in
      (
        s,
        id,
        is_c,
        subst (λ h. Reserves sha256 users f s b.host.disk h.disk) (sym disk)
            (reserve-Reserves sha256 users f s b.host settled e₁),
        subst (λ x. Enrolled sha256 root C laws s id b.accounts x.1.accounts) (sym w) enrolled,
      )

  -- The records of the one kind are not touched by a reservation of the other.
  module _ (f s : Text) (d d' : Disk) where
    groups_same : Reserves sha256 users f s d d' → (t : Text) → named groups t d' ≡ named groups t d
    groups_same r t = r.3 (join_name groups t) (λ v. roots_differ root v t)

    users_same : Reserves sha256 groups f s d d' → (t : Text) → named users t d' ≡ named users t d
    users_same r t =
        r.3 (join_name users t)
          (λ v. Differs-sym (join_name users t) (join_name groups v) (roots_differ root t v))

    pub groups-IsSettled :
        Reserves sha256 users f s d d' → IsSettled sha256 groups d → IsSettled sha256 groups d'
    groups-IsSettled r h g = is_settled-cong sha256 groups 16 0 d d' g (groups_same r) ∙ h g

    pub users-IsSettled :
        Reserves sha256 groups f s d d' → IsSettled sha256 users d → IsSettled sha256 users d'
    users-IsSettled r h g = is_settled-cong sha256 users 16 0 d d' g (users_same r) ∙ h g

  -- Two reservations, of a group and then of a user, and an account for each.
  module _ (f s u : Text) (id uid : ℕ) (b b₁ b₂ : Book C)
      (rg : Reserves sha256 groups f s b.host.disk b₁.host.disk)
      (ga : Grouped sha256 root C laws s id b.accounts b₁.accounts)
      (ru : Reserves sha256 users f u b₁.host.disk b₂.host.disk)
      (ea : Enrolled sha256 root C laws u uid b₁.accounts b₂.accounts) where
    abbrev pub account : ServiceAccount
    account = record { user = credential f u uid; group = credential f s id }

    reserved-groups :
        (g : Text) → reserved sha256 groups b₂.host.disk g ≡ reserved sha256 groups b₁.host.disk g
    reserved-groups g = ap owner (
        probe_from-cong sha256 groups 16 0 b₁.host.disk b₂.host.disk g
          (groups_same f u b₁.host.disk b₂.host.disk ru))

    reserved-users :
        (g : Text) → reserved sha256 users b₁.host.disk g ≡ reserved sha256 users b.host.disk g
    reserved-users g = ap owner (
        probe_from-cong sha256 users 16 0 b.host.disk b₁.host.disk g
          (users_same f s b.host.disk b₁.host.disk rg))

    pub group_own : group_of sha256 root C b₂ f ≡ some (credential f s id)
    group_own =
        ap (credential_at f (λ s. C.get_group_id s b₂.accounts)) (reserved-groups f ∙ rg.0)
        ∙ ap (with_id f s) (ea.2 s ∙ ga.0)

    pub user_own : user_of sha256 root C b₂ f ≡ some (credential f u uid)
    user_own = ap (credential_at f (λ s. C.get_user_id s b₂.accounts)) ru.0 ∙ ap (with_id f u) ea.0

    -- The name of another cannot be the one that was reserved.
    differs_from :
        (kind : FilePath) (d : Disk) (g t v : Text)
        → same_text f g ≡ false
        → reserved sha256 kind d f ≡ some t
        → reserved sha256 kind d g ≡ some v
        → same_text t v ≡ false
    differs_from kind d g t v n own other = elim (Bool-cases (same_text t v)) [
      | inl e ↦
          let same =
            reserved-injective sha256 kind d f g t own
              (other ∙ ap some (sym (same_text_sound t v e))) in
          absurd (ground (arith, same_text_refl f))
      | inr e ↦ e
    ]

    pub group_other :
        (g : Text)
        → same_text f g ≡ false
        → group_of sha256 root C b₂ g ≡ group_of sha256 root C b g
    group_other g n =
        ap (credential_at g (λ s. C.get_group_id s b₂.accounts)) (reserved-groups g ∙ rg.1 g n)
        ∙ credential_at-cong g (reserved sha256 groups b.host.disk g) _ _
            λ v k. ea.2 v ∙ ga.1 v (differs_from groups b₁.host.disk g s v n rg.0 (rg.1 g n ∙ k))

    pub user_other :
        (g : Text) → same_text f g ≡ false → user_of sha256 root C b₂ g ≡ user_of sha256 root C b g
    user_other g n =
        ap (credential_at g (λ s. C.get_user_id s b₂.accounts)) (ru.1 g n ∙ reserved-users g)
        ∙ credential_at-cong g (reserved sha256 users b.host.disk g) _ _ λ v k.
          ea.1 v (differs_from users b₂.host.disk g u v n ru.0 (ru.1 g n ∙ reserved-users g ∙ k))
          ∙ ga.2 v
