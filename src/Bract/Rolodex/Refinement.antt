-- ===== src/Bract/Rolodex/Refinement.antt =====
-- `create_service_account` of bract/src/rolodex/mod.rs as an insertion into the map of the accounts.
use douglas.Base.{◌≡◌, refl, ◌∙◌, sym, ap, subst, ℕ, false, some, List, [], ok, ok-injective}
use douglas.Text.{Text, same_text}
use douglas.Paths.{FilePath}
use douglas.Stateful.{◌>>=◌, >>=-ok}
use douglas.Bract.Rolodex.{Credentials, Credential, ServiceAccount}
use douglas.Bract.Rolodex.Accounts.{
  Book, Act, get_or_create_group, get_or_create_user, create_service_account,
}
use douglas.Bract.Rolodex.Directory.{IsLawful, directory, IsOrdered}
use douglas.Bract.Rolodex.Inserting.{
  group_made, user_made, group_own, user_own, group_other, user_other, groups-IsSettled,
  users-IsSettled,
}

module _ (sha256 : Text → List ℕ) (root : FilePath) (C : Credentials) (laws : IsLawful C)
    (f : Text) where
  abbrev pub Inserts : ServiceAccount → Book C → Book C → Type 0
  Inserts a b b' =
      (directory sha256 root C b' f ≡ some a)
      × ((g : Text)
          → same_text f g ≡ false
          → directory sha256 root C b' g ≡ directory sha256 root C b g)
      × IsOrdered sha256 root C b'

  halves :
      (b : Book C) (group user : Credential)
      → IsOrdered sha256 root C b
      → (get_or_create_group C sha256 root f b).0 ≡ ok group
      → (get_or_create_user C sha256 root f group.system_name []
          (get_or_create_group C sha256 root f b).1).0
        ≡ ok user
      → Inserts
          (record { user = user; group = group })
          b
          (get_or_create_user C sha256 root f group.system_name []
            (get_or_create_group C sha256 root f b).1).1
  halves b group user (gs, us) e₁ e₂ =
      let b₁ = (get_or_create_group C sha256 root f b).1 in
      let b₂ = (get_or_create_user C sha256 root f group.system_name [] b₁).1 in
      let (s, id, is_group, rg, ga) = group_made sha256 root C laws f b group gs e₁ in
      let us' = users-IsSettled sha256 root C laws f s b.host.disk b₁.host.disk rg us in
      let (u, uid, is_user, ru, ea) =
        user_made sha256 root C laws f group.system_name b₁ user us' e₂ in
      let own = group_own sha256 root C laws f s u id uid b b₁ b₂ rg ga ru ea in
      let own' = user_own sha256 root C laws f s u id uid b b₁ b₂ rg ga ru ea in
      (
        rw (own, own', is_group, is_user) refl,
        λ g n.
            rw
              (
                group_other sha256 root C laws f s u id uid b b₁ b₂ rg ga ru ea g n,
                user_other sha256 root C laws f s u id uid b b₁ b₂ rg ga ru ea g n,
              )
              refl,
        (groups-IsSettled sha256 root C laws f u b₁.host.disk b₂.host.disk ru rg.2, ru.2),
      )

  -- On records without gaps, the account that is made is the one of its name from then on, and every
  -- other name has the account it had, or none as before.
  pub create_service_account-directory :
      (b : Book C) (a : ServiceAccount)
      → IsOrdered sha256 root C b
      → (create_service_account C sha256 root f b).0 ≡ ok a
      → Inserts a b (create_service_account C sha256 root f b).1
  unfolding create_service_account
  create_service_account-directory b a ordered e =
      let finish : Credential → Act C ServiceAccount = λ group.
        get_or_create_user C sha256 root f group.system_name [] >>= λ user b'.
        (ok (record { user = user; group = group }), b') in
      let (group, e₁, s₁) = >>=-ok (get_or_create_group C sha256 root f) finish b a e in
      let b₁ = (get_or_create_group C sha256 root f b).1 in
      let (user, e₂, s₂) =
        >>=-ok (get_or_create_user C sha256 root f group.system_name [])
          (λ user b'. (ok (record { user = user; group = group }), b')) b₁ a
          (sym (ap (λ x. x.0) s₁) ∙ e) in
      let same : ◌≡◌ {A = ServiceAccount} (record { user = user; group = group }) a =
        ok-injective (sym (ap (λ x. x.0) (s₁ ∙ s₂)) ∙ e) in
      subst (λ x. Inserts a b x.1) (sym (s₁ ∙ s₂))
        (subst (λ y. Inserts y b (get_or_create_user C sha256 root f group.system_name [] b₁).1)
          same (halves b group user ordered e₁ e₂))
