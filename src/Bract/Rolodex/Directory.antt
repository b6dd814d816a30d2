-- ===== src/Bract/Rolodex/Directory.antt =====
-- The service accounts of bract/src/rolodex/mod.rs as one map from full names, and what the rolodex
-- assumes of the accounts of the host.
use douglas.Base.{
  ◌≡◌, refl, ◌∙◌, sym, ap, subst, ℕ, Bool, true, false, Option, none, some, List, [], Result, ok,
  map_err-eq-ok, ok-injective, if◌then◌else◌,
}
use douglas.Text.{Text, same_text}
use douglas.Paths.{FilePath}
use douglas.Stateful.{Op, ◌>>=◌, >>=-ok}
use douglas.Bract.Rolodex.{
  Credentials, CredentialsError, RolodexError, credentials_error, Credential, ServiceAccount,
  users_root, groups_root, group_not_found_error, user_not_found_error,
}
use douglas.Bract.Rolodex.Accounts.{
  credential, Book, group_at, user_at, group_id, on_accounts, or_missing, user_id, join_each,
}
use douglas.Bract.Rolodex.Reserved.{reserved, IsSettled}

abbrev pub is_found : Option ℕ → Bool
is_found none = false
is_found (some _) = true

-- What the calls of `Credentials` do when they go well.
pub record IsLawful (C : Credentials) : Type 0 where
  pub group_found : (n : Text) (s : C.State) → C.group_exists n s ≡ is_found (C.get_group_id n s)
  pub user_found : (n : Text) (s : C.State) → C.user_exists n s ≡ is_found (C.get_user_id n s)
  pub group_created :
      (n : Text) (s : C.State) (id : ℕ)
      → (C.create_group n s).0 ≡ ok id
      → C.get_group_id n (C.create_group n s).1 ≡ some id
  pub other_groups_kept :
      (n m : Text) (s : C.State) (id : ℕ)
      → (C.create_group n s).0 ≡ ok id
      → same_text n m ≡ false
      → C.get_group_id m (C.create_group n s).1 ≡ C.get_group_id m s
  pub users_kept :
      (n m : Text) (s : C.State) (id : ℕ)
      → (C.create_group n s).0 ≡ ok id
      → C.get_user_id m (C.create_group n s).1 ≡ C.get_user_id m s
  pub user_created :
      (n primary : Text) (groups : List Text) (s : C.State) (id : ℕ)
      → (C.create_user n primary groups s).0 ≡ ok id
      → C.get_user_id n (C.create_user n primary groups s).1 ≡ some id
  pub other_users_kept :
      (n m primary : Text) (groups : List Text) (s : C.State) (id : ℕ)
      → (C.create_user n primary groups s).0 ≡ ok id
      → same_text n m ≡ false
      → C.get_user_id m (C.create_user n primary groups s).1 ≡ C.get_user_id m s
  pub groups_kept :
      (n m primary : Text) (groups : List Text) (s : C.State) (id : ℕ)
      → (C.create_user n primary groups s).0 ≡ ok id
      → C.get_group_id m (C.create_user n primary groups s).1 ≡ C.get_group_id m s
  pub primary_keeps_users :
      (n m primary : Text) (s : C.State) (id : ℕ)
      → (C.set_primary_group n primary s).0 ≡ ok id
      → C.get_user_id m (C.set_primary_group n primary s).1 ≡ C.get_user_id m s
  pub primary_keeps_groups :
      (n m primary : Text) (s : C.State) (id : ℕ)
      → (C.set_primary_group n primary s).0 ≡ ok id
      → C.get_group_id m (C.set_primary_group n primary s).1 ≡ C.get_group_id m s

-- The credential behind a reserved name, if the host has the account.
abbrev pub with_id : Text → Text → Option ℕ → Option Credential
with_id full_name s none = none
with_id full_name s (some id) = some (credential full_name s id)

abbrev pub credential_at : Text → (Text → Option ℕ) → Option Text → Option Credential
credential_at full_name ids none = none
credential_at full_name ids (some s) = with_id full_name s (ids s)

abbrev pub pair_up : Option Credential → Option Credential → Option ServiceAccount
pair_up none user = none
pair_up (some group) none = none
pair_up (some group) (some user) = some (record { user = user; group = group })

module _ (sha256 : Text → List ℕ) (root : FilePath) (C : Credentials) where
  abbrev pub group_of : Book C → Text → Option Credential
  group_of b f =
      credential_at f (λ s. C.get_group_id s b.accounts)
        (reserved sha256 (groups_root root) b.host.disk f)

  abbrev pub user_of : Book C → Text → Option Credential
  user_of b f =
      credential_at f (λ s. C.get_user_id s b.accounts)
        (reserved sha256 (users_root root) b.host.disk f)

  -- The abstract view: the account of each full name.
  abbrev pub directory : Book C → Text → Option ServiceAccount
  directory b f = pair_up (group_of b f) (user_of b f)

  -- The records of both kinds are without gaps.
  abbrev pub IsOrdered : Book C → Type 0
  IsOrdered b =
      IsSettled sha256 (groups_root root) b.host.disk
      × IsSettled sha256 (users_root root) b.host.disk

  module _ (laws : IsLawful C) where
    abbrev pub Grouped : Text → ℕ → C.State → C.State → Type 0
    Grouped s id a a' =
        (C.get_group_id s a' ≡ some id)
        × ((m : Text) → same_text s m ≡ false → C.get_group_id m a' ≡ C.get_group_id m a)
        × ((m : Text) → C.get_user_id m a' ≡ C.get_user_id m a)

    -- The rest of a step on the accounts, where it returned the id.
    abbrev pub Gives :
        (ℕ → C.State → C.State → Type 0) → Book C → Result RolodexError ℕ × Book C → Type 0
    Gives P b x = (id : ℕ) → x.0 ≡ ok id → P id b.accounts x.1.accounts × (x.1.host ≡ b.host)

    or_missing-Gives :
        (P : ℕ → C.State → C.State → Type 0) (e : CredentialsError) (o : Option ℕ) (b : Book C)
        → ((id : ℕ) → o ≡ some id → P id b.accounts b.accounts)
        → Gives P b (or_missing e o b)
    or_missing-Gives P e none b h id k = absurd (cc k)
    or_missing-Gives P e (some i) b h id k = (h id (ap some (ok-injective k)), refl)

    on_accounts-Gives :
        (P : ℕ → C.State → C.State → Type 0) (op : Op C.State CredentialsError ℕ) (b : Book C)
        → ((id : ℕ) → (op b.accounts).0 ≡ ok id → P id b.accounts (op b.accounts).1)
        → Gives P b (on_accounts C op b)
    on_accounts-Gives P op b h id k = (h id (map_err-eq-ok credentials_error _ id k), refl)

    pub group_at-Grouped : (s : Text) (b : Book C) → Gives (Grouped s) b (group_at C s b)
    group_at-Grouped s b = go (C.group_exists s b.accounts)
      where
        go :
            (x : Bool)
            → Gives (Grouped s) b (if x then group_id C s b else on_accounts C (C.create_group s) b)
        go true =
            or_missing-Gives (Grouped s) (group_not_found_error s) _ b
              λ id q. (q, λ m n. refl, λ m. refl)
        go false = on_accounts-Gives (Grouped s) (C.create_group s) b λ id k. (
          laws.group_created s b.accounts id k,
          λ m n. laws.other_groups_kept s m b.accounts id k n,
          λ m. laws.users_kept s m b.accounts id k,
        )

    abbrev pub Enrolled : Text → ℕ → C.State → C.State → Type 0
    Enrolled s id a a' =
        (C.get_user_id s a' ≡ some id)
        × ((m : Text) → same_text s m ≡ false → C.get_user_id m a' ≡ C.get_user_id m a)
        × ((m : Text) → C.get_group_id m a' ≡ C.get_group_id m a)

    -- A user that is there: its id, and what the next calls keep.
    user_present :
        (s primary : Text) (b : Book C) (o : Option ℕ)
        → C.get_user_id s b.accounts ≡ o
        → Gives (Enrolled s) b (
            (or_missing (user_not_found_error s) o >>= λ id.
            on_accounts C (C.set_primary_group s primary) >>= λ _ b'. (ok id, b'))
              b)
    user_present s primary b none q id e = absurd (cc e)
    user_present s primary b (some i) q id e =
        let set = on_accounts C (C.set_primary_group s primary) in
        let (gid, e₁, s₁) = >>=-ok set (λ _ b'. (ok i, b')) b id e in
        let done_ok = map_err-eq-ok credentials_error _ gid e₁ in
        let same : i ≡ id = ok-injective (sym (ap (λ x. x.0) s₁) ∙ e) in
        let keeps : (m : Text)
            → C.get_user_id m (C.set_primary_group s primary b.accounts).1
              ≡ C.get_user_id m b.accounts =
          λ m. laws.primary_keeps_users s m primary b.accounts gid done_ok in
        subst (λ x. Enrolled s id b.accounts x.1.accounts × (x.1.host ≡ b.host)) (sym s₁)
          (
            (
              keeps s ∙ q ∙ ap some same,
              λ m n. keeps m,
              λ m. laws.primary_keeps_groups s m primary b.accounts gid done_ok,
            ),
            refl,
          )

    pub user_at-Enrolled :
        (s primary : Text) (b : Book C) → Gives (Enrolled s) b (user_at C s primary [] b)
    user_at-Enrolled s primary b = go (C.user_exists s b.accounts)
      where
        go :
            (x : Bool)
            → Gives (Enrolled s) b (
                if x
                then (user_id C s >>= λ id. on_accounts C (C.set_primary_group s primary) >>= λ _.
                      join_each C s [] >>= λ _ b'. (ok id, b'))
                    b
                else on_accounts C (C.create_user s primary []) b)
        go true = user_present s primary b (C.get_user_id s b.accounts) refl
        go false = on_accounts-Gives (Enrolled s) (C.create_user s primary []) b λ id k. (
          laws.user_created s primary [] b.accounts id k,
          λ m n. laws.other_users_kept s m primary [] b.accounts id k n,
          λ m. laws.groups_kept s m primary [] b.accounts id k,
        )
