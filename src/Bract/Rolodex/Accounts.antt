-- ===== src/Bract/Rolodex/Accounts.antt =====
-- `impl Rolodex for FileRolodex` of bract/src/rolodex/mod.rs, over the records and the accounts.
use douglas.Base.{ℕ, false, not, Option, none, some, List, [], ◌∷◌, ◌++◌, ok, if◌then◌else◌}
use douglas.Text.{Text, codes}
use douglas.Paths.{FilePath}
use douglas.Host.{Host}
use douglas.Stateful.{Op, ◌>>=◌, return, fail, failing_as}
use douglas.Bract.Rolodex.{
  Credentials, CredentialsError, user_not_found_error, group_not_found_error, RolodexError,
  credentials_error, unknown_guest, Credential, ServiceAccount, users_root, groups_root, locate,
  reserve,
}

abbrev pub credential : Text → Text → ℕ → Credential
credential full_name system_name id = record {
  id = id;
  full_name = full_name;
  system_name = system_name;
}

-- `ok_or_else` of an id.
abbrev pub or_missing : {S : Type 0} → CredentialsError → Option ℕ → Op S RolodexError ℕ
or_missing e none = fail (credentials_error e)
or_missing e (some id) = return id

abbrev pub share_name : Text → Text → Text
share_name owner_full_name share = owner_full_name ++ codes ":" ++ share

-- The records on the host, and the accounts.
pub record Book (C : Credentials) : Type 0 where
  pub host : Host
  pub accounts : C.State

module _ (C : Credentials) where
  abbrev pub Act {ℓ} : Type ℓ → Type ℓ
  Act A = Op (Book C) RolodexError A

  abbrev pub on_host {ℓ} : {A : Type ℓ} → Op Host RolodexError A → Act A
  on_host op b = let (r, h) = op b.host in (r, record { host = h; accounts = b.accounts })

  abbrev pub on_accounts {ℓ} : {A : Type ℓ} → Op C.State CredentialsError A → Act A
  on_accounts op b =
      let (r, s) = failing_as credentials_error op b.accounts in
      (r, record { host = b.host; accounts = s })

  abbrev pub group_id : Text → Act ℕ
  group_id system_name b =
      or_missing (group_not_found_error system_name) (C.get_group_id system_name b.accounts) b

  abbrev pub user_id : Text → Act ℕ
  user_id system_name b =
      or_missing (user_not_found_error system_name) (C.get_user_id system_name b.accounts) b

  abbrev pub find_group_at : Text → Option Text → Act (Option Credential)
  find_group_at full_name none b = (ok none, b)
  find_group_at full_name (some system_name) b =
      if not (C.group_exists system_name b.accounts)
      then (ok none, b)
      else (group_id system_name >>= λ id. return (some (credential full_name system_name id))) b

  abbrev pub find_user_at : Text → Option Text → Act (Option Credential)
  find_user_at full_name none b = (ok none, b)
  find_user_at full_name (some system_name) b =
      if not (C.user_exists system_name b.accounts)
      then (ok none, b)
      else (user_id system_name >>= λ id. return (some (credential full_name system_name id))) b

  abbrev pub group_at : Text → Act ℕ
  group_at system_name b =
      if C.group_exists system_name b.accounts
      then group_id system_name b
      else on_accounts (C.create_group system_name) b

  abbrev pub join_each : Text → List Text → Act (Unit {0})
  join_each user [] = return tt
  join_each user (group ∷ groups) =
      on_accounts (C.join_group user group) >>= λ _. join_each user groups

  abbrev pub user_at : Text → Text → List Text → Act ℕ
  user_at system_name primary additional b =
      if C.user_exists system_name b.accounts
      then (user_id system_name >>= λ id.
            on_accounts (C.set_primary_group system_name primary) >>= λ _.
            join_each system_name additional >>= λ _. return id)
          b
      else on_accounts (C.create_user system_name primary additional) b

  module _ (sha256 : Text → List ℕ) (root : FilePath) where
    abbrev pub find_group : Text → Act (Option Credential)
    find_group full_name =
        on_host (locate sha256 (groups_root root) full_name false) >>= find_group_at full_name

    abbrev pub find_user : Text → Act (Option Credential)
    find_user full_name =
        on_host (locate sha256 (users_root root) full_name false) >>= find_user_at full_name

    abbrev pub get_or_create_group : Text → Act Credential
    get_or_create_group full_name =
        on_host (reserve sha256 (groups_root root) full_name) >>= λ system_name.
        group_at system_name >>= λ id. return (credential full_name system_name id)

    abbrev pub get_or_create_user : Text → Text → List Text → Act Credential
    get_or_create_user full_name primary additional =
        on_host (reserve sha256 (users_root root) full_name) >>= λ system_name.
        user_at system_name primary additional >>= λ id.
        return (credential full_name system_name id)

    abbrev pub and_group : Credential → Option Credential → Act (Option ServiceAccount)
    and_group group none = return none
    and_group group (some user) = return (some (record { user = user; group = group }))

    abbrev pub with_user : Text → Option Credential → Act (Option ServiceAccount)
    with_user full_name none = return none
    with_user full_name (some group) = find_user full_name >>= and_group group

    unfoldable pub find_service_account : Text → Act (Option ServiceAccount)
    find_service_account full_name = find_group full_name >>= with_user full_name

    unfoldable pub create_service_account : Text → Act ServiceAccount
    create_service_account full_name = get_or_create_group full_name >>= λ group.
        get_or_create_user full_name group.system_name [] >>= λ user.
        return (record { user = user; group = group })

    unfoldable pub find_share_group : Text → Text → Act (Option Credential)
    find_share_group owner_full_name share = find_group (share_name owner_full_name share)

    abbrev pub join_guest : Text → Text → Option Text → Act (Unit {0})
    join_guest group guest none = fail (unknown_guest guest)
    join_guest group guest (some user) = on_accounts (C.join_group user group)

    abbrev pub join_guests : Text → List Text → Act (Unit {0})
    join_guests group [] = return tt
    join_guests group (guest ∷ guests) =
        on_host (locate sha256 (users_root root) guest false) >>= join_guest group guest >>= λ _.
        join_guests group guests

    unfoldable pub create_share_group : Text → Text → List Text → Act Credential
    create_share_group owner_full_name share guests =
        get_or_create_group (share_name owner_full_name share) >>= λ group.
        join_guests group.system_name guests >>= λ _. return group
