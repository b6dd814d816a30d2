-- ===== src/Bract/Rolodex/Finding.antt =====
-- `find_service_account` of bract/src/rolodex/mod.rs where no call fails.
use douglas.Base.{
  ◌≡◌, refl, ◌∙◌, ap, ◌≢◌, ℕ, zero, suc, Bool, true, false, Option, none, some, List, Result, ok,
  err, if◌then◌else◌, Option-cases, inl, inr,
}
use douglas.Text.{Text, same_text}
use douglas.Paths.{FilePath, join_name}
use douglas.Disk.{File, Disk}
use douglas.Host.{read_all}
use douglas.Bract.Rolodex.{
  Credentials, RolodexError, exhausted_name_space, Search, users_root, groups_root, locate,
  locate_from, at_record, max_attempts, Credential,
}
use douglas.Bract.Rolodex.Accounts.{
  Book, find_group_at, find_user_at, and_group, with_user, find_service_account,
}
use douglas.Bract.Rolodex.Probing.{
  Probe, held, free, full, owner, probe_at, named, slot, probe_from,
}
use douglas.Bract.Rolodex.Reserved.{calm, reserved}
use douglas.Bract.Rolodex.Directory.{IsLawful, credential_at, pair_up, group_of, user_of, directory}

module _ (sha256 : Text → List ℕ) (kind : FilePath) (f : Text) (d : Disk) where
  abbrev answer_of : Probe → Result RolodexError (Option Text)
  answer_of (held s) = ok (some s)
  answer_of (free _) = ok none
  answer_of full = err (exhausted_name_space f)

  at_record-calm :
      (t : Text) (next : Search) (rest : Probe) (o : Option File)
      → named kind t d ≡ o
      → next (calm d) ≡ (answer_of rest, calm d)
      → at_record (join_name kind t) f t false next o (calm d)
        ≡ (answer_of (probe_at f t rest o), calm d)
  unfolding read_all
  at_record-calm t next rest none n h = refl
  at_record-calm t next rest (some q) n h = rw n (go (same_text q.contents f))
    where
      go :
          (b : Bool)
          → (if b then (λ h. (ok (some t), h)) else next) (calm d)
            ≡ (answer_of (if b then held t else rest), calm d)
      go true = refl
      go false = h

  locate_from-calm :
      (left attempt : ℕ)
      → locate_from sha256 left attempt kind f false (calm d)
        ≡ (answer_of (probe_from sha256 kind left attempt d f), calm d)
  unfolding locate_from probe_from
  locate_from-calm zero attempt = refl
  locate_from-calm (suc left) attempt =
      at_record-calm (slot sha256 kind f attempt) _ _ _ refl (locate_from-calm left (suc attempt))

  answer_owner : (p : Probe) → p ≢ full → answer_of p ≡ ok (owner p)
  answer_owner (held s) n = refl
  answer_owner (free s) n = refl
  answer_owner full n = absurd (n refl)

  locate-calm :
      probe_from sha256 kind max_attempts 0 d f ≢ full
      → locate sha256 kind f false (calm d) ≡ (ok (reserved sha256 kind d f), calm d)
  unfolding locate
  locate-calm n =
      locate_from-calm max_attempts 0
      ∙ ap (λ r. (r, calm d)) (answer_owner (probe_from sha256 kind max_attempts 0 d f) n)

module _ (sha256 : Text → List ℕ) (root : FilePath) (C : Credentials) (laws : IsLawful C) (f : Text)
    (d : Disk) (accounts : C.State) where
  abbrev book : Book C
  book = record { host = calm d; accounts = accounts }

  find_group_at-calm :
      (o : Option Text)
      → find_group_at C f o book ≡ (ok (credential_at f (λ s. C.get_group_id s accounts) o), book)
  find_group_at-calm none = refl
  find_group_at-calm (some s) = elim (Option-cases (C.get_group_id s accounts)) [
    | inl e ↦ rw (laws.group_found s accounts, e) refl
    | inr (id, e) ↦ rw (laws.group_found s accounts, e) refl
  ]

  find_user_at-calm :
      (o : Option Text)
      → find_user_at C f o book ≡ (ok (credential_at f (λ s. C.get_user_id s accounts) o), book)
  find_user_at-calm none = refl
  find_user_at-calm (some s) = elim (Option-cases (C.get_user_id s accounts)) [
    | inl e ↦ rw (laws.user_found s accounts, e) refl
    | inr (id, e) ↦ rw (laws.user_found s accounts, e) refl
  ]

  and_group-calm :
      (group : Credential) (o : Option Credential)
      → and_group C sha256 root group o book ≡ (ok (pair_up (some group) o), book)
  and_group-calm group none = refl
  and_group-calm group (some user) = refl

  module _ (groups_left : probe_from sha256 (groups_root root) max_attempts 0 d f ≢ full)
      (users_left : probe_from sha256 (users_root root) max_attempts 0 d f ≢ full) where
    with_user-calm :
        (o : Option Credential)
        → with_user C sha256 root f o book ≡ (ok (pair_up o (user_of sha256 root C book f)), book)
    with_user-calm none = refl
    with_user-calm (some group) =
        rw
          (
            locate-calm sha256 (users_root root) f d users_left,
            find_user_at-calm (reserved sha256 (users_root root) d f),
          )
          (and_group-calm group (user_of sha256 root C book f))

    -- Where no call fails and a name is left to try, what is found is the account of the name, and
    -- nothing is changed.
    pub find_service_account-directory :
        find_service_account C sha256 root f book ≡ (ok (directory sha256 root C book f), book)
    unfolding find_service_account
    find_service_account-directory =
        rw
          (
            locate-calm sha256 (groups_root root) f d groups_left,
            find_group_at-calm (reserved sha256 (groups_root root) d f),
          )
          (with_user-calm (group_of sha256 root C book f))
