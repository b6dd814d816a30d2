-- ===== src/Tests/Rolodex.antt =====
-- Runs of the rolodex of bract/src/rolodex/mod.rs with accounts in memory.
use douglas.Base.{
  ◌≡◌, refl, ◌∙◌, ap, ok-injective, ◌≢◌, ◌≤◌, ◌<◌, zero, suc, arith, ℕ, true, false, Option, none,
  some, List, [], ◌∷◌, ◌++◌, take, ok, if◌then◌else◌, length,
}
use douglas.Text.{Text, codes, same_text, same_text_refl, show_u8, strip_prefix}
use douglas.Paths.{FilePath, same_path}
use douglas.Disk.{lookup, remove}
use douglas.Host.{write_all, read_all}
use douglas.Bract.Rolodex.{
  Credentials, ServiceAccount, locate_from, locate, reserve, create_recursively, groups_root,
  users_root, max_attempts,
}
use douglas.Bract.Rolodex.Naming.{salted, normalize_char, hex_digit, derive_system_name}
use douglas.Bract.Rolodex.SystemNames.{IsPlain, IsBytes, derive_system_name-IsPlain}
use douglas.Bract.Rolodex.Accounts.{Book, create_service_account, credential, find_service_account}
use douglas.Bract.Rolodex.Probing.{is_settled, is_absent, probe_from, full}
use douglas.Bract.Rolodex.Reserved.{calm}
use douglas.Bract.Rolodex.Directory.{IsLawful, is_found, IsOrdered, directory}
use douglas.Bract.Rolodex.Refinement.{create_service_account-directory, Inserts}
use douglas.Bract.Rolodex.Finding.{find_service_account-directory}

abbrev Ids : Type 0
Ids = Text → Option ℕ

abbrev set : Text → ℕ → Ids → Ids
set n id ids m = if same_text n m then some id else ids m

-- Groups and users in memory: each new group has the id 7, each new user the id 8.
abbrev accounts : Credentials
accounts = record {
  State = Ids × Ids;
  group_exists = λ n s. is_found (s.0 n);
  user_exists = λ n s. is_found (s.1 n);
  get_group_id = λ n s. s.0 n;
  get_user_id = λ n s. s.1 n;
  create_group = λ n s. (ok 7, (set n 7 s.0, s.1));
  create_user = λ n primary groups s. (ok 8, (s.0, set n 8 s.1));
  join_group = λ n group s. (ok tt, s);
  set_primary_group = λ n primary s. (ok 7, s);
}

set_own : (n : Text) (id : ℕ) (ids : Ids) → set n id ids n ≡ some id
set_own n id ids = rw (same_text_refl n) refl

set_other : (n m : Text) (id : ℕ) (ids : Ids) → same_text n m ≡ false → set n id ids m ≡ ids m
set_other n m id ids h = rw h refl

accounts-IsLawful : IsLawful accounts
accounts-IsLawful = record {
  group_found = λ n s. refl;
  user_found = λ n s. refl;
  group_created = λ n s id e. set_own n 7 s.0 ∙ ap some (ok-injective e);
  other_groups_kept = λ n m s id e h. set_other n m 7 s.0 h;
  users_kept = λ n m s id e. refl;
  user_created = λ n primary groups s id e. set_own n 8 s.1 ∙ ap some (ok-injective e);
  other_users_kept = λ n m primary groups s id e h. set_other n m 8 s.1 h;
  groups_kept = λ n m primary groups s id e. refl;
  primary_keeps_users = λ n m primary s id e. refl;
  primary_keeps_groups = λ n m primary s id e. refl;
}

-- In place of the hash, 32 bytes that start with the text.
abbrev padded : Text → List ℕ
padded t = take 32 (t ++ 0 ∷ 0 ∷ 0 ∷ 0 ∷ [])

abbrev rolodex_root : FilePath
rolodex_root = record { absolute = true; names = codes "rolodex" ∷ [] }

abbrev no_accounts : Book accounts
no_accounts = record { host = calm []; accounts = ((λ n. none), (λ n. none)) }

no_accounts-IsOrdered : IsOrdered padded rolodex_root accounts no_accounts
unfolding is_settled is_absent lookup
no_accounts-IsOrdered = ((λ g. refl), (λ g. refl))

abbrev traefik : ServiceAccount
traefik = record {
  user = credential (codes "traefik") (codes "doug-traefik-74726165") 8;
  group = credential (codes "traefik") (codes "doug-traefik-74726165") 7;
}

traefik_created :
    (create_service_account accounts padded rolodex_root (codes "traefik") no_accounts).0
    ≡ ok traefik
unfolding create_service_account reserve locate locate_from create_recursively write_all lookup
    remove salted normalize_char hex_digit derive_system_name same_path
traefik_created = refl

abbrev with_traefik : Book accounts
with_traefik = (create_service_account accounts padded rolodex_root (codes "traefik") no_accounts).1

create_service_account-directory_example :
    Inserts padded rolodex_root accounts accounts-IsLawful
      (codes "traefik")
      traefik
      no_accounts
      with_traefik
create_service_account-directory_example =
    create_service_account-directory padded rolodex_root accounts accounts-IsLawful
      (codes "traefik") no_accounts traefik no_accounts-IsOrdered traefik_created

groups_left : probe_from padded (groups_root rolodex_root) max_attempts 0 [] (codes "bao") ≢ full
unfolding probe_from lookup
groups_left e = cc e

users_left : probe_from padded (users_root rolodex_root) max_attempts 0 [] (codes "bao") ≢ full
unfolding probe_from lookup
users_left e = cc e

find_service_account-directory_example :
    find_service_account accounts padded rolodex_root (codes "bao") no_accounts
    ≡ (ok (directory padded rolodex_root accounts no_accounts (codes "bao")), no_accounts)
find_service_account-directory_example =
    find_service_account-directory padded rolodex_root accounts accounts-IsLawful (codes "bao") []
      no_accounts.accounts groups_left users_left

-- The second name has the system name of the first one, and is given the next.
collision :
    (create_service_account accounts
      (λ t. 0 ∷ 0 ∷ 0 ∷ 0 ∷ [])
      rolodex_root
      (codes "web!")
      (create_service_account accounts
        (λ t. 0 ∷ 0 ∷ 0 ∷ 0 ∷ [])
        rolodex_root
        (codes "web-")
        no_accounts).1).0
    ≡ ok (record {
      user = credential (codes "web!") (codes "doug-web--1-00000000") 8;
      group = credential (codes "web!") (codes "doug-web--1-00000000") 7;
    })
unfolding create_service_account reserve locate locate_from create_recursively write_all read_all
    lookup remove salted normalize_char hex_digit derive_system_name show_u8 same_path
collision = refl

abbrev repeat : ℕ → ℕ → List ℕ
repeat byte zero = []
repeat byte (suc n) = byte ∷ repeat byte n

repeat-IsBytes : (byte n : ℕ) → byte < 256 → IsBytes (repeat byte n)
repeat-IsBytes byte zero h = tt
repeat-IsBytes byte (suc n) h = (h, repeat-IsBytes byte n h)

derive_system_name-IsPlain_example :
    (length (derive_system_name (λ t. repeat 200 32) (codes "Traefik Web!")) ≤ 32)
    × IsPlain (derive_system_name (λ t. repeat 200 32) (codes "Traefik Web!"))
    × (rest : Text) × (strip_prefix
          (codes "doug-")
          (derive_system_name (λ t. repeat 200 32) (codes "Traefik Web!"))
        ≡ some rest)
derive_system_name-IsPlain_example =
    derive_system_name-IsPlain (λ t. repeat 200 32) (λ t. repeat-IsBytes 200 32 (omega arith))
      (λ t. refl) (codes "Traefik Web!")
