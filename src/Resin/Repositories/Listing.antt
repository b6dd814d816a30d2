-- ===== src/Resin/Repositories/Listing.antt =====
-- resin/src/repository_store.rs: the repositories that have a folder. What the folders hold is a
-- parameter.
use douglas.Base.{◌≡◌, List, [], ◌∷◌, ◌++◌, Result, ok, err, ◌>>=◌, In}
use douglas.Text.{Text, codes}
use douglas.Paths.{FilePath, join_name}
use douglas.Files.{FileSystemError}
use douglas.Resin.Names.{parse_name, fs_safe}
use douglas.Resin.Repositories.{
  RepositoryError, canonical_host, Repository, local, upstream, parse_repository, show_path, escape,
  unescape,
}

-- `filter_map` of what parses.
abbrev pub keep : {E A B : Type 0} → (A → B) → Result E A → List B → List B
keep f (ok a) rest = f a ∷ rest
keep f (err e) rest = rest

abbrev pub local_repositories : List Text → List Repository
local_repositories [] = []
local_repositories (name ∷ names) = keep local (parse_name name) (local_repositories names)

abbrev pub read_path : Text → Text → Result RepositoryError Repository
read_path host escaped_path = parse_repository (host ++ 47 ∷ unescape escaped_path)

abbrev pub host_repositories : Text → List Text → List Repository
host_repositories host [] = []
host_repositories host (path ∷ paths) =
    keep (λ r. r) (read_path host path) (host_repositories host paths)

-- `directory_entries`: the folders in a folder, none where it is not there.
module _ (directory_entries : FilePath → Result FileSystemError (List Text)) (root : FilePath) where
  abbrev pub local_root : FilePath
  local_root = join_name root (codes "local")

  abbrev pub upstream_root : FilePath
  upstream_root = join_name root (codes "upstream")

  abbrev pub list_local : Result FileSystemError (List Repository)
  list_local = directory_entries local_root >>= λ names. ok (local_repositories names)

  abbrev pub list_hosts : List Text → Result FileSystemError (List Repository)
  list_hosts [] = ok []
  list_hosts (host ∷ hosts) = directory_entries (join_name upstream_root host) >>= λ paths.
      list_hosts hosts >>= λ rest. ok (host_repositories host paths ++ rest)

  abbrev pub list_upstream : Result FileSystemError (List Repository)
  list_upstream = directory_entries upstream_root >>= list_hosts

  unfoldable pub list : Result FileSystemError (List Repository)
  list = list_local >>= λ locals. list_upstream >>= λ upstreams. ok (locals ++ upstreams)

  -- The folder of a repository is among the entries of the folder above it.
  abbrev pub HasFolder : Repository → Type 0
  HasFolder (local name) =
      (names : List Text) × (directory_entries local_root ≡ ok names) × In (fs_safe name) names
  HasFolder (upstream up path) =
      (hosts : List Text) × (paths : List Text) × (directory_entries upstream_root ≡ ok hosts)
      × In (canonical_host up) hosts
      × (directory_entries (join_name upstream_root (canonical_host up)) ≡ ok paths)
      × In (escape (show_path path)) paths
