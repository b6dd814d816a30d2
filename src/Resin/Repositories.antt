-- ===== src/Resin/Repositories.antt =====
-- resin_types/src/repository.rs: local repositories and those of an upstream registry.
pub mod Upstreams
pub mod Parsed
pub mod Listing
pub mod Listed
use douglas.Base.{
  ℕ, ◌+◌, ◌≡◌, refl, Bool, true, false, not, ◌&&◌, ◌||◌, Option, none, some, List, [], ◌∷◌, ◌++◌,
  Result, ok, err, ◌>>=◌, map_err, map, length, leb, ◌==◌, if◌then◌else◌,
}
use douglas.Text.{Text, codes, same_text, is_free_of, split}
use douglas.Paths.{FilePath}
use douglas.Strings.{
  StringRules, RefinedError, cannot_be_empty, too_long, invalid_name, validate, match_registry,
}
use douglas.Resin.Names.{
  NameParseError, Name, component, from_namespaced, parse_name, fs_safe, show_name,
}

-- `Registry` of docker_types/src/lib.rs.
pub data RegistryError : Type 0 where
  registry_cannot_be_empty registry_too_long : RegistryError
  registry_invalid : Text → RegistryError

abbrev pub from_refined : RefinedError → RegistryError
from_refined cannot_be_empty = registry_cannot_be_empty
from_refined too_long = registry_too_long
from_refined (invalid_name value) = registry_invalid value

abbrev pub registry_rules : StringRules RegistryError
registry_rules = record {
  max_len = 255;
  pattern = match_registry;
  from = from_refined;
  invalid = registry_invalid;
}

abbrev pub registry : Text → Result RegistryError Text
registry = validate registry_rules

pub data RepositoryError : Type 0 where
  invalid_component : NameParseError → RepositoryError
  unknown_upstream not_local : Text → RepositoryError

pub data Upstream : Type 0 where
  docker_hub : Upstream
  other : Text → Upstream

abbrev pub canonical_host : Upstream → Text
canonical_host docker_hub = codes "docker.io"
canonical_host (other host) = host

abbrev pub api_host : Upstream → Text
api_host docker_hub = codes "registry-1.docker.io"
api_host (other host) = host

-- `to_ascii_lowercase`
abbrev pub lower : ℕ → ℕ
lower c = if leb 65 c && leb c 90 then c + 32 else c

abbrev pub is_docker_hub : Text → Bool
is_docker_hub host =
    same_text host (codes "docker.io")
    || same_text host (codes "index.docker.io")
    || same_text host (codes "registry-1.docker.io")

abbrev pub as_other : Text → Result RegistryError Text → Result RepositoryError Upstream
as_other value (ok host) = ok (other host)
as_other value (err e) = err (unknown_upstream value)

-- `Upstream::from_str`
unfoldable pub parse_upstream : Text → Result RepositoryError Upstream
parse_upstream value =
    let host = map lower value in
    if is_docker_hub host then ok docker_hub else as_other value (registry host)

-- `collect` of the components.
abbrev pub components : List Text → Result RepositoryError (List Text)
components [] = ok []
components (segment ∷ segments) =
    map_err invalid_component (component segment) >>= λ c. components segments >>= λ cs. ok (c ∷ cs)

abbrev pub in_library : Upstream → List Text → List Text
in_library docker_hub (c ∷ []) = codes "library" ∷ c ∷ []
in_library docker_hub cs = cs
in_library (other _) cs = cs

unfoldable pub for_upstream : Upstream → List Text → Result RepositoryError (List Text)
for_upstream up segments = components segments >>= λ cs. ok (in_library up cs)

pub data Repository : Type 0 where
  local : Name → Repository
  upstream : Upstream → List Text → Repository

abbrev pub looks_like_host : Text → Bool
looks_like_host segment =
    not (is_free_of 46 segment)
    || not (is_free_of 58 segment)
    || same_text segment (codes "localhost")

abbrev pub as_local : Result NameParseError Name → Result RepositoryError Repository
as_local r = map_err invalid_component r >>= λ n. ok (local n)

abbrev pub from_upstream : Text → List Text → Result RepositoryError Repository
from_upstream host segments =
    parse_upstream host >>= λ up. for_upstream up segments >>= λ path. ok (upstream up path)

abbrev pub from_segments : Text → List Text → Result RepositoryError Repository
from_segments value [] = err (unknown_upstream value)
from_segments value (single ∷ []) = as_local (parse_name single)
from_segments value (host ∷ name ∷ []) =
    if not (looks_like_host host)
    then as_local (from_namespaced host name)
    else from_upstream host (name ∷ [])
from_segments value (host ∷ name ∷ more ∷ segments) =
    if looks_like_host host
    then from_upstream host (name ∷ more ∷ segments)
    else err (unknown_upstream value)

-- `Repository::from_str`
unfoldable pub parse_repository : Text → Result RepositoryError Repository
parse_repository value = from_segments value (split 47 value)

-- `join("/")`
abbrev pub slashed : Text → List Text → Text
slashed c [] = c
slashed c (d ∷ cs) = c ++ 47 ∷ slashed d cs

abbrev pub show_path : List Text → Text
show_path [] = []
show_path (c ∷ cs) = slashed c cs

-- `Display`
abbrev pub show_repository : Repository → Text
show_repository (local name) = show_name name
show_repository (upstream up path) = canonical_host up ++ 47 ∷ show_path path

-- `replace('/', "%2F")`
abbrev pub escape : Text → Text
escape [] = []
escape (c ∷ t) = if c == 47 then codes "%2F" ++ escape t else c ∷ escape t

-- `replace("%2F", "/")`
abbrev pub unescape : Text → Text
unescape [] = []
unescape (a ∷ []) = a ∷ []
unescape (a ∷ b ∷ []) = a ∷ b ∷ []
unescape (a ∷ b ∷ c ∷ t) =
    let found = unescape t in
    let rest = unescape (b ∷ c ∷ t) in
    if a == 37 && b == 50 && c == 70 then 47 ∷ found else a ∷ rest

-- Under the root of the repositories. A component is one name of the path.
unfoldable pub storage_path : Repository → FilePath
storage_path (local name) = record { absolute = false; names = fs_safe name ∷ codes "local" ∷ [] }
storage_path (upstream up path) = record {
  absolute = false;
  names = escape (show_path path) ∷ canonical_host up ∷ codes "upstream" ∷ [];
}

abbrev pub as_upstream : Repository → Option (Upstream × List Text)
as_upstream (upstream up path) = some (up, path)
as_upstream (local _) = none

abbrev pub require_local : Repository → Result RepositoryError Name
require_local (local name) = ok name
require_local (upstream up path) = err (not_local (show_repository (upstream up path)))
