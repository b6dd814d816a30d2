-- ===== src/Resin/TagStore.antt =====
-- resin/src/tag_store.rs: the tags of a repository, each a file with the digest that it points to.
pub mod Written
use douglas.Base.{
  ℕ, ◌≡◌, refl, sym, ap, ◌∙◌, Bool, true, false, ◌&&◌, ◌||◌, Option, none, some, List, [], ◌∷◌,
  ◌++◌, Result, ok, err, map_err, leb, ◌==◌, if◌then◌else◌, arith,
}
use douglas.Text.{Text, codes}
use douglas.Paths.{FilePath, join, join_name}
use douglas.Files.{FileSystemError}
use douglas.Disk.{File, lookup}
use douglas.Host.{Host, read_all, write_all, delete as delete_file}
use douglas.Stateful.{Op, ◌>>=◌, return, fail, failing_as}
use douglas.Bract.Rolodex.{create_recursively}
use douglas.Resin.Repositories.{Repository, show_repository, storage_path}
use douglas.Resin.Digests.{Digest, DigestError, from_str}

pub data TagStoreError : Type 0 where
  file_system_error : FileSystemError → TagStoreError
  digest_error : DigestError → TagStoreError
  unknown_repository : Text → TagStoreError
  unknown_tag : Text → Text → TagStoreError

abbrev pub Act {ℓ} : Type ℓ → Type ℓ
Act A = Op Host TagStoreError A

-- `char::is_whitespace`
abbrev pub is_whitespace : ℕ → Bool
is_whitespace c =
    leb 9 c && leb c 13
    || c == 32
    || c == 133
    || c == 160
    || c == 5760
    || leb 8192 c && leb c 8202
    || c == 8232
    || c == 8233
    || c == 8239
    || c == 8287
    || c == 12288

abbrev pub trim_start : Text → Text
trim_start [] = []
trim_start (c ∷ t) = let rest = trim_start t in if is_whitespace c then rest else c ∷ t

abbrev pub keep_end : ℕ → Text → Text
keep_end c [] = if is_whitespace c then [] else c ∷ []
keep_end c (d ∷ t) = c ∷ d ∷ t

abbrev pub trim_end : Text → Text
trim_end [] = []
trim_end (c ∷ t) = keep_end c (trim_end t)

abbrev pub trim : Text → Text
trim t = trim_end (trim_start t)

-- `folder_exists` is `Folder::exists`.
module _ (folder_exists : FilePath → Bool) (root : FilePath) where
  abbrev pub get_repository_path : Repository → FilePath
  get_repository_path repository = join root (storage_path repository)

  abbrev pub get_tags_path : Repository → FilePath
  get_tags_path repository =
      join_name (join_name (get_repository_path repository) (codes "_manifests")) (codes "tags")

  -- A tag that is one name of a path.
  abbrev pub tag_path : Repository → Text → FilePath
  tag_path repository tag = join_name (get_tags_path repository) tag

  abbrev pub assert_repository_exists : Repository → Act (Unit {0})
  assert_repository_exists repository =
      if folder_exists (get_repository_path repository)
      then return tt
      else fail (unknown_repository (show_repository repository))

  abbrev pub parsed_tag : Text → Act Digest
  parsed_tag contents h = (map_err digest_error (from_str (trim contents)), h)

  abbrev pub read_found : Repository → Text → Option File → Act Digest
  read_found repository tag none = fail (unknown_tag (show_repository repository) tag)
  read_found repository tag (some f) =
      failing_as file_system_error (read_all (tag_path repository tag)) >>= parsed_tag

  unfoldable pub read : Repository → Text → Act Digest
  read repository tag = assert_repository_exists repository >>= λ _ h.
      read_found repository tag (lookup (tag_path repository tag) h.disk) h

  abbrev pub make_tags : Repository → Act (Unit {0})
  make_tags repository =
      if folder_exists (get_tags_path repository)
      then return tt
      else failing_as file_system_error (create_recursively (get_tags_path repository))

  unfoldable pub write : Repository → Text → Digest → Act (Unit {0})
  write repository tag digest = assert_repository_exists repository >>= λ _.
      make_tags repository >>= λ _.
      failing_as file_system_error (write_all (tag_path repository tag) digest.text)

  abbrev delete_found : Repository → Text → Option File → Act Bool
  delete_found repository tag none = return false
  delete_found repository tag (some f) =
      failing_as file_system_error (delete_file (tag_path repository tag)) >>= λ _. return true

  unfoldable pub delete : Repository → Text → Act Bool
  delete repository tag = assert_repository_exists repository >>= λ _ h.
      delete_found repository tag (lookup (tag_path repository tag) h.disk) h
