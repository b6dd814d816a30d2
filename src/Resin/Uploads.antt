-- ===== src/Resin/Uploads.antt =====
-- resin/src/blob_uploader.rs: the uploads of blobs that are not complete. Each is a temporary file
-- with the state of its hash. A chunk is written in steps, between which other requests may run.
pub mod Machine
pub mod Places
pub mod Lookup
pub mod Sound
pub mod Writing
pub mod Appending
pub mod Requests
pub mod Stored
pub mod Completed
pub mod Purging
pub mod Reached
pub mod Poisoned
use douglas.Base.{
  ℕ, ◌+◌, ◌%◌, ◌≡◌, refl, Bool, true, false, not, ◌&&◌, Option, none, some, List, [], ◌∷◌, ◌++◌,
  Result, ok, err, map_err, length, ◌==◌, if◌then◌else◌, arith,
}
use douglas.Text.{Text, codes, same_text, same_text_refl, same_text_sound}
use douglas.Paths.{FilePath, join_name, join}
use douglas.Files.{FileSystemError}
use douglas.Disk.{lookup}
use douglas.Host.{Host, Failure, delete, list_folder, append_all_bytes}
use douglas.Stateful.{Op, ◌>>=◌, return, fail}
use douglas.Maps.{Keys, get, delete as discard, insert}
use douglas.Bract.Rolodex.{create_recursively}
use douglas.Resin.Names.{Name, NameParseError, parse_name}
use douglas.Resin.Repositories.{local, storage_path}
use douglas.Resin.Registries.{PartialUpload, Uploads, find_upload, put_upload, take_upload}
use douglas.Resin.Digests.{Digest, DigestError, as_bytes, from_bytes}
use douglas.Resin.Blobs.{create_sharded_blob_root, commit}

-- `panicked` stands for a request that panics.
pub data BlobUploaderError : Type 0 where
  invalid_repository : Text → BlobUploaderError
  unknown_uuid : ℕ → Name → BlobUploaderError
  digest_mismatch : Digest → Digest → BlobUploaderError
  file_system_error : FileSystemError → BlobUploaderError
  digest_error : DigestError → BlobUploaderError
  network_error : Text → BlobUploaderError
  hash_failure : BlobUploaderError
  range_mismatch : ℕ → ℕ → BlobUploaderError
  name_parse_error : NameParseError → BlobUploaderError
  blocking_task_failed : Text → BlobUploaderError
  panicked : BlobUploaderError

-- The uploader with the files of the host. A panic under the lock of the uploads poisons it.
pub record Uploader : Type 0 where
  pub uploads : Uploads
  pub poisoned : Bool
  pub host : Host

abbrev pub Act {ℓ} : Type ℓ → Type ℓ
Act A = Op Uploader BlobUploaderError A

abbrev pub on_host {ℓ} : {A : Type ℓ} → (Host → Result FileSystemError A × Host) → Act A
on_host call s = let (r, h) = call s.host in (map_err file_system_error r, record s { host = h })

-- `lock().unwrap()` panics once the lock is poisoned.
abbrev pub lock {ℓ} : {A : Type ℓ} → Act A → Act A
lock op s = if s.poisoned then (err panicked, s) else op s

-- `Drop` of a partial upload that is not complete.
abbrev pub drop_upload : Option PartialUpload → Host → Host
drop_upload none h = h
drop_upload (some u) h = (delete u.temp_file h).1

-- A request that writes a chunk, while it runs.
pub record Writer : Type 0 where
  pub name : Name
  pub uuid : ℕ
  pub path : FilePath
  pub hasher : List ℕ
  pub start_offset : ℕ
  pub written : ℕ

abbrev pub u64 : ℕ
u64 = 18446744073709551616

-- The hasher is taken out of the upload.
abbrev pub take_hasher : Name → ℕ → PartialUpload → Option (List ℕ) → Act Writer
take_hasher name uuid u none = fail hash_failure
take_hasher name uuid u (some bytes) = λ s. (
  ok (record {
    name = name;
    uuid = uuid;
    path = u.temp_file;
    hasher = bytes;
    start_offset = u.offset;
    written = 0;
  }),
  record s { uploads = put_upload name uuid (record u { hasher = none }) s.uploads },
)

abbrev pub begin_found : Name → ℕ → ℕ → Option PartialUpload → Act Writer
begin_found name uuid expected none = fail (unknown_uuid uuid name)
begin_found name uuid expected (some u) =
    if not (expected == u.offset)
    then fail (range_mismatch u.offset expected)
    else take_hasher name uuid u u.hasher

unfoldable pub begin_chunk : Name → ℕ → ℕ → Act Writer
begin_chunk name uuid expected =
    lock λ s. begin_found name uuid expected (find_upload name uuid s.uploads) s

-- One read of the body that is not empty.
unfoldable pub append_chunk : Writer → List ℕ → Act Writer
append_chunk w chunk = on_host (append_all_bytes w.path chunk) >>= λ _.
    return (record w { hasher = w.hasher ++ chunk; written = (w.written + length chunk) % u64 })

abbrev pub end_found : Writer → Option PartialUpload → Act ℕ
end_found w none = fail hash_failure
end_found w (some u) = λ s. (
  ok ((w.start_offset + w.written) % u64),
  record s {
    uploads =
        put_upload w.name w.uuid
          (record u { hasher = some w.hasher; offset = (w.start_offset + w.written) % u64 })
          s.uploads;
  },
)

unfoldable pub end_chunk : Writer → Act ℕ
end_chunk w = lock λ s. end_found w (find_upload w.name w.uuid s.uploads) s

-- What the reads of a body give, up to its end.
pub data Body : Type 0 where
  finished : Body
  breaks : Text → Body
  reads : List ℕ → Body → Body

-- The loop over the body.
unfoldable pub write_body : Body → Writer → Act Writer
write_body finished w = return w
write_body (breaks reason) w = fail (network_error reason)
write_body (reads [] body) w = return w
write_body (reads (b ∷ chunk) body) w = append_chunk w (b ∷ chunk) >>= write_body body

-- A request that no other one interrupts.
unfoldable pub write_chunk : Name → ℕ → ℕ → Body → Act ℕ
write_chunk name uuid expected body =
    begin_chunk name uuid expected >>= write_body body >>= end_chunk

abbrev status_found : Name → ℕ → Option PartialUpload → Act ℕ
status_found name uuid none = fail (unknown_uuid uuid name)
status_found name uuid (some u) = return u.offset

unfoldable pub status : Name → ℕ → Act ℕ
status name uuid = lock λ s. status_found name uuid (find_upload name uuid s.uploads) s

abbrev pub abort_found : Name → ℕ → Option PartialUpload → Act (Unit {0})
abort_found name uuid none = fail (unknown_uuid uuid name)
abort_found name uuid (some u) = λ s. (
  ok tt,
  record s { uploads = take_upload name uuid s.uploads; host = drop_upload (some u) s.host },
)

unfoldable pub abort : Name → ℕ → Act (Unit {0})
abort name uuid = lock λ s. abort_found name uuid (find_upload name uuid s.uploads) s

module _ (root : FilePath) (show_uuid : ℕ → Text) where
  abbrev pub registry_root : Name → FilePath
  registry_root name = join root (storage_path (local name))

  abbrev pub temp_root : Name → FilePath
  temp_root name = join_name (registry_root name) (codes "tmp")

  abbrev pub upload_temp_file : Name → ℕ → FilePath
  upload_temp_file name uuid = join_name (temp_root name) (show_uuid uuid)

  abbrev pub new_upload : FilePath → PartialUpload
  new_upload temp_file = record { temp_file = temp_file; hasher = some []; offset = 0 }

  -- `insert` drops what was there.
  abbrev pub inserted : Name → ℕ → Act ℕ
  inserted name uuid s = (
    ok uuid,
    record s {
      uploads = put_upload name uuid (new_upload (upload_temp_file name uuid)) s.uploads;
      host = drop_upload (find_upload name uuid s.uploads) s.host;
    },
  )

  -- `uuid` is what `uuid_factory` gives.
  unfoldable pub start : Name → ℕ → Act ℕ
  start name uuid = on_host (create_recursively (temp_root name)) >>= λ _. lock (inserted name uuid)

  module _ (sha256 : List ℕ → List ℕ) where
    -- The upload is dropped, not yet complete, with its error.
    abbrev pub and_drop : PartialUpload → BlobUploaderError → Act (Unit {0})
    and_drop u e s = (err e, record s { host = drop_upload (some u) s.host })

    abbrev pub mismatch : Digest → Result DigestError Digest → BlobUploaderError
    mismatch claimed (ok computed) = digest_mismatch claimed computed
    mismatch claimed (err e) = digest_error e

    -- From here on the commit has the temporary file.
    abbrev pub commit_in : Name → PartialUpload → Digest → Text → Failure × Host → Act (Unit {0})
    commit_in name u claimed media_type (err e, h) s =
        and_drop u (file_system_error e) (record s { host = h })
    commit_in name u claimed media_type (ok _, h) s =
        on_host (commit u.temp_file (registry_root name) claimed media_type) (record s { host = h })

    -- The `unwrap` of a hasher that a writer has panics.
    abbrev pub finalized : Name → PartialUpload → Digest → Text → Option (List ℕ) → Act (Unit {0})
    finalized name u claimed media_type none s = and_drop u panicked (record s { poisoned = true })
    finalized name u claimed media_type (some bytes) s =
        if not (same_text (as_bytes claimed) (sha256 bytes))
        then and_drop u (mismatch claimed (from_bytes (sha256 bytes))) s
        else commit_in name u claimed media_type
            (create_recursively (create_sharded_blob_root (registry_root name) claimed) s.host) s

    abbrev pub complete_found : Name → ℕ → Digest → Text → Option PartialUpload → Act (Unit {0})
    complete_found name uuid claimed media_type none s = (err (unknown_uuid uuid name), s)
    complete_found name uuid claimed media_type (some u) s =
        finalized name u claimed media_type u.hasher
          (record s { uploads = take_upload name uuid s.uploads })

    unfoldable pub complete : Name → ℕ → Digest → Text → Act (Unit {0})
    complete name uuid claimed media_type =
        lock λ s. complete_found name uuid claimed media_type (find_upload name uuid s.uploads) s

  module _ (parse_uuid : Text → Option ℕ) where
    -- A name of a file in the folder that is no upload.
    abbrev pub is_stale : Name → Uploads → Option ℕ → Bool
    is_stale name m none = false
    is_stale name m (some uuid) = elim (find_upload name uuid m) [ none ↦ true | some _ ↦ false ]

    abbrev pub delete_stale : Name → List Text → Act (Unit {0})
    delete_stale name [] s = (ok tt, s)
    delete_stale name (file ∷ files) s =
        let rest = delete_stale name files in
        if is_stale name s.uploads (parse_uuid file)
        then (on_host (delete (join_name (temp_root name) file)) >>= λ _. rest) s
        else rest s

    unfoldable pub purge_repository : Name → Act (Unit {0})
    purge_repository name = on_host (list_folder (temp_root name)) >>= delete_stale name

    abbrev pub purge_named : Result NameParseError Name → Act (Unit {0})
    purge_named (ok name) = purge_repository name
    purge_named (err _) = return tt

    abbrev pub purge_each : List Text → Act (Unit {0})
    purge_each [] = return tt
    purge_each (folder ∷ folders) = purge_named (parse_name folder) >>= λ _. purge_each folders

    -- `folders` are the folders in the root, as far as they can be read.
    unfoldable pub purge : Result FileSystemError (List Text) → Act (Unit {0})
    purge folders = lock (on_host (λ h. (folders, h)) >>= purge_each)
