-- ===== src/Resin/Blobs.antt =====
-- resin/src/blob_paths.rs: where the blobs of a repository lie, and how a finished upload becomes
-- one of them.
pub mod Committed
use douglas.Base.{
  ℕ, ◌≡◌, refl, List, [], ◌∷◌, ◌++◌, Result, ok, err, take, Option, none, some, Bool, true, false,
}
use douglas.Text.{Text, codes}
use douglas.Paths.{FilePath, join_name}
use douglas.Files.{FileSystemError}
use douglas.Host.{Host, Failure, rename, delete, write_all}
use douglas.Resin.Digests.{Digest, hex}

abbrev pub create_sharded_blob_root : FilePath → Digest → FilePath
create_sharded_blob_root root digest = record root {
  names = hex digest ∷ take 2 (hex digest) ∷ codes "sha256" ∷ codes "blobs" ∷ root.names;
}

abbrev pub final_file : FilePath → Digest → FilePath
final_file root digest = join_name (create_sharded_blob_root root digest) (hex digest)

abbrev pub mediatype_file : FilePath → Digest → FilePath
mediatype_file root digest =
    join_name (create_sharded_blob_root root digest) (hex digest ++ codes ".mediatype")

-- A `?` between two calls of the host.
abbrev pub and_then : Failure × Host → (Host → Failure × Host) → Failure × Host
and_then (ok _, h) next = next h
and_then (err e, h) next = (err e, h)

unfoldable pub clean_up : FilePath → FilePath → FilePath → Host → Failure × Host
clean_up temp final mediatype h =
    and_then (and_then (delete temp h) (delete final)) (delete mediatype)

-- `Drop` of a commit that is not completed.
abbrev pub dropped : FilePath → FilePath → FilePath → FileSystemError → Host → Failure × Host
dropped temp final mediatype e h = (err e, (clean_up temp final mediatype h).1)

-- The clean-up that goes well completes the commit, the one that fails is done again by `Drop`.
abbrev pub cleaned :
    FilePath → FilePath → FilePath → FileSystemError → Failure × Host → Failure × Host
cleaned temp final mediatype e (ok _, h) = (err e, h)
cleaned temp final mediatype e (err x, h) = dropped temp final mediatype x h

abbrev pub mediatype_written : FilePath → FilePath → FilePath → Failure × Host → Failure × Host
mediatype_written temp final mediatype (ok _, h) = (ok tt, h)
mediatype_written temp final mediatype (err e, h) =
    cleaned temp final mediatype e (clean_up temp final mediatype h)

abbrev pub renamed : FilePath → FilePath → FilePath → Text → Failure × Host → Failure × Host
renamed temp final mediatype media_type (ok _, h) =
    mediatype_written temp final mediatype (write_all mediatype media_type h)
renamed temp final mediatype media_type (err e, h) = dropped temp final mediatype e h

-- A commit that is made, completed and dropped.
unfoldable pub commit : FilePath → FilePath → Digest → Text → Host → Failure × Host
commit temp root digest media_type h =
    let final = final_file root digest in
    renamed temp final (mediatype_file root digest) media_type (rename temp final h)
