-- ===== src/Resin/Uploads/Machine.antt =====
-- The requests of resin/src/blob_uploader.rs as steps that may follow each other in any order. A
-- request that writes a chunk is many steps: it begins, appends what it reads, and ends, or is lost.
use douglas.Base.{
  ℕ, ◌≡◌, Bool, true, false, ◌==◌, ◌&&◌, Option, none, some, List, [], Result, ok, err, arith,
}
use douglas.Text.{Text}
use douglas.Paths.{FilePath}
use douglas.Files.{FileSystemError}
use douglas.Disk.{lookup}
use douglas.Host.{Host}
use douglas.Maps.{Keys, get, delete, insert}
use douglas.Resin.Names.{Name}
use douglas.Resin.Names.Parsed.{IsName}
use douglas.Resin.Digests.{Digest}
use douglas.Resin.Registries.{find_upload, same_name, same_name_refl, same_name_sound}
use douglas.Resin.Uploads.{
  BlobUploaderError, Uploader, Writer, start, upload_temp_file, begin_chunk, append_chunk,
  end_chunk, complete, abort, purge,
}

abbrev pub Key : Type 0
Key = Name × ℕ

abbrev pub same_key : Key → Key → Bool
same_key (n, a) (m, b) = same_name n m && a == b

pub same_key_refl : (k : Key) → same_key k k ≡ true
same_key_refl (n, a) = ground (arith, same_name_refl n)

pub same_key_sound : (k l : Key) → same_key k l ≡ true → k ≡ l
same_key_sound (n, a) (m, b) h =
    let e = same_name_sound n m (ground arith) in let f : a ≡ b = ground arith in cc

abbrev pub keys : Keys Key
keys = record { same = same_key; same_refl = same_key_refl; same_sound = same_key_sound }

-- The requests that write a chunk. A key has one at a time, since it takes the hasher.
abbrev pub Writers : Type 0
Writers = List (Key × Writer)

abbrev pub Machine : Type 0
Machine = Uploader × Writers

-- An uploader that has just been made.
abbrev pub new_machine : Host → Machine
new_machine h = (record { uploads = []; poisoned = false; host = h }, [])

-- A writer that goes on, or is gone.
abbrev pub resume : Key → Result BlobUploaderError Writer × Uploader → Writers → Machine
resume k (ok w, s) ws = (s, insert keys k w ws)
resume k (err e, s) ws = (s, delete keys k ws)

-- A request that begins, or does not.
abbrev pub admit : Key → Result BlobUploaderError Writer × Uploader → Writers → Machine
admit k (ok w, s) ws = (s, insert keys k w ws)
admit k (err e, s) ws = (s, ws)

module _ (root : FilePath) (show_uuid : ℕ → Text) (parse_uuid : Text → Option ℕ)
    (sha256 : List ℕ → List ℕ) where
  -- A uuid that is made is new: no upload, no writer and no file has it.
  pub data Step : Machine → Machine → Type 0 where
    starts :
        (name : Name) (uuid : ℕ) {s : Uploader} {ws : Writers}
        → IsName name
        → find_upload name uuid s.uploads ≡ none
        → get keys (name, uuid) ws ≡ none
        → lookup (upload_temp_file root show_uuid name uuid) s.host.disk ≡ none
        → Step (s, ws) ((start root show_uuid name uuid s).1, ws)
    begins :
        (name : Name) (uuid expected : ℕ) {s : Uploader} {ws : Writers}
        → Step (s, ws) (admit (name, uuid) (begin_chunk name uuid expected s) ws)
    appends :
        (k : Key) (w : Writer) (chunk : List ℕ) {s : Uploader} {ws : Writers}
        → get keys k ws ≡ some w
        → Step (s, ws) (resume k (append_chunk w chunk s) ws)
    ends :
        (k : Key) (w : Writer) {s : Uploader} {ws : Writers}
        → get keys k ws ≡ some w
        → Step (s, ws) ((end_chunk w s).1, delete keys k ws)
    is_lost : (k : Key) {s : Uploader} {ws : Writers} → Step (s, ws) (s, delete keys k ws)
    completes :
        (name : Name) (uuid : ℕ) (claimed : Digest) (media_type : Text) {s : Uploader}
        {ws : Writers}
        → Step (s, ws) ((complete root show_uuid sha256 name uuid claimed media_type s).1, ws)
    aborts :
        (name : Name) (uuid : ℕ) {s : Uploader} {ws : Writers}
        → Step (s, ws) ((abort name uuid s).1, ws)
    purges :
        (folders : Result FileSystemError (List Text)) {s : Uploader} {ws : Writers}
        → Step (s, ws) ((purge root show_uuid parse_uuid folders s).1, ws)

  pub data Reaches : Machine → Machine → Type 0 where
    here : {m : Machine} → Reaches m m
    after : {m n o : Machine} → Reaches m n → Step n o → Reaches m o
