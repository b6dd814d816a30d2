-- ===== src/Tests/Uploads.antt =====
-- Runs of the uploads and of the tags of resin.
use douglas.Base.{
  Bool, ℕ, zero, suc, ◌%◌, ◌≡◌, refl, true, Option, none, some, List, [], ◌∷◌, ok, err, length,
}
use douglas.Text.{Text, codes}
use douglas.Paths.{FilePath, join_name, same_path}
use douglas.Disk.{lookup, remove}
use douglas.Host.{Host, append_all_bytes, rename, write_all, written}
use douglas.Bract.Rolodex.{create_recursively}
use douglas.Bract.Rolodex.Naming.{hex_digit}
use douglas.Maps.{get, delete}
use douglas.Strings.{validate, match_component}
use douglas.Resin.Names.{Name, parse_name, split_once}
use douglas.Resin.Names.Parsed.{parse_name-IsName}
use douglas.Resin.Repositories.{storage_path, local}
use douglas.Resin.TagStore.{read, write}
use douglas.Resin.TagStore.Written.{read-write}
use douglas.Resin.Digests.{Digest, from_str, from_bytes, from_bytes-as_bytes}
use douglas.Resin.Blobs.{commit, final_file}
use douglas.Resin.Registries.{find_upload, put_upload, take_upload, same_name}
use douglas.Resin.Uploads.{
  panicked, breaks, reads, start, begin_chunk, append_chunk, end_chunk, write_chunk, status,
  complete, abort, purge, Uploader, Writer, upload_temp_file,
}
use douglas.Resin.Uploads.Machine.{
  keys, Machine, new_machine, admit, resume, starts, begins, appends, ends, completes, aborts,
  Reaches, here, after,
}
use douglas.Resin.Uploads.Sound.{IsKept}
use douglas.Resin.Uploads.Stored.{IsStored}
use douglas.Resin.Uploads.Reached.{new_machine-IsIntact}
use douglas.Resin.Uploads.Poisoned.{broken_upload_poisons}

abbrev root : FilePath
root = record { absolute = true; names = codes "repositories" ∷ [] }

-- A uuid is written as one code.
abbrev one_code : ℕ → Text
one_code a = a ∷ []

abbrev read_code : Text → Option ℕ
read_code [] = none
read_code (a ∷ _) = some a

abbrev copies : ℕ → ℕ → List ℕ
copies zero b = []
copies (suc n) b = b ∷ copies n b

-- In the place of SHA-256.
abbrev checksum : List ℕ → List ℕ
checksum bytes = copies 32 (length bytes % 256)

abbrev app : Name
app = record { name = codes "app"; namespace = none }

abbrev digest : Digest
digest = record {
  text = codes "sha256:0303030303030303030303030303030303030303030303030303030303030303";
}

abbrev empty_host : Host
empty_host = record { disk = []; answers = [] }

abbrev started : Machine
started = ((start root one_code app 65 (new_machine empty_host).0).1, [])

abbrev begun : Machine
begun = admit (app, 65) (begin_chunk app 65 0 started.0) []

abbrev first_writer : Writer
first_writer = record {
  name = app;
  uuid = 65;
  path = record {
    absolute = true;
    names = (65 ∷ []) ∷ codes "tmp" ∷ codes "app" ∷ codes "local" ∷ codes "repositories" ∷ [];
  };
  hasher = [];
  start_offset = 0;
  written = 0;
}

abbrev appended : Machine
appended = resume (app, 65) (append_chunk first_writer (1 ∷ 2 ∷ 3 ∷ []) begun.0) begun.1

abbrev second_writer : Writer
second_writer = record first_writer { hasher = 1 ∷ 2 ∷ 3 ∷ []; written = 3 }

abbrev ended : Machine
ended = ((end_chunk second_writer appended.0).1, delete keys (app, 65) appended.1)

abbrev completed : Machine
completed = ((complete root one_code checksum app 65 digest [] ended.0).1, ended.1)

app_parsed : parse_name (codes "app") ≡ ok app
unfolding parse_name split_once validate match_component
app_parsed = refl

all_steps : Reaches root one_code read_code checksum (new_machine empty_host) completed
unfolding get find_upload put_upload lookup start create_recursively begin_chunk append_chunk
    append_all_bytes same_name storage_path delete
all_steps =
    after
      (after
        (after
          (after
            (after here
              (starts app 65 (parse_name-IsName (codes "app") app app_parsed) refl refl refl))
            (begins app 65 0))
          (appends (app, 65) first_writer (1 ∷ 2 ∷ 3 ∷ []) refl))
        (ends (app, 65) second_writer refl))
      (completes app 65 digest [])

new_machine-IsIntact_example :
    IsKept root one_code completed × IsStored root one_code checksum completed.0.host.disk
unfolding lookup
new_machine-IsIntact_example =
    new_machine-IsIntact root one_code read_code checksum (λ a. refl) empty_host completed.0
      completed.1 (λ m d f e. absurd (cc e)) all_steps

-- The blob is at its path, and nothing is left of the upload.
completed_blob :
    (lookup
        (final_file (join_name (join_name root (codes "local")) (codes "app")) digest)
        completed.0.host.disk
      ≡ some (written none (1 ∷ 2 ∷ 3 ∷ [])))
    × (completed.0.uploads ≡ [])
unfolding get find_upload put_upload take_upload lookup remove start create_recursively begin_chunk
    append_chunk append_all_bytes end_chunk complete commit rename write_all same_name storage_path
    same_path delete
completed_blob = (refl, refl)

abbrev broken : Uploader
broken =
    (complete root one_code checksum app 65 digest []
      (write_chunk app 65 0 (reads (1 ∷ 2 ∷ []) (breaks (codes "reset"))) started.0).1).1

-- Another upload is aborted after that, and then its status is asked for.
abbrev later : Uploader
later = (abort app 66 broken).1

broken_upload_poisons_example :
    (later.poisoned ≡ true)
    × ((status app 1 later).0 ≡ err panicked)
    × ((begin_chunk app 1 0 later).0 ≡ err panicked)
    × ((end_chunk first_writer later).0 ≡ err panicked)
    × ((complete root one_code checksum app 1 digest [] later).0 ≡ err panicked)
    × ((abort app 1 later).0 ≡ err panicked)
    × ((purge root one_code read_code (ok []) later).0 ≡ err panicked)
unfolding get find_upload put_upload start create_recursively same_name
broken_upload_poisons_example =
    broken_upload_poisons root one_code read_code checksum app 65 started.0
      (record { temp_file = upload_temp_file root one_code app 65; hasher = some []; offset = 0 })
      [] (reads (1 ∷ 2 ∷ []) (breaks (codes "reset"))) digest [] [] later [] app 1 0 first_writer
      digest [] (ok []) refl refl refl tt (after here (aborts app 66))

digest_parsed : from_str digest.text ≡ ok digest
unfolding from_str
digest_parsed = refl

from_bytes-as_bytes_example : from_bytes (copies 32 3) ≡ ok digest
unfolding hex_digit
from_bytes-as_bytes_example = from_bytes-as_bytes digest.text digest digest_parsed

-- A repository whose folders are there.
abbrev everywhere : FilePath → Bool
everywhere p = true

read-write_example :
    (read everywhere root
      (local app)
      (codes "latest")
      (write everywhere root (local app) (codes "latest") digest empty_host).1).0
    ≡ ok digest
unfolding write write_all lookup
read-write_example =
    read-write everywhere root (local app) (codes "latest") digest.text digest empty_host
      digest_parsed refl refl
