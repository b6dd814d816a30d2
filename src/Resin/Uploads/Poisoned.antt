-- ===== src/Resin/Uploads/Poisoned.antt =====
-- The `unwrap` of a hasher in resin/src/blob_uploader.rs.
use douglas.Base.{
  ℕ, ◌≡◌, refl, true, false, ◌==◌, inl, inr, Option, none, some, List, [], ◌∷◌, ◌++◌, ◌+◌, ◌%◌,
  length, Result, ok, err, Result-cases, arith,
}
use douglas.Text.{Text}
use douglas.Paths.{FilePath}
use douglas.Host.{Host, append_all_bytes}
use douglas.Resin.Names.{Name}
use douglas.Resin.Digests.{Digest}
use douglas.Resin.Registries.{PartialUpload, find_upload, put_upload}
use douglas.Resin.Uploads.{
  BlobUploaderError, panicked, file_system_error, network_error, Uploader, Writer, u64, Body,
  finished, breaks, reads, begin_chunk, append_chunk, end_chunk, write_body, write_chunk, status,
  complete, abort, purge, start, inserted, temp_root, lock, on_host,
}
use douglas.Resin.Uploads.Machine.{
  Writers, Machine, Step, starts, begins, appends, ends, is_lost, completes, aborts, purges,
  Reaches, here, after,
}
use douglas.Resin.Uploads.Writing.{lock-keeps}
use douglas.Resin.Uploads.Reached.{admit_same, resume_same}
use douglas.Stateful.{>>=-keeps}
use douglas.Bract.Rolodex.{create_recursively}
use douglas.Files.{FileSystemError}
use douglas.Resin.Uploads.Lookup.{find-put}

-- The connection breaks before the end of the body.
abbrev pub Breaks : Body → Type 0
Breaks finished = ⊥
Breaks (breaks reason) = Unit
Breaks (reads [] body) = ⊥
Breaks (reads (b ∷ chunk) body) = Breaks body

-- The loop over the body does not touch the uploads.
write_body-Breaks :
    (body : Body) (w : Writer) (s : Uploader)
    → Breaks body
    → (e : BlobUploaderError) × (h : Host) × (write_body body w s ≡ (err e, record s { host = h }))
unfolding write_body append_chunk
write_body-Breaks finished w s broken = absurd broken
write_body-Breaks (breaks reason) w s broken = (network_error reason, s.host, refl)
write_body-Breaks (reads [] body) w s broken = absurd broken
write_body-Breaks (reads (b ∷ chunk) body) w s broken =
    let h' = (append_all_bytes w.path (b ∷ chunk) s.host).1 in
    elim (Result-cases (append_all_bytes w.path (b ∷ chunk) s.host).0) [
      | inl (_, e) ↦
          let w' : Writer = record w {
            hasher = w.hasher ++ b ∷ chunk;
            written = (w.written + length (b ∷ chunk)) % u64;
          } in
          let (x, h, same) = write_body-Breaks body w' (record s { host = h' }) broken in
          (x, h, rw e same)
      | inr (x, e) ↦ (file_system_error x, h', rw e refl)
    ]

module _ (name : Name) (uuid : ℕ) (s : Uploader) (u : PartialUpload) (bytes : List ℕ) where
  begins-ok :
      s.poisoned ≡ false
      → find_upload name uuid s.uploads ≡ some u
      → u.hasher ≡ some bytes
      → (w : Writer) × (begin_chunk name uuid u.offset s ≡ (
        ok w,
        record s { uploads = put_upload name uuid (record u { hasher = none }) s.uploads },
      ))
  unfolding begin_chunk
  begins-ok sane at has =
      let same : (u.offset == u.offset) ≡ true = ground arith in
      let w : Writer = record {
        name = name;
        uuid = uuid;
        path = u.temp_file;
        hasher = bytes;
        start_offset = u.offset;
        written = 0;
      } in
      (w, rw (sane, at, same, has) refl)

  broken_write :
      (body : Body)
      → s.poisoned ≡ false
      → find_upload name uuid s.uploads ≡ some u
      → u.hasher ≡ some bytes
      → Breaks body
      → (h : Host) × ((write_chunk name uuid u.offset body s).1 ≡ record {
        uploads = put_upload name uuid (record u { hasher = none }) s.uploads;
        poisoned = s.poisoned;
        host = h;
      })
  unfolding write_chunk
  broken_write body sane at has broken =
      let (w, began) = begins-ok sane at has in
      let (e, h, broke) =
        write_body-Breaks body w
          (record s { uploads = put_upload name uuid (record u { hasher = none }) s.uploads })
          broken in
      (h, rw (began, broke) refl)

  poisoned_upload :
      (root : FilePath) (show_uuid : ℕ → Text) (sha256 : List ℕ → List ℕ) (body : Body)
      (claimed : Digest) (media_type : Text)
      → s.poisoned ≡ false
      → find_upload name uuid s.uploads ≡ some u
      → u.hasher ≡ some bytes
      → Breaks body
      → (complete root show_uuid sha256 name uuid claimed media_type
          (write_chunk name uuid u.offset body s).1).1.poisoned
        ≡ true
  unfolding complete
  poisoned_upload root show_uuid sha256 body claimed media_type sane at has broken =
      let (h, e) = broken_write body sane at has broken in
      rw (e, sane, find-put name uuid (record u { hasher = none }) s.uploads) refl

module _ (root : FilePath) (show_uuid : ℕ → Text) (parse_uuid : Text → Option ℕ)
    (sha256 : List ℕ → List ℕ) where
  starts_poisoned :
      (name : Name) (uuid : ℕ) (s : Uploader)
      → s.poisoned ≡ true
      → (start root show_uuid name uuid s).1.poisoned ≡ true
  unfolding start
  starts_poisoned name uuid s p =
      let folder = temp_root root show_uuid name in
      >>=-keeps (λ s'. s'.poisoned ≡ true) (on_host (create_recursively folder))
        (λ _. lock (inserted root show_uuid name uuid)) s p
        λ _.
          lock-keeps (λ r. r.1.poisoned ≡ true) (inserted root show_uuid name uuid)
            (record s { host = (create_recursively folder s.host).1 }) p p

  appends_poisoned :
      (w : Writer) (chunk : List ℕ) (s : Uploader)
      → s.poisoned ≡ true
      → (append_chunk w chunk s).1.poisoned ≡ true
  unfolding append_chunk
  appends_poisoned w chunk s p =
      >>=-keeps (λ s'. s'.poisoned ≡ true) (on_host (append_all_bytes w.path chunk)) _ s p (λ _. p)

  -- The lock stays poisoned.
  Step-poisoned :
      (m n : Machine)
      → Step root show_uuid parse_uuid sha256 m n
      → m.0.poisoned ≡ true
      → n.0.poisoned ≡ true
  unfolding begin_chunk end_chunk complete abort purge
  Step-poisoned (s, ws) n (starts name uuid v free no_writer no_file) p =
      starts_poisoned name uuid s p
  Step-poisoned (s, ws) n (begins name uuid expected) p =
      rw (admit_same (name, uuid) (begin_chunk name uuid expected s) ws, p) refl
  Step-poisoned (s, ws) n (appends k w chunk at) p =
      rw (resume_same k (append_chunk w chunk s) ws) (appends_poisoned w chunk s p)
  Step-poisoned (s, ws) n (ends k w at) p = rw p refl
  Step-poisoned (s, ws) n (is_lost k) p = p
  Step-poisoned (s, ws) n (completes name uuid claimed media_type) p = rw p refl
  Step-poisoned (s, ws) n (aborts name uuid) p = rw p refl
  Step-poisoned (s, ws) n (purges folders) p = rw p refl

  Reaches-poisoned :
      (m n : Machine)
      → Reaches root show_uuid parse_uuid sha256 m n
      → m.0.poisoned ≡ true
      → n.0.poisoned ≡ true
  Reaches-poisoned m n here p = p
  Reaches-poisoned m n (after {n = o} reaches step) p =
      Step-poisoned o n step (Reaches-poisoned m o reaches p)

  -- Let the lock not be poisoned and an upload have its hasher. If the body of a chunk that is
  -- written to it at its offset breaks off before its end and the upload is completed right after
  -- that, then in every state that is reached from there, with whatever writers, by whatever
  -- requests, the lock is poisoned, and every request for the status of an upload, to begin or to
  -- end a chunk, to complete or to abort an upload and to purge panics, whatever it is about.
  pub broken_upload_poisons :
      (name : Name) (uuid : ℕ) (s : Uploader) (u : PartialUpload) (bytes : List ℕ) (body : Body)
      (claimed : Digest) (media_type : Text) (ws : Writers) (later : Uploader) (later_ws : Writers)
      (other : Name) (id expected : ℕ) (w : Writer) (digest : Digest) (kind : Text)
      (folders : Result FileSystemError (List Text))
      → s.poisoned ≡ false
      → find_upload name uuid s.uploads ≡ some u
      → u.hasher ≡ some bytes
      → Breaks body
      → Reaches root show_uuid parse_uuid sha256
          (
            (complete root show_uuid sha256 name uuid claimed media_type
                (write_chunk name uuid u.offset body s).1).1,
            ws,
          )
          (later, later_ws)
      → (later.poisoned ≡ true)
        × ((status other id later).0 ≡ err panicked)
        × ((begin_chunk other id expected later).0 ≡ err panicked)
        × ((end_chunk w later).0 ≡ err panicked)
        × ((complete root show_uuid sha256 other id digest kind later).0 ≡ err panicked)
        × ((abort other id later).0 ≡ err panicked)
        × ((purge root show_uuid parse_uuid folders later).0 ≡ err panicked)
  unfolding status begin_chunk end_chunk complete abort purge
  broken_upload_poisons name uuid s u bytes body claimed media_type ws later later_ws other id
        expected w digest kind folders sane at has broken reaches =
      let p =
        Reaches-poisoned
          (
            (complete root show_uuid sha256 name uuid claimed media_type
                (write_chunk name uuid u.offset body s).1).1,
            ws,
          )
          (later, later_ws) reaches
          (poisoned_upload name uuid s u bytes root show_uuid sha256 body claimed media_type sane at
            has broken) in
      (p, rw p refl, rw p refl, rw p refl, rw p refl, rw p refl, rw p refl)
