-- ===== src/Resin/Uploads/Reached.antt =====
-- Whatever requests follow each other on the uploader of resin/src/blob_uploader.rs, the invariant
-- holds.
use douglas.Base.{
  ℕ, ◌≡◌, refl, sym, ap, subst, ◌∙◌, Bool, true, false, not, ◌==◌, Option, none, some,
  some-injective, List, Result, ok, err, if◌then◌else◌,
}
use douglas.Text.{Text}
use douglas.Paths.{FilePath}
use douglas.Host.{Host, append_all_bytes}
use douglas.Host.Effects.{Touches, append_all_bytes-Touches}
use douglas.Bract.Rolodex.{create_recursively}
use douglas.Maps.{get}
use douglas.Stateful.{>>=-keeps}
use douglas.Resin.Names.{Name}
use douglas.Resin.Registries.{PartialUpload, find_upload}
use douglas.Resin.Uploads.{
  BlobUploaderError, Uploader, Writer, lock, on_host, take_hasher, begin_found, begin_chunk,
  append_chunk, end_found, end_chunk, start, inserted, temp_root, abort, abort_found,
  range_mismatch,
}
use douglas.Resin.Uploads.Machine.{
  Key, keys, Writers, Machine, new_machine, admit, resume, Step, starts, begins, appends, ends,
  is_lost, completes, aborts, purges, Reaches, here, after,
}
use douglas.Resin.Uploads.Sound.{IsPlaced, IsWriting, IsKept}
use douglas.Resin.Uploads.Writing.{lock-keeps, lost-IsKept, begins-IsKept}
use douglas.Resin.Uploads.Appending.{appends-IsKept, ends-IsKept}
use douglas.Resin.Uploads.Requests.{
  create_recursively_same, starts-IsKept, aborts-IsKept, completes-IsKept,
}
use douglas.Resin.Uploads.Stored.{IsStored, IsStored-left, Leaves, Touches-Leaves, dropped-Leaves}
use douglas.Resin.Uploads.Completed.{completes-IsStored}
use douglas.Resin.Uploads.Purging.{purges-IsSound}

begins_same :
    (name : Name) (uuid expected : ℕ) (s : Uploader)
    → (begin_chunk name uuid expected s).1.host ≡ s.host
unfolding begin_chunk
begins_same name uuid expected s =
    lock-keeps (λ r. r.1.host ≡ s.host)
      (λ s. begin_found name uuid expected (find_upload name uuid s.uploads) s) s refl
      (found (find_upload name uuid s.uploads))
  where
    taken :
        (u : PartialUpload) (hasher : Option (List ℕ))
        → (take_hasher name uuid u hasher s).1.host ≡ s.host
    taken u none = refl
    taken u (some bytes) = refl

    found : (o : Option PartialUpload) → (begin_found name uuid expected o s).1.host ≡ s.host
    found none = refl
    found (some u) = in_range (not (expected == u.offset))
      where
        in_range :
            (b : Bool)
            → ((if b
                  then (λ s. (err (range_mismatch u.offset expected), s))
                  else take_hasher name uuid u u.hasher)
                s).1.host
              ≡ s.host
        in_range true = refl
        in_range false = taken u u.hasher

pub admit_same :
    (k : Key) (r : Result BlobUploaderError Writer × Uploader) (ws : Writers)
    → (admit k r ws).0 ≡ r.1
admit_same k (ok w, s) ws = refl
admit_same k (err e, s) ws = refl

pub resume_same :
    (k : Key) (r : Result BlobUploaderError Writer × Uploader) (ws : Writers)
    → (resume k r ws).0 ≡ r.1
resume_same k (ok w, s) ws = refl
resume_same k (err e, s) ws = refl

appends_host :
    (w : Writer) (chunk : List ℕ) (s : Uploader)
    → (append_chunk w chunk s).1.host ≡ (append_all_bytes w.path chunk s.host).1
unfolding append_chunk
appends_host w chunk s =
    >>=-keeps (λ s'. s'.host ≡ (append_all_bytes w.path chunk s.host).1)
      (on_host (append_all_bytes w.path chunk)) _ s refl (λ _. refl)

ends_same : (w : Writer) (s : Uploader) → (end_chunk w s).1.host ≡ s.host
unfolding end_chunk
ends_same w s =
    lock-keeps (λ r. r.1.host ≡ s.host) (λ s. end_found w (find_upload w.name w.uuid s.uploads) s) s
      refl (found (find_upload w.name w.uuid s.uploads))
  where
    found : (o : Option PartialUpload) → (end_found w o s).1.host ≡ s.host
    found none = refl
    found (some u) = refl

module _ (root : FilePath) (show_uuid : ℕ → Text) (parse_uuid : Text → Option ℕ)
    (sha256 : List ℕ → List ℕ) where
  starts_same :
      (name : Name) (uuid : ℕ) (s : Uploader)
      → find_upload name uuid s.uploads ≡ none
      → (start root show_uuid name uuid s).1.host.disk ≡ s.host.disk
  unfolding start
  starts_same name uuid s free =
      let folder = temp_root root show_uuid name in
      let made = create_recursively_same folder s.host in
      >>=-keeps (λ s'. s'.host.disk ≡ s.host.disk) (on_host (create_recursively folder))
        (λ _. lock (inserted root show_uuid name uuid)) s made
        λ _.
          lock-keeps (λ r. r.1.host.disk ≡ s.host.disk) (inserted root show_uuid name uuid)
            (record s { host = (create_recursively folder s.host).1 }) made (rw free made)

  aborts-Leaves :
      (k : Key) (s : Uploader) (ws : Writers)
      → IsKept root show_uuid (s, ws)
      → Leaves root show_uuid s.host.disk (abort k.0 k.1 s).1.host.disk
  unfolding abort
  aborts-Leaves k s ws kept =
      lock-keeps (λ r. Leaves root show_uuid s.host.disk r.1.host.disk)
        (λ s. abort_found k.0 k.1 (find_upload k.0 k.1 s.uploads) s) s (λ m c. refl)
        (found (find_upload k.0 k.1 s.uploads) (kept k).0)
    where
      found :
          (o : Option PartialUpload)
          → IsPlaced root show_uuid k o
          → Leaves root show_uuid s.host.disk (abort_found k.0 k.1 o s).1.host.disk
      found none placed = λ m c. refl
      found (some u) placed = dropped-Leaves root show_uuid k u s.host placed

  appends-Leaves :
      (k : Key) (w : Writer) (chunk : List ℕ) (s : Uploader) (ws : Writers)
      → get keys k ws ≡ some w
      → IsKept root show_uuid (s, ws)
      → Leaves root show_uuid s.host.disk (append_chunk w chunk s).1.host.disk
  appends-Leaves k w chunk s ws at kept =
      let writing : IsWriting root show_uuid k (some w) =
        subst (IsWriting root show_uuid k) at (kept k).1.0 in
      let h' = (append_all_bytes w.path chunk s.host).1 in
      rw (appends_host w chunk s) (
        Touches-Leaves root show_uuid k s.host h' (
          subst (λ p. Touches p s.host h') writing.1
            (append_all_bytes-Touches w.path chunk s.host)))

  abbrev pub IsIntact : Machine → Type 0
  IsIntact (s, ws) = IsKept root show_uuid (s, ws) × IsStored root show_uuid sha256 s.host.disk

  module _ (parses : (a : ℕ) → parse_uuid (show_uuid a) ≡ some a) where
    injective : (a b : ℕ) → show_uuid a ≡ show_uuid b → a ≡ b
    injective a b e = some-injective (sym (parses a) ∙ ap parse_uuid e ∙ parses b)

    left :
        (m n : Machine)
        → IsStored root show_uuid sha256 m.0.host.disk
        → Leaves root show_uuid m.0.host.disk n.0.host.disk
        → IsKept root show_uuid n
        → IsIntact n
    left m n stored leaves kept =
        (kept, IsStored-left root show_uuid sha256 m.0.host.disk n.0.host.disk leaves stored)

    Step-IsIntact :
        (m n : Machine) → Step root show_uuid parse_uuid sha256 m n → IsIntact m → IsIntact n
    Step-IsIntact (s, ws) n (starts name uuid v free no_writer no_file) (kept, stored) =
        left (s, ws) n stored (λ m c. rw (starts_same name uuid s free) refl)
          (starts-IsKept root show_uuid injective (name, uuid) s ws v free no_writer no_file kept)
    Step-IsIntact (s, ws) n (begins name uuid expected) (kept, stored) =
        left (s, ws) n stored
          (λ m c.
            rw
              (
                admit_same (name, uuid) (begin_chunk name uuid expected s) ws,
                begins_same name uuid expected s,
              )
              refl)
          (begins-IsKept root show_uuid name uuid expected s ws kept)
    Step-IsIntact (s, ws) n (appends k w chunk at) (kept, stored) =
        left (s, ws) n stored
          (λ m c.
            rw (resume_same k (append_chunk w chunk s) ws)
              (appends-Leaves k w chunk s ws at kept m c))
          (appends-IsKept root show_uuid injective k w chunk s ws at kept)
    Step-IsIntact (s, ws) n (ends k w at) (kept, stored) =
        left (s, ws) n stored (λ m c. rw (ends_same w s) refl)
          (ends-IsKept root show_uuid injective k w s ws at kept)
    Step-IsIntact (s, ws) n (is_lost k) (kept, stored) =
        (lost-IsKept root show_uuid k s ws kept, stored)
    Step-IsIntact (s, ws) n (completes name uuid claimed media_type) (kept, stored) = (
      completes-IsKept root show_uuid injective sha256 (name, uuid) claimed media_type s ws kept,
      completes-IsStored root show_uuid sha256 (name, uuid) claimed media_type s ws kept stored,
    )
    Step-IsIntact (s, ws) n (aborts name uuid) (kept, stored) =
        left (s, ws) n stored (aborts-Leaves (name, uuid) s ws kept)
          (aborts-IsKept root show_uuid injective (name, uuid) s ws kept)
    Step-IsIntact (s, ws) n (purges folders) (kept, stored) =
        purges-IsSound root show_uuid parse_uuid sha256 ws parses folders s (kept, stored)

    Reaches-IsIntact :
        (m n : Machine) → Reaches root show_uuid parse_uuid sha256 m n → IsIntact m → IsIntact n
    Reaches-IsIntact m n here intact = intact
    Reaches-IsIntact m n (after {n = o} reaches step) intact =
        Step-IsIntact o n step (Reaches-IsIntact m o reaches intact)

    -- If the text of a uuid parses to that uuid, then whatever requests follow each other on a new
    -- uploader over a store whose blobs have the digests of their paths, the steps of chunks that
    -- several requests write in between and failures of the host at any call included: the blobs
    -- still have the digests of their paths, and the temporary file of every upload holds what its
    -- hasher, or that of the request that writes to it, was fed.
    pub new_machine-IsIntact :
        (h : Host) (s : Uploader) (ws : Writers)
        → IsStored root show_uuid sha256 h.disk
        → Reaches root show_uuid parse_uuid sha256 (new_machine h) (s, ws)
        → IsKept root show_uuid (s, ws) × IsStored root show_uuid sha256 s.host.disk
    unfolding find_upload get
    new_machine-IsIntact h s ws stored reaches =
        Reaches-IsIntact (new_machine h) (s, ws) reaches ((λ k. (tt, (tt, tt))), stored)
