-- ===== src/Resin/Uploads/Requests.antt =====
-- The requests of resin/src/blob_uploader.rs that make and end an upload keep the invariant.
use douglas.Base.{
  ℕ, ◌≡◌, refl, sym, subst, ◌∙◌, Bool, true, false, not, Option, none, some, List, ok, err,
  if◌then◌else◌,
}
use douglas.Text.{Text, same_text}
use douglas.Paths.{FilePath}
use douglas.Disk.{Disk, lookup, Differs, Differs-sym}
use douglas.Host.{Host, Failure, delete, Answer, done, fails, answer}
use douglas.Host.Effects.{Touches, delete-Touches}
use douglas.Bract.Rolodex.{create_recursively, create_answered}
use douglas.Maps.{get}
use douglas.Stateful.{>>=-keeps}
use douglas.Resin.Names.Parsed.{IsName}
use douglas.Resin.Digests.{Digest, as_bytes, from_bytes}
use douglas.Resin.Blobs.{create_sharded_blob_root, commit, final_file, mediatype_file}
use douglas.Resin.Blobs.Committed.{commit-others}
use douglas.Resin.Registries.{PartialUpload, find_upload, put_upload, take_upload}
use douglas.Resin.Uploads.{
  Uploader, lock, on_host, abort, abort_found, start, new_upload, inserted, registry_root,
  upload_temp_file, temp_root, drop_upload, commit_in, finalized, mismatch, complete,
  complete_found,
}
use douglas.Resin.Uploads.Lookup.{find-put, find-put_other, find-take, find-take_other}
use douglas.Resin.Uploads.Machine.{Key, keys, same_key, Writers}
use douglas.Resin.Uploads.Places.{temp-final, temp-mediatype}
use douglas.Resin.Uploads.Sound.{
  contents, place, IsPlaced, IsGood, IsKept, Spares, IsKept-step, Touches-Spares, place-Differs,
}
use douglas.Resin.Uploads.Writing.{lock-keeps}

create_answered_same : (a : Answer) (h : Host) → (create_answered a h).1.disk ≡ h.disk
create_answered_same done h = refl
create_answered_same (fails e part) h = refl

-- A folder that is made changes no file.
pub create_recursively_same : (p : FilePath) (h : Host) → (create_recursively p h).1.disk ≡ h.disk
unfolding create_recursively
create_recursively_same p h = create_answered_same (answer h) h

module _ (root : FilePath) (show_uuid : ℕ → Text) where
  -- The invariant reads only the uploads and the disk.
  pub IsKept-host :
      (s : Uploader) (b : Bool) (h' : Host) (ws : Writers)
      → h'.disk ≡ s.host.disk
      → IsKept root show_uuid (s, ws)
      → IsKept root show_uuid (record s { poisoned = b; host = h' }, ws)
  IsKept-host s b h' ws same kept =
      subst
        (λ (d : Disk).
          (k : Key)
          → IsGood root show_uuid k (find_upload k.0 k.1 s.uploads) (get keys k ws)
              (contents (lookup (place root show_uuid k) d)))
        (sym same) kept

  -- An upload that is taken out.
  taken-IsKept :
      (k : Key) (s : Uploader) (b : Bool) (h' : Host) (ws : Writers)
      → Spares root show_uuid k s.host.disk h'.disk
      → IsKept root show_uuid (s, ws)
      → IsKept root show_uuid
          (record { uploads = take_upload k.0 k.1 s.uploads; poisoned = b; host = h' }, ws)
  taken-IsKept k s b h' ws spares kept =
      IsKept-step root show_uuid k s
        (record { uploads = take_upload k.0 k.1 s.uploads; poisoned = b; host = h' }) ws ws
        (λ l away. find-take_other k l s.uploads away) (λ l away. refl) spares
        (rw (find-take k.0 k.1 s.uploads) (tt, ((kept k).1.0, tt))) kept

  module _ (injective : (a b : ℕ) → show_uuid a ≡ show_uuid b → a ≡ b) where
    placed-Spares :
        (k : Key) (u : PartialUpload) (h : Host)
        → IsPlaced root show_uuid k (some u)
        → Spares root show_uuid k h.disk (drop_upload (some u) h).disk
    placed-Spares k u h (v, at) =
        Touches-Spares root show_uuid injective k h (delete u.temp_file h).1 v
          (subst (λ p. Touches p h (delete u.temp_file h).1) at (delete-Touches u.temp_file h))

    pub aborts-IsKept :
        (k : Key) (s : Uploader) (ws : Writers)
        → IsKept root show_uuid (s, ws)
        → IsKept root show_uuid ((abort k.0 k.1 s).1, ws)
    unfolding abort
    aborts-IsKept k s ws kept =
        lock-keeps (λ r. IsKept root show_uuid (r.1, ws))
          (λ s. abort_found k.0 k.1 (find_upload k.0 k.1 s.uploads) s) s kept
          (found (find_upload k.0 k.1 s.uploads) (kept k).0)
      where
        found :
            (o : Option PartialUpload)
            → IsPlaced root show_uuid k o
            → IsKept root show_uuid ((abort_found k.0 k.1 o s).1, ws)
        found none placed = kept
        found (some u) placed =
            taken-IsKept k s s.poisoned (drop_upload (some u) s.host) ws
              (placed-Spares k u s.host placed) kept

    pub starts-IsKept :
        (k : Key) (s : Uploader) (ws : Writers)
        → IsName k.0
        → find_upload k.0 k.1 s.uploads ≡ none
        → get keys k ws ≡ none
        → lookup (place root show_uuid k) s.host.disk ≡ none
        → IsKept root show_uuid (s, ws)
        → IsKept root show_uuid ((start root show_uuid k.0 k.1 s).1, ws)
    unfolding start
    starts-IsKept k s ws v free no_writer no_file kept =
        >>=-keeps (λ s'. IsKept root show_uuid (s', ws))
          (on_host (create_recursively (temp_root root show_uuid k.0)))
          (λ _. lock (inserted root show_uuid k.0 k.1)) s made
          λ _.
            lock-keeps (λ r. IsKept root show_uuid (r.1, ws)) (inserted root show_uuid k.0 k.1) s₁
              made
              (rw free (
                IsKept-step root show_uuid k s₁
                  (record s₁ { uploads = put_upload k.0 k.1 u s.uploads }) ws ws
                  (λ l away. find-put_other k l u s.uploads away) (λ l away. refl)
                  (λ l w away. refl)
                  (rw (find-put k.0 k.1 u s.uploads, no_writer, same, no_file)
                    ((v, refl), (tt, (refl, refl, refl))))
                  made))
      where
        h₁ : Host
        h₁ = (create_recursively (temp_root root show_uuid k.0) s.host).1

        same : h₁.disk ≡ s.host.disk
        same = create_recursively_same (temp_root root show_uuid k.0) s.host

        s₁ : Uploader
        s₁ = record s { host = h₁ }

        u : PartialUpload
        u = new_upload root show_uuid (upload_temp_file root show_uuid k.0 k.1)

        made : IsKept root show_uuid (s₁, ws)
        made = IsKept-host s s.poisoned h₁ ws same kept

    module _ (sha256 : List ℕ → List ℕ) where
      commit-Spares :
          (k : Key) (u : PartialUpload) (claimed : Digest) (media_type : Text) (h h' : Host)
          → IsPlaced root show_uuid k (some u)
          → Spares root show_uuid k h.disk h'.disk
          → Spares root show_uuid k h.disk
              (commit u.temp_file (registry_root root show_uuid k.0) claimed media_type h').1.disk
      commit-Spares k u claimed media_type h h' (v, at) before l w away =
          commit-others u.temp_file (registry_root root show_uuid k.0) claimed media_type h'
            (place root show_uuid l)
            (
              rw at (differs k l v w away),
              Differs-sym (place root show_uuid l)
                  (final_file (registry_root root show_uuid k.0) claimed)
                  (temp-final root show_uuid l.0 k.0 l.1 claimed),
              Differs-sym (place root show_uuid l)
                  (mediatype_file (registry_root root show_uuid k.0) claimed)
                  (temp-mediatype root show_uuid l.0 k.0 l.1 claimed),
            )
          ∙ before l w away
        where
          differs :
              (k l : Key)
              → IsName k.0
              → IsName l.0
              → same_key k l ≡ false
              → Differs (place root show_uuid k) (place root show_uuid l)
          differs = place-Differs root show_uuid injective

      pub completes-IsKept :
          (k : Key) (claimed : Digest) (media_type : Text) (s : Uploader) (ws : Writers)
          → IsKept root show_uuid (s, ws)
          → IsKept root show_uuid
              ((complete root show_uuid sha256 k.0 k.1 claimed media_type s).1, ws)
      unfolding complete
      completes-IsKept k claimed media_type s ws kept =
          lock-keeps (λ r. IsKept root show_uuid (r.1, ws))
            (λ s.
              complete_found root show_uuid sha256 k.0 k.1 claimed media_type
                (find_upload k.0 k.1 s.uploads) s)
            s kept (found (find_upload k.0 k.1 s.uploads) (kept k).0)
        where
          s₁ : Uploader
          s₁ = record s { uploads = take_upload k.0 k.1 s.uploads }

          made : Host
          made =
              (create_recursively
                (create_sharded_blob_root (registry_root root show_uuid k.0) claimed) s.host).1

          same : made.disk ≡ s.host.disk
          same =
              create_recursively_same
                (create_sharded_blob_root (registry_root root show_uuid k.0) claimed) s.host

          unmade :
              (u : PartialUpload)
              → IsPlaced root show_uuid k (some u)
              → Spares root show_uuid k s.host.disk (drop_upload (some u) made).disk
          unmade u placed l v away = placed-Spares k u made placed l v away ∙ rw same refl

          committed :
              (u : PartialUpload) (r : Failure)
              → IsPlaced root show_uuid k (some u)
              → IsKept root show_uuid
                  ((commit_in root show_uuid sha256 k.0 u claimed media_type (r, made) s₁).1, ws)
          committed u (err e) placed =
              taken-IsKept k s s.poisoned (drop_upload (some u) made) ws (unmade u placed) kept
          committed u (ok _) placed =
              taken-IsKept k s s.poisoned
                (commit u.temp_file (registry_root root show_uuid k.0) claimed media_type made).1 ws
                (commit-Spares k u claimed media_type s.host made placed (λ l v away. rw same refl))
                kept

          tested :
              (u : PartialUpload) (bytes : List ℕ) (b : Bool)
              → IsPlaced root show_uuid k (some u)
              → IsKept root show_uuid (
                (if b
                    then (
                      err (mismatch root show_uuid sha256 claimed (from_bytes (sha256 bytes))),
                      record s₁ { host = drop_upload (some u) s.host },
                    )
                    else commit_in root show_uuid sha256 k.0 u claimed media_type
                        (create_recursively
                          (create_sharded_blob_root (registry_root root show_uuid k.0) claimed)
                          s.host)
                        s₁).1,
                ws,
              )
          tested u bytes true placed =
              taken-IsKept k s s.poisoned (drop_upload (some u) s.host) ws
                (placed-Spares k u s.host placed) kept
          tested u bytes false placed =
              committed u
                (create_recursively
                  (create_sharded_blob_root (registry_root root show_uuid k.0) claimed) s.host).0
                placed

          found :
              (o : Option PartialUpload)
              → IsPlaced root show_uuid k o
              → IsKept root show_uuid
                  ((complete_found root show_uuid sha256 k.0 k.1 claimed media_type o s).1, ws)
          found none placed = kept
          found (some u) placed = hashed u.hasher
            where
              hashed :
                  (hasher : Option (List ℕ))
                  → IsKept root show_uuid
                      ((finalized root show_uuid sha256 k.0 u claimed media_type hasher s₁).1, ws)
              hashed none =
                  taken-IsKept k s true (drop_upload (some u) s.host) ws
                    (placed-Spares k u s.host placed) kept
              hashed (some bytes) =
                  tested u bytes (not (same_text (as_bytes claimed) (sha256 bytes))) placed
