-- ===== src/Resin/Uploads/Completed.antt =====
-- `complete` of resin/src/blob_uploader.rs stores what its digest says.
use douglas.Base.{
  ℕ, ◌≡◌, refl, sym, ap, ◌∙◌, Bool, true, false, not, Bool-cases, inl, inr, Option, none, some,
  List, ok, err,
}
use douglas.Text.{Text, same_text, same_text_sound}
use douglas.Paths.{FilePath}
use douglas.Disk.{lookup}
use douglas.Host.{Host, Failure}
use douglas.Bract.Rolodex.{create_recursively}
use douglas.Maps.{get}
use douglas.Resin.Digests.{Digest, as_bytes}
use douglas.Resin.Blobs.{create_sharded_blob_root}
use douglas.Resin.Registries.{PartialUpload, find_upload, take_upload}
use douglas.Resin.Uploads.{
  Uploader, registry_root, drop_upload, commit_in, finalized, complete, complete_found,
}
use douglas.Resin.Uploads.Machine.{Key, keys, Writers}
use douglas.Resin.Uploads.Sound.{contents, IsHashed, IsFed, place, IsPlaced, IsKept}
use douglas.Resin.Uploads.Writing.{lock-keeps}
use douglas.Resin.Uploads.Requests.{create_recursively_same}
use douglas.Resin.Uploads.Stored.{IsStored, IsStored-left, dropped-Leaves, commit-IsStored}

not-false : (b : Bool) → not b ≡ false → b ≡ true
not-false true e = refl
not-false false e = absurd (cc e)

module _ (root : FilePath) (show_uuid : ℕ → Text) (sha256 : List ℕ → List ℕ) (k : Key)
    (claimed : Digest) (media_type : Text) where
  dropped-IsStored :
      (u : PartialUpload) (h : Host)
      → IsPlaced root show_uuid k (some u)
      → IsStored root show_uuid sha256 h.disk
      → IsStored root show_uuid sha256 (drop_upload (some u) h).disk
  dropped-IsStored u h placed =
      IsStored-left root show_uuid sha256 h.disk (drop_upload (some u) h).disk
        (dropped-Leaves root show_uuid k u h placed)

  commit_in-IsStored :
      (u : PartialUpload) (s : Uploader) (r : Failure × Host)
      → IsPlaced root show_uuid k (some u)
      → as_bytes claimed ≡ sha256 (contents (lookup (place root show_uuid k) r.1.disk))
      → IsStored root show_uuid sha256 r.1.disk
      → IsStored root show_uuid sha256
          (commit_in root show_uuid sha256 k.0 u claimed media_type r s).1.host.disk
  commit_in-IsStored u s (err e, h) placed hashed stored = dropped-IsStored u h placed stored
  commit_in-IsStored u s (ok _, h) placed hashed stored =
      commit-IsStored root show_uuid sha256 k u claimed media_type h placed.1 hashed stored

  finalized-IsStored :
      (u : PartialUpload) (hasher : Option (List ℕ)) (w : Option _) (s : Uploader)
      → IsPlaced root show_uuid k (some u)
      → IsHashed hasher u.offset w (contents (lookup (place root show_uuid k) s.host.disk))
      → IsStored root show_uuid sha256 s.host.disk
      → IsStored root show_uuid sha256
          (finalized root show_uuid sha256 k.0 u claimed media_type hasher s).1.host.disk
  finalized-IsStored u none w s placed fed stored = dropped-IsStored u s.host placed stored
  finalized-IsStored u (some bytes) w s placed fed stored =
      elim (Bool-cases (not (same_text (as_bytes claimed) (sha256 bytes)))) [
        | inl e ↦ rw e (dropped-IsStored u s.host placed stored)
        | inr e ↦
            let shards = create_sharded_blob_root (registry_root root show_uuid k.0) claimed in
            let same = create_recursively_same shards s.host in
            let found =
              same_text_sound (as_bytes claimed) (sha256 bytes)
                (not-false (same_text (as_bytes claimed) (sha256 bytes)) e) in
            rw e (
              commit_in-IsStored u s (create_recursively shards s.host) placed
                (rw same (found ∙ ap sha256 (sym fed.0))) (rw same stored))
      ]

  pub completes-IsStored :
      (s : Uploader) (ws : Writers)
      → IsKept root show_uuid (s, ws)
      → IsStored root show_uuid sha256 s.host.disk
      → IsStored root show_uuid sha256
          (complete root show_uuid sha256 k.0 k.1 claimed media_type s).1.host.disk
  unfolding complete
  completes-IsStored s ws kept stored =
      lock-keeps (λ r. IsStored root show_uuid sha256 r.1.host.disk)
        (λ s.
          complete_found root show_uuid sha256 k.0 k.1 claimed media_type
            (find_upload k.0 k.1 s.uploads) s)
        s stored (found (find_upload k.0 k.1 s.uploads) (kept k).0 (kept k).1.1)
    where
      found :
          (o : Option PartialUpload)
          → IsPlaced root show_uuid k o
          → IsFed o (get keys k ws) (contents (lookup (place root show_uuid k) s.host.disk))
          → IsStored root show_uuid sha256
              (complete_found root show_uuid sha256 k.0 k.1 claimed media_type o s).1.host.disk
      found none placed fed = stored
      found (some u) placed fed =
          finalized-IsStored u u.hasher (get keys k ws)
            (record s { uploads = take_upload k.0 k.1 s.uploads }) placed fed stored
