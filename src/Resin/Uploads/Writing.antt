-- ===== src/Resin/Uploads/Writing.antt =====
-- The steps of `write_chunk` of resin/src/blob_uploader.rs keep the invariant.
use douglas.Base.{
  ℕ, ◌+◌, ◌%◌, ◌≡◌, refl, subst, Bool, true, false, not, ◌==◌, Option, none, some, List, Result,
  err, length, if◌then◌else◌, arith,
}
use douglas.Text.{Text}
use douglas.Paths.{FilePath}
use douglas.Disk.{lookup}
use douglas.Maps.{get, delete, insert, get-insert, get-insert_other, get-delete, get-delete_other}
use douglas.Resin.Names.{Name}
use douglas.Resin.Registries.{PartialUpload, find_upload, put_upload}
use douglas.Resin.Uploads.{
  BlobUploaderError, panicked, Uploader, Writer, u64, Act, lock, range_mismatch, take_hasher,
  begin_found, begin_chunk,
}
use douglas.Resin.Uploads.Lookup.{find-put, find-put_other}
use douglas.Resin.Uploads.Machine.{Key, keys, Writers, admit}
use douglas.Resin.Uploads.Sound.{
  contents, IsHashed, IsFed, place, IsPlaced, IsGood, IsKept, IsKept-step,
}

-- What holds where the lock is poisoned, and of the operation, holds of the operation under the lock.
pub lock-keeps {ℓ} :
    {A : Type ℓ} (P : Result BlobUploaderError A × Uploader → Type 0) (op : Act A) (s : Uploader)
    → P (err panicked, s)
    → P (op s)
    → P (lock op s)
lock-keeps P op s poisoned runs = go s.poisoned
  where
    go : (b : Bool) → P (if b then (err panicked, s) else op s)
    go true = poisoned
    go false = runs

-- The count of a writer wraps around as the offset does.
offset_kept : (o n : ℕ) → o ≡ n % u64 → (o + 0) % u64 ≡ n % u64
offset_kept o n e = omega arith

module _ (root : FilePath) (show_uuid : ℕ → Text) where
  -- Without its writer.
  IsGood-lost :
      (k : Key) (u : Option PartialUpload) (w : Option Writer) (c : List ℕ)
      → IsGood root show_uuid k u w c
      → IsGood root show_uuid k u none c
  IsGood-lost k none w c good = (good.0, (tt, tt))
  IsGood-lost k (some u) w c good = (good.0, (tt, go u.hasher w good.1.1))
    where
      go :
          (hasher : Option (List ℕ)) (w : Option Writer)
          → IsHashed hasher u.offset w c
          → IsHashed hasher u.offset none c
      go (some bytes) w (a, b, _) = (a, b, refl)
      go none w fed = tt

  pub lost-IsKept :
      (k : Key) (s : Uploader) (ws : Writers)
      → IsKept root show_uuid (s, ws)
      → IsKept root show_uuid (s, delete keys k ws)
  lost-IsKept k s ws kept =
      IsKept-step root show_uuid k s s ws (delete keys k ws) (λ l away. refl)
        (λ l away. get-delete_other keys k l ws away) (λ l v away. refl)
        (rw (get-delete keys k ws) (
          IsGood-lost k (find_upload k.0 k.1 s.uploads) (get keys k ws)
            (contents (lookup (place root show_uuid k) s.host.disk)) (kept k)))
        kept

  pub begins-IsKept :
      (name : Name) (uuid expected : ℕ) (s : Uploader) (ws : Writers)
      → IsKept root show_uuid (s, ws)
      → IsKept root show_uuid (admit (name, uuid) (begin_chunk name uuid expected s) ws)
  unfolding begin_chunk
  begins-IsKept name uuid expected s ws kept =
      lock-keeps (λ r. IsKept root show_uuid (admit (name, uuid) r ws))
        (λ s. begin_found name uuid expected (find_upload name uuid s.uploads) s) s kept
        (found (find_upload name uuid s.uploads) refl)
    where
      taken :
          (u : PartialUpload) (hasher : Option (List ℕ))
          → find_upload name uuid s.uploads ≡ some u
          → u.hasher ≡ hasher
          → IsKept root show_uuid (admit (name, uuid) (take_hasher name uuid u hasher s) ws)
      taken u none at has = kept
      taken u (some bytes) at has =
          let u' : PartialUpload = record u { hasher = none } in
          let w : Writer = record {
            name = name;
            uuid = uuid;
            path = u.temp_file;
            hasher = bytes;
            start_offset = u.offset;
            written = 0;
          } in
          let good = kept (name, uuid) in
          let now = contents (lookup (place root show_uuid (name, uuid)) s.host.disk) in
          let placed : IsPlaced root show_uuid (name, uuid) (some u) =
            subst (IsPlaced root show_uuid (name, uuid)) at good.0 in
          let fed : IsHashed (some bytes) u.offset (get keys (name, uuid) ws) now =
            subst (λ h. IsHashed h u.offset (get keys (name, uuid) ws) now) has
              (subst (λ o. IsFed o (get keys (name, uuid) ws) now) at good.1.1) in
          IsKept-step root show_uuid (name, uuid) s
            (record s { uploads = put_upload name uuid u' s.uploads }) ws
            (insert keys (name, uuid) w ws)
            (λ l away. find-put_other (name, uuid) l u' s.uploads away)
            (λ l away. get-insert_other keys (name, uuid) l w ws away) (λ l v away. refl)
            (rw (find-put name uuid u' s.uploads, get-insert keys (name, uuid) w ws)
              (
                placed,
                (
                  (placed.0, placed.1, (refl, refl)),
                  (fed.0, offset_kept u.offset (length bytes) fed.1),
                ),
              ))
            kept

      found :
          (o : Option PartialUpload)
          → find_upload name uuid s.uploads ≡ o
          → IsKept root show_uuid (admit (name, uuid) (begin_found name uuid expected o s) ws)
      found none at = kept
      found (some u) at = in_range (not (expected == u.offset))
        where
          in_range :
              (b : Bool)
              → IsKept root show_uuid (
                  admit
                    (name, uuid)
                    ((if b
                        then (λ s. (err (range_mismatch u.offset expected), s))
                        else take_hasher name uuid u u.hasher)
                      s)
                    ws)
          in_range true = kept
          in_range false = taken u u.hasher at refl
