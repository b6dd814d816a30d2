-- ===== src/Resin/Uploads/Stored.antt =====
-- The blobs that resin/src/blob_uploader.rs puts in the store are what their digests say.
use douglas.Base.{ℕ, ◌≡◌, sym, ap, subst, ◌∙◌, Bool-cases, inl, inr, Option, some, List}
use douglas.Text.{Text}
use douglas.Paths.{FilePath, same_path, same_path_sound}
use douglas.Disk.{File, Disk, lookup}
use douglas.Host.{Host, delete}
use douglas.Host.Effects.{Touches, delete-Touches}
use douglas.Resin.Names.{Name}
use douglas.Resin.Digests.{Digest, as_bytes, pair_bytes}
use douglas.Resin.Blobs.{commit, final_file, mediatype_file}
use douglas.Resin.Blobs.Committed.{commit-others, commit-final, Comes}
use douglas.Resin.Registries.{PartialUpload}
use douglas.Resin.Uploads.{registry_root, drop_upload}
use douglas.Resin.Uploads.Machine.{Key}
use douglas.Resin.Uploads.Places.{temp-final, mediatype-final, final_place}
use douglas.Resin.Uploads.Sound.{contents, place, IsPlaced}

module _ (root : FilePath) (show_uuid : ℕ → Text) where
  abbrev pub blob : Name → Digest → FilePath
  blob m d = final_file (registry_root root show_uuid m) d

  -- No blob changes.
  abbrev pub Leaves : Disk → Disk → Type 0
  Leaves d d' = (m : Name) (c : Digest) → lookup (blob m c) d' ≡ lookup (blob m c) d

  pub Touches-Leaves :
      (k : Key) (h h' : Host) → Touches (place root show_uuid k) h h' → Leaves h.disk h'.disk
  Touches-Leaves k h h' touches m c = touches (blob m c) (temp-final root show_uuid k.0 m k.1 c)

  pub dropped-Leaves :
      (k : Key) (u : PartialUpload) (h : Host)
      → IsPlaced root show_uuid k (some u)
      → Leaves h.disk (drop_upload (some u) h).disk
  dropped-Leaves k u h (v, at) =
      Touches-Leaves k h (delete u.temp_file h).1
        (subst (λ p. Touches p h (delete u.temp_file h).1) at (delete-Touches u.temp_file h))

  module _ (sha256 : List ℕ → List ℕ) where
    abbrev pub IsStored : Disk → Type 0
    IsStored disk =
        (m : Name) (d : Digest) (f : File)
        → lookup (blob m d) disk ≡ some f
        → as_bytes d ≡ sha256 f.contents

    pub IsStored-left : (d d' : Disk) → Leaves d d' → IsStored d → IsStored d'
    IsStored-left d d' leaves stored m c f e = stored m c f (sym (leaves m c) ∙ e)

    -- The file that a commit moves is the one that was hashed.
    pub commit-IsStored :
        (k : Key) (u : PartialUpload) (claimed : Digest) (media_type : Text) (h : Host)
        → u.temp_file ≡ place root show_uuid k
        → as_bytes claimed ≡ sha256 (contents (lookup (place root show_uuid k) h.disk))
        → IsStored h.disk
        → IsStored
            (commit u.temp_file (registry_root root show_uuid k.0) claimed media_type h).1.disk
    commit-IsStored k u claimed media_type h at hashed stored m d f e =
        elim (Bool-cases (same_path (blob k.0 claimed) (blob m d))) [
          | inl same ↦
              let there : blob k.0 claimed ≡ blob m d =
                same_path_sound (blob k.0 claimed) (blob m d) same in
              let digits = final_place root show_uuid k.0 m claimed d same in
              ap pair_bytes (sym digits)
              ∙ origin f
                  (commit-final u.temp_file (registry_root root show_uuid k.0) claimed media_type h
                    (rw at (temp-final root show_uuid k.0 k.0 k.1 claimed))
                    (mediatype-final root show_uuid k.0 k.0 claimed claimed))
                  (ap
                      (λ p.
                        lookup p
                          (commit u.temp_file (registry_root root show_uuid k.0) claimed media_type
                            h).1.disk)
                      there
                    ∙ e)
          | inr away ↦ stored m d f (
              sym (
                commit-others u.temp_file (registry_root root show_uuid k.0) claimed media_type h
                  (blob m d)
                  (
                    rw at (temp-final root show_uuid k.0 m k.1 d),
                    away,
                    mediatype-final root show_uuid k.0 m claimed d,
                  ))
              ∙ e)
        ]
      where
        origin :
            (f : File) {now : Option File}
            → Comes u.temp_file
                (blob k.0 claimed)
                (mediatype_file (registry_root root show_uuid k.0) claimed)
                (lookup (blob k.0 claimed) h.disk)
                (lookup u.temp_file h.disk)
                now
            → now ≡ some f
            → as_bytes claimed ≡ sha256 f.contents
        origin f (inl gone) there = absurd (cc (gone, there))
        origin f (inr (inl old)) there = stored k.0 claimed f (sym old ∙ there)
        origin f (inr (inr new)) there =
            hashed
            ∙ ap (λ o. sha256 (contents o)) (ap (λ p. lookup p h.disk) (sym at) ∙ sym new ∙ there)
