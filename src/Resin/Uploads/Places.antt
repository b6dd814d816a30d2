-- ===== src/Resin/Uploads/Places.antt =====
-- The files of resin/src/blob_uploader.rs and of resin/src/blob_paths.rs do not get in each other's
-- way.
use douglas.Base.{
  ℕ, ◌≡◌, sym, ap, ◌∙◌, true, Bool-cases, inl, inr, ◌++◌, length, length-append, ok-injective,
  arith,
}
use douglas.Text.{Text, codes}
use douglas.Paths.{FilePath, join_name, same_path, same_path_sound}
use douglas.Disk.{Differs}
use douglas.Resin.Names.{Name, parse_name, fs_safe}
use douglas.Resin.Names.Parsed.{IsName, parse_name-fs_safe}
use douglas.Resin.Repositories.{storage_path}
use douglas.Resin.Digests.{Digest, hex}
use douglas.Resin.Blobs.{final_file, mediatype_file}
use douglas.Resin.Uploads.{upload_temp_file, temp_root, registry_root}

Differs-lem : (p q : FilePath) → ((p ≡ q) → ⊥) → Differs p q
Differs-lem p q away = elim (Bool-cases (same_path p q)) [
  | inl e ↦ absurd (away (same_path_sound p q e))
  | inr e ↦ e
]

module _ (root : FilePath) (show_uuid : ℕ → Text) where
  abbrev pub temp : Name → ℕ → FilePath
  temp = upload_temp_file root show_uuid

  -- No file of the folder of temporary files is a blob.
  pub file-final :
      (n m : Name) (file : Text) (d : Digest)
      → Differs
          (join_name (temp_root root show_uuid n) file)
          (final_file (registry_root root show_uuid m) d)
  unfolding storage_path
  file-final n m file d =
      Differs-lem (join_name (temp_root root show_uuid n) file)
        (final_file (registry_root root show_uuid m) d)
        λ e. let same = ap (λ (p : FilePath). length p.names) e in absurd (omega arith)

  pub temp-final :
      (n m : Name) (a : ℕ) (d : Digest)
      → Differs (temp n a) (final_file (registry_root root show_uuid m) d)
  temp-final n m a d = file-final n m (show_uuid a) d

  pub temp-mediatype :
      (n m : Name) (a : ℕ) (d : Digest)
      → Differs (temp n a) (mediatype_file (registry_root root show_uuid m) d)
  unfolding storage_path
  temp-mediatype n m a d =
      Differs-lem (temp n a) (mediatype_file (registry_root root show_uuid m) d)
        λ e. let same = ap (λ (p : FilePath). length p.names) e in absurd (omega arith)

  pub mediatype-final :
      (n m : Name) (d c : Digest)
      → Differs
          (mediatype_file (registry_root root show_uuid n) d)
          (final_file (registry_root root show_uuid m) c)
  unfolding storage_path
  mediatype-final n m d c =
      Differs-lem (mediatype_file (registry_root root show_uuid n) d)
        (final_file (registry_root root show_uuid m) c)
        λ e.
          let names = ap (λ (p : FilePath). p.names) e in
          let folder : hex d ≡ hex c = cc in
          let file : hex d ++ codes ".mediatype" ≡ hex c = cc in
          let long = ap length file ∙ ap length (sym folder) in
          let sum = length-append (hex d) (codes ".mediatype") in absurd (omega arith)

  pub final_place :
      (n m : Name) (d c : Digest)
      → same_path
          (final_file (registry_root root show_uuid n) d)
          (final_file (registry_root root show_uuid m) c)
        ≡ true
      → hex d ≡ hex c
  unfolding storage_path
  final_place n m d c h =
      let e =
        same_path_sound (final_file (registry_root root show_uuid n) d)
          (final_file (registry_root root show_uuid m) c) h in
      let names = ap (λ (p : FilePath). p.names) e in cc

  -- The temporary file tells the name and the uuid.
  pub temp_place :
      ((a b : ℕ) → show_uuid a ≡ show_uuid b → a ≡ b)
      → (n m : Name) (a b : ℕ) → IsName n
      → IsName m
      → same_path (temp n a) (temp m b) ≡ true
      → (n ≡ m) × (a ≡ b)
  unfolding storage_path
  temp_place injective n m a b v w h =
      let names = ap (λ (p : FilePath). p.names) (same_path_sound (temp n a) (temp m b) h) in
      let folder : fs_safe n ≡ fs_safe m = cc in
      let file : show_uuid a ≡ show_uuid b = cc in
      (
        ok-injective (sym (parse_name-fs_safe n v) ∙ ap parse_name folder ∙ parse_name-fs_safe m w),
        injective a b file,
      )
