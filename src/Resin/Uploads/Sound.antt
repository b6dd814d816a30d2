-- ===== src/Resin/Uploads/Sound.antt =====
-- The invariant of resin/src/blob_uploader.rs: what a hasher was fed is what the temporary file
-- holds, and a blob in the store is what its digest says.
use douglas.Base.{
  ℕ, ◌+◌, ◌%◌, ◌≡◌, subst, true, false, Bool-cases, inl, inr, Option, none, some, List, [], length,
}
use douglas.Text.{Text}
use douglas.Paths.{FilePath, same_path}
use douglas.Disk.{File, Disk, lookup, Differs}
use douglas.Host.{Host}
use douglas.Host.Effects.{Touches}
use douglas.Maps.{get}
use douglas.Resin.Names.Parsed.{IsName}
use douglas.Resin.Registries.{PartialUpload, find_upload}
use douglas.Resin.Uploads.{Uploader, Writer, upload_temp_file, u64}
use douglas.Resin.Uploads.Machine.{
  Key, keys, same_key, same_key_refl, same_key_sound, Writers, Machine,
}
use douglas.Resin.Uploads.Places.{temp_place}

abbrev pub contents : Option File → List ℕ
contents none = []
contents (some f) = f.contents

-- An upload with its hasher has no writer. One without has a writer that has it, or lost it.
abbrev pub IsHashed : Option (List ℕ) → ℕ → Option Writer → List ℕ → Type 0
IsHashed (some bytes) offset w c = (c ≡ bytes) × (offset ≡ length bytes % u64) × (w ≡ none)
IsHashed none offset none c = Unit
IsHashed none offset (some w) c =
    (c ≡ w.hasher) × ((w.start_offset + w.written) % u64 ≡ length w.hasher % u64)

abbrev pub IsFed : Option PartialUpload → Option Writer → List ℕ → Type 0
IsFed none w c = Unit
IsFed (some u) w c = IsHashed u.hasher u.offset w c

module _ (root : FilePath) (show_uuid : ℕ → Text) where
  abbrev pub place : Key → FilePath
  place k = upload_temp_file root show_uuid k.0 k.1

  abbrev pub IsPlaced : Key → Option PartialUpload → Type 0
  IsPlaced k none = Unit
  IsPlaced k (some u) = IsName k.0 × (u.temp_file ≡ place k)

  abbrev pub IsWriting : Key → Option Writer → Type 0
  IsWriting k none = Unit
  IsWriting k (some w) = IsName k.0 × (w.path ≡ place k) × ((w.name ≡ k.0) × (w.uuid ≡ k.1))

  abbrev pub IsGood : Key → Option PartialUpload → Option Writer → List ℕ → Type 0
  IsGood k u w c = IsPlaced k u × (IsWriting k w × IsFed u w c)

  abbrev pub IsKept : Machine → Type 0
  IsKept (s, ws) =
      (k : Key)
      → IsGood k (find_upload k.0 k.1 s.uploads) (get keys k ws)
          (contents (lookup (place k) s.host.disk))

  -- Other temporary files stay as they are.
  abbrev pub Spares : Key → Disk → Disk → Type 0
  Spares k d d' =
      (l : Key) → IsName l.0 → same_key k l ≡ false → lookup (place l) d' ≡ lookup (place l) d

  IsGood-spared :
      (k l : Key) (u : Option PartialUpload) (w : Option Writer) (d d' : Disk)
      → same_key k l ≡ false
      → Spares k d d'
      → IsGood l u w (contents (lookup (place l) d))
      → IsGood l u w (contents (lookup (place l) d'))
  IsGood-spared k l none w d d' away spares good = (tt, (good.1.0, tt))
  IsGood-spared k l (some u) w d d' away spares good = rw (spares l good.0.0 away) good

  -- A step is about one key.
  pub IsKept-step :
      (k : Key) (s s' : Uploader) (ws ws' : Writers)
      → ((l : Key)
          → same_key k l ≡ false
          → find_upload l.0 l.1 s'.uploads ≡ find_upload l.0 l.1 s.uploads)
      → ((l : Key) → same_key k l ≡ false → get keys l ws' ≡ get keys l ws)
      → Spares k s.host.disk s'.host.disk
      → IsGood k
          (find_upload k.0 k.1 s'.uploads)
          (get keys k ws')
          (contents (lookup (place k) s'.host.disk))
      → IsKept (s, ws)
      → IsKept (s', ws')
  IsKept-step k s s' ws ws' uploads writers spares good kept l = elim (Bool-cases (same_key k l)) [
    | inl e ↦
        subst
          (λ l.
            IsGood l (find_upload l.0 l.1 s'.uploads) (get keys l ws')
              (contents (lookup (place l) s'.host.disk)))
          (same_key_sound k l e) good
    | inr e ↦
        rw (uploads l e, writers l e)
          (IsGood-spared k l (find_upload l.0 l.1 s.uploads) (get keys l ws) s.host.disk
            s'.host.disk e spares (kept l))
  ]

  pub place-Differs :
      ((a b : ℕ) → show_uuid a ≡ show_uuid b → a ≡ b)
      → (k l : Key) → IsName k.0
      → IsName l.0
      → same_key k l ≡ false
      → Differs (place k) (place l)
  place-Differs injective k l v w away = elim (Bool-cases (same_path (place k) (place l))) [
    | inl e ↦
        let (m, b) = temp_place root show_uuid injective k.0 l.0 k.1 l.1 v w e in
        let same : k ≡ l = cc in
        absurd (cc (away, subst (λ x. same_key k x ≡ true) same (same_key_refl k)))
    | inr e ↦ e
  ]

  -- What touches the file of one key only spares the others.
  pub Touches-Spares :
      ((a b : ℕ) → show_uuid a ≡ show_uuid b → a ≡ b)
      → (k : Key) (h h' : Host) → IsName k.0
      → Touches (place k) h h'
      → Spares k h.disk h'.disk
  Touches-Spares injective k h h' v touches l w away =
      touches (place l) (place-Differs injective k l v w away)
