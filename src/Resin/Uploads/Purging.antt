-- ===== src/Resin/Uploads/Purging.antt =====
-- `purge` of resin/src/blob_uploader.rs deletes no file of an upload and no blob.
use douglas.Base.{
  ℕ, ◌≡◌, refl, sym, ap, subst, ◌∙◌, true, false, Bool-cases, inl, inr, Option, none, some, List,
  [], ◌∷◌, Result, ok, err, ok-injective,
}
use douglas.Text.{Text}
use douglas.Paths.{FilePath, join_name, same_path, same_path_sound}
use douglas.Files.{FileSystemError}
use douglas.Disk.{lookup, Differs}
use douglas.Host.{Host, delete, list_folder}
use douglas.Host.Effects.{delete-Touches}
use douglas.Maps.{get}
use douglas.Stateful.{◌>>=◌, >>=-keeps}
use douglas.Resin.Names.{Name, NameParseError, parse_name, fs_safe}
use douglas.Resin.Names.Parsed.{IsName, parse_name-IsName, parse_name-fs_safe}
use douglas.Resin.Repositories.{storage_path}
use douglas.Resin.Registries.{PartialUpload, Uploads, find_upload}
use douglas.Resin.Uploads.{
  Uploader, on_host, temp_root, is_stale, delete_stale, purge_repository, purge_named, purge_each,
  purge,
}
use douglas.Resin.Uploads.Machine.{Key, keys, Writers}
use douglas.Resin.Uploads.Places.{file-final}
use douglas.Resin.Uploads.Sound.{contents, place, IsGood, IsKept}
use douglas.Resin.Uploads.Writing.{lock-keeps}
use douglas.Resin.Uploads.Requests.{IsKept-host}
use douglas.Resin.Uploads.Stored.{IsStored, IsStored-left}

module _ (root : FilePath) (show_uuid : ℕ → Text) (parse_uuid : Text → Option ℕ)
    (sha256 : List ℕ → List ℕ) (ws : Writers) where
  abbrev pub IsSound : Uploader → Type 0
  IsSound s = IsKept root show_uuid (s, ws) × IsStored root show_uuid sha256 s.host.disk

  stale-none :
      (name : Name) (m : Uploads) (uuid : ℕ)
      → is_stale root show_uuid parse_uuid name m (some uuid) ≡ true
      → find_upload name uuid m ≡ none
  stale-none name m uuid e = go (find_upload name uuid m) e
    where
      go : (o : Option PartialUpload) → (elim o [ none ↦ true | some _ ↦ false ]) ≡ true → o ≡ none
      go none e = refl
      go (some u) e = absurd (cc e)

  module _ (parses : (a : ℕ) → parse_uuid (show_uuid a) ≡ some a) where
    stale-Differs :
        (name : Name) (file : Text) (s : Uploader) (l : Key) (u : PartialUpload)
        → IsName name
        → is_stale root show_uuid parse_uuid name s.uploads (parse_uuid file) ≡ true
        → find_upload l.0 l.1 s.uploads ≡ some u
        → IsName l.0
        → Differs (join_name (temp_root root show_uuid name) file) (place root show_uuid l)
    unfolding storage_path
    stale-Differs name file s l u v stale at w =
        elim (Bool-cases
          (same_path (join_name (temp_root root show_uuid name) file) (place root show_uuid l))) [
            | inl e ↦
                let names =
                  ap (λ (p : FilePath). p.names)
                    (same_path_sound (join_name (temp_root root show_uuid name) file)
                      (place root show_uuid l) e) in
                let folder : fs_safe name ≡ fs_safe l.0 = cc in
                let its : file ≡ show_uuid l.1 = cc in
                let same : name ≡ l.0 = ok-injective (
                  sym (parse_name-fs_safe name v)
                  ∙ ap parse_name folder
                  ∙ parse_name-fs_safe l.0 w) in
                let read : parse_uuid file ≡ some l.1 = ap parse_uuid its ∙ parses l.1 in
                let none_there = stale-none name s.uploads l.1 (
                  subst (λ o. is_stale root show_uuid parse_uuid name s.uploads o ≡ true) read
                    stale) in
                absurd (cc (ap (λ n. find_upload n l.1 s.uploads) same, none_there, at))
            | inr e ↦ e
          ]

    deleted-IsSound :
        (name : Name) (file : Text) (s : Uploader)
        → IsName name
        → is_stale root show_uuid parse_uuid name s.uploads (parse_uuid file) ≡ true
        → IsSound s
        → IsSound
            (record s { host = (delete (join_name (temp_root root show_uuid name) file) s.host).1 })
    deleted-IsSound name file s v stale (kept, stored) =
        let path = join_name (temp_root root show_uuid name) file in
        let h' = (delete path s.host).1 in
        (
          λ l. go l (find_upload l.0 l.1 s.uploads) refl (kept l),
          IsStored-left root show_uuid sha256 s.host.disk h'.disk
              (λ m c. delete-Touches path s.host _ (file-final root show_uuid name m file c))
              stored,
        )
      where
        go :
            (l : Key) (o : Option PartialUpload)
            → find_upload l.0 l.1 s.uploads ≡ o
            → IsGood root show_uuid l o
                (get keys l ws)
                (contents (lookup (place root show_uuid l) s.host.disk))
            → IsGood root show_uuid l o (get keys l ws) (
                contents (
                  lookup
                    (place root show_uuid l)
                    (delete (join_name (temp_root root show_uuid name) file) s.host).1.disk))
        go l none at good = (tt, (good.1.0, tt))
        go l (some u) at good =
            rw
              (delete-Touches (join_name (temp_root root show_uuid name) file) s.host
                (place root show_uuid l) (stale-Differs name file s l u v stale at good.0.0))
              good

    delete_stale-IsSound :
        (name : Name) (files : List Text) (s : Uploader)
        → IsName name
        → IsSound s
        → IsSound (delete_stale root show_uuid parse_uuid name files s).1
    delete_stale-IsSound name [] s v sound = sound
    delete_stale-IsSound name (file ∷ files) s v sound =
        elim (Bool-cases (is_stale root show_uuid parse_uuid name s.uploads (parse_uuid file))) [
          | inl e ↦
              let path = join_name (temp_root root show_uuid name) file in
              let deleted = deleted-IsSound name file s v e sound in
              rw e (
                >>=-keeps IsSound (on_host (delete path))
                  (λ _. delete_stale root show_uuid parse_uuid name files) s deleted
                  λ _.
                    delete_stale-IsSound name files (record s { host = (delete path s.host).1 }) v
                      deleted)
          | inr e ↦ rw e (delete_stale-IsSound name files s v sound)
        ]

    -- A call of the host that leaves the disk as it is.
    called-IsSound :
        (s : Uploader) (h' : Host)
        → h'.disk ≡ s.host.disk
        → IsSound s
        → IsSound (record s { host = h' })
    called-IsSound s h' same (kept, stored) = (
      IsKept-host root show_uuid s s.poisoned h' ws same kept,
      subst (IsStored root show_uuid sha256) (sym same) stored,
    )

    purge_named-IsSound :
        (folder : Text) (r : Result NameParseError Name) (s : Uploader)
        → parse_name folder ≡ r
        → IsSound s
        → IsSound (purge_named root show_uuid parse_uuid r s).1
    unfolding purge_repository list_folder
    purge_named-IsSound folder (err e) s at sound = sound
    purge_named-IsSound folder (ok name) s at sound =
        let h' = (list_folder (temp_root root show_uuid name) s.host).1 in
        let listed = called-IsSound s h' refl sound in
        >>=-keeps IsSound (on_host (list_folder (temp_root root show_uuid name)))
          (delete_stale root show_uuid parse_uuid name) s listed
          λ files.
            delete_stale-IsSound name files (record s { host = h' })
              (parse_name-IsName folder name at) listed

    purge_each-IsSound :
        (folders : List Text) (s : Uploader)
        → IsSound s
        → IsSound (purge_each root show_uuid parse_uuid folders s).1
    purge_each-IsSound [] s sound = sound
    purge_each-IsSound (folder ∷ folders) s sound =
        let first = purge_named-IsSound folder (parse_name folder) s refl sound in
        >>=-keeps IsSound (purge_named root show_uuid parse_uuid (parse_name folder))
          (λ _. purge_each root show_uuid parse_uuid folders) s first
          λ _.
            purge_each-IsSound folders
              (purge_named root show_uuid parse_uuid (parse_name folder) s).1 first

    pub purges-IsSound :
        (folders : Result FileSystemError (List Text)) (s : Uploader)
        → IsSound s
        → IsSound (purge root show_uuid parse_uuid folders s).1
    unfolding purge
    purges-IsSound folders s sound =
        lock-keeps (λ r. IsSound r.1)
          (on_host (λ h. (folders, h)) >>= purge_each root show_uuid parse_uuid) s sound
          (>>=-keeps IsSound (on_host (λ h. (folders, h))) (purge_each root show_uuid parse_uuid) s
            sound λ names. purge_each-IsSound names s sound)
