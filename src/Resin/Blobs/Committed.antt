-- ===== src/Resin/Blobs/Committed.antt =====
-- What the commit of resin/src/blob_paths.rs leaves behind.
use douglas.Base.{◌≡◌, refl, ◌∙◌, ◌⊎◌, inl, inr, Option, none, some, ok, err}
use douglas.Text.{Text}
use douglas.Paths.{FilePath}
use douglas.Files.{FileSystemError}
use douglas.Disk.{File, lookup, Differs, lookup-put, lookup-remove}
use douglas.Host.{
  Host, Failure, Answer, done, fails, answer, rename, rename_found, delete, delete_found, write_all,
}
use douglas.Host.Effects.{delete-Touches, rename-others, write_all-Touches}
use douglas.Resin.Digests.{Digest}
use douglas.Resin.Blobs.{
  final_file, mediatype_file, and_then, clean_up, cleaned, mediatype_written, renamed, commit,
}

module _ (temp final mediatype : FilePath) where
  -- Where `q` is none of the three files.
  abbrev pub IsElse : FilePath → Type 0
  IsElse q = Differs temp q × Differs final q × Differs mediatype q

  abbrev Same : FilePath → Host → Host → Type 0
  Same q h h' = lookup q h'.disk ≡ lookup q h.disk

  clean_up-Same :
      (q : FilePath) (h : Host) → IsElse q → Same q h (clean_up temp final mediatype h).1
  unfolding clean_up
  clean_up-Same q h (a, b, c) =
      third (and_then (delete temp h) (delete final))
        (second (delete temp h) (delete-Touches temp h q a))
    where
      second : (r : Failure × Host) → Same q h r.1 → Same q h (and_then r (delete final)).1
      second (ok _, h') e = delete-Touches final h' q b ∙ e
      second (err x, h') e = e

      third : (r : Failure × Host) → Same q h r.1 → Same q h (and_then r (delete mediatype)).1
      third (ok _, h') e = delete-Touches mediatype h' q c ∙ e
      third (err x, h') e = e

  cleaned-Same :
      (q : FilePath) (e : FileSystemError) (h : Host) (r : Failure × Host)
      → IsElse q
      → Same q h r.1
      → Same q h (cleaned temp final mediatype e r).1
  cleaned-Same q e h (ok _, h') away same = same
  cleaned-Same q e h (err x, h') away same = clean_up-Same q h' away ∙ same

  mediatype_written-Same :
      (q : FilePath) (h : Host) (r : Failure × Host)
      → IsElse q
      → Same q h r.1
      → Same q h (mediatype_written temp final mediatype r).1
  mediatype_written-Same q h (ok _, h') away same = same
  mediatype_written-Same q h (err e, h') away same =
      cleaned-Same q e h (clean_up temp final mediatype h') away (clean_up-Same q h' away ∙ same)

  renamed-Same :
      (q : FilePath) (media_type : Text) (h : Host) (r : Failure × Host)
      → IsElse q
      → Same q h r.1
      → Same q h (renamed temp final mediatype media_type r).1
  renamed-Same q media_type h (ok _, h') away same =
      mediatype_written-Same q h (write_all mediatype media_type h') away
        (write_all-Touches mediatype media_type h' q away.2 ∙ same)
  renamed-Same q media_type h (err e, h') away same = clean_up-Same q h' away ∙ same

  -- What may lie at the path of the blob.
  abbrev pub Comes : Option File → Option File → Option File → Type 0
  Comes old new now = (now ≡ none) ⊎ ((now ≡ old) ⊎ (now ≡ new))

  Comes-same :
      (old new now later : Option File) → later ≡ now → Comes old new now → Comes old new later
  Comes-same old new now later e (inl a) = inl (e ∙ a)
  Comes-same old new now later e (inr (inl a)) = inr (inl (e ∙ a))
  Comes-same old new now later e (inr (inr a)) = inr (inr (e ∙ a))

  -- A file that is deleted is gone or as before.
  Comes-deleted :
      (old new : Option File) (h : Host)
      → Comes old new (lookup final h.disk)
      → Comes old new (lookup final (delete final h).1.disk)
  unfolding delete
  Comes-deleted old new h comes = go (lookup final h.disk) refl (answer h)
    where
      go :
          (o : Option File)
          → lookup final h.disk ≡ o
          → (a : Answer) → Comes old new (lookup final (delete_found final o a h).1.disk)
      go none e a = comes
      go (some f) e (fails x part) = comes
      go (some f) e done = inl (lookup-remove final h.disk)

  module _ (temp_final : Differs temp final) (mediatype_final : Differs mediatype final) where
    clean_up-Comes :
        (old new : Option File) (h : Host)
        → Comes old new (lookup final h.disk)
        → Comes old new (lookup final (clean_up temp final mediatype h).1.disk)
    unfolding clean_up
    clean_up-Comes old new h comes = third (and_then (delete temp h) (delete final)) (
        second (delete temp h) (
          Comes-same old new (lookup final h.disk) _ (delete-Touches temp h final temp_final)
            comes))
      where
        second :
            (r : Failure × Host)
            → Comes old new (lookup final r.1.disk)
            → Comes old new (lookup final (and_then r (delete final)).1.disk)
        second (ok _, h') c = Comes-deleted old new h' c
        second (err x, h') c = c

        third :
            (r : Failure × Host)
            → Comes old new (lookup final r.1.disk)
            → Comes old new (lookup final (and_then r (delete mediatype)).1.disk)
        third (ok _, h') c =
            Comes-same old new (lookup final h'.disk) _
              (delete-Touches mediatype h' final mediatype_final) c
        third (err x, h') c = c

    mediatype_written-Comes :
        (old new : Option File) (r : Failure × Host)
        → Comes old new (lookup final r.1.disk)
        → Comes old new (lookup final (mediatype_written temp final mediatype r).1.disk)
    mediatype_written-Comes old new (ok _, h') c = c
    mediatype_written-Comes old new (err e, h') c =
        go (clean_up temp final mediatype h') (clean_up-Comes old new h' c)
      where
        go :
            (r : Failure × Host)
            → Comes old new (lookup final r.1.disk)
            → Comes old new (lookup final (cleaned temp final mediatype e r).1.disk)
        go (ok _, h') c = c
        go (err x, h') c = clean_up-Comes old new h' c

    renamed-Comes :
        (old new : Option File) (media_type : Text) (r : Failure × Host)
        → Comes old new (lookup final r.1.disk)
        → Comes old new (lookup final (renamed temp final mediatype media_type r).1.disk)
    renamed-Comes old new media_type (ok _, h') c =
        mediatype_written-Comes old new (write_all mediatype media_type h') (
          Comes-same old new (lookup final h'.disk) _
            (write_all-Touches mediatype media_type h' final mediatype_final) c)
    renamed-Comes old new media_type (err e, h') c = clean_up-Comes old new h' c

    rename-Comes :
        (h : Host)
        → Comes
            (lookup final h.disk)
            (lookup temp h.disk)
            (lookup final (rename temp final h).1.disk)
    unfolding rename
    rename-Comes h = go (lookup temp h.disk) (answer h)
      where
        go :
            (o : Option File) (a : Answer)
            → Comes (lookup final h.disk) o (lookup final (rename_found temp final o a h).1.disk)
        go none a = inr (inl refl)
        go (some f) (fails x part) = inr (inl refl)
        go (some f) done = inr (inr (lookup-put final f _))

module _ (temp root : FilePath) (digest : Digest) (media_type : Text) (h : Host) where
  -- Other files stay as they are.
  pub commit-others :
      (q : FilePath)
      → IsElse temp (final_file root digest) (mediatype_file root digest) q
      → lookup q (commit temp root digest media_type h).1.disk ≡ lookup q h.disk
  unfolding commit
  commit-others q away =
      renamed-Same temp (final_file root digest) (mediatype_file root digest) q media_type h
        (rename temp (final_file root digest) h) away
        (rename-others temp (final_file root digest) q h away.0 away.1)

  -- The blob is the uploaded file, or what it was, or gone.
  pub commit-final :
      Differs temp (final_file root digest)
      → Differs (mediatype_file root digest) (final_file root digest)
      → Comes temp
          (final_file root digest)
          (mediatype_file root digest)
          (lookup (final_file root digest) h.disk)
          (lookup temp h.disk)
          (lookup (final_file root digest) (commit temp root digest media_type h).1.disk)
  unfolding commit
  commit-final a b =
      renamed-Comes temp (final_file root digest) (mediatype_file root digest) a b
        (lookup (final_file root digest) h.disk) (lookup temp h.disk) media_type
        (rename temp (final_file root digest) h)
        (rename-Comes temp (final_file root digest) (mediatype_file root digest) a b h)
