-- ===== src/Resin/Uploads/Appending.antt =====
-- The requests of resin/src/blob_uploader.rs that write a chunk keep the invariant also while they
-- append and end.
use douglas.Base.{
  ℕ, ◌+◌, ◌%◌, ◌≡◌, refl, sym, ap, subst, ◌∙◌, false, inl, inr, Option, none, some, List, ◌++◌, ok,
  Result-cases, length, length-append, arith,
}
use douglas.Text.{Text}
use douglas.Paths.{FilePath}
use douglas.Disk.{File, lookup}
use douglas.Host.{Host, append_all_bytes, appended}
use douglas.Host.Effects.{Touches, append_all_bytes-Touches, append_all_bytes-ok}
use douglas.Maps.{get, delete, insert, get-insert, get-insert_other, get-delete, get-delete_other}
use douglas.Resin.Registries.{PartialUpload, find_upload, put_upload}
use douglas.Resin.Uploads.{Uploader, Writer, u64, append_chunk, end_found, end_chunk}
use douglas.Resin.Uploads.Lookup.{find-put, find-put_other}
use douglas.Resin.Uploads.Machine.{Key, keys, same_key, Writers, resume}
use douglas.Resin.Uploads.Sound.{
  contents, IsHashed, IsFed, place, IsPlaced, IsWriting, IsGood, IsKept, IsKept-step,
  Touches-Spares,
}
use douglas.Resin.Uploads.Writing.{lock-keeps, lost-IsKept}

offset_grows : (o a n m : ℕ) → (o + a) % u64 ≡ n % u64 → (o + (a + m) % u64) % u64 ≡ (n + m) % u64
offset_grows o a n m e = omega arith

module _ (root : FilePath) (show_uuid : ℕ → Text) where
  -- An upload with a writer has no hasher, and the writer has what the file holds.
  IsHashed-writer :
      (hasher : Option (List ℕ)) (offset : ℕ) (w : Writer) (c : List ℕ)
      → IsHashed hasher offset (some w) c
      → (c ≡ w.hasher) × ((w.start_offset + w.written) % u64 ≡ length w.hasher % u64)
  IsHashed-writer (some bytes) offset w c (a, b, e) = absurd (cc e)
  IsHashed-writer none offset w c fed = fed

  IsFed-resume :
      (u : Option PartialUpload) (w : Writer) (c : List ℕ) (chunk : List ℕ)
      → IsFed u (some w) c
      → IsFed u
          (some
            (record w { hasher = w.hasher ++ chunk; written = (w.written + length chunk) % u64 }))
          (c ++ chunk)
  IsFed-resume none w c chunk fed = tt
  IsFed-resume (some u) w c chunk fed = go u.hasher fed
    where
      go :
          (hasher : Option (List ℕ))
          → IsHashed hasher u.offset (some w) c
          → IsHashed hasher u.offset
              (some (record w {
                hasher = w.hasher ++ chunk;
                written = (w.written + length chunk) % u64;
              }))
              (c ++ chunk)
      go (some bytes) (a, b, e) = absurd (cc e)
      go none (a, b) = (
        ap (λ bytes. bytes ++ chunk) a,
        offset_grows w.start_offset w.written (length w.hasher) (length chunk) b
            ∙ ap (λ n. n % u64) (sym (length-append w.hasher chunk)),
      )

  contents-appended :
      (o : Option File) (chunk : List ℕ) → (appended o chunk).contents ≡ contents o ++ chunk
  contents-appended none chunk = refl
  contents-appended (some f) chunk = refl

  module _ (injective : (a b : ℕ) → show_uuid a ≡ show_uuid b → a ≡ b) where
    -- A writer that changed its file, with what becomes of it.
    resumed :
        (k : Key) (w : Writer) (w' : Option Writer) (s : Uploader) (h' : Host) (ws ws' : Writers)
        → get keys k ws ≡ some w
        → Touches w.path s.host h'
        → get keys k ws' ≡ w'
        → ((l : Key) → same_key k l ≡ false → get keys l ws' ≡ get keys l ws)
        → ((u : Option PartialUpload)
            → IsWriting root show_uuid k (some w)
            → IsFed u (some w) (contents (lookup (place root show_uuid k) s.host.disk))
            → IsFed u w' (contents (lookup (place root show_uuid k) h'.disk)))
        → (IsWriting root show_uuid k (some w) → IsWriting root show_uuid k w')
        → IsKept root show_uuid (s, ws)
        → IsKept root show_uuid (record s { host = h' }, ws')
    resumed k w w' s h' ws ws' at touches got others feeds writes kept =
        let good : IsGood root show_uuid k (find_upload k.0 k.1 s.uploads) (some w)
            (contents (lookup (place root show_uuid k) s.host.disk)) =
          subst
            (λ o.
              IsGood root show_uuid k (find_upload k.0 k.1 s.uploads) o
                (contents (lookup (place root show_uuid k) s.host.disk)))
            at (kept k) in
        let writing : IsWriting root show_uuid k (some w) = good.1.0 in
        IsKept-step root show_uuid k s (record s { host = h' }) ws ws' (λ l away. refl) others
          (Touches-Spares root show_uuid injective k s.host h' writing.0
            (subst (λ p. Touches p s.host h') writing.1 touches))
          (rw got
            (good.0, (writes writing, feeds (find_upload k.0 k.1 s.uploads) writing good.1.1)))
          kept

    contents-append :
        (p q : FilePath) (chunk : List ℕ) (h : Host)
        → p ≡ q
        → (append_all_bytes p chunk h).0 ≡ ok tt
        → contents (lookup q h.disk) ++ chunk
          ≡ contents (lookup q (append_all_bytes p chunk h).1.disk)
    contents-append p q chunk h same e = rw (sym same) (
        sym (contents-appended (lookup p h.disk) chunk)
        ∙ ap contents (sym (append_all_bytes-ok p chunk h e)))

    IsFed-lost :
        (u : Option PartialUpload) (w : Writer) (c c' : List ℕ)
        → IsFed u (some w) c
        → IsFed u none c'
    IsFed-lost none w c c' fed = tt
    IsFed-lost (some u) w c c' fed = go u.hasher fed
      where
        go :
            (hasher : Option (List ℕ))
            → IsHashed hasher u.offset (some w) c
            → IsHashed hasher u.offset none c'
        go (some bytes) (a, b, e) = absurd (cc e)
        go none fed = tt

    pub appends-IsKept :
        (k : Key) (w : Writer) (chunk : List ℕ) (s : Uploader) (ws : Writers)
        → get keys k ws ≡ some w
        → IsKept root show_uuid (s, ws)
        → IsKept root show_uuid (resume k (append_chunk w chunk s) ws)
    unfolding append_chunk
    appends-IsKept k w chunk s ws at kept =
        let h' = (append_all_bytes w.path chunk s.host).1 in
        let touches = append_all_bytes-Touches w.path chunk s.host in
        elim (Result-cases (append_all_bytes w.path chunk s.host).0) [
          | inl (_, e) ↦
              let w' : Writer = record w {
                hasher = w.hasher ++ chunk;
                written = (w.written + length chunk) % u64;
              } in
              rw e (
                resumed k w (some w') s h' ws (insert keys k w' ws) at touches
                  (get-insert keys k w' ws) (λ l away. get-insert_other keys k l w' ws away)
                  (λ u writing fed.
                    subst (IsFed u (some w'))
                      (contents-append w.path (place root show_uuid k) chunk s.host writing.1 e)
                      (IsFed-resume u w (contents (lookup (place root show_uuid k) s.host.disk))
                        chunk fed))
                  (λ writing. writing) kept)
          | inr (x, e) ↦ rw e (
              resumed k w none s h' ws (delete keys k ws) at touches (get-delete keys k ws)
                (λ l away. get-delete_other keys k l ws away)
                (λ u writing fed.
                  IsFed-lost u w (contents (lookup (place root show_uuid k) s.host.disk))
                    (contents (lookup (place root show_uuid k) h'.disk)) fed)
                (λ writing. tt) kept)
        ]

    pub ends-IsKept :
        (k : Key) (w : Writer) (s : Uploader) (ws : Writers)
        → get keys k ws ≡ some w
        → IsKept root show_uuid (s, ws)
        → IsKept root show_uuid ((end_chunk w s).1, delete keys k ws)
    unfolding end_chunk
    ends-IsKept k w s ws at kept =
        lock-keeps (λ r. IsKept root show_uuid (r.1, delete keys k ws))
          (λ s. end_found w (find_upload w.name w.uuid s.uploads) s) s
          (lost-IsKept root show_uuid k s ws kept)
          (found (find_upload k.0 k.1 s.uploads) refl (find_upload w.name w.uuid s.uploads)
            (rw (writing.2.0, writing.2.1) refl))
      where
        now : List ℕ
        now = contents (lookup (place root show_uuid k) s.host.disk)

        good : IsGood root show_uuid k (find_upload k.0 k.1 s.uploads) (some w) now
        good =
            subst (λ o. IsGood root show_uuid k (find_upload k.0 k.1 s.uploads) o now) at (kept k)

        writing : IsWriting root show_uuid k (some w)
        writing = good.1.0

        found :
            (o : Option PartialUpload)
            → find_upload k.0 k.1 s.uploads ≡ o
            → (p : Option PartialUpload) → p ≡ find_upload k.0 k.1 s.uploads
            → IsKept root show_uuid ((end_found w p s).1, delete keys k ws)
        found none there none same = lost-IsKept root show_uuid k s ws kept
        found none there (some u) same = absurd (cc (there, same))
        found (some u) there none same = absurd (cc (there, same))
        found (some u) there (some v) same =
            let u' : PartialUpload = record v {
              hasher = some w.hasher;
              offset = (w.start_offset + w.written) % u64;
            } in
            let fed : IsFed (some v) (some w) now =
              subst (λ o. IsFed o (some w) now) (sym same) good.1.1 in
            let (has, counts) = IsHashed-writer v.hasher v.offset w now fed in
            let placed : IsPlaced root show_uuid k (some v) =
              subst (IsPlaced root show_uuid k) (sym same) good.0 in
            rw (writing.2.0, writing.2.1)
              (IsKept-step root show_uuid k s
                (record s { uploads = put_upload k.0 k.1 u' s.uploads }) ws (delete keys k ws)
                (λ l away. find-put_other k l u' s.uploads away)
                (λ l away. get-delete_other keys k l ws away) (λ l v away. refl)
                (rw (find-put k.0 k.1 u' s.uploads, get-delete keys k ws)
                  (placed, (tt, (has, counts, refl))))
                kept)
