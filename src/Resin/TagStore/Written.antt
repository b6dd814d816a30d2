-- ===== src/Resin/TagStore/Written.antt =====
-- A tag that resin/src/tag_store.rs wrote is read again.
use douglas.Base.{
  ℕ, ◌≡◌, refl, sym, ap, ◌∙◌, Bool, true, false, not, ◌&&◌, ◌||◌, Option, none, some, [], ◌∷◌, ◌++◌,
  Result, ok, err, ok-injective, map_err-eq-ok, length, leb, ◌==◌, if◌then◌else◌, arith,
}
use douglas.Text.{Text, strip_prefix, strip_prefix_sound}
use douglas.Paths.{FilePath}
use douglas.Disk.{File, lookup}
use douglas.Host.{Host, answer, done, write_all}
use douglas.Host.Effects.{write_all-ok, read_all-found}
use douglas.Stateful.{◌>>=◌, >>=-ok, failing_as, return, fail}
use douglas.Resin.Repositories.{Repository, show_repository}
use douglas.Resin.Digests.{Digest, DigestError, invalid_digest, prefix, is_hex, checked, from_str}
use douglas.Resin.TagStore.{
  Act, unknown_repository, is_whitespace, trim_start, keep_end, trim_end, trim, file_system_error,
  get_repository_path, tag_path, assert_repository_exists, make_tags, read, write,
}

abbrev is_solid : Text → Bool
is_solid [] = true
is_solid (c ∷ t) = not (is_whitespace c) && is_solid t

trim_start-solid : (t : Text) → is_solid t ≡ true → trim_start t ≡ t
trim_start-solid [] h = refl
trim_start-solid (c ∷ t) h = let e : is_whitespace c ≡ false = ground arith in rw e refl

trim_end-solid : (t : Text) → is_solid t ≡ true → trim_end t ≡ t
trim_end-solid [] h = refl
trim_end-solid (c ∷ t) h =
    let e : is_whitespace c ≡ false = ground arith in
    ap (keep_end c) (trim_end-solid t (ground arith)) ∙ kept t e
  where
    kept : (t : Text) → is_whitespace c ≡ false → keep_end c t ≡ c ∷ t
    kept [] e = rw e refl
    kept (d ∷ t) e = refl

hex_solid :
    (c : ℕ) → (leb 48 c && leb c 57 || leb 97 c && leb c 102) ≡ true → is_whitespace c ≡ false
hex_solid c h = ground arith

is_hex-solid : (t : Text) → is_hex t ≡ true → is_solid t ≡ true
is_hex-solid [] h = refl
is_hex-solid (c ∷ t) h = rw (hex_solid c (ground arith)) (is_hex-solid t (ground arith))

-- A digest has no space around it.
from_str-trim : (t : Text) (d : Digest) → from_str t ≡ ok d → from_str (trim d.text) ≡ ok d
unfolding from_str
from_str-trim t d h = go (strip_prefix prefix t) refl h
  where
    tested :
        (digits : Text) (b : Bool)
        → length digits == 64 && is_hex digits ≡ b
        → t ≡ prefix ++ digits
        → ◌≡◌ {A = Result DigestError Digest}
            (if b then ok (record { text = t }) else err invalid_digest)
            (ok d)
        → from_str (trim d.text) ≡ ok d
    tested digits false e same r = absurd (cc r)
    tested digits true e same r =
        let text : d.text ≡ t = ap (λ (x : Digest). x.text) (sym (ok-injective r)) in
        let solid : is_solid t ≡ true = rw same (is_hex-solid digits (ground arith)) in
        ap from_str (ap trim text ∙ ap trim_end (trim_start-solid t solid) ∙ trim_end-solid t solid)
        ∙ h

    go :
        (o : Option Text)
        → strip_prefix prefix t ≡ o
        → checked t o ≡ ok d
        → from_str (trim d.text) ≡ ok d
    go none e r = absurd (cc r)
    go (some digits) e r =
        tested digits (length digits == 64 && is_hex digits) refl
          (strip_prefix_sound prefix t digits e) r

module _ (folder_exists : FilePath → Bool) (root : FilePath) where
  assert-exists :
      (repository : Repository) (h : Host) (a : Unit {0})
      → (assert_repository_exists folder_exists root repository h).0 ≡ ok a
      → folder_exists (get_repository_path folder_exists root repository) ≡ true
  assert-exists repository h a e =
      go (folder_exists (get_repository_path folder_exists root repository)) e
    where
      go :
          (b : Bool)
          → ((if b then (return tt) else (fail (unknown_repository (show_repository repository))))
              h).0
            ≡ ok a
          → b ≡ true
      go true e = refl
      go false e = absurd (cc e)

  read-there :
      (repository : Repository) (tag t : Text) (digest : Digest) (f : File) (h : Host)
      → from_str t ≡ ok digest
      → folder_exists (get_repository_path folder_exists root repository) ≡ true
      → answer h ≡ done
      → lookup (tag_path folder_exists root repository tag) h.disk ≡ some f
      → f.contents ≡ digest.text
      → (read folder_exists root repository tag h).0 ≡ ok digest
  unfolding read
  read-there repository tag t digest f h valid exists answered there same =
      let path = tag_path folder_exists root repository tag in
      let found = read_all-found path f h answered there in
      rw (exists, there, found, same, from_str-trim t digest valid) refl

  -- If the tag of a repository was written with a digest that a text is parsed as, without an error,
  -- and the next call of the host is not refused, then the tag is read as that digest.
  pub read-write :
      (repository : Repository) (tag t : Text) (digest : Digest) (h : Host)
      → from_str t ≡ ok digest
      → (write folder_exists root repository tag digest h).0 ≡ ok tt
      → answer (write folder_exists root repository tag digest h).1 ≡ done
      → (read folder_exists root repository tag
          (write folder_exists root repository tag digest h).1).0
        ≡ ok digest
  unfolding write read
  read-write repository tag t digest h valid wrote answered =
      let path = tag_path folder_exists root repository tag in
      let last : Act (Unit {0}) = failing_as file_system_error (write_all path digest.text) in
      let (a, e₁, s₁) =
        >>=-ok (assert_repository_exists folder_exists root repository)
          (λ _. make_tags folder_exists root repository >>= λ _. last) h tt wrote in
      let h₁ = (assert_repository_exists folder_exists root repository h).1 in
      let (b, e₂, s₂) =
        >>=-ok (make_tags folder_exists root repository) (λ _. last) h₁ tt
          (ap (λ r. r.0) (sym s₁) ∙ wrote) in
      let h₂ = (make_tags folder_exists root repository h₁).1 in
      let same = s₁ ∙ s₂ in
      let went =
        map_err-eq-ok file_system_error (write_all path digest.text h₂).0 tt
          (ap (λ r. r.0) (sym same) ∙ wrote) in
      let (f, its, there) = write_all-ok path digest.text h₂ went in
      read-there repository tag t digest f (write folder_exists root repository tag digest h).1
        valid (assert-exists repository h a e₁) answered
        (ap (λ r. lookup path r.1.disk) same ∙ there) its
