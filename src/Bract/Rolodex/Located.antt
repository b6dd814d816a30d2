-- ===== src/Bract/Rolodex/Located.antt =====
-- `locate` and `reserve` of bract/src/rolodex/mod.rs against the records that they find.
use douglas.Base.{
  ◌≡◌, refl, ◌∙◌, sym, ap, subst, ℕ, zero, suc, Bool, true, false, Option, none, some, List, ok,
  map_err-eq-ok, ok-injective, some-injective, if◌then◌else◌,
}
use douglas.Text.{Text, same_text}
use douglas.Paths.{FilePath, join_name}
use douglas.Files.{FileSystemError}
use douglas.Disk.{File, Disk, put}
use douglas.Host.{Host, written, read_all, write_all}
use douglas.Host.Effects.{read_all-ok, read_all-same, write_all-disk}
use douglas.Stateful.{Op, >>=-ok, failing_as}
use douglas.Bract.Rolodex.{
  file_system_error, Search, compare_record, absent_record, at_record, locate_from,
}
use douglas.Bract.Rolodex.Probing.{Probe, held, free, full, probe_at, named, slot, probe_from}

-- The record of a name that had none.
abbrev pub new_record : Text → File
new_record full_name = written none full_name

module _ (sha256 : Text → List ℕ) (kind : FilePath) (f : Text) where
  -- What a search that went well returns and leaves, by what the probing finds.
  abbrev pub Found : Bool → Option Text → Disk → Disk → Probe → Type 0
  Found create r d d' (held s) = (r ≡ some s) × (d' ≡ d)
  Found false r d d' (free s) = (r ≡ none) × (d' ≡ d)
  Found true r d d' (free s) = (r ≡ some s) × (d' ≡ put (join_name kind s) (new_record f) d)
  Found create r d d' full = ⊥

  pub failing_ok :
      {A : Type 0} (op : Op Host FileSystemError A) (h : Host) (a : A)
      → (failing_as file_system_error op h).0 ≡ ok a
      → (op h).0 ≡ ok a
  failing_ok op h a e = map_err-eq-ok file_system_error (op h).0 a e

  compare_record-Found :
      (create : Bool) (t : Text) (next : Search) (q : File) (rest : Probe) (d : Disk) (h : Host)
      (r : Option Text)
      → h.disk ≡ d
      → ((next h).0 ≡ ok r → Found create r d (next h).1.disk rest)
      → (compare_record f t next q.contents h).0 ≡ ok r
      → Found create r d (compare_record f t next q.contents h).1.disk (probe_at f t rest (some q))
  compare_record-Found create t next q rest d h r same ih e = go (same_text q.contents f) e
    where
      go :
          (b : Bool)
          → ((if b then (λ h. (ok (some t), h)) else next) h).0 ≡ ok r
          → Found create r d
              ((if b then (λ h. (ok (some t), h)) else next) h).1.disk
              (if b then held t else rest)
      go true x = (sym (ok-injective x), same)
      go false x = ih x

  absent_record-Found :
      (create : Bool) (t : Text) (h : Host) (r : Option Text)
      → named kind t h.disk ≡ none
      → (absent_record (join_name kind t) f t create h).0 ≡ ok r
      → Found create r h.disk (absent_record (join_name kind t) f t create h).1.disk (free t)
  absent_record-Found false t h r n e = (sym (ok-injective e), refl)
  absent_record-Found true t h r n e =
      let write = write_all (join_name kind t) f in
      let (u, e₁, s₁) =
        >>=-ok (failing_as file_system_error write) (λ _ h. (ok (some t), h)) h r e in
      (
        ok-injective (sym e ∙ ap (λ x. x.0) s₁),
        ap (λ x. x.1.disk) s₁
            ∙ write_all-disk (join_name kind t) f h (failing_ok write h tt (e₁ ∙ ap ok (unit u)))
            ∙ rw n refl,
      )
    where
      unit : (u : Unit {0}) → u ≡ tt
      unit tt = refl

  at_record-Found :
      (create : Bool) (t : Text) (next : Search) (rest : Probe) (h : Host) (r : Option Text)
      (o : Option File)
      → named kind t h.disk ≡ o
      → ((h' : Host)
          → h'.disk ≡ h.disk
          → (next h').0 ≡ ok r
          → Found create r h.disk (next h').1.disk rest)
      → (at_record (join_name kind t) f t create next o h).0 ≡ ok r
      → Found create r h.disk
          (at_record (join_name kind t) f t create next o h).1.disk
          (probe_at f t rest o)
  at_record-Found create t next rest h r none n ih e = absent_record-Found create t h r n e
  at_record-Found create t next rest h r (some q) n ih e =
      let path = join_name kind t in
      let (bytes, e₁, s₁) =
        >>=-ok (failing_as file_system_error (read_all path)) (compare_record f t next) h r e in
      let (q', at, contents) = read_all-ok path h bytes (failing_ok (read_all path) h bytes e₁) in
      let same : q' ≡ q = some-injective (sym at ∙ n) in
      let left = (read_all path h).1 in
      let eq : at_record path f t create next (some q) h ≡ compare_record f t next q.contents left =
        s₁ ∙ ap (λ b. compare_record f t next b left) (sym contents ∙ ap (λ x. x.contents) same) in
      subst (λ x. Found create r h.disk x.1.disk (probe_at f t rest (some q))) (sym eq)
        (compare_record-Found create t next q rest h.disk left r (read_all-same path h)
          (ih left (read_all-same path h)) (sym (ap (λ x. x.0) eq) ∙ e))

  pub locate_from-Found :
      (left attempt : ℕ) (create : Bool) (d : Disk) (h : Host) (r : Option Text)
      → h.disk ≡ d
      → (locate_from sha256 left attempt kind f create h).0 ≡ ok r
      → Found create r d
          (locate_from sha256 left attempt kind f create h).1.disk
          (probe_from sha256 kind left attempt d f)
  unfolding locate_from probe_from
  locate_from-Found zero attempt create d h r s e = absurd (cc e)
  locate_from-Found (suc left) attempt create d h r s e =
      subst
        (λ x.
          Found create r x (locate_from sha256 (suc left) attempt kind f create h).1.disk
            (probe_from sha256 kind (suc left) attempt x f))
        s
        (at_record-Found create (slot sha256 kind f attempt) _ _ h r
          (named kind (slot sha256 kind f attempt) h.disk) refl
          (λ h' s' e'. locate_from-Found left (suc attempt) create h.disk h' r s' e') e)
