-- ===== src/Installation/Recorded.antt =====
-- What was recorded is what is found at the next start.
use douglas.Base.{
  map_err-eq-ok, ℕ, ◌≡◌, refl, ap, ◌∙◌, ◌↔◌, String, some, List, [], ◌∷◌, Result, ok, err,
}
use douglas.Text.{Text}
use douglas.Paths.{FilePath}
use douglas.Disk.{File, lookup}
use douglas.Host.{Host, done, answer}
use douglas.Host.Effects.{write_all-ok, read_all-found}
use douglas.Release.{ReleaseMetadata, InstallMarker, Conflict, start_conflicts}
use douglas.Release.Trailer.{Json}
use douglas.Installation.{
  read_if_present, check_conflicts, ensure_compatible, write_marker, record_install, UpgradeJournal,
  write_journal, record_journal, load,
}

read_if_present-found :
    (p : FilePath) (f : File) (h : Host)
    → answer h ≡ done
    → lookup p h.disk ≡ some f
    → (read_if_present p h).0 ≡ ok (some f.contents)
unfolding read_if_present
read_if_present-found p f h a l = rw (read_all-found p f h a l) refl

check_conflicts_iff : (cs : List Conflict) → (check_conflicts cs ≡ ok tt) ↔ (cs ≡ [])
check_conflicts_iff [] = ((λ e. refl), λ e. refl)
check_conflicts_iff (c ∷ cs) = ((λ e. absurd (cc e)), λ e. absurd (cc e))

-- What a file holds after the text of a value was written to it.
abbrev Holds : {A : Type 0} → Json A → A → FilePath → Host → Type 0
Holds json a p h = (f : File) × (lookup p h.disk ≡ some f) × (json.from_slice f.contents ≡ ok a)

write_marker-Holds :
    (json : Json InstallMarker) (p : FilePath) (marker : InstallMarker) (r : Result String (List ℕ))
    (h : Host)
    → json.to_vec marker ≡ r
    → (write_marker json p r h).0 ≡ ok tt
    → Holds json marker p (write_marker json p r h).1
write_marker-Holds json p marker (err x) h s e = absurd (cc e)
write_marker-Holds json p marker (ok text) h s e =
    let (f, contents, at) = write_all-ok p text h (map_err-eq-ok _ _ tt e) in
    (f, at, ap json.from_slice contents ∙ json.round_trip marker text s)

-- A release that recorded its install lets a release start on the data, where the next read is not
-- refused, exactly if that release has no conflict with it.
pub ensure_compatible-record_install :
    (json : Json InstallMarker) (path : FilePath) (version : Text)
    (installed running : ReleaseMetadata) (h : Host)
    → (record_install json path version installed h).0 ≡ ok tt
    → answer (record_install json path version installed h).1 ≡ done
    → ((ensure_compatible json path running (record_install json path version installed h).1).0
        ≡ ok tt)
      ↔ (start_conflicts (record { version = version; metadata = installed }) running ≡ [])
unfolding record_install ensure_compatible
ensure_compatible-record_install json path version installed running h e a =
    let marker : InstallMarker = record { version = version; metadata = installed } in
    let (f, at, parsed) = write_marker-Holds json path marker (json.to_vec marker) h refl e in
    rw (read_if_present-found path f (record_install json path version installed h).1 a at, parsed)
      (check_conflicts_iff (start_conflicts marker running))

write_journal-Holds :
    (json : Json UpgradeJournal) (p : FilePath) (journal : UpgradeJournal)
    (r : Result String (List ℕ)) (h : Host)
    → json.to_vec journal ≡ r
    → (write_journal json p r h).0 ≡ ok tt
    → Holds json journal p (write_journal json p r h).1
write_journal-Holds json p journal (err x) h s e = absurd (cc e)
write_journal-Holds json p journal (ok text) h s e =
    let (f, contents, at) = write_all-ok p text h (map_err-eq-ok _ _ tt e) in
    (f, at, ap json.from_slice contents ∙ json.round_trip journal text s)

-- The journal of an upgrade that was recorded is the one that is loaded, where the read is not
-- refused.
pub load-record_journal :
    (json : Json UpgradeJournal) (path : FilePath) (journal : UpgradeJournal) (h : Host)
    → (record_journal json path journal h).0 ≡ ok tt
    → answer (record_journal json path journal h).1 ≡ done
    → (load json path (record_journal json path journal h).1).0 ≡ ok (some journal)
unfolding record_journal load
load-record_journal json path journal h e a =
    let (f, at, parsed) = write_journal-Holds json path journal (json.to_vec journal) h refl e in
    rw (read_if_present-found path f (record_journal json path journal h).1 a at, parsed) refl
