-- ===== src/Tests/Installation.antt =====
-- Toy encodings, a recorded install and journal, and a staged rollback.
use douglas.Base.{
  ℕ, ◌≡◌, ◌↔◌, refl, ap, String, Bool, true, false, none, some, List, [], ◌∷◌, Result, ok, err,
  ok-injective, subst, sym,
}
use douglas.Text.{Text, codes, show_u8, split, parse_u8}
use douglas.Sort.{sort}
use douglas.Paths.{FilePath, same_path}
use douglas.Disk.{File, lookup, remove, entries}
use douglas.Host.{
  Host, copy, get_user_and_group_ownership, change_user_and_group_ownership, list_folder, write_all,
}
use douglas.StagedCopy.{copy_keeping_owner}
use douglas.Version.{Version, to_string, from_str, lt_version}
use douglas.Retention.{retained_name, retained, parse_retained, rollback_target, rfind_older}
use douglas.Release.{ReleaseMetadata, InstallMarker, Core, start_conflicts}
use douglas.Release.Trailer.{Json}
use douglas.Installation.{ensure_compatible, record_install, UpgradeJournal, record_journal}
use douglas.Installation.Recorded.{ensure_compatible-record_install}
use douglas.Upgrade.Steps.{retained_path}
use douglas.Upgrade.Rollback.{choose, stage, rollback_staging, stage-choose}

-- An encoding of the markers of one version without a core seedling, by the format.
abbrev encode : ℕ → Text → Core → Result String (List ℕ)
encode f [] [] = ok (f ∷ [])
encode f _ _ = err "unsupported"

abbrev decode : List ℕ → Result String InstallMarker
decode (f ∷ []) = ok (record { version = []; metadata = record { format = f; core = [] } })
decode _ = err "expected one number"

decode-encode :
    (f : ℕ) (version : Text) (core : Core) (bytes : List ℕ)
    → encode f version core ≡ ok bytes
    → decode bytes
      ≡ ok (record { version = version; metadata = record { format = f; core = core } })
decode-encode f [] [] bytes h =
    subst
      (λ b. decode b ≡ ok (record { version = []; metadata = record { format = f; core = [] } }))
      (ok-injective h) refl
decode-encode f [] (_ ∷ _) bytes h = absurd (cc h)
decode-encode f (_ ∷ _) [] bytes h = absurd (cc h)
decode-encode f (_ ∷ _) (_ ∷ _) bytes h = absurd (cc h)

abbrev marker_json : Json InstallMarker
marker_json = record {
  to_vec = λ m. encode m.metadata.format m.version m.metadata.core;
  from_slice = decode;
  round_trip = λ m. decode-encode m.metadata.format m.version m.metadata.core;
}

-- An encoding of the journals that name no version and the root folder, by the process.
abbrev encode_journal : Text → Text → Bool → List Text → ℕ → Result String (List ℕ)
encode_journal [] [] true [] pid = ok (pid ∷ [])
encode_journal _ _ _ _ pid = err "unsupported"

abbrev decode_journal : List ℕ → Result String UpgradeJournal
decode_journal (pid ∷ []) = ok (record {
  from = [];
  to = [];
  previous_binary = record { absolute = true; names = [] };
  pid = pid;
})
decode_journal _ = err "expected one number"

decode-encode_journal :
    (from to : Text) (absolute : Bool) (names : List Text) (pid : ℕ) (bytes : List ℕ)
    → encode_journal from to absolute names pid ≡ ok bytes
    → decode_journal bytes
      ≡ ok (record {
        from = from;
        to = to;
        previous_binary = record { absolute = absolute; names = names };
        pid = pid;
      })
decode-encode_journal [] [] true [] pid bytes h = ap decode_journal (sym (ok-injective h))
decode-encode_journal (_ ∷ _) to absolute names pid bytes h = absurd (cc h)
decode-encode_journal [] (_ ∷ _) absolute names pid bytes h = absurd (cc h)
decode-encode_journal [] [] false names pid bytes h = absurd (cc h)
decode-encode_journal [] [] true (_ ∷ _) pid bytes h = absurd (cc h)

abbrev journal_json : Json UpgradeJournal
journal_json = record {
  to_vec = λ j. encode_journal j.from j.to j.previous_binary.absolute j.previous_binary.names j.pid;
  from_slice = decode_journal;
  round_trip = λ j.
      decode-encode_journal j.from j.to j.previous_binary.absolute j.previous_binary.names j.pid;
}

abbrev journal : UpgradeJournal
journal = record {
  from = [];
  to = [];
  previous_binary = record { absolute = true; names = [] };
  pid = 7;
}

abbrev path : FilePath
path = record { absolute = true; names = codes "install-marker.json" ∷ [] }

abbrev empty : Host
empty = record { disk = []; answers = [] }

abbrev release : ℕ → ReleaseMetadata
release f = record { format = f; core = [] }

recorded : (record_install marker_json path [] (release 1) empty).0 ≡ ok tt
unfolding record_install write_all
recorded = refl

ensure_compatible-record_install_example :
    ((ensure_compatible marker_json path
        (release 2)
        (record_install marker_json path [] (release 1) empty).1).0
      ≡ ok tt)
    ↔ (start_conflicts (record { version = []; metadata = release 1 }) (release 2) ≡ [])
unfolding record_install write_all
ensure_compatible-record_install_example =
    ensure_compatible-record_install marker_json path [] (release 1) (release 2) empty recorded refl

journal_recorded : (record_journal journal_json path journal empty).0 ≡ ok tt
unfolding record_journal write_all
journal_recorded = refl

-- The folder keeps 0.0.1, and 0.0.2 runs.
abbrev bin : FilePath
bin = record { absolute = true; names = codes "bin" ∷ [] }

abbrev version : ℕ → Version
version n = record { major = 0; minor = 0; patch = n }

abbrev kept : Host
kept = record {
  disk =
      (
        record { absolute = true; names = codes "douglas-0.0.1" ∷ codes "bin" ∷ [] },
        record {
          contents = 1 ∷ [];
          owner = "root";
          group = "root";
          executable_by_owner = true;
          executable_by_group = true;
        },
      )
      ∷ [];
  answers = [];
}

chosen : (choose bin (version 2) none kept).0 ≡ ok (version 1)
unfolding choose list_folder entries same_path rollback_target rfind_older sort retained
    parse_retained from_str to_string show_u8 split parse_u8
chosen = refl

staged : (stage bin (version 1) (choose bin (version 2) none kept).1).0 ≡ ok (rollback_staging bin)
unfolding choose list_folder entries same_path stage lookup remove copy get_user_and_group_ownership
    change_user_and_group_ownership copy_keeping_owner retained_name to_string show_u8
staged = refl

stage-choose_example :
    (lt_version (version 1) (version 2) ≡ true)
    × ((f : File) × (lookup
            (retained_path bin (version 1))
            (choose bin (version 2) none kept).1.disk
          ≡ some f)
        × (lookup
              (rollback_staging bin)
              (stage bin (version 1) (choose bin (version 2) none kept).1).1.disk
            ≡ some f))
unfolding same_path retained_name to_string show_u8
stage-choose_example =
    stage-choose bin (version 2) none kept (version 1) (rollback_staging bin) refl chosen staged
