-- ===== src/Tests/Release.antt =====
-- Two releases, and a stand-in for the JSON encoding.
use douglas.Base.{ok-injective, subst, ℕ, ◌≡◌, ◌↔◌, refl, String, List, [], ◌∷◌, Result, ok, err}
use douglas.Text.{codes}
use douglas.Release.{
  ReleaseMetadata, Core, get, insert, current, start_conflicts, core_conflicts, core_newer,
  core_unknown, format_newer, differences, core_changes, core_additions,
}
use douglas.Release.Conflicts.{CanStart, IsMap, start_conflicts_iff, differences-start_conflicts}
use douglas.Release.Trailer.{Json, attach, detach, strip, detach-attach}

abbrev old : ReleaseMetadata
old = record { format = 1; core = ("openbao", 1) ∷ ("traefik", 1) ∷ [] }

abbrev new : ReleaseMetadata
new = record { format = 1; core = ("traefik", 1) ∷ ("openbao", 1) ∷ [] }

current_is_sorted : current ≡ old
unfolding current insert
current_is_sorted = refl

conflicts :
    start_conflicts
      (record {
        version = [];
        metadata = record { format = 2; core = ("openbao", 2) ∷ ("ory", 1) ∷ [] };
      })
      old
    ≡ format_newer 2 1 ∷ core_newer "openbao" 2 1 ∷ core_unknown "ory" 1 ∷ []
unfolding start_conflicts core_conflicts get
conflicts = refl

old-IsMap : IsMap old.core
unfolding get
old-IsMap = (refl, (refl, tt))

new-IsMap : IsMap new.core
unfolding get
new-IsMap = (refl, (refl, tt))

no_difference : differences old new ≡ []
unfolding differences core_changes core_additions get
no_difference = refl

start_conflicts_iff_example :
    (start_conflicts (record { version = []; metadata = new }) old ≡ [])
    ↔ CanStart (record { version = []; metadata = new }) old
start_conflicts_iff_example = start_conflicts_iff (record { version = []; metadata = new }) old

differences-start_conflicts_example :
    start_conflicts (record { version = codes "0.0.2"; metadata = new }) old ≡ []
differences-start_conflicts_example =
    differences-start_conflicts old new (codes "0.0.2") old-IsMap new-IsMap no_difference

-- An encoding of the metadata that have no core seedling: one number, the format.
abbrev encode : ℕ → Core → Result String (List ℕ)
encode f [] = ok (f ∷ [])
encode f (_ ∷ _) = err "unsupported"

abbrev decode : List ℕ → Result String ReleaseMetadata
decode (f ∷ []) = ok (record { format = f; core = [] })
decode _ = err "expected one number"

decode-encode :
    (f : ℕ) (core : Core) (bytes : List ℕ)
    → encode f core ≡ ok bytes
    → decode bytes ≡ ok (record { format = f; core = core })
decode-encode f [] bytes h =
    subst (λ b. decode b ≡ ok (record { format = f; core = [] })) (ok-injective h) refl
decode-encode f (_ ∷ _) bytes h = absurd (cc h)

abbrev one_number : Json ReleaseMetadata
one_number = record {
  to_vec = λ m. encode m.format m.core;
  from_slice = decode;
  round_trip = λ m. decode-encode m.format m.core;
}

abbrev bare : ReleaseMetadata
bare = record { format = 3; core = [] }

abbrev attached : List ℕ
attached = 7 ∷ 8 ∷ 3 ∷ 1 ∷ 0 ∷ 0 ∷ 0 ∷ []

attach_run : attach one_number (7 ∷ 8 ∷ []) bare ≡ ok attached
unfolding attach
attach_run = refl

detach-attach_example :
    (detach one_number attached ≡ ok (7 ∷ 8 ∷ [], bare))
    × (strip one_number attached ≡ ok (7 ∷ 8 ∷ []))
detach-attach_example = detach-attach one_number (7 ∷ 8 ∷ []) attached bare attach_run
