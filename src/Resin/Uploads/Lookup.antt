-- ===== src/Resin/Uploads/Lookup.antt =====
-- The two levels of the uploads of resin/src/blob_uploader.rs as one map.
use douglas.Base.{
  ℕ, ◌≡◌, refl, sym, ◌∙◌, false, ◌==◌, Bool-cases, inl, inr, Option, none, some, List, [], ◌∷◌,
  arith,
}
use douglas.Maps.{get, delete, insert, get-insert, get-insert_other, get-delete, get-delete_other}
use douglas.Resin.Names.{Name}
use douglas.Resin.Registries.{
  PartialUpload, Uploads, names, uuids, same_name, same_name_sound, in_uploads, find_upload,
  or_default, put_upload, keep_registry, take_upload,
}
use douglas.Resin.Uploads.Machine.{Key, same_key}

in_uploads-or_default :
    (b : ℕ) (o : Option (List (ℕ × PartialUpload))) → get uuids b (or_default o) ≡ in_uploads b o
unfolding get
in_uploads-or_default b none = refl
in_uploads-or_default b (some uploads) = refl

pub find-put :
    (n : Name) (a : ℕ) (u : PartialUpload) (m : Uploads)
    → find_upload n a (put_upload n a u m) ≡ some u
unfolding find_upload put_upload
find-put n a u m =
    rw (get-insert names n (insert uuids a u (or_default (get names n m))) m)
      (get-insert uuids a u (or_default (get names n m)))

pub find-put_other :
    (k l : Key) (u : PartialUpload) (m : Uploads)
    → same_key k l ≡ false
    → find_upload l.0 l.1 (put_upload k.0 k.1 u m) ≡ find_upload l.0 l.1 m
unfolding find_upload put_upload
find-put_other (n, a) (o, b) u m h = elim (Bool-cases (same_name n o)) [
  | inl e ↦
      let same = same_name_sound n o e in
      let away : (a == b) ≡ false = ground arith in
      rw (sym same, get-insert names n (insert uuids a u (or_default (get names n m))) m)
        (get-insert_other uuids a b u (or_default (get names n m)) away
          ∙ in_uploads-or_default b (get names n m))
  | inr e ↦ rw (get-insert_other names n o _ m e) refl
]

get-keep :
    (n : Name) (b : ℕ) (us : List (ℕ × PartialUpload)) (m : Uploads)
    → in_uploads b (get names n (keep_registry n us m)) ≡ get uuids b us
unfolding get
get-keep n b [] m = rw (get-delete names n m) refl
get-keep n b (u ∷ us) m = rw (get-insert names n (u ∷ us) m) refl

get-keep_other :
    (n o : Name) (us : List (ℕ × PartialUpload)) (m : Uploads)
    → same_name n o ≡ false
    → get names o (keep_registry n us m) ≡ get names o m
get-keep_other n o [] m e = get-delete_other names n o m e
get-keep_other n o (u ∷ us) m e = get-insert_other names n o (u ∷ us) m e

pub find-take : (n : Name) (a : ℕ) (m : Uploads) → find_upload n a (take_upload n a m) ≡ none
unfolding find_upload take_upload
find-take n a m =
    let us = or_default (get names n m) in
    get-keep n a (delete uuids a us) m ∙ get-delete uuids a us

pub find-take_other :
    (k l : Key) (m : Uploads)
    → same_key k l ≡ false
    → find_upload l.0 l.1 (take_upload k.0 k.1 m) ≡ find_upload l.0 l.1 m
unfolding find_upload take_upload
find-take_other (n, a) (o, b) m h = elim (Bool-cases (same_name n o)) [
  | inl e ↦
      let same = same_name_sound n o e in
      let away : (a == b) ≡ false = ground arith in
      let us = or_default (get names n m) in
      rw (sym same) (
        get-keep n b (delete uuids a us) m
        ∙ get-delete_other uuids a b us away
        ∙ in_uploads-or_default b (get names n m))
  | inr e ↦ rw (get-keep_other n o _ m e) refl
]
