-- ===== src/Resin/Registries.antt =====
-- The uploads of resin/src/blob_uploader.rs: maps from the uuids of each repository.
use douglas.Base.{
  ℕ, ◌≡◌, refl, Bool, true, false, ◌&&◌, Option, none, some, List, [], ◌∷◌, ◌==◌, arith,
}
use douglas.Text.{Text, same_text, same_text_refl, same_text_sound}
use douglas.Paths.{FilePath}
use douglas.Maps.{Keys, get, delete as discard, insert}
use douglas.Resin.Names.{Name}

-- A hasher is the bytes that it was fed.
pub record PartialUpload : Type 0 where
  pub temp_file : FilePath
  pub hasher : Option (List ℕ)
  pub offset : ℕ

abbrev pub Uploads : Type 0
Uploads = List (Name × List (ℕ × PartialUpload))

abbrev same_namespace : Option Text → Option Text → Bool
same_namespace none none = true
same_namespace none (some _) = false
same_namespace (some _) none = false
same_namespace (some a) (some b) = same_text a b

same_namespace_refl : (o : Option Text) → same_namespace o o ≡ true
same_namespace_refl none = refl
same_namespace_refl (some a) = same_text_refl a

same_namespace_sound : (o p : Option Text) → same_namespace o p ≡ true → o ≡ p
same_namespace_sound none none h = refl
same_namespace_sound none (some _) h = absurd (cc h)
same_namespace_sound (some _) none h = absurd (cc h)
same_namespace_sound (some a) (some b) h = rw (same_text_sound a b h) refl

unfoldable pub same_name : Name → Name → Bool
same_name a b = same_text a.name b.name && same_namespace a.namespace b.namespace

pub same_name_refl : (a : Name) → same_name a a ≡ true
unfolding same_name
same_name_refl a = ground (arith, same_text_refl a.name, same_namespace_refl a.namespace)

pub same_name_sound : (a b : Name) → same_name a b ≡ true → a ≡ b
unfolding same_name
same_name_sound a b h =
    let e = same_text_sound a.name b.name (ground arith) in
    let f = same_namespace_sound a.namespace b.namespace (ground arith) in cc

abbrev pub names : Keys Name
names = record { same = same_name; same_refl = same_name_refl; same_sound = same_name_sound }

abbrev pub uuids : Keys ℕ
uuids = record {
  same = λ a b. a == b;
  same_refl = λ a. ground arith;
  same_sound = λ a b h. ground arith;
}

-- `HashMap::get(..).and_then(..)`
abbrev pub in_uploads : ℕ → Option (List (ℕ × PartialUpload)) → Option PartialUpload
in_uploads uuid none = none
in_uploads uuid (some uploads) = get uuids uuid uploads

unfoldable pub find_upload : Name → ℕ → Uploads → Option PartialUpload
find_upload name uuid m = in_uploads uuid (get names name m)

-- `entry(..).or_default()`
abbrev pub or_default : Option (List (ℕ × PartialUpload)) → List (ℕ × PartialUpload)
or_default none = []
or_default (some uploads) = uploads

unfoldable pub put_upload : Name → ℕ → PartialUpload → Uploads → Uploads
put_upload name uuid u m = insert names name (insert uuids uuid u (or_default (get names name m))) m

-- A registry without uploads is removed.
abbrev pub keep_registry : Name → List (ℕ × PartialUpload) → Uploads → Uploads
keep_registry name [] m = discard names name m
keep_registry name (u ∷ uploads) m = insert names name (u ∷ uploads) m

unfoldable pub take_upload : Name → ℕ → Uploads → Uploads
take_upload name uuid m = keep_registry name (discard uuids uuid (or_default (get names name m))) m
