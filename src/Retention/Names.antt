-- ===== src/Retention/Names.antt =====
-- The names of kept versions, and which names in a folder are such.
use douglas.Base.{
  ◌≡◌, refl, ap, ◌∙◌, sym, Option, none, some, List, [], ◌∷◌, ◌++◌, Result, ok, err, ◌⊎◌, inl, inr,
  In, arith, Option-cases,
}
use douglas.Text.{Text, strip_prefix, strip_prefix_sound}
use douglas.Version.{Version, IsByte, from_str, VersionParseError}
use douglas.Version.RoundTrip.{from_str-to_string, to_string-from_str}
use douglas.Retention.{
  prefix, retained_name, parse_retained, parse_rest, to_option, retained, push_version,
}

-- The name of a kept version parses to that version.
pub parse_retained-retained_name :
    (v : Version) → IsByte v → parse_retained (retained_name v) ≡ some v
unfolding parse_retained retained_name
parse_retained-retained_name v h = rw (from_str-to_string v h)

to_option_sound :
    (r : Result VersionParseError Version) (v : Version) → to_option r ≡ some v → r ≡ ok v
to_option_sound (ok w) v h = ground arith
to_option_sound (err e) v h = cc

-- A name that parses is the name of the version it parses to, so no other file is taken for a kept
-- version.
pub retained_name-parse_retained :
    (name : Text) (v : Version) → parse_retained name ≡ some v → name ≡ retained_name v
unfolding parse_retained retained_name
retained_name-parse_retained name v h = elim (Option-cases (strip_prefix prefix name)) [
  | inl e ↦ cc (ap parse_rest e)
  | inr (rest, e) ↦
      strip_prefix_sound prefix name rest e
      ∙ ap (◌++◌ prefix) (
          to_string-from_str rest v (to_option_sound (from_str rest) v (sym (ap parse_rest e) ∙ h)))
]

In-push_version :
    (o : Option Version) (v : Version) (name n : Text) (names : List Text)
    → parse_retained n ≡ o
    → (In (v, name) (retained names) → In name names × (parse_retained name ≡ some v))
    → In (v, name) (push_version o n (retained names))
    → In name (n ∷ names) × (parse_retained name ≡ some v)
In-push_version none v name n names e ih h = (inr (ih h).0, (ih h).1)
In-push_version (some w) v name n names e ih (inl p) =
    let same : name ≡ n = ap (λ q. q.1) p in
    let version : v ≡ w = ap (λ q. q.0) p in (inl same, rw (same, version) e)
In-push_version (some w) v name n names e ih (inr q) = (inr (ih q).0, (ih q).1)

push_version-In :
    (o : Option Version) (v : Version) (name n : Text) (names : List Text)
    → parse_retained n ≡ o
    → parse_retained name ≡ some v
    → (name ≡ n) ⊎ In (v, name) (retained names)
    → In (v, name) (push_version o n (retained names))
push_version-In none v name n names e p (inl q) = cc (ap parse_retained q)
push_version-In none v name n names e p (inr r) = r
push_version-In (some w) v name n names e p (inl q) =
    let version : v ≡ w = ground (arith, ap parse_retained q) in inl (rw (q, version))
push_version-In (some w) v name n names e p (inr r) = inr r

-- An entry of `retained` is a name of the list that parses to its version.
pub In-retained :
    (v : Version) (name : Text) (names : List Text)
    → In (v, name) (retained names)
    → In name names × (parse_retained name ≡ some v)
unfolding retained
In-retained v name [] h = elim h [ ]
In-retained v name (n ∷ names) h =
    In-push_version (parse_retained n) v name n names refl (In-retained v name names) h

pub retained-In :
    (v : Version) (name : Text) (names : List Text)
    → In name names
    → parse_retained name ≡ some v
    → In (v, name) (retained names)
unfolding retained
retained-In v name [] h p = elim h [ ]
retained-In v name (n ∷ names) (inl e) p =
    push_version-In (parse_retained n) v name n names refl p (inl e)
retained-In v name (n ∷ names) (inr i) p =
    push_version-In (parse_retained n) v name n names refl p (inr (retained-In v name names i p))
