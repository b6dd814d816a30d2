-- ===== src/Version.antt =====
-- `Version` of src/verify.rs: three bytes, ordered by major, minor and patch.
pub mod RoundTrip
pub mod Order
use douglas.Base.{
  ℕ, ◌+◌, ◌*◌, ◌<◌, ◌≡◌, Bool, true, false, ◌&&◌, ◌||◌, Option, none, some, List, [], ◌∷◌, ◌++◌,
  ltb, ◌==◌, if◌then◌else◌, Result, ok, err, ok_or, ◌>>=◌,
}
use douglas.Text.{Text, same_text, split, show_u8, parse_u8}

pub record Version : Type 0 where
  pub major : ℕ
  pub minor : ℕ
  pub patch : ℕ

pub data VersionParseError : Type 0 where
  version_parse_error : VersionParseError

-- The three numbers are bytes.
pub record IsByte (v : Version) : Type 0 where
  pub major_lt : v.major < 256
  pub minor_lt : v.minor < 256
  pub patch_lt : v.patch < 256

-- `.`
abbrev pub dot : ℕ
dot = 46

-- `Display`
unfoldable pub to_string : Version → Text
to_string v = show_u8 v.major ++ dot ∷ (show_u8 v.minor ++ dot ∷ show_u8 v.patch)

-- One call of the closure `next`, with the parts that are left after it.
unfoldable pub next : List Text → Result VersionParseError (ℕ × List Text)
next [] = err version_parse_error
next (part ∷ parts) = ok_or (parse_u8 part) version_parse_error >>= λ n. ok (n, parts)

abbrev pub checked : Text → Version → Result VersionParseError Version
checked text version =
    if same_text (to_string version) text then ok version else err version_parse_error

unfoldable pub from_str : Text → Result VersionParseError Version
unfolding to_string next
from_str text = do
  (major, parts) ← next (split dot text)
  (minor, parts') ← next parts
  (patch, parts'') ← next parts'
  checked text (record { major = major; minor = minor; patch = patch })

-- The derived `Ord`.
abbrev pub lt_version : Version → Version → Bool
lt_version a b =
    ltb a.major b.major
    || a.major == b.major && (ltb a.minor b.minor || a.minor == b.minor && ltb a.patch b.patch)

-- The derived `Eq`.
abbrev pub same_version : Version → Version → Bool
same_version a b = a.major == b.major && (a.minor == b.minor && a.patch == b.patch)
