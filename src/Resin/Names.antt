-- ===== src/Resin/Names.antt =====
-- resin_types/src/name.rs: the name of a local repository, with or without a namespace.
pub mod Parsed
use douglas.Base.{
  ℕ, ◌+◌, ◌≡◌, refl, ◌∙◌, sym, ap, Bool, true, false, Option, none, some, List, [], ◌∷◌, ◌++◌,
  Result, ok, err, ◌>>=◌, length, ltb, ◌==◌, if◌then◌else◌, arith,
}
use douglas.Text.{Text, codes, strip_prefix, is_free_of}
use douglas.Strings.{
  StringRules, RefinedError, cannot_be_empty, too_long, invalid_name, validate, match_component,
}

pub data NameParseError : Type 0 where
  name_cannot_be_empty name_too_long name_is_invalid : NameParseError

abbrev pub from_refined : RefinedError → NameParseError
from_refined cannot_be_empty = name_cannot_be_empty
from_refined too_long = name_too_long
from_refined (invalid_name _) = name_is_invalid

abbrev pub repository_component_rules : StringRules NameParseError
repository_component_rules = record {
  max_len = 255;
  pattern = match_component false;
  from = from_refined;
  invalid = λ _. name_is_invalid;
}

-- `RepositoryComponent::from_str`
abbrev pub component : Text → Result NameParseError Text
component = validate repository_component_rules

pub record Name : Type 0 where
  pub name : Text
  pub namespace : Option Text

abbrev pub escaped_separator : Text
escaped_separator = codes "%2F"

abbrev pub separator : Text
separator = codes "/"

-- `str::split_once`
abbrev pub split_at : ℕ → Option Text → Option (Text × Text) → Option (Text × Text)
split_at c (some behind) rest = some ([], behind)
split_at c none (some (before, behind)) = some (c ∷ before, behind)
split_at c none none = none

unfoldable pub split_once : Text → Text → Option (Text × Text)
split_once sep [] = none
split_once sep (c ∷ t) = split_at c (strip_prefix sep (c ∷ t)) (split_once sep t)

unfoldable pub from_namespaced : Text → Text → Result NameParseError Name
from_namespaced namespace name = component namespace >>= λ namespace. component name >>= λ name.
    if ltb 255 (length namespace + length name + 1)
    then err name_too_long
    else ok (record { name = name; namespace = some namespace })

abbrev pub prefixed : Text → Option Text → Text → Text
prefixed sep none name = name
prefixed sep (some namespace) name = namespace ++ (sep ++ name)

abbrev pub fs_safe : Name → Text
fs_safe n = prefixed escaped_separator n.namespace n.name

-- `Display`
abbrev pub show_name : Name → Text
show_name n = prefixed separator n.namespace n.name

abbrev pub or_split : Option (Text × Text) → Option (Text × Text) → Option (Text × Text)
or_split (some parts) other = some parts
or_split none other = other

abbrev pub split_name : Text → Option (Text × Text)
split_name value = or_split (split_once escaped_separator value) (split_once separator value)

abbrev pub from_parts : Text → Option (Text × Text) → Result NameParseError Name
from_parts value (some (namespace, name)) = from_namespaced namespace name
from_parts value none = component value >>= λ name. ok (record { name = name; namespace = none })

-- `Name::from_str`
unfoldable pub parse_name : Text → Result NameParseError Name
parse_name value = from_parts value (split_name value)
