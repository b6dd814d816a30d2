-- ===== src/Bract/Rolodex/Naming.antt =====
-- bract/src/rolodex/naming.rs: the names of the users and groups of the host. SHA-256 is a library's.
use douglas.Base.{
  ℕ, ◌+◌, ◌-◌, ◌/◌, ◌%◌, Bool, List, [], ◌∷◌, ◌++◌, ◌&&◌, ◌||◌, leb, ltb, ◌==◌, if◌then◌else◌, take,
  map,
}
use douglas.Text.{Text, codes, show_u8}

abbrev pub hash_hex_len : ℕ
hash_hex_len = 8

abbrev pub max_system_name_length : ℕ
max_system_name_length = 32

-- Less the prefix, the dash and the hash.
abbrev pub normalized_len : ℕ
normalized_len = max_system_name_length - 5 - 1 - hash_hex_len

unfoldable pub salted : Text → ℕ → Text
salted full_name attempt =
    if attempt == 0 then full_name else full_name ++ codes "#" ++ show_u8 attempt

-- `'a'..='z' | '0'..='9' | '-' | '_'`
abbrev pub is_plain : ℕ → Bool
is_plain ch = leb 97 ch && leb ch 122 || leb 48 ch && leb ch 57 || ch == 45 || ch == 95

unfoldable pub normalize_char : ℕ → ℕ
normalize_char ch = if is_plain ch then ch else if leb 65 ch && leb ch 90 then ch + 32 else 45

abbrev pub normalize : Text → Text
normalize = map normalize_char

unfoldable pub hex_digit : ℕ → ℕ
hex_digit d = if ltb d 10 then 48 + d else 87 + d

-- `{byte:02x}`, joined.
abbrev pub hex_bytes : List ℕ → Text
hex_bytes [] = []
hex_bytes (byte ∷ bytes) = hex_digit (byte / 16) ∷ hex_digit (byte % 16) ∷ hex_bytes bytes

module _ (sha256 : Text → List ℕ) where
  abbrev pub short_hash : Text → Text
  short_hash name = hex_bytes (take (hash_hex_len / 2) (sha256 name))

  unfoldable pub derive_system_name : Text → Text
  derive_system_name full_name =
      codes "doug-"
      ++ (take normalized_len (normalize full_name) ++ (codes "-" ++ short_hash full_name))
