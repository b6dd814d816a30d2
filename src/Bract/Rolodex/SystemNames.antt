-- ===== src/Bract/Rolodex/SystemNames.antt =====
-- The names that bract/src/rolodex/naming.rs makes are names for the tools of the host.
use douglas.Base.{
  true, ℕ, ◌*◌, ◌/◌, ◌%◌, ◌≤◌, ◌<◌, ◌≡◌, refl, List, [], ◌∷◌, ◌++◌, take, All, All-append, All-take,
  length, length-append, length-take_le, length-take, arith, suc, some,
}
use douglas.Text.{Text, codes, strip_prefix, strip_prefix-append}
use douglas.Bract.Rolodex.Naming.{
  is_plain, normalize_char, normalize, hex_digit, hex_bytes, short_hash, derive_system_name,
  normalized_len,
}

-- The characters that the tools of the host take in a name.
abbrev pub IsPlain : Text → Type 0
IsPlain = All (λ ch. is_plain ch ≡ true)

normalize_char-is_plain : (ch : ℕ) → is_plain (normalize_char ch) ≡ true
unfolding normalize_char
normalize_char-is_plain ch = ground arith

hex_digit-is_plain : (d : ℕ) → d < 16 → is_plain (hex_digit d) ≡ true
unfolding hex_digit
hex_digit-is_plain d h = ground arith

normalize-IsPlain : (t : Text) → IsPlain (normalize t)
normalize-IsPlain [] = tt
normalize-IsPlain (c ∷ t) = (normalize_char-is_plain c, normalize-IsPlain t)

abbrev pub IsBytes : List ℕ → Type 0
IsBytes = All (λ byte. byte < 256)

hex_bytes-IsPlain : (bytes : List ℕ) → IsBytes bytes → IsPlain (hex_bytes bytes)
hex_bytes-IsPlain [] h = tt
hex_bytes-IsPlain (b ∷ bytes) (lt, h) = (
  hex_digit-is_plain (b / 16) (omega arith),
  (hex_digit-is_plain (b % 16) (omega arith), hex_bytes-IsPlain bytes h),
)

length-hex_bytes : (bytes : List ℕ) → length (hex_bytes bytes) ≡ 2 * length bytes
length-hex_bytes [] = refl
length-hex_bytes (b ∷ bytes) = omega (arith, length-hex_bytes bytes)

-- The prefix, a middle part, a dash and a hash.
module _ (middle hash : Text) where
  abbrev assembled : Text
  assembled = codes "doug-" ++ (middle ++ (codes "-" ++ hash))

  length-assembled : length middle ≤ 18 → length hash ≡ 8 → length assembled ≤ 32
  length-assembled m h =
      let behind : length (codes "-" ++ hash) ≡ suc (length hash) = refl in
      omega (arith, behind, length-append middle (codes "-" ++ hash))

  assembled-IsPlain : IsPlain middle → IsPlain hash → IsPlain assembled
  assembled-IsPlain m h =
      All-append (λ ch. is_plain ch ≡ true) (codes "doug-") (middle ++ (codes "-" ++ hash))
        (refl, (refl, (refl, (refl, (refl, tt)))))
        (All-append (λ ch. is_plain ch ≡ true) middle (codes "-" ++ hash) m (refl, h))

module _ (sha256 : Text → List ℕ) (bytes : (t : Text) → IsBytes (sha256 t))
    (size : (t : Text) → length (sha256 t) ≡ 32) where
  length-short_hash : (t : Text) → length (short_hash sha256 t) ≡ 8
  length-short_hash t =
      omega (arith, length-hex_bytes (take 4 (sha256 t)), length-take 4 (sha256 t), size t)

  -- Every system name is at most 32 characters long, made of lower-case letters, digits, dashes and
  -- underscores, and starts with the prefix of douglas.
  pub derive_system_name-IsPlain :
      (full_name : Text)
      → (length (derive_system_name sha256 full_name) ≤ 32)
        × IsPlain (derive_system_name sha256 full_name)
        × (rest : Text) × (strip_prefix (codes "doug-") (derive_system_name sha256 full_name)
            ≡ some rest)
  unfolding derive_system_name
  derive_system_name-IsPlain f =
      let middle = take normalized_len (normalize f) in
      let hash = short_hash sha256 f in
      (
        length-assembled middle hash (length-take_le 18 (normalize f)) (length-short_hash f),
        assembled-IsPlain middle hash
            (All-take (λ ch. is_plain ch ≡ true) 18 (normalize f) (normalize-IsPlain f))
            (hex_bytes-IsPlain (take 4 (sha256 f))
              (All-take (λ byte. byte < 256) 4 (sha256 f) (bytes f))),
        middle ++ (codes "-" ++ hash),
        strip_prefix-append (codes "doug-") (middle ++ (codes "-" ++ hash)),
      )
