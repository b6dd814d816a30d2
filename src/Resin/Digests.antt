-- ===== src/Resin/Digests.antt =====
-- resin/src/digest.rs: digests, as `sha256:` and 64 digits.
use douglas.Base.{
  ℕ, zero, suc, ◌+◌, ◌-◌, ◌*◌, ◌/◌, ◌%◌, ◌<◌, ◌≡◌, refl, sym, ap, ◌∙◌, Bool, true, false, ◌&&◌,
  ◌||◌, Option, none, some, List, [], ◌∷◌, ◌++◌, Result, ok, err, ok-injective, length, drop,
  drop-append, leb, ◌==◌, if◌then◌else◌, arith,
}
use douglas.Text.{Text, codes, strip_prefix, strip_prefix_sound}
use douglas.Bract.Rolodex.Naming.{hex_digit, hex_bytes}

pub data DigestError : Type 0 where
  invalid_digest : DigestError

pub record Digest : Type 0 where
  pub text : Text

abbrev pub prefix : Text
prefix = codes "sha256:"

-- `hex::encode` is `hex_bytes`.
abbrev pub from_bytes : List ℕ → Result DigestError Digest
from_bytes value =
    if length value == 32
    then ok (record { text = prefix ++ hex_bytes value })
    else err invalid_digest

abbrev pub hex : Digest → Text
hex d = drop (length prefix) d.text

-- `char::to_digit(16)` of the digits that a digest has.
abbrev pub to_digit : ℕ → ℕ
to_digit c = if leb c 57 then c - 48 else c - 87

abbrev pub pair_bytes : Text → List ℕ
pair_bytes [] = []
pair_bytes (hi ∷ []) = []
pair_bytes (hi ∷ lo ∷ rest) = (to_digit hi * 16 + to_digit lo) ∷ pair_bytes rest

abbrev pub as_bytes : Digest → List ℕ
as_bytes d = pair_bytes (hex d)

abbrev pub is_hex : Text → Bool
is_hex [] = true
is_hex (c ∷ t) = (leb 48 c && leb c 57 || leb 97 c && leb c 102) && is_hex t

abbrev pub checked : Text → Option Text → Result DigestError Digest
checked value none = err invalid_digest
checked value (some digits) =
    if length digits == 64 && is_hex digits
    then ok (record { text = value })
    else err invalid_digest

unfoldable pub from_str : Text → Result DigestError Digest
from_str value = checked value (strip_prefix prefix value)

hex_digit-to_digit :
    (c : ℕ) → (leb 48 c && leb c 57 || leb 97 c && leb c 102) ≡ true → hex_digit (to_digit c) ≡ c
unfolding hex_digit
hex_digit-to_digit c h = ground arith

to_digit_small : (c : ℕ) → (leb 48 c && leb c 57 || leb 97 c && leb c 102) ≡ true → to_digit c < 16
to_digit_small c h = ground arith

high : (a b : ℕ) → b < 16 → (a * 16 + b) / 16 ≡ a
high a b h = omega arith

low : (a b : ℕ) → b < 16 → (a * 16 + b) % 16 ≡ b
low a b h = omega arith

hex_bytes-pair_bytes :
    (t : Text) (n : ℕ) → length t ≡ n + n → is_hex t ≡ true → hex_bytes (pair_bytes t) ≡ t
hex_bytes-pair_bytes [] n e h = refl
hex_bytes-pair_bytes (a ∷ []) n e h = absurd (omega arith)
hex_bytes-pair_bytes (a ∷ b ∷ t) zero e h = absurd (omega arith)
hex_bytes-pair_bytes (a ∷ b ∷ t) (suc n) e h =
    rw
      (
        high (to_digit a) (to_digit b) (to_digit_small b (ground arith)),
        low (to_digit a) (to_digit b) (to_digit_small b (ground arith)),
        hex_digit-to_digit a (ground arith),
        hex_digit-to_digit b (ground arith),
        hex_bytes-pair_bytes t n (omega arith) (ground arith),
      )
      refl

length-pair_bytes : (t : Text) (n : ℕ) → length t ≡ n + n → length (pair_bytes t) ≡ n
length-pair_bytes [] n e = omega arith
length-pair_bytes (a ∷ []) n e = absurd (omega arith)
length-pair_bytes (a ∷ b ∷ t) zero e = absurd (omega arith)
length-pair_bytes (a ∷ b ∷ t) (suc n) e =
    let rest = length-pair_bytes t n (omega arith) in omega arith

-- If a text is parsed as a digest, the bytes of the digest are 32 and make the same digest.
pub from_bytes-as_bytes :
    (t : Text) (d : Digest) → from_str t ≡ ok d → from_bytes (as_bytes d) ≡ ok d
unfolding from_str
from_bytes-as_bytes t d h = go (strip_prefix prefix t) refl h
  where
    tested :
        (digits : Text) (b : Bool)
        → length digits == 64 && is_hex digits ≡ b
        → t ≡ prefix ++ digits
        → ◌≡◌ {A = Result DigestError Digest}
            (if b then ok (record { text = t }) else err invalid_digest)
            (ok d)
        → from_bytes (as_bytes d) ≡ ok d
    tested digits false e same r = absurd (cc r)
    tested digits true e same r =
        let text : d.text ≡ prefix ++ digits =
          ap (λ (x : Digest). x.text) (sym (ok-injective r)) ∙ same in
        let its : hex d ≡ digits = ap (drop (length prefix)) text ∙ drop-append prefix digits in
        let long : length digits ≡ 32 + 32 = ground arith in
        rw
          (
            its,
            length-pair_bytes digits 32 long,
            hex_bytes-pair_bytes digits 32 long (ground arith),
          )
          (ap (λ x. ok (record { text = x })) (sym text))

    go :
        (o : Option Text)
        → strip_prefix prefix t ≡ o
        → checked t o ≡ ok d
        → from_bytes (as_bytes d) ≡ ok d
    go none e r = absurd (cc r)
    go (some digits) e r =
        tested digits (length digits == 64 && is_hex digits) refl
          (strip_prefix_sound prefix t digits e) r
