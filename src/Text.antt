-- ===== src/Text.antt =====
-- Text as a list of code points, with what the sources use of `str`.
use Prim.Native.Char.{code}
use douglas.Base.{
  ℕ, ◌+◌, ◌-◌, ◌*◌, ◌/◌, ◌%◌, ◌≡◌, refl, ◌↔◌, String, Bool, true, false, not, ◌&&◌, Option, none,
  some, List, [], ◌∷◌, ◌++◌, arith, ltb, leb, ◌==◌, if◌then◌else◌,
}

abbrev pub Text : Type 0
Text = List ℕ

abbrev pub codes : String → Text
codes String.[] = []
codes (String.◌∷◌ c s) = code c ∷ codes s

-- `==` on strings.
abbrev pub same_text : Text → Text → Bool
same_text [] [] = true
same_text [] (_ ∷ _) = false
same_text (_ ∷ _) [] = false
same_text (a ∷ s) (b ∷ t) = a == b && same_text s t

pub same_text_refl : (s : Text) → same_text s s ≡ true
same_text_refl [] = refl
same_text_refl (a ∷ s) = ground (arith, same_text_refl s)

pub same_text_sound : (s t : Text) → same_text s t ≡ true → s ≡ t
same_text_sound [] [] h = refl
same_text_sound [] (_ ∷ _) h = cc
same_text_sound (_ ∷ _) [] h = cc
same_text_sound (a ∷ s) (b ∷ t) h = ground (arith, same_text_sound s t)

pub same_text_iff : (s t : Text) → (same_text s t ≡ true) ↔ (s ≡ t)
same_text_iff s t = (same_text_sound s t, λ e. rw e (same_text_refl t))

-- `strip_prefix`
abbrev pub strip_prefix : Text → Text → Option Text
strip_prefix [] t = some t
strip_prefix (_ ∷ _) [] = none
strip_prefix (a ∷ p) (b ∷ t) = let rest = strip_prefix p t in if a == b then rest else none

pub strip_prefix-append : (p t : Text) → strip_prefix p (p ++ t) ≡ some t
strip_prefix-append [] t = refl
strip_prefix-append (a ∷ p) t = ground (arith, strip_prefix-append p t)

pub strip_prefix_sound : (p t r : Text) → strip_prefix p t ≡ some r → t ≡ p ++ r
strip_prefix_sound [] t r h = ground arith
strip_prefix_sound (a ∷ p) [] r h = cc
strip_prefix_sound (a ∷ p) (b ∷ t) r h = ground (arith, strip_prefix_sound p t r)

-- `split(sep)`: the parts between the separators, at least one.
abbrev pub add_front : ℕ → List Text → List Text
add_front c [] = (c ∷ []) ∷ []
add_front c (part ∷ parts) = (c ∷ part) ∷ parts

unfoldable pub split : ℕ → Text → List Text
split sep [] = [] ∷ []
split sep (c ∷ t) = let parts = split sep t in if c == sep then [] ∷ parts else add_front c parts

abbrev pub is_free_of : ℕ → Text → Bool
is_free_of sep [] = true
is_free_of sep (c ∷ t) = not (c == sep) && is_free_of sep t

pub split-append :
    (sep : ℕ) (s t : Text) → is_free_of sep s ≡ true → split sep (s ++ sep ∷ t) ≡ s ∷ split sep t
unfolding split
split-append sep [] t h = ground arith
split-append sep (c ∷ s) t h = ground (arith, split-append sep s t)

pub split-is_free_of : (sep : ℕ) (s : Text) → is_free_of sep s ≡ true → split sep s ≡ s ∷ []
unfolding split
split-is_free_of sep [] h = refl
split-is_free_of sep (c ∷ s) h = ground (arith, split-is_free_of sep s)

-- `Display` of a `u8`.
unfoldable pub show_u8 : ℕ → Text
show_u8 n =
    if ltb n 10
    then (48 + n) ∷ []
    else if ltb n 100
    then (48 + n / 10) ∷ (48 + n % 10) ∷ []
    else (48 + n / 100) ∷ (48 + n / 10 % 10) ∷ (48 + n % 10) ∷ []

-- The loop of `u8::from_str`: `checked_mul(10)` and `checked_add`.
digits : ℕ → Text → Option ℕ
digits n [] = some n
digits n (c ∷ t) =
    let rest = digits (n * 10 + (c - 48)) t in
    if leb 48 c && leb c 57 && ltb (n * 10 + (c - 48)) 256 then rest else none

abbrev unsigned : Text → Option ℕ
unsigned [] = none
unsigned (c ∷ t) = digits 0 (c ∷ t)

-- `u8::from_str`: a leading `+` is accepted, an empty text or a sign alone is not.
unfoldable pub parse_u8 : Text → Option ℕ
unfolding digits
parse_u8 [] = none
parse_u8 (c ∷ t) = if c == 43 then unsigned t else unsigned (c ∷ t)
