-- ===== src/Version/RoundTrip.antt =====
-- Printing and parsing a version.
use douglas.Base.{
  ℕ, zero, suc, ◌<◌, ◌≡◌, refl, Bool, true, false, ◌&&◌, Option, none, some, arith, ◌==◌, ok,
  Bool-cases, inl, inr, >>=-eq-ok,
}
use douglas.Text.{
  Text, show_u8, parse_u8, split, is_free_of, split-append, split-is_free_of, same_text_refl,
  same_text, same_text_sound,
}
use douglas.Version.{Version, IsByte, dot, to_string, next, from_str, checked}

abbrev is_some_of : ℕ → Option ℕ → Bool
is_some_of n none = false
is_some_of n (some m) = m == n

is_some_of_sound : (n : ℕ) (o : Option ℕ) → is_some_of n o ≡ true → o ≡ some n
is_some_of_sound n none h = cc
is_some_of_sound n (some m) h = ground arith

-- A printed byte has no dot in it and parses to itself.
abbrev is_printed : ℕ → Bool
is_printed n = is_free_of dot (show_u8 n) && is_some_of n (parse_u8 (show_u8 n))

all_printed : ℕ → Bool
all_printed zero = true
all_printed (suc k) = let rest = all_printed k in is_printed k && rest

all_printed_256 : all_printed 256 ≡ true
unfolding all_printed show_u8 parse_u8
all_printed_256 = refl

is_printed-of_all : (k n : ℕ) → n < k → all_printed k ≡ true → is_printed n ≡ true
unfolding all_printed
is_printed-of_all zero n small all = absurd (omega arith)
is_printed-of_all (suc k) n small all = ground (arith, is_printed-of_all k n)

printed : (n : ℕ) → n < 256 → (is_free_of dot (show_u8 n) ≡ true) × (parse_u8 (show_u8 n) ≡ some n)
printed n h =
    let e = is_printed-of_all 256 n h all_printed_256 in
    (ground (arith, e), is_some_of_sound n (parse_u8 (show_u8 n)) (ground (arith, e)))

-- The text of a version parses to that version.
pub from_str-to_string : (v : Version) → IsByte v → from_str (to_string v) ≡ ok v
unfolding from_str
from_str-to_string v h =
    let a = printed v.major h.major_lt in
    let b = printed v.minor h.minor_lt in
    let c = printed v.patch h.patch_lt in
    rw (split-append dot (show_u8 v.major) _ a.0) (
      rw a.1 (
        rw (split-append dot (show_u8 v.minor) _ b.0)
          (rw b.1 (rw (split-is_free_of dot (show_u8 v.patch) c.0) (rw c.1 (rw same_text_refl))))))

checked_sound : (t : Text) (w v : Version) → checked t w ≡ ok v → t ≡ to_string v
checked_sound t w v h = elim (Bool-cases (same_text (to_string w) t)) [
  | inl e ↦ ground (arith, same_text_sound (to_string w) t e)
  | inr e ↦ ground (arith, e)
]

-- A text that parses is the text of the version it parses to: `01.2.3`, `+1.2.3` and `1.2.3.4` are
-- refused, and two texts never parse to one version.
pub to_string-from_str : (t : Text) (v : Version) → from_str t ≡ ok v → t ≡ to_string v
unfolding from_str
to_string-from_str t v h =
    let (x, _, h₁) = >>=-eq-ok (next (split dot t)) _ h in
    let (y, _, h₂) = >>=-eq-ok (next x.1) _ h₁ in
    let (z, _, h₃) = >>=-eq-ok (next y.1) _ h₂ in checked_sound t _ v h₃
