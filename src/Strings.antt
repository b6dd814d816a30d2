-- ===== src/Strings.antt =====
-- refined_string/src/lib.rs: strings that a pattern has admitted, and the patterns that the sources
-- admit them by, each as the automaton of its regular expression. A text is its bytes.
use douglas.Base.{
  ℕ, ◌+◌, ◌≡◌, refl, ◌∙◌, sym, ap, Bool, true, false, ◌&&◌, ◌||◌, [], ◌∷◌, Result, ok, err, length,
  ltb, leb, ◌==◌, if◌then◌else◌, arith, Bool-cases, inl, inr, ok-injective,
}
use douglas.Text.{Text, is_free_of}

pub data RefinedError : Type 0 where
  cannot_be_empty too_long : RefinedError
  invalid_name : Text → RefinedError

-- `StringRules`
pub record StringRules (E : Type 0) : Type 0 where
  pub max_len : ℕ
  pub pattern : Text → Bool
  pub from : RefinedError → E
  pub invalid : Text → E

-- `Validated::from_str`
abbrev pub is_empty : Text → Bool
is_empty [] = true
is_empty (_ ∷ _) = false

unfoldable pub validate : {E : Type 0} → StringRules E → Text → Result E Text
validate rules s =
    if is_empty s
    then err (rules.from cannot_be_empty)
    else if ltb rules.max_len (length s)
    then err (rules.from too_long)
    else if rules.pattern s
    then ok s
    else err (rules.invalid s)

abbrev pub is_lower_alnum : ℕ → Bool
is_lower_alnum c = leb 97 c && leb c 122 || leb 48 c && leb c 57

abbrev pub is_alnum : ℕ → Bool
is_alnum c = is_lower_alnum c || leb 65 c && leb c 90

-- `[._-]`
abbrev pub is_separator : ℕ → Bool
is_separator c = c == 46 || c == 95 || c == 45

-- `^[a-z0-9]+(?:[._-][a-z0-9]+)*$`, where `after` tells whether a letter or digit comes before.
unfoldable pub match_component : Bool → Text → Bool
match_component after [] = after
match_component after (c ∷ t) =
    let letter = match_component true t in
    let separator = match_component false t in
    if is_lower_alnum c then letter else (after && is_separator c && separator)

-- `[0-9]{1,5}$`
unfoldable pub match_port : ℕ → Text → Bool
match_port count [] = leb 1 count && leb count 5
match_port count (c ∷ t) = let rest = match_port (count + 1) t in leb 48 c && leb c 57 && rest

-- `^[a-zA-Z0-9]([a-zA-Z0-9.-]*[a-zA-Z0-9])?(:[0-9]{1,5})?$`
abbrev pub match_host_from : Bool → Text → Bool
match_host_from after [] = after
match_host_from after (c ∷ t) =
    let letter = match_host_from true t in
    let mark = match_host_from false t in
    if is_alnum c
    then letter
    else if c == 46 || c == 45
    then mark
    else (c == 58 && after && match_port 0 t)

unfoldable pub match_registry : Text → Bool
match_registry [] = false
match_registry (c ∷ t) = is_alnum c && match_host_from true t

-- What was admitted is the string that was given, and the pattern holds of it.
pub validate-ok :
    {E : Type 0} (rules : StringRules E) (s v : Text)
    → validate rules s ≡ ok v
    → (v ≡ s) × (rules.pattern s ≡ true) × (is_empty s ≡ false)
unfolding validate
validate-ok rules s v h = elim (Bool-cases (is_empty s)) [
  | inl a ↦ absurd (cc (rw a at h))
  | inr a ↦ elim (Bool-cases (ltb rules.max_len (length s))) [
    | inl b ↦ absurd (cc (rw (a, b) at h))
    | inr b ↦ elim (Bool-cases (rules.pattern s)) [
      | inl c ↦ (sym (ok-injective (rw (a, b, c) at h)), c, a)
      | inr c ↦ absurd (cc (rw (a, b, c) at h))
    ]
  ]
]

pub validate_self :
    {E : Type 0} (rules : StringRules E) (s v : Text)
    → validate rules s ≡ ok v
    → validate rules v ≡ ok v
validate_self rules s v h = ap (validate rules) (validate-ok rules s v h).0 ∙ h

-- A character that is neither a letter or digit nor a separator is in no component.
pub component-is_free_of :
    (sep : ℕ) (after : Bool) (t : Text)
    → is_lower_alnum sep ≡ false
    → is_separator sep ≡ false
    → match_component after t ≡ true
    → is_free_of sep t ≡ true
unfolding match_component
component-is_free_of sep after [] a b h = refl
component-is_free_of sep after (c ∷ t) a b h =
    let letter = component-is_free_of sep true t a b in
    let separator = component-is_free_of sep false t a b in ground (arith, letter, separator)

port-is_free_of :
    (sep count : ℕ) (t : Text)
    → is_lower_alnum sep ≡ false
    → match_port count t ≡ true
    → is_free_of sep t ≡ true
unfolding match_port
port-is_free_of sep count [] a h = refl
port-is_free_of sep count (c ∷ t) a h = ground (arith, port-is_free_of sep (count + 1) t)

host-is_free_of :
    (sep : ℕ) (after : Bool) (t : Text)
    → is_alnum sep ≡ false
    → (sep == 46 || sep == 45 || sep == 58) ≡ false
    → match_host_from after t ≡ true
    → is_free_of sep t ≡ true
host-is_free_of sep after [] a b h = refl
host-is_free_of sep after (c ∷ t) a b h =
    let letter = host-is_free_of sep true t a b in
    let mark = host-is_free_of sep false t a b in
    let port = port-is_free_of sep 0 t in ground (arith, letter, mark, port)

pub registry-is_free_of :
    (sep : ℕ) (t : Text)
    → is_alnum sep ≡ false
    → (sep == 46 || sep == 45 || sep == 58) ≡ false
    → match_registry t ≡ true
    → is_free_of sep t ≡ true
unfolding match_registry
registry-is_free_of sep [] a b h = refl
registry-is_free_of sep (c ∷ t) a b h = ground (arith, host-is_free_of sep true t a b)
