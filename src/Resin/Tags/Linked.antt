-- ===== src/Resin/Tags/Linked.antt =====
-- The link that resin/src/tags.rs writes, and what a client reads from it.
use douglas.Base.{
  ℕ, zero, suc, ◌+◌, ◌/◌, ◌%◌, ◌≡◌, refl, ap, Bool, true, false, ◌&&◌, ◌||◌, Option, none, some, [],
  ◌∷◌, ◌++◌, ok, leb, ltb, ◌==◌, arith, Bool-cases, inl, inr,
}
use douglas.Text.{Text, codes, is_free_of}
use douglas.Strings.{is_alnum, is_separator, match_component, validate-ok}
use douglas.Resin.Names.{Name, component, repository_component_rules, prefixed, show_name}
use douglas.Resin.Names.Parsed.{IsName, split_once-append, is_free_of-append}
use douglas.Resin.Tags.{
  TagListParams, show_digits, show_usize, path_text, query_text, rel_next, link_text, next_params,
}

-- Tags as the distribution specification has them, and the slash of a name.
abbrev pub is_plain_char : ℕ → Bool
is_plain_char c = is_alnum c || is_separator c || c == 47

abbrev pub is_plain : Text → Bool
is_plain [] = true
is_plain (c ∷ t) = is_plain_char c && is_plain t

-- Visible ASCII.
abbrev pub is_visible : Text → Bool
is_visible [] = true
is_visible (c ∷ t) = leb 32 c && leb c 126 && is_visible t

is_plain-append : (s t : Text) → is_plain s ≡ true → is_plain t ≡ true → is_plain (s ++ t) ≡ true
is_plain-append [] t f g = g
is_plain-append (c ∷ s) t f g = ground (arith, is_plain-append s t)

is_visible-append :
    (s t : Text) → is_visible s ≡ true → is_visible t ≡ true → is_visible (s ++ t) ≡ true
is_visible-append [] t f g = g
is_visible-append (c ∷ s) t f g = ground (arith, is_visible-append s t)

plain_char_visible : (c : ℕ) → is_plain_char c ≡ true → (leb 32 c && leb c 126) ≡ true
plain_char_visible c h = ground arith

is_plain-visible : (t : Text) → is_plain t ≡ true → is_visible t ≡ true
is_plain-visible [] h = refl
is_plain-visible (c ∷ t) h =
    ground (arith, plain_char_visible c (ground arith), is_plain-visible t (ground arith))

is_plain-free :
    (sep : ℕ) (t : Text) → is_plain_char sep ≡ false → is_plain t ≡ true → is_free_of sep t ≡ true
is_plain-free sep [] e h = refl
is_plain-free sep (c ∷ t) e h = elim (Bool-cases (c == sep)) [
  | inl same ↦
      let equal : c ≡ sep = ground arith in
      absurd (cc (e, ap is_plain_char equal, char_of (is_plain_char c) (is_plain t) h))
  | inr differ ↦ rw differ (is_plain-free sep t e (rest_of (is_plain_char c) (is_plain t) h))
]
  where
    char_of : (a b : Bool) → (a && b) ≡ true → a ≡ true
    char_of a b h = ground arith

    rest_of : (a b : Bool) → (a && b) ≡ true → b ≡ true
    rest_of a b h = ground arith

component-is_plain : (after : Bool) (t : Text) → match_component after t ≡ true → is_plain t ≡ true
unfolding match_component
component-is_plain after [] h = refl
component-is_plain after (c ∷ t) h =
    let letter = component-is_plain true t in
    let separator = component-is_plain false t in ground (arith, letter, separator)

component_plain : (c : Text) → component c ≡ ok c → is_plain c ≡ true
component_plain c h = component-is_plain false c (validate-ok repository_component_rules c c h).1

name_plain : (n : Name) → IsName n → is_plain (show_name n) ≡ true
name_plain n valid = go n.name n.namespace valid
  where
    go :
        (name : Text) (o : Option Text)
        → IsName (record { name = name; namespace = o })
        → is_plain (prefixed (codes "/") o name) ≡ true
    go name none (c, _) = component_plain name c
    go name (some namespace) valid =
        is_plain-append namespace (47 ∷ name) (component_plain namespace valid.1.0)
          (component_plain name valid.0)

digit_plain : (d : ℕ) → ltb d 10 ≡ true → is_plain_char (48 + d) ≡ true
digit_plain d h = ground arith

digits_plain :
    (left n : ℕ) (shown : Text) → is_plain shown ≡ true → is_plain (show_digits left n shown) ≡ true
digits_plain zero n shown h = h
digits_plain (suc left) n shown h = elim (Bool-cases (ltb n 10)) [
  | inl e ↦ rw (e, digit_plain n e) h
  | inr e ↦
      let digit = digit_plain (n % 10) (ground arith) in
      rw e (digits_plain left (n / 10) ((48 + n % 10) ∷ shown) (rw digit h))
]

usize_plain : (n : ℕ) → is_plain (show_usize n) ≡ true
usize_plain n = digits_plain 20 n [] refl

module _ (name : Name) (valid : IsName name) (n : ℕ) (tag : Text)
    (plain : is_plain tag ≡ true) where
  path-is_free_of : (sep : ℕ) → is_plain_char sep ≡ false → is_free_of sep (path_text name) ≡ true
  unfolding path_text
  path-is_free_of sep e =
      is_plain-free sep (codes "/v2/" ++ (show_name name ++ codes "/tags/list")) e
        (is_plain-append (show_name name) (codes "/tags/list") (name_plain name valid) refl)

  query-is_free_of : is_free_of 62 (query_text n tag) ≡ true
  unfolding query_text
  query-is_free_of =
      is_free_of-append 62 (show_usize n) (codes "&last=" ++ tag)
        (is_plain-free 62 (show_usize n) refl (usize_plain n)) (is_plain-free 62 tag refl plain)

  -- The link is made of visible characters.
  pub link-is_visible : is_visible (link_text name n tag) ≡ true
  unfolding link_text path_text query_text
  link-is_visible =
      is_visible-append (path_text name ++ 63 ∷ query_text n tag) (62 ∷ rel_next)
        (is_visible-append (path_text name) (63 ∷ query_text n tag)
          (is_plain-visible (path_text name)
            (is_plain-append (show_name name) (codes "/tags/list") (name_plain name valid) refl))
          (is_visible-append (show_usize n) (codes "&last=" ++ tag)
            (is_plain-visible (show_usize n) (usize_plain n)) (is_plain-visible tag plain)))
        refl

  -- A client reads the query from it that the server wrote into it.
  pub next_params-link :
      (is_header : Text → Bool) (parse_query : Text → Option TagListParams)
      → next_params is_header parse_query (link_text name n tag) ≡ parse_query (query_text n tag)
  unfolding next_params link_text
  next_params-link is_header parse_query =
      rw
        (
          split_once-append 62 [] (path_text name ++ 63 ∷ query_text n tag) rel_next (
              is_free_of-append 62 (path_text name) (63 ∷ query_text n tag)
                (path-is_free_of 62 refl) query-is_free_of),
          split_once-append 63 [] (path_text name) (query_text n tag) (path-is_free_of 63 refl),
        )
        refl
