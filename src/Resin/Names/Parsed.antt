-- ===== src/Resin/Names/Parsed.antt =====
-- The names of resin_types/src/name.rs that parsing gives, and what parses to them again.
use douglas.Base.{
  ℕ, ◌+◌, ◌≡◌, refl, ◌∙◌, sym, Bool, true, false, Option, none, some, [], ◌∷◌, ◌++◌, Result, ok,
  err, >>=-eq-ok, length, ltb, ◌==◌, if◌then◌else◌, arith, Bool-cases, inl, inr, ok-injective,
}
use douglas.Text.{Text, codes, strip_prefix-append, is_free_of}
use douglas.Strings.{validate-ok, validate_self, component-is_free_of}
use douglas.Resin.Names.{
  name_too_long, Name, component, repository_component_rules, split_once, from_namespaced,
  from_parts, split_name, parse_name, fs_safe, show_name, prefixed, escaped_separator, separator,
}

module _ (h : ℕ) (sep : Text) where
  pub split_once-none : (t : Text) → is_free_of h t ≡ true → split_once (h ∷ sep) t ≡ none
  unfolding split_once
  split_once-none [] f = refl
  split_once-none (c ∷ t) f = elim (Bool-cases (h == c)) [
    | inl e ↦ absurd (ground arith)
    | inr e ↦ rw (e, split_once-none t (ground arith)) refl
  ]

  pub split_once-append :
      (s t : Text)
      → is_free_of h s ≡ true
      → split_once (h ∷ sep) (s ++ ((h ∷ sep) ++ t)) ≡ some (s, t)
  unfolding split_once
  split_once-append [] t f = rw (strip_prefix-append (h ∷ sep) t) refl
  split_once-append (c ∷ s) t f = elim (Bool-cases (h == c)) [
    | inl e ↦ absurd (ground arith)
    | inr e ↦ rw (e, split_once-append s t (ground arith)) refl
  ]

-- A component holds neither a slash nor a percent sign.
pub component-is_slashless : (c : Text) → component c ≡ ok c → is_free_of 47 c ≡ true
component-is_slashless c h =
    component-is_free_of 47 false c refl refl (validate-ok repository_component_rules c c h).1

pub component-is_unescaped : (c : Text) → component c ≡ ok c → is_free_of 37 c ≡ true
component-is_unescaped c h =
    component-is_free_of 37 false c refl refl (validate-ok repository_component_rules c c h).1

-- The parts are admitted, and together are short enough.
abbrev IsNamespace : Text → Option Text → Type 0
IsNamespace name none = Unit
IsNamespace name (some namespace) =
    (component namespace ≡ ok namespace) × (ltb 255 (length namespace + length name + 1) ≡ false)

abbrev pub IsName : Name → Type 0
IsName n = (component n.name ≡ ok n.name) × IsNamespace n.name n.namespace

if-ok :
    {E : Type 0} {A : Type 0} (b : Bool) (e : E) (a r : A)
    → ◌≡◌ {A = Result E A} (if b then err e else ok a) (ok r)
    → (b ≡ false) × (r ≡ a)
if-ok true e a r h = absurd (cc h)
if-ok false e a r h = (refl, sym (ok-injective h))

pub from_namespaced-IsName :
    (namespace name : Text) (n : Name)
    → from_namespaced namespace name ≡ ok n
    → IsName n × (n ≡ record { name = name; namespace = some namespace })
unfolding from_namespaced
from_namespaced-IsName namespace name n h =
    let (ns, e₁, h₁) = >>=-eq-ok (component namespace) _ h in
    let (m, e₂, h₂) = >>=-eq-ok (component name) _ h₁ in
    let same₁ : ns ≡ namespace = (validate-ok repository_component_rules namespace ns e₁).0 in
    let same₂ : m ≡ name = (validate-ok repository_component_rules name m e₂).0 in
    let (fits, is_n) = if-ok (ltb 255 (length ns + length m + 1)) name_too_long _ n h₂ in
    (
      rw is_n (
        validate_self repository_component_rules name m e₂,
        (validate_self repository_component_rules namespace ns e₁, fits),
      ),
      is_n ∙ rw (same₁, same₂) refl,
    )

from_parts-IsName :
    (value : Text) (o : Option (Text × Text)) (n : Name) → from_parts value o ≡ ok n → IsName n
from_parts-IsName value (some (namespace, name)) n h = (from_namespaced-IsName namespace name n h).0
from_parts-IsName value none n h =
    let (m, e, h₁) = >>=-eq-ok (component value) _ h in
    rw (sym (ok-injective h₁)) (validate_self repository_component_rules value m e, tt)

pub parse_name-IsName : (t : Text) (n : Name) → parse_name t ≡ ok n → IsName n
unfolding parse_name
parse_name-IsName t n h = from_parts-IsName t (split_name t) n h

from_namespaced_again :
    (namespace name : Text)
    → IsName (record { name = name; namespace = some namespace })
    → from_namespaced namespace name ≡ ok (record { name = name; namespace = some namespace })
unfolding from_namespaced
from_namespaced_again namespace name (c, (d, fits)) = rw (d, c, fits) refl

parse_alone :
    (name : Text)
    → component name ≡ ok name
    → parse_name name ≡ ok (record { name = name; namespace = none })
unfolding parse_name
parse_alone name c =
    rw
      (
        split_once-none 37 (codes "2F") name (component-is_unescaped name c),
        split_once-none 47 [] name (component-is_slashless name c),
        c,
      )
      refl

-- The name of the folder is read as the name that it was made of.
pub parse_name-fs_safe : (n : Name) → IsName n → parse_name (fs_safe n) ≡ ok n
unfolding parse_name
parse_name-fs_safe n valid = go n.name n.namespace valid
  where
    go :
        (name : Text) (o : Option Text)
        → IsName (record { name = name; namespace = o })
        → parse_name (prefixed escaped_separator o name)
          ≡ ok (record { name = name; namespace = o })
    go name none (c, _) = parse_alone name c
    go name (some namespace) valid =
        let free = component-is_unescaped namespace valid.1.0 in
        rw (split_once-append 37 (codes "2F") namespace name free)
          (from_namespaced_again namespace name valid)

pub is_free_of-append :
    (sep : ℕ) (s t : Text)
    → is_free_of sep s ≡ true
    → is_free_of sep t ≡ true
    → is_free_of sep (s ++ t) ≡ true
is_free_of-append sep [] t f g = g
is_free_of-append sep (c ∷ s) t f g = ground (arith, is_free_of-append sep s t)

-- So is the text of the name.
pub parse_name-show_name : (n : Name) → IsName n → parse_name (show_name n) ≡ ok n
unfolding parse_name
parse_name-show_name n valid = go n.name n.namespace valid
  where
    go :
        (name : Text) (o : Option Text)
        → IsName (record { name = name; namespace = o })
        → parse_name (prefixed separator o name) ≡ ok (record { name = name; namespace = o })
    go name none (c, _) = parse_alone name c
    go name (some namespace) valid =
        let (c, (d, fits)) = valid in
        let unescaped =
          is_free_of-append 37 namespace (47 ∷ name) (component-is_unescaped namespace d)
            (component-is_unescaped name c) in
        rw
          (
            split_once-none 37 (codes "2F") (namespace ++ (47 ∷ name)) unescaped,
            split_once-append 47 [] namespace name (component-is_slashless namespace d),
          )
          (from_namespaced_again namespace name valid)
