-- ===== src/Resin/Repositories/Upstreams.antt =====
-- The registries and paths of resin_types/src/repository.rs, and what parses to them again.
use douglas.Base.{
  ℕ, ◌≡◌, refl, ◌∙◌, sym, ap, true, false, not, ◌||◌, List, [], ◌∷◌, Result, ok, err, >>=-eq-ok,
  map_err, map_err-eq-ok, map, leb, ◌==◌, arith, Bool-cases, inl, inr, ok-injective, All,
}
use douglas.Text.{
  Text, codes, same_text, same_text_sound, is_free_of, split, split-append, split-is_free_of,
}
use douglas.Strings.{validate-ok, validate_self, registry-is_free_of}
use douglas.Resin.Names.{component, repository_component_rules}
use douglas.Resin.Names.Parsed.{component-is_slashless, component-is_unescaped, is_free_of-append}
use douglas.Resin.Repositories.{
  invalid_component, Upstream, other, canonical_host, lower, is_docker_hub, as_other, registry,
  registry_rules, parse_upstream, components, looks_like_host, slashed, escape, unescape,
}

-- The path of a repository is unescaped to itself.
unescape-plain : (c : ℕ) (t : Text) → (c == 37) ≡ false → unescape (c ∷ t) ≡ c ∷ unescape t
unescape-plain c [] h = refl
unescape-plain c (a ∷ []) h = refl
unescape-plain c (a ∷ b ∷ t) h = rw h refl

pub unescape-escape : (t : Text) → is_free_of 37 t ≡ true → unescape (escape t) ≡ t
unescape-escape [] f = refl
unescape-escape (c ∷ t) f = elim (Bool-cases (c == 47)) [
  | inl e ↦ rw e (ground (arith, unescape-escape t))
  | inr e ↦
      rw e
        (unescape-plain c (escape t) (ground arith) ∙ ap (◌∷◌ c) (unescape-escape t (ground arith)))
]

-- Segments that are admitted, one by one.
abbrev pub IsPath : List Text → Type 0
IsPath = All (λ c. component c ≡ ok c)

pub components-IsPath :
    (segments cs : List Text) → components segments ≡ ok cs → IsPath cs × (cs ≡ segments)
components-IsPath [] cs h = rw (sym (ok-injective h)) (tt, refl)
components-IsPath (segment ∷ segments) cs h =
    let (c, e₁, h₁) = >>=-eq-ok (map_err invalid_component (component segment)) _ h in
    let (ds, e₂, h₂) = >>=-eq-ok (components segments) _ h₁ in
    let admitted = map_err-eq-ok invalid_component (component segment) c e₁ in
    let (valid, same) = components-IsPath segments ds e₂ in
    rw (sym (ok-injective h₂)) (
      (validate_self repository_component_rules segment c admitted, valid),
      rw ((validate-ok repository_component_rules segment c admitted).0, same) refl,
    )

pub components_again : (cs : List Text) → IsPath cs → components cs ≡ ok cs
components_again [] v = refl
components_again (c ∷ cs) (p, v) = rw (p, components_again cs v) refl

pub split-slashed : (c : Text) (cs : List Text) → IsPath (c ∷ cs) → split 47 (slashed c cs) ≡ c ∷ cs
split-slashed c [] (p, v) = split-is_free_of 47 c (component-is_slashless c p)
split-slashed c (d ∷ cs) (p, v) =
    split-append 47 c (slashed d cs) (component-is_slashless c p)
    ∙ ap (◌∷◌ c) (split-slashed d cs v)

pub slashed-is_unescaped :
    (c : Text) (cs : List Text) → IsPath (c ∷ cs) → is_free_of 37 (slashed c cs) ≡ true
slashed-is_unescaped c [] (p, v) = component-is_unescaped c p
slashed-is_unescaped c (d ∷ cs) (p, v) =
    is_free_of-append 37 c (47 ∷ slashed d cs) (component-is_unescaped c p)
      (slashed-is_unescaped d cs v)

lower-lower : (c : ℕ) → lower (lower c) ≡ lower c
lower-lower c = ground arith

lower_again : (v : Text) → map lower (map lower v) ≡ map lower v
lower_again [] = refl
lower_again (c ∷ v) = rw (lower-lower c, lower_again v) refl

lower_mark : (sep c : ℕ) → leb sep 64 ≡ true → (lower c == sep) ≡ (c == sep)
lower_mark sep c h = ground arith

lower_free :
    (sep : ℕ) (v : Text) → leb sep 64 ≡ true → is_free_of sep (map lower v) ≡ is_free_of sep v
lower_free sep [] h = refl
lower_free sep (c ∷ v) h = rw (lower_mark sep c h, lower_free sep v h) refl

lower_host : (v : Text) → looks_like_host v ≡ true → looks_like_host (map lower v) ≡ true
lower_host v h =
    rw (lower_free 46 v refl, lower_free 58 v refl) (go (same_text_sound v (codes "localhost")))
  where
    go :
        (same_text v (codes "localhost") ≡ true → v ≡ codes "localhost")
        → (not (is_free_of 46 v)
            || not (is_free_of 58 v)
            || same_text (map lower v) (codes "localhost"))
          ≡ true
    go sound = elim (Bool-cases (same_text v (codes "localhost"))) [
      | inl e ↦
          let lowered : same_text (map lower v) (codes "localhost") ≡ true =
            ap (λ w. same_text (map lower w) (codes "localhost")) (sound e) in
          ground arith
      | inr e ↦ ground arith
    ]

-- A registry that its own host is read as.
abbrev pub IsUpstream : Upstream → Type 0
IsUpstream up =
    (parse_upstream (canonical_host up) ≡ ok up)
    × (looks_like_host (canonical_host up) ≡ true)
    × (is_free_of 47 (canonical_host up) ≡ true)

as_other-ok :
    (v : Text) (r : Result _ Text) (up : Upstream)
    → as_other v r ≡ ok up
    → (host : Text) × (r ≡ ok host) × (up ≡ other host)
as_other-ok v (ok host) up h = (host, refl, sym (ok-injective h))
as_other-ok v (err e) up h = absurd (cc h)

pub parse_upstream-IsUpstream :
    (v : Text) (up : Upstream) → looks_like_host v ≡ true → parse_upstream v ≡ ok up → IsUpstream up
unfolding parse_upstream
parse_upstream-IsUpstream v up looks h = elim (Bool-cases (is_docker_hub (map lower v))) [
  | inl e ↦ rw (sym (ok-injective (rw e at h))) (refl, refl, refl)
  | inr e ↦
      let (host, e₁, is_up) = as_other-ok v (registry (map lower v)) up (rw e at h) in
      let (same, matches, full) = validate-ok registry_rules (map lower v) host e₁ in
      rw (is_up, same)
        (
          rw (lower_again v, e, e₁ ∙ ap ok same) refl,
          lower_host v looks,
          registry-is_free_of 47 (map lower v) refl refl matches,
        )
]
