-- ===== src/Resin/Repositories/Parsed.antt =====
-- The repositories of resin_types/src/repository.rs that parsing gives, and what parses to them again.
use douglas.Base.{
  ◌≡◌, refl, ◌∙◌, sym, ap, subst, true, List, [], ◌∷◌, Result, ok, >>=-eq-ok, map_err,
  map_err-eq-ok, Bool-cases, inl, inr, ok-injective,
}
use douglas.Text.{Text, codes, split, split-append}
use douglas.Strings.{validate, match_component}
use douglas.Resin.Names.{NameParseError, Name, component, from_namespaced, parse_name}
use douglas.Resin.Names.Parsed.{IsName, parse_name-IsName, from_namespaced-IsName}
use douglas.Resin.Repositories.{
  invalid_component, Upstream, docker_hub, other, canonical_host, parse_upstream, components,
  in_library, for_upstream, Repository, local, upstream, looks_like_host, from_upstream,
  from_segments, parse_repository, as_local, slashed, show_repository,
}
use douglas.Resin.Repositories.Upstreams.{
  IsPath, components-IsPath, components_again, split-slashed, IsUpstream, parse_upstream-IsUpstream,
}

-- A path that is not empty, of admitted segments, with the library of Docker Hub written out.
abbrev pub IsParsed : Repository → Type 0
IsParsed (local n) = IsName n
IsParsed (upstream up path) =
    IsUpstream up
    × IsPath path
    × (in_library up path ≡ path)
    × (c : Text) × (cs : List Text) × (path ≡ c ∷ cs)

library-component : component (codes "library") ≡ ok (codes "library")
unfolding validate match_component
library-component = refl

in_library-IsPath : (up : Upstream) (cs : List Text) → IsPath cs → IsPath (in_library up cs)
in_library-IsPath docker_hub [] v = tt
in_library-IsPath docker_hub (c ∷ []) v = (library-component, v)
in_library-IsPath docker_hub (c ∷ d ∷ cs) v = v
in_library-IsPath (other _) cs v = v

in_library_again :
    (up : Upstream) (cs : List Text) → in_library up (in_library up cs) ≡ in_library up cs
in_library_again docker_hub [] = refl
in_library_again docker_hub (c ∷ []) = refl
in_library_again docker_hub (c ∷ d ∷ cs) = refl
in_library_again (other _) cs = refl

in_library_full :
    (up : Upstream) (c : Text) (cs : List Text)
    → (d : Text) × (ds : List Text) × (in_library up (c ∷ cs) ≡ d ∷ ds)
in_library_full docker_hub c [] = (codes "library", c ∷ [], refl)
in_library_full docker_hub c (d ∷ cs) = (c, d ∷ cs, refl)
in_library_full (other _) c cs = (c, cs, refl)

from_upstream-IsParsed :
    (host segment : Text) (segments : List Text) (r : Repository)
    → looks_like_host host ≡ true
    → from_upstream host (segment ∷ segments) ≡ ok r
    → IsParsed r
unfolding for_upstream
from_upstream-IsParsed host segment segments r looks h =
    let (up, e₁, h₁) = >>=-eq-ok (parse_upstream host) _ h in
    let (path, e₂, h₂) = >>=-eq-ok (for_upstream up (segment ∷ segments)) _ h₁ in
    let (cs, e₃, h₃) = >>=-eq-ok (components (segment ∷ segments)) _ e₂ in
    let (valid, same) = components-IsPath (segment ∷ segments) cs e₃ in
    let is_path : path ≡ in_library up cs = sym (ok-injective h₃) in
    let is_r : r ≡ upstream up path = sym (ok-injective h₂) in
    let (d, ds, full) = in_library_full up segment segments in
    subst IsParsed (sym is_r) (
      parse_upstream-IsUpstream host up looks e₁,
      subst IsPath (sym is_path) (in_library-IsPath up cs valid),
      ap (in_library up) is_path ∙ in_library_again up cs ∙ sym is_path,
      d,
      ds,
      is_path ∙ ap (in_library up) same ∙ full,
    )

as_local-IsParsed :
    (parsed : Result NameParseError Name) (r : Repository)
    → ((n : Name) → parsed ≡ ok n → IsName n)
    → as_local parsed ≡ ok r
    → IsParsed r
as_local-IsParsed parsed r valid h =
    let (n, e, h₁) = >>=-eq-ok (map_err invalid_component parsed) _ h in
    subst IsParsed (ok-injective h₁) (valid n (map_err-eq-ok invalid_component parsed n e))

from_segments-IsParsed :
    (value : Text) (segments : List Text) (r : Repository)
    → from_segments value segments ≡ ok r
    → IsParsed r
from_segments-IsParsed value [] r h = absurd (cc h)
from_segments-IsParsed value (single ∷ []) r h =
    as_local-IsParsed (parse_name single) r (parse_name-IsName single) h
from_segments-IsParsed value (host ∷ name ∷ []) r h = elim (Bool-cases (looks_like_host host)) [
  | inl e ↦ from_upstream-IsParsed host name [] r e (rw e at h)
  | inr e ↦
      as_local-IsParsed (from_namespaced host name) r
        (λ n p. (from_namespaced-IsName host name n p).0) (rw e at h)
]
from_segments-IsParsed value (host ∷ name ∷ more ∷ segments) r h =
    elim (Bool-cases (looks_like_host host)) [
      | inl e ↦ from_upstream-IsParsed host name (more ∷ segments) r e (rw e at h)
      | inr e ↦ absurd (cc (rw e at h))
    ]

pub parse_repository-IsParsed : (t : Text) (r : Repository) → parse_repository t ≡ ok r → IsParsed r
unfolding parse_repository
parse_repository-IsParsed t r h = from_segments-IsParsed t (split 47 t) r h

from_upstream_again :
    (up : Upstream) (c : Text) (cs : List Text)
    → IsParsed (upstream up (c ∷ cs))
    → from_upstream (canonical_host up) (c ∷ cs) ≡ ok (upstream up (c ∷ cs))
unfolding for_upstream
from_upstream_again up c cs (is_up, valid, stable, d, ds, full) =
    rw (is_up.0, components_again (c ∷ cs) valid, stable) refl

from_segments_again :
    (value : Text) (up : Upstream) (c : Text) (cs : List Text)
    → IsParsed (upstream up (c ∷ cs))
    → from_segments value (canonical_host up ∷ c ∷ cs) ≡ ok (upstream up (c ∷ cs))
from_segments_again value up c [] p = rw p.0.1 (from_upstream_again up c [] p)
from_segments_again value up c (d ∷ cs) p = rw p.0.1 (from_upstream_again up c (d ∷ cs) p)

-- The text of the repository of an upstream registry is read as that repository.
pub parse_repository-show_repository :
    (up : Upstream) (path : List Text)
    → IsParsed (upstream up path)
    → parse_repository (show_repository (upstream up path)) ≡ ok (upstream up path)
unfolding parse_repository
parse_repository-show_repository up [] p = absurd (cc p.5)
parse_repository-show_repository up (c ∷ cs) p =
    ap (from_segments (show_repository (upstream up (c ∷ cs)))) (
      split-append 47 (canonical_host up) (slashed c cs) p.0.2
      ∙ ap (◌∷◌ (canonical_host up)) (split-slashed c cs p.1))
    ∙ from_segments_again (show_repository (upstream up (c ∷ cs))) up c cs p
