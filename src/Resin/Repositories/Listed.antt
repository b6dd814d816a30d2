-- ===== src/Resin/Repositories/Listed.antt =====
-- That resin/src/repository_store.rs finds every repository that has a folder, and that no two
-- repositories of resin_types/src/repository.rs have one folder.
use douglas.Base.{
  ◌≡◌, ◌∙◌, sym, ap, subst, List, [], ◌∷◌, ◌++◌, Result, ok, err, ◌>>=◌, >>=-eq-ok, ok-injective,
  In, inl, inr,
}
use douglas.Text.{Text}
use douglas.Paths.{FilePath, join_name}
use douglas.Files.{FileSystemError}
use douglas.Resin.Names.{Name, parse_name, fs_safe}
use douglas.Resin.Names.Parsed.{IsName, parse_name-fs_safe}
use douglas.Resin.Repositories.{
  Upstream, canonical_host, Repository, local, upstream, parse_repository, show_path, slashed,
  escape, storage_path,
}
use douglas.Resin.Repositories.Upstreams.{unescape-escape, slashed-is_unescaped}
use douglas.Resin.Repositories.Parsed.{
  IsParsed, parse_repository-IsParsed, parse_repository-show_repository,
}
use douglas.Resin.Repositories.Listing.{
  keep, local_repositories, read_path, host_repositories, list_local, list_hosts, list_upstream,
  list, HasFolder, upstream_root,
}

In-append-left : {A : Type 0} (x : A) (xs ys : List A) → In x xs → In x (xs ++ ys)
In-append-left x [] ys i = elim i [ ]
In-append-left x (y ∷ xs) ys (inl e) = inl e
In-append-left x (y ∷ xs) ys (inr i) = inr (In-append-left x xs ys i)

In-append-right : {A : Type 0} (x : A) (xs ys : List A) → In x ys → In x (xs ++ ys)
In-append-right x [] ys i = i
In-append-right x (y ∷ xs) ys i = inr (In-append-right x xs ys i)

In-keep :
    {E A B : Type 0} (f : A → B) (r : Result E A) (x : B) (rest : List B)
    → In x rest
    → In x (keep f r rest)
In-keep f (ok a) x rest i = inr i
In-keep f (err e) x rest i = i

In-keep-ok :
    {E A B : Type 0} (f : A → B) (r : Result E A) (a : A) (rest : List B)
    → r ≡ ok a
    → In (f a) (keep f r rest)
In-keep-ok f (ok b) a rest e = inl (ap f (sym (ok-injective e)))
In-keep-ok f (err x) a rest e = absurd (cc e)

local-In :
    (n : Name) (names : List Text)
    → IsName n
    → In (fs_safe n) names
    → In (local n) (local_repositories names)
local-In n [] valid i = elim i [ ]
local-In n (x ∷ names) valid (inl e) =
    In-keep-ok local (parse_name x) n _ (ap parse_name (sym e) ∙ parse_name-fs_safe n valid)
local-In n (x ∷ names) valid (inr i) =
    In-keep local (parse_name x) (local n) _ (local-In n names valid i)

-- What stands under a host is read as the repository.
read_path-escape :
    (up : Upstream) (path : List Text)
    → IsParsed (upstream up path)
    → read_path (canonical_host up) (escape (show_path path)) ≡ ok (upstream up path)
read_path-escape up [] p = absurd (cc p.5)
read_path-escape up (c ∷ cs) p =
    ap (λ t. parse_repository (canonical_host up ++ 47 ∷ t))
      (unescape-escape (slashed c cs) (slashed-is_unescaped c cs p.1))
    ∙ parse_repository-show_repository up (c ∷ cs) p

host-In :
    (up : Upstream) (path : List Text) (paths : List Text)
    → IsParsed (upstream up path)
    → In (escape (show_path path)) paths
    → In (upstream up path) (host_repositories (canonical_host up) paths)
host-In up path [] p i = elim i [ ]
host-In up path (x ∷ paths) p (inl e) =
    In-keep-ok (λ r. r) (read_path (canonical_host up) x) (upstream up path) _
      (ap (read_path (canonical_host up)) (sym e) ∙ read_path-escape up path p)
host-In up path (x ∷ paths) p (inr i) =
    In-keep (λ r. r) (read_path (canonical_host up) x) (upstream up path) _
      (host-In up path paths p i)

same_folder :
    (r q : Repository)
    → IsParsed r
    → IsParsed q
    → (storage_path r).names ≡ (storage_path q).names
    → r ≡ q
unfolding storage_path
same_folder (local n) (local m) v w e =
    let same : fs_safe n ≡ fs_safe m = cc in
    ap local
      (ok-injective (sym (parse_name-fs_safe n v) ∙ ap parse_name same ∙ parse_name-fs_safe m w))
same_folder (local n) (upstream up path) v w e = absurd (cc e)
same_folder (upstream up path) (local n) v w e = absurd (cc e)
same_folder (upstream up path) (upstream vp qath) v w e =
    let host : canonical_host up ≡ canonical_host vp = cc in
    let below : escape (show_path path) ≡ escape (show_path qath) = cc in
    ok-injective (
      sym (read_path-escape up path v)
      ∙ ap (λ h. read_path h (escape (show_path path))) host
      ∙ ap (read_path (canonical_host vp)) below
      ∙ read_path-escape vp qath w)

-- Two texts that name different repositories are stored in different folders.
pub storage_path-injective :
    (t u : Text) (r q : Repository)
    → parse_repository t ≡ ok r
    → parse_repository u ≡ ok q
    → storage_path r ≡ storage_path q
    → r ≡ q
storage_path-injective t u r q a b e =
    same_folder r q (parse_repository-IsParsed t r a) (parse_repository-IsParsed u q b)
      (ap (λ p. p.names) e)

module _ (entries : FilePath → Result FileSystemError (List Text)) (root : FilePath) where
  hosts-In :
      (up : Upstream) (path : List Text) (hosts paths : List Text) (rs : List Repository)
      → IsParsed (upstream up path)
      → entries (join_name (upstream_root entries root) (canonical_host up)) ≡ ok paths
      → In (escape (show_path path)) paths
      → In (canonical_host up) hosts
      → list_hosts entries root hosts ≡ ok rs
      → In (upstream up path) rs
  hosts-In up path [] paths rs p at i j h = elim j [ ]
  hosts-In up path (host ∷ hosts) paths rs p at i (inl e) h =
      let (found, e₁, h₁) = >>=-eq-ok (entries (join_name (upstream_root entries root) host)) _ h in
      let (rest, e₂, h₂) = >>=-eq-ok (list_hosts entries root hosts) _ h₁ in
      let same : paths ≡ found =
        ok-injective
          (sym at ∙ ap (λ x. entries (join_name (upstream_root entries root) x)) e ∙ e₁) in
      subst (In (upstream up path)) (ok-injective h₂) (
        In-append-left (upstream up path) _ rest (
          subst (λ x. In (upstream up path) (host_repositories x found)) e
            (host-In up path found p (subst (In (escape (show_path path))) same i))))
  hosts-In up path (host ∷ hosts) paths rs p at i (inr j) h =
      let (found, e₁, h₁) = >>=-eq-ok (entries (join_name (upstream_root entries root) host)) _ h in
      let (rest, e₂, h₂) = >>=-eq-ok (list_hosts entries root hosts) _ h₁ in
      subst (In (upstream up path)) (ok-injective h₂) (
        In-append-right (upstream up path) (host_repositories host found) rest
          (hosts-In up path hosts paths rest p at i j e₂))

  -- Every repository that a text names and that has a folder is in the list.
  pub list-In :
      (t : Text) (r : Repository) (rs : List Repository)
      → parse_repository t ≡ ok r
      → HasFolder entries root r
      → list entries root ≡ ok rs
      → In r rs
  unfolding list
  list-In t (local n) rs parsed (names, at, i) h =
      let (locals, e₁, h₁) = >>=-eq-ok (list_local entries root) _ h in
      let (upstreams, e₂, h₂) = >>=-eq-ok (list_upstream entries root) _ h₁ in
      let is_locals : local_repositories names ≡ locals =
        ok-injective (sym (ap (λ x. x >>= λ ns. ok (local_repositories ns)) at) ∙ e₁) in
      subst (In (local n)) (ok-injective h₂) (
        In-append-left (local n) locals upstreams (
          subst (In (local n)) is_locals
            (local-In n names (parse_repository-IsParsed t (local n) parsed) i)))
  list-In t (upstream up path) rs parsed (hosts, paths, at, i, at', j) h =
      let (locals, e₁, h₁) = >>=-eq-ok (list_local entries root) _ h in
      let (upstreams, e₂, h₂) = >>=-eq-ok (list_upstream entries root) _ h₁ in
      let listed = sym (ap (λ x. x >>= list_hosts entries root) at) ∙ e₂ in
      subst (In (upstream up path)) (ok-injective h₂) (
        In-append-right (upstream up path) locals upstreams (
          hosts-In up path hosts paths upstreams
            (parse_repository-IsParsed t (upstream up path) parsed) at' j i listed))
