-- ===== src/Tests/Resin.antt =====
-- Runs of the names, repositories and tags of resin.
use douglas.Base.{
  ◌≡◌, refl, List, [], ◌∷◌, none, some, Result, ok, arith, In, inl, Bool, true, Option, ◌++◌,
  if◌then◌else◌,
}
use douglas.Text.{Text, codes, same_text, split, strip_prefix}
use douglas.Paths.{FilePath}
use douglas.Files.{FileSystemError}
use douglas.Strings.{validate, match_component, match_registry, match_port}
use douglas.Resin.Names.{Name, split_once, from_namespaced, parse_name}
use douglas.Resin.Names.Parsed.{parse_name-IsName}
use douglas.Resin.Repositories.{
  Repository, local, upstream, docker_hub, other, parse_repository, parse_upstream, for_upstream,
}
use douglas.Resin.Repositories.Listing.{list}
use douglas.Resin.Repositories.Listed.{storage_path-injective, list-In}
use douglas.Resin.Tags.{
  TagListParams, answered, follow_links, get_tag_list, paginate_tags, link_text, path_text,
  query_text,
}
use douglas.Resin.Tags.Linked.{is_plain}
use douglas.Resin.Tags.Paging.{follow_links-all, IsAscending}

abbrev nginx : Repository
nginx = upstream docker_hub (codes "library" ∷ codes "nginx" ∷ [])

abbrev ghcr : Repository
ghcr = upstream (other (codes "ghcr.io")) (codes "foo" ∷ codes "bar" ∷ [])

nginx_parsed : parse_repository (codes "Index.docker.io/nginx") ≡ ok nginx
unfolding parse_repository split parse_upstream for_upstream validate match_component
nginx_parsed = refl

nginx_parsed_again : parse_repository (codes "docker.io/library/nginx") ≡ ok nginx
unfolding parse_repository split parse_upstream for_upstream validate match_component
nginx_parsed_again = refl

ghcr_parsed : parse_repository (codes "ghcr.io/foo/bar") ≡ ok ghcr
unfolding parse_repository split parse_upstream for_upstream validate match_component match_registry
    match_port
ghcr_parsed = refl

-- A local name whose namespace looks like a host is written with its separator escaped. Its text is
-- then read as an upstream repository.
text_of_dotted_namespace :
    (parse_repository (codes "my.ns%2Fapp")
      ≡ ok (local (record { name = codes "app"; namespace = some (codes "my.ns") })))
    × (parse_repository (codes "my.ns/app")
        ≡ ok (upstream (other (codes "my.ns")) (codes "app" ∷ [])))
unfolding parse_repository split parse_upstream for_upstream validate match_component match_registry
    match_port parse_name split_once from_namespaced
text_of_dotted_namespace = (refl, refl)

storage_path-injective_example : nginx ≡ nginx
storage_path-injective_example =
    storage_path-injective (codes "Index.docker.io/nginx") (codes "docker.io/library/nginx") nginx
      nginx nginx_parsed nginx_parsed_again refl

abbrev root : FilePath
root = record { absolute = true; names = codes "repositories" ∷ [] }

-- The folders below the root: one upstream registry with one repository.
abbrev below : List Text → Result FileSystemError (List Text)
below (_ ∷ []) = ok (codes "upstream" ∷ [])
below (n ∷ _ ∷ []) = if same_text n (codes "local") then ok [] else ok (codes "ghcr.io" ∷ [])
below (_ ∷ _ ∷ _ ∷ _) = ok (codes "foo%2Fbar" ∷ [])
below [] = ok []

abbrev entries : FilePath → Result FileSystemError (List Text)
entries p = below p.names

ghcr_listed : list entries root ≡ ok (ghcr ∷ [])
unfolding list parse_repository split parse_upstream for_upstream validate match_component
    match_registry match_port parse_name split_once
ghcr_listed = refl

list-In_example : In ghcr (ghcr ∷ [])
list-In_example =
    list-In entries root (codes "ghcr.io/foo/bar") ghcr (ghcr ∷ []) ghcr_parsed
      (codes "ghcr.io" ∷ [], codes "foo%2Fbar" ∷ [], refl, inl refl, refl, inl refl) ghcr_listed

abbrev tags : List Text
tags = codes "1.0" ∷ codes "1.1" ∷ codes "latest" ∷ []

tags-IsAscending : IsAscending tags
tags-IsAscending = ((refl, (refl, tt)), ((refl, tt), (tt, tt)))

-- A text that the source writes is the value of a header, and a query of pages of two is read.
abbrev any_header : Text → Bool
any_header text = true

abbrev pages_of_two : Option Text → Option TagListParams
pages_of_two none = none
pages_of_two (some tag) = some (record { n = some 2; last = some tag })

abbrev read_query : Text → Option TagListParams
read_query query = pages_of_two (strip_prefix (codes "n=2&last=") query)

read_query-query_text :
    (tag : Text)
    → is_plain tag ≡ true
    → read_query (query_text 2 tag) ≡ some (record { n = some 2; last = some tag })
unfolding query_text
read_query-query_text tag plain = refl

abbrev app : Name
app = record { name = codes "app"; namespace = none }

app_parsed : parse_name (codes "app") ≡ ok app
unfolding parse_name split_once from_namespaced validate match_component
app_parsed = refl

follow_links-all_example :
    follow_links any_header read_query 4 (ok tags) app (record { n = some 2; last = none })
    ≡ some tags
follow_links-all_example =
    follow_links-all any_header read_query (λ text visible. refl) app
      (parse_name-IsName (codes "app") app app_parsed) tags 2 read_query-query_text tags-IsAscending
      (refl, (refl, (refl, tt))) (omega arith)

pages :
    (get_tag_list any_header (ok tags) app (record { n = some 2; last = none })
      ≡ answered
          (codes "1.0" ∷ codes "1.1" ∷ [])
          (some (codes "</v2/app/tags/list?n=2&last=1.1>; rel=" ++ 34 ∷ (codes "next" ++ 34 ∷ []))))
    × (get_tag_list any_header (ok tags) app (record { n = some 2; last = some (codes "1.1") })
        ≡ answered (codes "latest" ∷ []) none)
unfolding get_tag_list paginate_tags link_text path_text query_text
pages = (refl, refl)
