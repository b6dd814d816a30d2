-- ===== src/Resin/Tags.antt =====
-- resin/src/tags.rs: a page of the tags of a repository, and the link to the next page. The body of
-- the answer is the tags; its encoding and the other headers are left out.
pub mod Paging
pub mod Linked
use douglas.Base.{
  ℕ, zero, suc, ◌+◌, ◌/◌, ◌%◌, Bool, true, false, not, Option, none, some, List, [], ◌∷◌, ◌++◌,
  Result, ok, err, length, take, drop, ltb, ◌==◌, if◌then◌else◌,
}
use douglas.Text.{Text, codes, strip_prefix}
use douglas.Resin.Names.{Name, show_name, split_once}
use douglas.Resin.TagStore.{
  TagStoreError, file_system_error, digest_error, unknown_repository, unknown_tag,
}

-- `ServerError` of resin/src/lib.rs. Of the errors that may be internal, those of the tags.
pub data ServerError : Type 0 where
  blob_unknown manifest_unknown bad_request method_not_allowed : Text → ServerError
  internal : TagStoreError → ServerError
  parse_error : ℕ → ℕ → Text → ServerError
  repository_unknown invalid_name : Text → ServerError
  seedling_not_registered seedling_reserved : Text → ServerError

abbrev pub to_tag_error : TagStoreError → ServerError
to_tag_error (unknown_repository repository) = repository_unknown repository
to_tag_error (file_system_error e) = internal (file_system_error e)
to_tag_error (digest_error e) = internal (digest_error e)
to_tag_error (unknown_tag repository tag) = internal (unknown_tag repository tag)

pub record TagListParams : Type 0 where
  pub n : Option ℕ
  pub last : Option Text

-- `<` and `<=` of strings.
abbrev pub lt_text : Text → Text → Bool
lt_text [] [] = false
lt_text [] (_ ∷ _) = true
lt_text (_ ∷ _) [] = false
lt_text (a ∷ s) (b ∷ t) = let rest = lt_text s t in if a == b then rest else ltb a b

abbrev pub le_text : Text → Text → Bool
le_text s t = not (lt_text t s)

-- `partition_point`: where the entries that pass the test end. They come first.
abbrev pub partition_point : (Text → Bool) → List Text → ℕ
partition_point test [] = 0
partition_point test (x ∷ xs) = let rest = partition_point test xs in if test x then suc rest else 0

abbrev pub page_start : List Text → Option Text → ℕ
page_start tags none = 0
page_start tags (some last) = partition_point (λ tag. le_text tag last) tags

abbrev pub page_of : List Text → Option ℕ → List Text × Bool
page_of remaining none = (remaining, false)
page_of remaining (some n) =
    if ltb n (length remaining) then (take n remaining, true) else (remaining, false)

unfoldable pub paginate_tags : List Text → Option Text → Option ℕ → List Text × Bool
paginate_tags tags last n = page_of (drop (page_start tags last) tags) n

abbrev pub last_of : List Text → Option Text
last_of [] = none
last_of (x ∷ []) = some x
last_of (x ∷ y ∷ ys) = last_of (y ∷ ys)

-- `Display` of a `usize`, which has 20 digits at most.
abbrev pub show_digits : ℕ → ℕ → Text → Text
show_digits zero n shown = shown
show_digits (suc left) n shown =
    let rest = show_digits left (n / 10) ((48 + n % 10) ∷ shown) in
    if ltb n 10 then (48 + n) ∷ shown else rest

abbrev pub show_usize : ℕ → Text
show_usize n = show_digits 20 n []

-- The parts of `</v2/{name}/tags/list?n={n}&last={last_tag}>; rel="next"`. Nothing is encoded.
unfoldable pub path_text : Name → Text
path_text name = codes "/v2/" ++ (show_name name ++ codes "/tags/list")

unfoldable pub query_text : ℕ → Text → Text
query_text n tag = codes "n=" ++ (show_usize n ++ (codes "&last=" ++ tag))

abbrev pub rel_next : Text
rel_next = codes "; rel=" ++ 34 ∷ (codes "next" ++ 34 ∷ [])

unfoldable pub link_text : Name → ℕ → Text → Text
link_text name n tag = 60 ∷ (path_text name ++ 63 ∷ query_text n tag) ++ 62 ∷ rel_next

-- `if has_more && let (Some(n), Some(last_tag)) = (params.n, page.last())`
abbrev pub next_link : Name → Bool → Option ℕ → Option Text → Option Text
next_link name true (some n) (some tag) = some (link_text name n tag)
next_link name true (some n) none = none
next_link name true none tag = none
next_link name false n tag = none

-- What a request gets: a page with its `Link` header, an error, or nothing.
pub data Response : Type 0 where
  answered : List Text → Option Text → Response
  failed : ServerError → Response
  panicked : Response

-- `is_header` tells whether a text parses as the value of a header; the source unwraps that.
module _ (is_header : Text → Bool) where
  abbrev pub with_link : List Text → Option Text → Response
  with_link page none = answered page none
  with_link page (some link) = if is_header link then answered page (some link) else panicked

  abbrev pub paged : Name → TagListParams → List Text × Bool → Response
  paged name params (page, has_more) =
      with_link page (next_link name has_more params.n (last_of page))

  -- `stored` is what the store of tags lists.
  unfoldable pub get_tag_list : Result TagStoreError (List Text) → Name → TagListParams → Response
  get_tag_list (err e) name params = failed (to_tag_error e)
  get_tag_list (ok all_tags) name params =
      paged name params (paginate_tags all_tags params.last params.n)

  -- A client that follows the links. It takes the target of a link from between the angle brackets
  -- and asks for its query on the same repository. `parse_query` is how the server reads a query.
  module _ (parse_query : Text → Option TagListParams) where
    abbrev pub behind : Option (Text × Text) → Option Text
    behind none = none
    behind (some (_, rest)) = some rest

    abbrev pub query_of : Option (Text × Text) → Option Text
    query_of none = none
    query_of (some (target, _)) = behind (split_once (codes "?") target)

    abbrev pub target_of : Option Text → Option Text
    target_of none = none
    target_of (some rest) = query_of (split_once (codes ">") rest)

    abbrev pub parsed : Option Text → Option TagListParams
    parsed none = none
    parsed (some query) = parse_query query

    unfoldable pub next_params : Text → Option TagListParams
    next_params link = parsed (target_of (strip_prefix (codes "<") link))

    abbrev pub prepend : List Text → Option (List Text) → Option (List Text)
    prepend page none = none
    prepend page (some rest) = some (page ++ rest)

    abbrev pub ask :
        (TagListParams → Option (List Text)) → Option TagListParams → Option (List Text)
    ask next none = none
    ask next (some params) = next params

    abbrev pub continue_from : (TagListParams → Option (List Text)) → Response → Option (List Text)
    continue_from next (answered page none) = some page
    continue_from next (answered page (some link)) = prepend page (ask next (next_params link))
    continue_from next (failed e) = none
    continue_from next panicked = none

    -- In at most `fuel` requests.
    unfoldable pub follow_links :
        ℕ → Result TagStoreError (List Text) → Name → TagListParams → Option (List Text)
    follow_links zero stored name params = none
    follow_links (suc fuel) stored name params =
        continue_from (follow_links fuel stored name) (get_tag_list stored name params)
