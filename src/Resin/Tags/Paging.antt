-- ===== src/Resin/Tags/Paging.antt =====
-- The pages of resin/src/tags.rs, one after the other.
use douglas.Base.{
  Bool, ok, ℕ, zero, suc, ◌≤◌, ◌<◌, ◌≡◌, refl, ◌∙◌, sym, ap, subst, true, false, Option, none, some,
  List, [], ◌∷◌, ◌++◌, append_assoc, length, take, drop, ltb, arith, All, Bool-cases, inl, inr,
}
use douglas.Text.{Text}
use douglas.Resin.Names.{Name}
use douglas.Resin.Names.Parsed.{IsName}
use douglas.Resin.Tags.{
  TagListParams, lt_text, le_text, partition_point, page_start, paginate_tags, last_of, query_text,
  link_text, with_link, get_tag_list, prepend, continue_from, follow_links,
}
use douglas.Resin.Tags.Linked.{is_plain, is_visible, link-is_visible, next_params-link}

lt_text_irrefl : (s : Text) → lt_text s s ≡ false
lt_text_irrefl [] = refl
lt_text_irrefl (a ∷ s) = ground (arith, lt_text_irrefl s)

lt_text_asym : (s t : Text) → lt_text s t ≡ true → lt_text t s ≡ false
lt_text_asym [] [] h = refl
lt_text_asym [] (_ ∷ _) h = refl
lt_text_asym (_ ∷ _) [] h = cc
lt_text_asym (a ∷ s) (b ∷ t) h = ground (arith, lt_text_asym s t)

-- Each tag comes before all that are behind it: they are sorted, and no two are the same.
abbrev pub IsAscending : List Text → Type 0
IsAscending [] = Unit
IsAscending (x ∷ xs) = All (λ y. lt_text x y ≡ true) xs × IsAscending xs

none_before :
    (l : Text) (rest : List Text)
    → All (λ y. lt_text l y ≡ true) rest
    → partition_point (λ tag. le_text tag l) rest ≡ 0
none_before l [] h = refl
none_before l (y ∷ rest) (lt, h) = rw lt refl

-- The entries up to `l` are those before it and itself.
partition_point-append :
    (before : List Text) (l : Text) (rest : List Text)
    → IsAscending (before ++ l ∷ rest)
    → partition_point (λ tag. le_text tag l) (before ++ l ∷ rest) ≡ suc (length before)
partition_point-append [] l rest (h, a) = rw (lt_text_irrefl l, none_before l rest h) refl
partition_point-append (x ∷ before) l rest (h, a) =
    rw (lt_text_asym x l (at before h), partition_point-append before l rest a) refl
  where
    at : (ys : List Text) → All (λ y. lt_text x y ≡ true) (ys ++ l ∷ rest) → lt_text x l ≡ true
    at [] k = k.0
    at (y ∷ ys) k = at ys k.1

-- A page that is not empty ends in its last entry.
last_of-append :
    (x : Text) (xs : List Text)
    → (before : List Text) × (l : Text) × (last_of (x ∷ xs) ≡ some l) × (x ∷ xs ≡ before ++ l ∷ [])
last_of-append x [] = ([], x, refl, refl)
last_of-append x (y ∷ ys) =
    let (before, l, e, same) = last_of-append y ys in (x ∷ before, l, e, ap (◌∷◌ x) same)

take-drop : (n : ℕ) (xs : List Text) → take n xs ++ drop n xs ≡ xs
take-drop zero xs = refl
take-drop (suc n) [] = refl
take-drop (suc n) (x ∷ xs) = ap (◌∷◌ x) (take-drop n xs)

length-drop : (n : ℕ) (xs : List Text) → 1 ≤ n → n < length xs → length (drop n xs) < length xs
length-drop zero xs h k = absurd (omega arith)
length-drop (suc n) [] h k = absurd (omega arith)
length-drop (suc n) (x ∷ xs) h k = omega (arith, at n xs)
  where
    at : (m : ℕ) (ys : List Text) → length (drop m ys) ≤ length ys
    at zero ys = omega arith
    at (suc m) [] = omega arith
    at (suc m) (y ∷ ys) = omega (arith, at m ys)

take-nonempty :
    (n : ℕ) (xs : List Text)
    → 1 ≤ n
    → n < length xs
    → (y : Text) × (ys : List Text) × (take n xs ≡ y ∷ ys)
take-nonempty zero xs h k = absurd (omega arith)
take-nonempty (suc n) [] h k = absurd (omega arith)
take-nonempty (suc n) (x ∷ xs) h k = (x, take n xs, refl)

-- `last` is where the client stands: `rest` is what it has not seen.
abbrev Resumes : Option Text → List Text → List Text → Type 0
Resumes none tags rest = tags ≡ rest
Resumes (some l) tags rest = (before : List Text) × (tags ≡ before ++ l ∷ rest)

drop-page_start :
    (last : Option Text) (tags rest : List Text)
    → IsAscending tags
    → Resumes last tags rest
    → drop (page_start tags last) tags ≡ rest
drop-page_start none tags rest a e = e
drop-page_start (some l) tags rest a (before, e) =
    ap (λ xs. drop (partition_point (λ tag. le_text tag l) xs) xs) e
    ∙ ap (λ k. drop k (before ++ l ∷ rest))
        (partition_point-append before l rest (subst IsAscending e a))
    ∙ past before
  where
    past : (xs : List Text) → drop (suc (length xs)) (xs ++ l ∷ rest) ≡ rest
    past [] = refl
    past (x ∷ xs) = past xs

Resumes-page :
    (last : Option Text) (tags rest before tail : List Text) (l : Text)
    → Resumes last tags rest
    → rest ≡ (before ++ l ∷ []) ++ tail
    → Resumes (some l) tags tail
Resumes-page none tags rest before tail l e k = (before, e ∙ k ∙ append_assoc before (l ∷ []) tail)
Resumes-page (some m) tags rest before tail l (seen, e) k = (
  seen ++ m ∷ before,
  e
      ∙ ap (λ xs. seen ++ m ∷ xs) (k ∙ append_assoc before (l ∷ []) tail)
      ∙ sym (append_assoc seen (m ∷ before) (l ∷ tail)),
)

All-at :
    (P : Text → Type 0) (before : List Text) (l : Text) (tail : List Text)
    → All P (before ++ l ∷ tail)
    → P l
All-at P [] l tail h = h.0
All-at P (x ∷ before) l tail h = All-at P before l tail h.1

module _ (is_header : Text → Bool) (parse_query : Text → Option TagListParams)
    (headers : (text : Text) → is_visible text ≡ true → is_header text ≡ true) (name : Name)
    (valid : IsName name) (tags : List Text) (n : ℕ)
    (queries : (tag : Text)
      → is_plain tag ≡ true
      → parse_query (query_text n tag) ≡ some (record { n = some n; last = some tag }))
    (ascending : IsAscending tags) (plain : All (λ tag. is_plain tag ≡ true) tags)
    (some_tags : 1 ≤ n) where
  -- The answer with a link, and the next request.
  link-continues :
      (next : TagListParams → Option (List Text)) (page : List Text) (l : Text)
      → is_plain l ≡ true
      → continue_from is_header parse_query next
          (with_link is_header page (some (link_text name n l)))
        ≡ prepend is_header parse_query page (next (record { n = some n; last = some l }))
  link-continues next page l plain_l =
      rw
        (
          headers (link_text name n l) (link-is_visible name valid n l plain_l),
          next_params-link name valid n l plain_l is_header parse_query,
          queries l plain_l,
        )
        refl

  follow_links_rest :
      (fuel : ℕ) (last : Option Text) (rest : List Text)
      → Resumes last tags rest
      → length rest < fuel
      → follow_links is_header parse_query fuel (ok tags) name (record { n = some n; last = last })
        ≡ some rest
  unfolding follow_links get_tag_list paginate_tags
  follow_links_rest zero last rest r h = absurd (omega arith)
  follow_links_rest (suc fuel) last rest r h =
      rw (drop-page_start last tags rest ascending r) (elim (Bool-cases (ltb n (length rest))) [
        | inl e ↦
            let lt : n < length rest = ground arith in
            let (x, xs, page) = take-nonempty n rest some_tags lt in
            let (before, l, is_last, same) = last_of-append x xs in
            let split = sym (take-drop n rest) ∙ ap (λ p. p ++ drop n rest) (page ∙ same) in
            let shorter = length-drop n rest some_tags lt in
            let resumed = Resumes-page last tags rest before (drop n rest) l r split in
            let plain_l =
              All-at (λ tag. is_plain tag ≡ true) resumed.0 l (drop n rest)
                (subst (All (λ tag. is_plain tag ≡ true)) resumed.1 plain) in
            rw
              (
                e,
                ap last_of page ∙ is_last,
                link-continues (follow_links is_header parse_query fuel (ok tags) name)
                    (take n rest) l plain_l,
                follow_links_rest fuel (some l) (drop n rest) resumed (omega (arith, shorter)),
              )
              (ap some (take-drop n rest))
        | inr e ↦ rw e refl
      ])

  -- If a text of visible characters parses as the value of a header, and a query with `n` and a
  -- plain tag is read as that number and that tag, then a client that asks for the first page of at
  -- least one of the sorted, distinct, plain tags of a valid name and follows the links to their
  -- end needs at most one request more than there are tags, and has then seen each tag once, in
  -- their order.
  pub follow_links-all :
      follow_links is_header parse_query
        (suc (length tags))
        (ok tags)
        name
        (record { n = some n; last = none })
      ≡ some tags
  follow_links-all = follow_links_rest (suc (length tags)) none tags refl (omega arith)
