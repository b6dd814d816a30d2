-- ===== src/Retention/Expiry.antt =====
-- Which kept versions `expired` gives up.
use douglas.Base.{
  ℕ, zero, suc, ◌≤◌, ◌<◌, ◌≡◌, ◌↔◌, refl, ap, ◌∙◌, subst, Bool, true, false, Option, none, some,
  List, [], ◌∷◌, map, inl, inr, In, arith, Bool-cases, count_if, drop,
}
use douglas.Text.{Text, same_text, same_text_refl}
use douglas.Version.{Version, IsByte, lt_version, same_version}
use douglas.Version.Order.{
  lt_version_irrefl, lt_version_asymm, lt_version_connex, not_newer_trans, same_version_sound,
  same_version_refl,
}
use douglas.Sort.{sort, In-sort, sort-In, IsSorted, sort-IsSorted, count_if-sort}
use douglas.Retention.{retained, newest_first, retained_name, parse_retained, push_version, expired}
use douglas.Retention.Names.{
  In-retained, retained-In, retained_name-parse_retained, parse_retained-retained_name,
}

abbrev Entry : Type 0
Entry = Version × Text

newest_first_trans :
    (a b c : Entry) → newest_first a b ≡ true → newest_first b c ≡ true → newest_first a c ≡ true
newest_first_trans a b c h k = ground (arith, not_newer_trans c.0 b.0 a.0)

newest_first_total : (a b : Entry) → newest_first a b ≡ false → newest_first b a ≡ true
newest_first_total a b h = ground (arith, lt_version_asymm a.0 b.0)

abbrev is_newer : Version → Entry → Bool
is_newer v p = lt_version v p.0

abbrev is_same : Version → Entry → Bool
is_same v p = same_version p.0 v

drop-In : (a : Entry) (k : ℕ) (xs : List Entry) → In a (drop k xs) → In a xs
drop-In a zero xs i = i
drop-In a (suc k) [] i = i
drop-In a (suc k) (x ∷ xs) i = inr (drop-In a k xs i)

In-counted :
    (v : Version) (name : Text) (xs : List Entry) → In (v, name) xs → 0 < count_if (is_same v) xs
In-counted v name [] i = elim i [ ]
In-counted v name (x ∷ xs) (inl e) =
    let same : same_version x.0 v ≡ true = rw (← ap (λ p. p.0) e) (same_version_refl v) in
    ground (arith, same)
In-counted v name (x ∷ xs) (inr i) = ground (arith, In-counted v name xs i)

none_newer :
    (v : Version) (xs : List Entry)
    → ((a : Entry) → In a xs → lt_version v a.0 ≡ false)
    → count_if (is_newer v) xs ≡ 0
none_newer v [] h = refl
none_newer v (x ∷ xs) h = ground (arith, h x (inl refl), none_newer v xs (λ a i. h a (inr i)))

-- In a list from the newest to the oldest, an entry stands behind place `k` if `k` entries or more
-- are newer.
dropped-counted :
    (v : Version) (name : Text) (k : ℕ) (xs : List Entry)
    → IsSorted newest_first xs
    → count_if (is_same v) xs ≤ 1
    → In (v, name) (drop k xs)
    → k ≤ count_if (is_newer v) xs
dropped-counted v name zero xs s c i = omega arith
dropped-counted v name (suc k) [] s c i = elim i [ ]
dropped-counted v name (suc k) (x ∷ xs) s c i =
    let j = drop-In (v, name) k xs i in
    let first = s.0 (v, name) j in
    let once = In-counted v name xs j in
    let ih = λ (h : count_if (is_same v) xs ≤ 1). dropped-counted v name k xs s.1 h i in
    elim (Bool-cases (lt_version v x.0)) [
      | inl e ↦ ground (arith, ih, e)
      | inr e ↦
          let same : x.0 ≡ v = lt_version_connex x.0 v (ground (arith, first)) e in
          let hit : same_version x.0 v ≡ true = rw same (same_version_refl v) in
          absurd (ground (arith, once, hit))
    ]

none_newer_head :
    (v : Version) (x : Entry) (xs : List Entry)
    → IsSorted newest_first (x ∷ xs)
    → lt_version v x.0 ≡ false
    → count_if (is_newer v) (x ∷ xs) ≡ 0
none_newer_head v x xs s e = none_newer v (x ∷ xs) older
  where
    older : (a : Entry) → In a (x ∷ xs) → lt_version v a.0 ≡ false
    older a (inl p) = rw p e
    older a (inr i) = not_newer_trans a.0 x.0 v (ground (arith, s.0 a i)) e

counted-dropped :
    (v : Version) (name : Text) (k : ℕ) (xs : List Entry)
    → IsSorted newest_first xs
    → In (v, name) xs
    → k ≤ count_if (is_newer v) xs
    → In (v, name) (drop k xs)
counted-dropped v name zero xs s i h = i
counted-dropped v name (suc k) [] s i h = elim i [ ]
counted-dropped v name (suc k) (x ∷ xs) s (inl e) h =
    let head : lt_version v x.0 ≡ false = rw (← ap (λ p. p.0) e) (lt_version_irrefl v) in
    absurd (omega (arith, none_newer_head v x xs s head))
counted-dropped v name (suc k) (x ∷ xs) s (inr i) h = elim (Bool-cases (lt_version v x.0)) [
  | inl e ↦ counted-dropped v name k xs s.1 i (ground (arith, e))
  | inr e ↦ absurd (omega (arith, none_newer_head v x xs s e))
]

abbrev newest : List Text → List Entry
newest names = sort newest_first (retained names)

newest-IsSorted : (names : List Text) → IsSorted newest_first (newest names)
newest-IsSorted names =
    sort-IsSorted newest_first newest_first_trans newest_first_total (retained names)

In-names :
    (name : Text) (xs : List Entry) → In name (map (λ p. p.1) xs) → (v : Version) × In (v, name) xs
In-names name [] i = elim i [ ]
In-names name (x ∷ xs) (inl e) = (x.0, inl (rw e))
In-names name (x ∷ xs) (inr i) = let (v, j) = In-names name xs i in (v, inr j)

names-In :
    (v : Version) (name : Text) (xs : List Entry) → In (v, name) xs → In name (map (λ p. p.1) xs)
names-In v name [] i = elim i [ ]
names-In v name (x ∷ xs) (inl e) = inl (ap (λ p. p.1) e)
names-In v name (x ∷ xs) (inr i) = inr (names-In v name xs i)

-- Only kept versions are given up: an expired name is one of the folder's and the name of a version.
pub expired-IsRetained :
    (names : List Text) (keep : ℕ) (name : Text)
    → In name (expired names keep)
    → In name names × ((v : Version) × (name ≡ retained_name v))
unfolding expired
expired-IsRetained names keep name i =
    let (v, j) = In-names name (drop keep (newest names)) i in
    let (there, parses) =
      In-retained v name names (
        In-sort newest_first (v, name) (retained names)
          (drop-In (v, name) keep (newest names) j)) in
    (there, (v, retained_name-parse_retained name v parses))

count_same-push_version :
    (v : Version) (o : Option Version) (n : Text) (rest : List Entry) (bound : ℕ)
    → parse_retained n ≡ o
    → count_if (is_same v) rest ≤ bound
    → count_if (is_same v) (push_version o n rest) ≤ (
        let more = suc bound in
        elim (same_text (retained_name v) n) [ true ↦ more | false ↦ bound ])
count_same-push_version v none n rest bound e h = ground arith
count_same-push_version v (some w) n rest bound e h = elim (Bool-cases (same_version w v)) [
  | inl same ↦
      let name : n ≡ retained_name v =
        retained_name-parse_retained n w e ∙ ap retained_name (same_version_sound w v same) in
      let hit : same_text (retained_name v) n ≡ true = rw name (same_text_refl (retained_name v)) in
      ground (arith, same, hit)
  | inr other ↦ ground (arith, other)
]

count_same-retained :
    (v : Version) (names : List Text)
    → count_if (is_same v) (retained names) ≤ count_if (same_text (retained_name v)) names
unfolding retained
count_same-retained v [] = omega arith
count_same-retained v (n ∷ names) =
    count_same-push_version v (parse_retained n) n (retained names) _ refl
      (count_same-retained v names)

-- The number of kept versions newer than `v`.
abbrev pub count_newer : Version → List Text → ℕ
count_newer v names = count_if (λ p. lt_version v p.0) (retained names)

-- Where the folder lists no name twice, the name of a version in it is given up exactly when as many
-- newer versions are kept as are to be kept.
pub expired_iff :
    (names : List Text) (keep : ℕ) (v : Version)
    → IsByte v
    → In (retained_name v) names
    → count_if (same_text (retained_name v)) names ≤ 1
    → In (retained_name v) (expired names keep) ↔ (keep ≤ count_newer v names)
unfolding expired
expired_iff names keep v b i once = (few, many)
  where
    counted : count_if (is_newer v) (newest names) ≡ count_newer v names
    counted = count_if-sort newest_first (is_newer v) (retained names)

    single : count_if (is_same v) (newest names) ≤ 1
    single = omega (
      arith,
      count_if-sort newest_first (is_same v) (retained names),
      count_same-retained v names,
    )

    few : In (retained_name v) (expired names keep) → keep ≤ count_newer v names
    few j =
        let (w, k) = In-names (retained_name v) (drop keep (newest names)) j in
        let parses =
          (In-retained w (retained_name v) names (
            In-sort newest_first (w, retained_name v) (retained names)
              (drop-In (w, retained_name v) keep (newest names) k))).1 in
        let same : w ≡ v = ground (arith, parses, parse_retained-retained_name v b) in
        rw (← counted) (
          dropped-counted v (retained_name v) keep (newest names) (newest-IsSorted names) single
            (subst (λ u. In (u, retained_name v) (drop keep (newest names))) same k))

    many : keep ≤ count_newer v names → In (retained_name v) (expired names keep)
    many h = names-In v (retained_name v) (drop keep (newest names)) (
        counted-dropped v (retained_name v) keep (newest names) (newest-IsSorted names)
          (sort-In newest_first (v, retained_name v) (retained names)
            (retained-In v (retained_name v) names i (parse_retained-retained_name v b)))
          (omega (arith, counted)))
