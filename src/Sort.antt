-- ===== src/Sort.antt =====
-- A stable sort, as `sort` and `sort_by_key` of the standard library do it: by insertion, with a
-- test for "does not come after".
use douglas.Base.{
  suc, ◌≡◌, refl, Bool, true, false, List, [], ◌∷◌, arith, if◌then◌else◌, ◌⊎◌, inl, inr, In,
  Bool-cases, count_if, length,
}

module _ {A : Type 0} (le : A → A → Bool) where
  abbrev pub insert_sorted : A → List A → List A
  insert_sorted x [] = x ∷ []
  insert_sorted x (y ∷ ys) = if le x y then x ∷ y ∷ ys else y ∷ insert_sorted x ys

  unfoldable pub sort : List A → List A
  sort [] = []
  sort (x ∷ xs) = insert_sorted x (sort xs)

  In-insert_sorted : (a x : A) (ys : List A) → In a (insert_sorted x ys) → (a ≡ x) ⊎ In a ys
  In-insert_sorted a x [] h = h
  In-insert_sorted a x (y ∷ ys) h = elim (Bool-cases (le x y)) [
    | inl e ↦ rw e at h
    | inr e ↦ elim (rw e at h) [
      | inl p ↦ inr (inl p)
      | inr q ↦ elim (In-insert_sorted a x ys q) [ inl p ↦ inl p | inr r ↦ inr (inr r) ]
    ]
  ]

  insert_sorted-In : (a x : A) (ys : List A) → (a ≡ x) ⊎ In a ys → In a (insert_sorted x ys)
  insert_sorted-In a x [] h = h
  insert_sorted-In a x (y ∷ ys) h = elim (Bool-cases (le x y)) [
    | inl e ↦ rw e h
    | inr e ↦ rw e (elim h [
      | inl p ↦ inr (insert_sorted-In a x ys (inl p))
      | inr (inl q) ↦ inl q
      | inr (inr r) ↦ inr (insert_sorted-In a x ys (inr r))
    ])
  ]

  -- Sorting keeps the entries.
  pub In-sort : (a : A) (xs : List A) → In a (sort xs) → In a xs
  unfolding sort
  In-sort a [] h = h
  In-sort a (x ∷ xs) h = elim (In-insert_sorted a x (sort xs) h) [
    | inl p ↦ inl p
    | inr q ↦ inr (In-sort a xs q)
  ]

  pub sort-In : (a : A) (xs : List A) → In a xs → In a (sort xs)
  unfolding sort
  sort-In a [] h = h
  sort-In a (x ∷ xs) h =
      insert_sorted-In a x (sort xs) (elim h [ inl p ↦ inl p | inr q ↦ inr (sort-In a xs q) ])

  count_if-insert_sorted :
      (p : A → Bool) (x : A) (ys : List A) → count_if p (insert_sorted x ys) ≡ count_if p (x ∷ ys)
  count_if-insert_sorted p x [] = refl
  count_if-insert_sorted p x (y ∷ ys) = ground (arith, count_if-insert_sorted p x ys)

  pub count_if-sort : (p : A → Bool) (xs : List A) → count_if p (sort xs) ≡ count_if p xs
  unfolding sort
  count_if-sort p [] = refl
  count_if-sort p (x ∷ xs) =
      ground (arith, count_if-insert_sorted p x (sort xs), count_if-sort p xs)

  length-insert_sorted : (x : A) (ys : List A) → length (insert_sorted x ys) ≡ suc (length ys)
  length-insert_sorted x [] = refl
  length-insert_sorted x (y ∷ ys) = ground (arith, length-insert_sorted x ys)

  pub length-sort : (xs : List A) → length (sort xs) ≡ length xs
  unfolding sort
  length-sort [] = refl
  length-sort (x ∷ xs) = ground (arith, length-insert_sorted x (sort xs), length-sort xs)

  -- Every entry comes after none of those behind it.
  abbrev pub IsSorted : List A → Type 0
  IsSorted [] = Unit
  IsSorted (x ∷ xs) = ((y : A) → In y xs → le x y ≡ true) × IsSorted xs

  module _ (trans : (a b c : A) → le a b ≡ true → le b c ≡ true → le a c ≡ true)
      (total : (a b : A) → le a b ≡ false → le b a ≡ true) where
    insert_sorted-IsSorted : (x : A) (ys : List A) → IsSorted ys → IsSorted (insert_sorted x ys)
    insert_sorted-IsSorted x [] h = ((λ y i. elim i [ ]), tt)
    insert_sorted-IsSorted x (y ∷ ys) h = elim (Bool-cases (le x y)) [
      | inl e ↦ rw e ((λ z i. elim i [ inl p ↦ rw p e | inr q ↦ trans x y z e (h.0 z q) ]), h)
      | inr e ↦ rw e (
        (λ z i. elim (In-insert_sorted z x ys i) [ inl p ↦ rw p (total x y e) | inr q ↦ h.0 z q ]),
        insert_sorted-IsSorted x ys h.1,
      )
    ]

    pub sort-IsSorted : (xs : List A) → IsSorted (sort xs)
    unfolding sort
    sort-IsSorted [] = tt
    sort-IsSorted (x ∷ xs) = insert_sorted-IsSorted x (sort xs) (sort-IsSorted xs)
