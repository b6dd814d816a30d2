-- ===== src/Maps.antt =====
-- `HashMap` as an association list, over a test of equality of its keys.
use douglas.Base.{
  ◌≡◌, refl, inl, inr, Bool, true, false, Option, none, some, List, [], ◌∷◌, arith, if◌then◌else◌,
  Bool-cases,
}

-- The `Eq` of the keys.
pub record Keys (K : Type 0) : Type 0 where
  pub same : K → K → Bool
  pub same_refl : (a : K) → same a a ≡ true
  pub same_sound : (a b : K) → same a b ≡ true → a ≡ b

module _ {K : Type 0} (keys : Keys K) where
  pub same_sym : (a b : K) → keys.same a b ≡ false → keys.same b a ≡ false
  same_sym a b h = elim (Bool-cases (keys.same b a)) [
    | inl e ↦ absurd (ground (arith, keys.same_sound b a e, keys.same_refl a))
    | inr e ↦ e
  ]

module _ {K V : Type 0} (keys : Keys K) where
  unfoldable pub get : K → List (K × V) → Option V
  get k [] = none
  get k ((a, v) ∷ m) = let rest = get k m in if keys.same a k then some v else rest

  unfoldable pub delete : K → List (K × V) → List (K × V)
  delete k [] = []
  delete k ((a, v) ∷ m) = let rest = delete k m in if keys.same a k then rest else (a, v) ∷ rest

  abbrev pub insert : K → V → List (K × V) → List (K × V)
  insert k v m = (k, v) ∷ delete k m

  pub get-delete : (k : K) (m : List (K × V)) → get k (delete k m) ≡ none
  unfolding get delete
  get-delete k [] = refl
  get-delete k ((a, v) ∷ m) = ground (arith, get-delete k m)

  pub get-delete_other :
      (k a : K) (m : List (K × V)) → keys.same k a ≡ false → get a (delete k m) ≡ get a m
  unfolding get delete
  get-delete_other k a [] h = refl
  get-delete_other k a ((b, v) ∷ m) h = elim (Bool-cases (keys.same b k)) [
    | inl e ↦ ground (arith, get-delete_other k a m h, keys.same_sound b k e)
    | inr e ↦ ground (arith, get-delete_other k a m h)
  ]

  pub get-insert : (k : K) (v : V) (m : List (K × V)) → get k (insert k v m) ≡ some v
  unfolding get
  get-insert k v m = rw (keys.same_refl k) refl

  pub get-insert_other :
      (k a : K) (v : V) (m : List (K × V)) → keys.same k a ≡ false → get a (insert k v m) ≡ get a m
  unfolding get
  get-insert_other k a v m h = rw h (get-delete_other k a m h)
