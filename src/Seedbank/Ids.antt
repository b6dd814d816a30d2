-- ===== src/Seedbank/Ids.antt =====
-- `list_seedlings` and `get_next_id` of seedbank/src/lib.rs.
use douglas.Base.{
  some-injective, ℕ, zero, suc, ◌+◌, ◌≤◌, ◌<◌, ◌≡◌, refl, sym, ap, ◌∙◌, subst, String, Bool, true,
  false, Option, none, some, List, [], ◌∷◌, Result, ok, err, ok-injective, ◌==◌, ==_iff,
  if◌then◌else◌, In, inl, inr, Bool-cases, arith,
}
use douglas.Host.{Answer, done, fails}
use douglas.Seedbank.{
  Error, too_many_seedlings, Stored, absent, garbled, holds, Seed, Bank, Op, ◌>>=◌, return, fail,
  call, read, read_stored, continue_with, answered, first,
}

abbrev pub max_seedlings : ℕ
max_seedlings = 4096

-- The folders, by their names; the folder of a listed name is its entry.
unfoldable pub list_seedlings : Op (List (String × Seed))
list_seedlings = call >>= λ _ b. (ok b.seeds, b)

abbrev pub push_id : Option ℕ → List ℕ → List ℕ
push_id none ids = ids
push_id (some i) ids = i ∷ ids

unfoldable pub collect_ids : List (String × Seed) → Op (List ℕ)
collect_ids [] = return []
collect_ids ((name, seed) ∷ seeds) =
    read (λ _. seed.id) >>= λ id. collect_ids seeds >>= λ ids. return (push_id id ids)

abbrev pub is_used : ℕ → List ℕ → Bool
is_used i [] = false
is_used i (j ∷ js) = let rest = is_used i js in if j == i then true else rest

-- The first of the `n` numbers from `i` that is not used.
unfoldable pub first_free : ℕ → ℕ → List ℕ → Option ℕ
first_free zero i used = none
first_free (suc n) i used = elim (is_used i used) [
  | true ↦ first_free n (suc i) used
  | false ↦ some i
]

abbrev pub or_full : Option ℕ → Op ℕ
or_full none = fail too_many_seedlings
or_full (some i) = return i

unfoldable pub get_next_id : Op ℕ
get_next_id = list_seedlings >>= λ seeds.
    collect_ids seeds >>= λ used. or_full (first_free max_seedlings 0 used)

-- The ids in the folders.
abbrev stored_id : Stored ℕ → List ℕ → List ℕ
stored_id absent ids = ids
stored_id garbled ids = ids
stored_id (holds i) ids = i ∷ ids

abbrev pub used_ids : List (String × Seed) → List ℕ
used_ids [] = []
used_ids ((name, seed) ∷ seeds) = stored_id seed.id (used_ids seeds)

is_used_sound : (i : ℕ) (js : List ℕ) → is_used i js ≡ true → In i js
is_used_sound i [] e = cc e
is_used_sound i (j ∷ js) e = elim (Bool-cases (j == i)) [
  | inl b ↦ inl (sym ((==_iff j i).0 b))
  | inr b ↦ inr (is_used_sound i js (ground (arith, b)))
]

is_used_complete : (i : ℕ) (js : List ℕ) → In i js → is_used i js ≡ true
is_used_complete i [] h = elim h [ ]
is_used_complete i (j ∷ js) (inl e) = ground (arith, e)
is_used_complete i (j ∷ js) (inr h) = ground (arith, is_used_complete i js h)

-- What is found is the least number from `i` that is not used.
pub record IsFirstFree (n i : ℕ) (used : List ℕ) (k : ℕ) : Type 0 where
  pub from : i ≤ k
  pub below : k < i + n
  pub free : In k used → ⊥
  pub least : (j : ℕ) → i ≤ j → j < k → In j used

first_free_used :
    (n i : ℕ) (used : List ℕ)
    → is_used i used ≡ true
    → first_free (suc n) i used ≡ first_free n (suc i) used
unfolding first_free
first_free_used n i used b = rw (first_free, b) refl

first_free_unused :
    (n i : ℕ) (used : List ℕ) → is_used i used ≡ false → first_free (suc n) i used ≡ some i
unfolding first_free
first_free_unused n i used b = rw (first_free, b) refl

first_free-IsFirstFree :
    (n i : ℕ) (used : List ℕ) (k : ℕ) → first_free n i used ≡ some k → IsFirstFree n i used k
unfolding first_free
first_free-IsFirstFree zero i used k e = absurd (cc e)
first_free-IsFirstFree (suc n) i used k e = elim (Bool-cases (is_used i used)) [
  | inl b ↦
      let r = first_free-IsFirstFree n (suc i) used k (sym (first_free_used n i used b) ∙ e) in
      record {
        from = omega (arith, r.from);
        below = omega (arith, r.below);
        free = r.free;
        least = λ j a c. elim (Bool-cases (i == j)) [
          | inl h ↦ subst (λ x. In x used) ((==_iff i j).0 h) (is_used_sound i used b)
          | inr h ↦ r.least j (ground (arith, h)) c
        ];
      }
  | inr b ↦
      let same = some-injective (sym (first_free_unused n i used b) ∙ e) in
      record {
        from = omega (arith, same);
        below = omega (arith, same);
        free = λ h. absurd (cc (b, is_used_complete i used (subst (λ x. In x used) (sym same) h)));
        least = λ j a c. absurd (omega (arith, same));
      }
]

first_free-full :
    (n i : ℕ) (used : List ℕ) → first_free n i used ≡ none → (j : ℕ) → i ≤ j → j < i + n → In j used
unfolding first_free
first_free-full zero i used e j a c = absurd (omega arith)
first_free-full (suc n) i used e j a c = elim (Bool-cases (is_used i used)) [
  | inl b ↦ elim (Bool-cases (i == j)) [
    | inl h ↦ subst (λ x. In x used) ((==_iff i j).0 h) (is_used_sound i used b)
    | inr h ↦
        first_free-full n (suc i) used (sym (first_free_used n i used b) ∙ e) j (ground (arith, h))
          (omega arith)
  ]
  | inr b ↦ absurd (cc (e, first_free_unused n i used b))
]

-- A chain of operations that ends well went well at each.
pub >>=-eq-ok :
    {A B : Type 0} (op : Op A) (next : A → Op B) (b : Bank) (v : B)
    → ((op >>= next) b).0 ≡ ok v
    → (a : A) × ((op b).0 ≡ ok a) × ((op >>= next) b ≡ next a (op b).1)
>>=-eq-ok {A = A} {B = B} op next b v e = went (op b) e
  where
    went :
        (r : Result Error A × Bank)
        → (continue_with next r).0 ≡ ok v
        → (a : A) × (r.0 ≡ ok a) × (continue_with next r ≡ next a r.1)
    went (ok a, b') f = (a, refl, refl)
    went (err x, b') f = absurd (cc f)

read_id-ok :
    (s : Stored ℕ) (a : Answer) (id : Option ℕ) (ids : List ℕ)
    → read_stored s a ≡ ok id
    → push_id id ids ≡ stored_id s ids
read_id-ok absent a id ids e = ap (λ x. push_id x ids) (sym (ok-injective e))
read_id-ok garbled done id ids e = absurd (cc e)
read_id-ok garbled (fails x part) id ids e = absurd (cc e)
read_id-ok (holds i) done id ids e = ap (λ x. push_id x ids) (sym (ok-injective e))
read_id-ok (holds i) (fails x part) id ids e = absurd (cc e)

collect_ids-ok :
    (seeds : List (String × Seed)) (b : Bank) (ids : List ℕ)
    → (collect_ids seeds b).0 ≡ ok ids
    → ids ≡ used_ids seeds
unfolding collect_ids
collect_ids-ok [] b ids e = sym (ok-injective e)
collect_ids-ok ((name, seed) ∷ seeds) b ids e =
    let (id, e₁, s₁) = >>=-eq-ok (read (λ _. seed.id)) _ b ids e in
    let b₁ = (read (λ _. seed.id) b).1 in
    let (rest, e₂, s₂) = >>=-eq-ok (collect_ids seeds) _ b₁ ids (sym (ap (λ r. r.0) s₁) ∙ e) in
    sym (ok-injective (sym (ap (λ r. r.0) (s₁ ∙ s₂)) ∙ e))
    ∙ read_id-ok seed.id (first b.answers) id rest e₁
    ∙ ap (stored_id seed.id) (collect_ids-ok seeds b₁ rest e₂)

list_seedlings-ok :
    (b : Bank) (seeds : List (String × Seed)) → (list_seedlings b).0 ≡ ok seeds → seeds ≡ b.seeds
unfolding list_seedlings call
list_seedlings-ok b seeds e = answered_with (first b.answers) e
  where
    answered_with :
        (a : Answer)
        → (continue_with (λ _ b'. (ok b'.seeds, b')) (answered a b)).0 ≡ ok seeds
        → seeds ≡ b.seeds
    answered_with done f = sym (ok-injective f)
    answered_with (fails x part) f = absurd (cc f)

or_full-ok : (o : Option ℕ) (b : Bank) (k : ℕ) → (or_full o b).0 ≡ ok k → o ≡ some k
or_full-ok none b k e = absurd (cc e)
or_full-ok (some i) b k e = ap some (ok-injective e)

-- The id of a new seedling is the least number that no seedling has, and below 4096.
pub get_next_id-ok :
    (b : Bank) (id : ℕ)
    → (get_next_id b).0 ≡ ok id
    → IsFirstFree max_seedlings 0 (used_ids b.seeds) id
unfolding get_next_id
get_next_id-ok b id e =
    let (seeds, e₁, s₁) = >>=-eq-ok list_seedlings _ b id e in
    let b₁ = (list_seedlings b).1 in
    let (used, e₂, s₂) = >>=-eq-ok (collect_ids seeds) _ b₁ id (sym (ap (λ r. r.0) s₁) ∙ e) in
    let b₂ = (collect_ids seeds b₁).1 in
    subst (λ x. IsFirstFree max_seedlings 0 x id)
      (collect_ids-ok seeds b₁ used e₂ ∙ ap used_ids (list_seedlings-ok b seeds e₁))
      (first_free-IsFirstFree max_seedlings 0 used id
        (or_full-ok (first_free max_seedlings 0 used) b₂ id (sym (ap (λ r. r.0) (s₁ ∙ s₂)) ∙ e)))
