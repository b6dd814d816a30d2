-- ===== src/Seedbank/Creation.antt =====
-- What `create` of seedbank/src/lib.rs leaves when it goes well.
use douglas.Base.{
  ℕ, ◌≡◌, refl, sym, ap, ◌∙◌, String, Bool, true, false, Option, none, some, List, [], ◌∷◌, Result,
  ok, err, some-injective, str_eq, str_eq_iff, if◌then◌else◌, Bool-cases, inl, inr, arith,
}
use douglas.Host.{Answer, done, fails}
use douglas.Seedbank.{
  Error, already_exists, holds, Seed, empty_seed, Bank, Op, ◌>>=◌, call, find, set, change, exists,
  is_some, read, left_by, write_result, write_seed, first, answered, continue_with,
}
use douglas.Seedbank.Ids.{
  get_next_id, list_seedlings, collect_ids, max_seedlings, or_full, used_ids, IsFirstFree,
  get_next_id-ok, >>=-eq-ok,
}
use douglas.Seedbank.Operations.{
  make_answered, make_folder, write_id, write_version, write_definition, create,
}

-- An operation that leaves the folders alone.
abbrev pub Quiet : {A : Type 0} → Op A → Type 0
Quiet op = (b : Bank) → (op b).1.seeds ≡ b.seeds

pub >>=-Quiet :
    {A B : Type 0} (op : Op A) (next : A → Op B)
    → Quiet op
    → ((a : A) → Quiet (next a))
    → Quiet (op >>= next)
>>=-Quiet {A = A} {B = B} op next q r b = went (op b) (q b)
  where
    went :
        (p : Result Error A × Bank) → p.1.seeds ≡ b.seeds → (continue_with next p).1.seeds ≡ b.seeds
    went (ok a, b') e = r a b' ∙ e
    went (err x, b') e = e

pub call-Quiet : Quiet call
unfolding call
call-Quiet b = quiet (first b.answers)
  where
    quiet : (a : Answer) → (answered a b).1.seeds ≡ b.seeds
    quiet done = refl
    quiet (fails x part) = refl

pub list_seedlings-Quiet : Quiet list_seedlings
unfolding list_seedlings
list_seedlings-Quiet = >>=-Quiet call _ call-Quiet (λ a b. refl)

collect_ids-Quiet : (seeds : List (String × Seed)) → Quiet (collect_ids seeds)
unfolding collect_ids
collect_ids-Quiet [] = λ b. refl
collect_ids-Quiet ((name, seed) ∷ seeds) =
    >>=-Quiet (read (λ _. seed.id)) _ (λ b. refl)
      (λ id. >>=-Quiet (collect_ids seeds) _ (collect_ids-Quiet seeds) (λ ids b. refl))

or_full-Quiet : (o : Option ℕ) → Quiet (or_full o)
or_full-Quiet none b = refl
or_full-Quiet (some i) b = refl

get_next_id-Quiet : Quiet get_next_id
unfolding get_next_id
get_next_id-Quiet =
    >>=-Quiet list_seedlings _ list_seedlings-Quiet
      (λ seeds. >>=-Quiet (collect_ids seeds) _ (collect_ids-Quiet seeds) (λ used. or_full-Quiet _))

pub find-set :
    (name : String) (s t : Seed) (seeds : List (String × Seed))
    → find name seeds ≡ some s
    → find name (set name t seeds) ≡ some t
unfolding find set
find-set name s t [] e = absurd (cc e)
find-set name s t ((n, r) ∷ seeds) e = elim (Bool-cases (str_eq n name)) [
  | inl h ↦ ground (arith, h)
  | inr h ↦ ground (arith, h, find-set name s t seeds)
]

-- A write that goes well is found.
write_seed-ok :
    (name : String) (f : Answer → Seed → Seed) (b : Bank) (s : Seed)
    → find name b.seeds ≡ some s
    → (write_seed name f b).0 ≡ ok tt
    → find name (write_seed name f b).1.seeds ≡ some (f done s)
write_seed-ok name f b s at e = written (first b.answers) (find name b.seeds) at e
  where
    written :
        (a : Answer) (o : Option Seed)
        → o ≡ some s
        → write_result a ≡ ok tt
        → find name (change (f a) name o b.seeds) ≡ some (f done s)
    written a none h w = absurd (cc h)
    written (fails x part) (some r) h w = absurd (cc w)
    written done (some r) h w =
        find-set name s (f done r) b.seeds at ∙ ap (λ k. some (f done k)) (some-injective h)

make_folder-ok :
    (name : String) (b : Bank)
    → exists name b ≡ false
    → (make_folder name b).0 ≡ ok tt
    → find name (make_folder name b).1.seeds ≡ some empty_seed
unfolding make_folder find
make_folder-ok name b new e = made (first b.answers) e
  where
    front : find name ((name, empty_seed) ∷ b.seeds) ≡ some empty_seed
    front = rw ((str_eq_iff name name).1 refl) refl

    made :
        (a : Answer)
        → (make_answered name a b).0 ≡ ok tt
        → find name (make_answered name a b).1.seeds ≡ some empty_seed
    made done f = rw new front
    made (fails x part) f = absurd (cc f)

write_definition-ok :
    (name : String) (version : ℕ) (b : Bank) (s : Seed)
    → find name b.seeds ≡ some s
    → (write_definition name version b).0 ≡ ok tt
    → find name (write_definition name version b).1.seeds
      ≡ some (record s { version = holds version })
unfolding write_definition write_version
write_definition-ok name version b s at e =
    let (u₁, e₁, s₁) = >>=-eq-ok call _ b tt e in
    let b₁ = (call b).1 in
    let f₁ = sym (ap (λ r. r.0) s₁) ∙ e in
    let (u₂, e₂, s₂) = >>=-eq-ok call _ b₁ tt f₁ in
    let b₂ = (call b₁).1 in
    let f₂ = sym (ap (λ r. r.0) s₂) ∙ f₁ in
    let (u₃, e₃, s₃) = >>=-eq-ok call _ b₂ tt f₂ in
    let b₃ = (call b₂).1 in
    let f₃ = sym (ap (λ r. r.0) s₃) ∙ f₂ in
    let (u₄, e₄, s₄) = >>=-eq-ok call (λ _. write_version name version) b₃ tt f₃ in
    let b₄ = (call b₃).1 in
    let f₄ = sym (ap (λ r. r.0) s₄) ∙ f₃ in
    let same : b₄.seeds ≡ b.seeds = call-Quiet b₃ ∙ call-Quiet b₂ ∙ call-Quiet b₁ ∙ call-Quiet b in
    ap (λ r. find name r.1.seeds) (s₁ ∙ s₂ ∙ s₃ ∙ s₄)
    ∙ write_seed-ok name (λ a r. record r { version = left_by version r.version a }) b₄ s
        (ap (find name) same ∙ at) f₄

untested :
    {A : Type 0} (t : Bool) (r s : Result Error A × Bank) (x : Error) (v : A)
    → r.0 ≡ err x
    → (if t then r else s).0 ≡ ok v
    → (t ≡ false) × ((if t then r else s) ≡ s)
untested true r s x v f e = absurd (cc (f, e))
untested false r s x v f e = (refl, refl)

-- A seedling that is created was not there before; it has the version that was given, and the least
-- id that no seedling had.
pub create-ok :
    (name : String) (version : ℕ) (b : Bank)
    → (create name version b).0 ≡ ok tt
    → (exists name b ≡ false)
      × ((id : ℕ) × IsFirstFree max_seedlings 0 (used_ids b.seeds) id
          × (find name (create name version b).1.seeds
              ≡ some (record empty_seed { id = holds id; version = holds version })))
unfolding create exists write_id
create-ok name version b e =
    let (new, s₀) =
      untested (exists name b) (err (already_exists name), b) _ (already_exists name) tt refl e in
    let f₀ = sym (ap (λ r. r.0) s₀) ∙ e in
    let (id, e₁, s₁) = >>=-eq-ok get_next_id _ b tt f₀ in
    let b₁ = (get_next_id b).1 in
    let f₁ = sym (ap (λ r. r.0) s₁) ∙ f₀ in
    let (u₂, e₂, s₂) = >>=-eq-ok (make_folder name) _ b₁ tt f₁ in
    let b₂ = (make_folder name b₁).1 in
    let f₂ = sym (ap (λ r. r.0) s₂) ∙ f₁ in
    let (u₃, e₃, s₃) = >>=-eq-ok (write_id name id) (λ _. write_definition name version) b₂ tt f₂ in
    let b₃ = (write_id name id b₂).1 in
    let f₃ = sym (ap (λ r. r.0) s₃) ∙ f₂ in
    let at_b₂ =
      make_folder-ok name b₁ (ap (λ k. is_some (find name k)) (get_next_id-Quiet b) ∙ new) e₂ in
    let at_b₃ =
      write_seed-ok name (λ a r. record r { id = left_by id r.id a }) b₂ empty_seed at_b₂ e₃ in
    (
      new,
      (
        id,
        get_next_id-ok b id e₁,
        ap (λ r. find name r.1.seeds) (s₀ ∙ s₁ ∙ s₂ ∙ s₃)
            ∙ write_definition-ok name version b₃ (record empty_seed { id = holds id }) at_b₃ f₃,
      ),
    )
