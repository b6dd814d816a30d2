-- ===== src/Base/Results.antt =====
-- Rust's `Result<A, E>` with the error first, and `?` as `>>=`.
use mathlib.Core.Logic.{◌⊎◌, inl, inr}
use mathlib.Core.Path.{◌≡◌, refl, ap}
use mathlib.Core.Option.{Option, none, some}

pub data Result {ℓ} (E : Type 0) (A : Type ℓ) : Type ℓ where
  ok : A → Result E A
  err : E → Result E A

-- `map_err`
abbrev pub map_err {ℓ} : {E F : Type 0} {A : Type ℓ} → (E → F) → Result E A → Result F A
map_err f (ok a) = ok a
map_err f (err e) = err (f e)

-- `ok_or`
abbrev pub ok_or {ℓ} : {E : Type 0} {A : Type ℓ} → Option A → E → Result E A
ok_or none e = err e
ok_or (some a) e = ok a

-- The successful value goes on, an error leaves.
module _ {ℓ κ} {Error : Type 0} {Value : Type ℓ} {Next : Type κ} where
  infixl 5 ◌>>=◌
  abbrev pub ◌>>=◌ : Result Error Value → (Value → Result Error Next) → Result Error Next
  err early >>= rest = err early
  ok value >>= rest = rest value

  -- Inversion of a `?` that did not return early.
  pub >>=-eq-ok :
      (first : Result Error Value) (rest : Value → Result Error Next) {result : Next}
      → (first >>= rest) ≡ ok result
      → (value : Value) × (first ≡ ok value) × (rest value ≡ ok result)
  >>=-eq-ok (err early) rest h = cc
  >>=-eq-ok (ok value) rest h = (value, refl, h)

-- What an `ok` holds is determined by it.
pub ok-injective {ℓ} :
    {E : Type 0} {A : Type ℓ} {a b : A} → ◌≡◌ {A = Result E A} (ok a) (ok b) → a ≡ b
ok-injective h = cc

pub map_err-eq-ok {ℓ} :
    {E F : Type 0} {A : Type ℓ} (f : E → F) (r : Result E A) (a : A) → map_err f r ≡ ok a → r ≡ ok a
map_err-eq-ok f (ok b) a h = ap ok (ok-injective h)
map_err-eq-ok f (err x) a h = absurd (cc h)

pub Result-cases {ℓ} :
    {E : Type 0} {A : Type ℓ} (r : Result E A) → ((a : A) × (r ≡ ok a)) ⊎ ((e : E) × (r ≡ err e))
Result-cases (ok a) = inl (a, refl)
Result-cases (err e) = inr (e, refl)
