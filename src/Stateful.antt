-- ===== src/Stateful.antt =====
-- Code that reads and writes a state and may leave early by `?`: `Op S E A` takes the state and
-- returns a result with the state that is left, also where it fails.
use douglas.Base.{◌≡◌, refl, Result, ok, err, map_err}

abbrev pub Op {ℓ} : Type 0 → Type 0 → Type ℓ → Type ℓ
Op S E A = S → Result E A × S

module _ {ℓ κ} {S E : Type 0} {A : Type ℓ} {B : Type κ} where
  abbrev pub continue_with : (A → Op S E B) → Result E A × S → Result E B × S
  continue_with next (ok a, s) = next a s
  continue_with next (err e, s) = (err e, s)

  infixl 5 ◌>>=◌
  abbrev pub ◌>>=◌ : Op S E A → (A → Op S E B) → Op S E B
  op >>= next = λ s. continue_with next (op s)

  continue_with-ok :
      (next : A → Op S E B) (before : Result E A × S) (b : B)
      → (continue_with next before).0 ≡ ok b
      → (a : A) × (before.0 ≡ ok a) × (continue_with next before ≡ next a before.1)
  continue_with-ok next (ok a, s) b e = (a, refl, refl)
  continue_with-ok next (err x, s) b e = absurd (cc e)

  -- Inversion of a `?` that did not return early.
  pub >>=-ok :
      (op : Op S E A) (next : A → Op S E B) (s : S) (b : B)
      → ((op >>= next) s).0 ≡ ok b
      → (a : A) × ((op s).0 ≡ ok a) × ((op >>= next) s ≡ next a (op s).1)
  >>=-ok op next s b e = continue_with-ok next (op s) b e

  -- A `?` on a result that is known.
  pub >>=-eq :
      (op : Op S E A) (next : A → Op S E B) (s : S) (a : A)
      → (op s).0 ≡ ok a
      → (op >>= next) s ≡ next a (op s).1
  >>=-eq op next s a e = rw e refl

abbrev pub return {ℓ} : {S E : Type 0} {A : Type ℓ} → A → Op S E A
return a s = (ok a, s)

abbrev pub fail {ℓ} : {S E : Type 0} {A : Type ℓ} → E → Op S E A
fail e s = (err e, s)

-- `map_err` on what an operation returns.
abbrev pub failing_as {ℓ} : {S E F : Type 0} {A : Type ℓ} → (E → F) → Op S E A → Op S F A
failing_as f op s = let (r, s') = op s in (map_err f r, s')

module _ {ℓ κ} {S E : Type 0} {A : Type ℓ} {B : Type κ} (P : S → Type 0) where
  continue_with-keeps :
      (next : A → Op S E B) (before : Result E A × S)
      → P before.1
      → ((a : A) → P ((next a before.1).1))
      → P ((continue_with next before).1)
  continue_with-keeps next (ok a, s) kept later = later a
  continue_with-keeps next (err e, s) kept later = kept

  -- What both parts keep, the whole keeps.
  pub >>=-keeps :
      (op : Op S E A) (next : A → Op S E B) (s : S)
      → P ((op s).1)
      → ((a : A) → P ((next a (op s).1).1))
      → P (((op >>= next) s).1)
  >>=-keeps op next s kept later = continue_with-keeps next (op s) kept later
