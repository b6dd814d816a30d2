-- ===== src/Blueprint/History.antt =====
-- `History` of blueprint/src/lib.rs.
use douglas.Base.{
  ◌≡◌, refl, Bool, true, false, List, [], ◌∷◌, ◌++◌, Result, ok, err, arith, ltb, if◌then◌else◌,
  length, length-append,
}

pub data HistoryError : Type 0 where
  no_current_state cannot_rollback : HistoryError

pub record History {ℓ} (T : Type ℓ) : Type ℓ where
  pub initial : T
  pub rest : List T

module _ {ℓ} {T : Type ℓ} where
  unfoldable pub new : T → History T
  new value = record { initial = value; rest = [] }

  -- `rest.last().unwrap_or(initial)`
  abbrev pub last_or : List T → T → T
  last_or [] d = d
  last_or (x ∷ xs) d = last_or xs x

  unfoldable pub current : History T → T
  current h = last_or h.rest h.initial

  unfoldable pub push : History T → T → History T
  push h value = record h { rest = h.rest ++ value ∷ [] }

  -- `Vec::pop`
  abbrev pub pop : List T → List T
  pop [] = []
  pop (x ∷ []) = []
  pop (x ∷ y ∷ xs) = x ∷ pop (y ∷ xs)

  unfoldable pub rollback : History T → Result HistoryError (History T)
  rollback h =
      if ltb 1 (length h.rest) then ok (record h { rest = pop h.rest }) else err cannot_rollback

  abbrev is_empty : List T → Bool
  is_empty [] = true
  is_empty (_ ∷ _) = false

  unfoldable pub is_initial_state : History T → Bool
  is_initial_state h = is_empty h.rest

  pop-append : (xs : List T) (v : T) → pop (xs ++ v ∷ []) ≡ xs
  pop-append [] v = refl
  pop-append (x ∷ []) v = refl
  pop-append (x ∷ y ∷ xs) v = rw (pop-append (y ∷ xs) v)

  rollback-append :
      (i v : T) (xs : List T)
      → rollback (record { initial = i; rest = xs ++ v ∷ [] })
        ≡ (if is_empty xs then err cannot_rollback else ok (record { initial = i; rest = xs }))
  unfolding rollback
  rollback-append i v [] = refl
  rollback-append i v (x ∷ xs) = ground (arith, length-append xs (v ∷ []), pop-append (x ∷ xs) v)

  -- A rollback undoes the last push, except the first: the push onto a history in its initial state
  -- cannot be rolled back, though a state before it exists.
  pub rollback-push :
      (h : History T) (v : T)
      → rollback (push h v) ≡ (if is_initial_state h then err cannot_rollback else ok h)
  unfolding rollback push is_initial_state
  rollback-push h v = rollback-append h.initial v h.rest
