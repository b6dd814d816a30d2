-- ===== src/Retention/Rollback.antt =====
-- Which version `rollback_target` chooses.
use douglas.Base.{
  ◌≡◌, refl, sym, true, false, Option, none, some, List, [], ◌∷◌, Result, ok, err, ok_or, ◌⊎◌, inl,
  inr, In, arith, Bool-cases,
}
use douglas.Text.{Text}
use douglas.Version.{Version, lt_version, same_version}
use douglas.Version.Order.{
  lt_version_irrefl, lt_version_asymm, not_newer_trans, same_version_sound, same_version_refl,
}
use douglas.Sort.{sort, In-sort, sort-In, IsSorted, sort-IsSorted}
use douglas.Retention.{
  RollbackTargetError, nothing_to_roll_back_to, not_kept, not_older, versions, oldest_first,
  contains, or_older, rfind_older, rollback_target,
}

oldest_first_trans :
    (a b c : Version) → oldest_first a b ≡ true → oldest_first b c ≡ true → oldest_first a c ≡ true
oldest_first_trans a b c h k = ground (arith, not_newer_trans a b c)

oldest_first_total : (a b : Version) → oldest_first a b ≡ false → oldest_first b a ≡ true
oldest_first_total a b h = ground (arith, lt_version_asymm b a)

-- The kept versions in order.
abbrev kept : List Text → List Version
kept names = sort oldest_first (versions names)

kept-IsSorted : (names : List Text) → IsSorted oldest_first (kept names)
kept-IsSorted names =
    sort-IsSorted oldest_first oldest_first_trans oldest_first_total (versions names)

contains_sound : (v : Version) (ws : List Version) → contains v ws ≡ true → In v ws
contains_sound v [] h = cc
contains_sound v (w ∷ ws) h = elim (Bool-cases (same_version w v)) [
  | inl e ↦ inl (sym (same_version_sound w v e))
  | inr e ↦ inr (contains_sound v ws (ground (arith, e)))
]

contains_complete : (v : Version) (ws : List Version) → In v ws → contains v ws ≡ true
contains_complete v [] h = elim h [ ]
contains_complete v (w ∷ ws) (inl e) = ground (arith, e, same_version_refl v)
contains_complete v (w ∷ ws) (inr i) = ground (arith, contains_complete v ws i)

-- The best older version of a list: none, or one of the list that nothing older than `current`
-- comes after.
abbrev pub IsNewestOlder : Version → List Version → Option Version → Type 0
IsNewestOlder current vs none = (w : Version) → In w vs → lt_version w current ≡ false
IsNewestOlder current vs (some v) =
    (lt_version v current ≡ true)
    × In v vs
    × ((w : Version) → In w vs → lt_version w current ≡ true → lt_version v w ≡ false)

or_older-IsNewestOlder :
    (current v : Version) (vs : List Version) (o : Option Version)
    → ((w : Version) → In w vs → oldest_first v w ≡ true)
    → IsNewestOlder current vs o
    → IsNewestOlder current (v ∷ vs) (or_older o v current)
or_older-IsNewestOlder current v vs (some u) first (older, i, best) = (older, inr i, newest)
  where
    newest : (w : Version) → In w (v ∷ vs) → lt_version w current ≡ true → lt_version u w ≡ false
    newest w (inl e) h = rw e (ground (arith, first u i))
    newest w (inr j) h = best w j h
or_older-IsNewestOlder current v vs none first h = elim (Bool-cases (lt_version v current)) [
  | inl e ↦ rw e (e, inl refl, newest)
  | inr e ↦ rw e (none_older e)
]
  where
    newest : (w : Version) → In w (v ∷ vs) → lt_version w current ≡ true → lt_version v w ≡ false
    newest w (inl e) o = rw e (lt_version_irrefl v)
    newest w (inr j) o = absurd (cc (h w j))

    none_older :
        lt_version v current ≡ false → (w : Version) → In w (v ∷ vs) → lt_version w current ≡ false
    none_older e w (inl p) = rw p e
    none_older e w (inr j) = h w j

rfind_older-IsNewestOlder :
    (current : Version) (vs : List Version)
    → IsSorted oldest_first vs
    → IsNewestOlder current vs (rfind_older current vs)
unfolding rfind_older
rfind_older-IsNewestOlder current [] s = λ w i. elim i [ ]
rfind_older-IsNewestOlder current (v ∷ vs) s =
    or_older-IsNewestOlder current v vs (rfind_older current vs) s.0
      (rfind_older-IsNewestOlder current vs s.1)

kept-In : (v : Version) (names : List Text) → In v (kept names) → In v (versions names)
kept-In v names i = In-sort oldest_first v (versions names) i

In-kept : (v : Version) (names : List Text) → In v (versions names) → In v (kept names)
In-kept v names i = sort-In oldest_first v (versions names) i

-- What a rollback may go to. With no version asked for, it is the newest kept version that is older
-- than the running one, and there is an error only if no older version is kept. A version that is
-- asked for is chosen if it is older and kept, and refused with the reason if it is not.
abbrev pub IsTarget :
    List Text → Version → Option Version → Result RollbackTargetError Version → Type 0
IsTarget names current none (ok v) = IsNewestOlder current (versions names) (some v)
IsTarget names current none (err e) =
    (e ≡ nothing_to_roll_back_to) × IsNewestOlder current (versions names) none
IsTarget names current (some r) (ok v) =
    (v ≡ r) × (lt_version r current ≡ true) × In r (versions names)
IsTarget names current (some r) (err e) =
    ((e ≡ not_older r current) × (lt_version r current ≡ false))
    ⊎ ((e ≡ not_kept r (kept names)) × (lt_version r current ≡ true) × (In r (versions names) → ⊥))

IsNewestOlder-kept :
    (names : List Text) (current : Version) (o : Option Version)
    → IsNewestOlder current (kept names) o
    → IsTarget names current none (ok_or o nothing_to_roll_back_to)
IsNewestOlder-kept names current none h = (refl, λ w i. h w (In-kept w names i))
IsNewestOlder-kept names current (some v) (older, i, best) =
    (older, kept-In v names i, λ w j. best w (In-kept w names j))

-- What `rollback_target` answers. Without a request: the newest kept version that is older than the
-- running one, or that there is none. With one: that version if it is older and kept, and otherwise
-- which of the two it is not.
pub rollback_target-IsTarget :
    (names : List Text) (current : Version) (requested : Option Version)
    → IsTarget names current requested (rollback_target names current requested)
unfolding rollback_target
rollback_target-IsTarget names current none =
    IsNewestOlder-kept names current _
      (rfind_older-IsNewestOlder current (kept names) (kept-IsSorted names))
rollback_target-IsTarget names current (some r) = elim (Bool-cases (lt_version r current)) [
  | inr e ↦ rw e (inl (refl, e))
  | inl e ↦ elim (Bool-cases (contains r (kept names))) [
    | inl c ↦ rw (e, c) (refl, e, kept-In r names (contains_sound r (kept names) c))
    | inr c ↦
        rw (e, c)
          (inr
            (refl, e, λ i. absurd (cc (c, contains_complete r (kept names) (In-kept r names i)))))
  ]
]
