-- ===== src/Bract/Rolodex/Probing.antt =====
-- What a search of the records of bract/src/rolodex/mod.rs finds, as a function of the records.
use douglas.Base.{
  ◌≡◌, refl, ap, subst, ℕ, zero, suc, Bool, true, false, not, ◌&&◌, ◌||◌, Option, none, some, List,
  if◌then◌else◌, Bool-cases, inl, inr, arith,
}
use douglas.Text.{Text, same_text, same_text_refl, same_text_sound}
use douglas.Paths.{FilePath, join_name, same_path, same_path_sound}
use douglas.Disk.{File, Disk, Differs, lookup, put, lookup-put, lookup-put_other}
use douglas.Bract.Rolodex.Naming.{derive_system_name, salted}

pub data Probe : Type 0 where
  held free : Text → Probe
  full : Probe

-- The name that is reserved.
abbrev pub owner : Probe → Option Text
owner (held system_name) = some system_name
owner (free _) = none
owner full = none

abbrev pub probe_at : Text → Text → Probe → Option File → Probe
probe_at full_name system_name next none = free system_name
probe_at full_name system_name next (some f) =
    if same_text f.contents full_name then held system_name else next

abbrev pub absent_at : Text → Bool → Option File → Bool
absent_at full_name rest none = rest
absent_at full_name rest (some f) = not (same_text f.contents full_name) && rest

abbrev pub settled_at : Text → Bool → Bool → Option File → Bool
settled_at full_name absent rest none = absent
settled_at full_name absent rest (some f) = same_text f.contents full_name || rest

-- The record of a name in a folder.
abbrev pub named : FilePath → Text → Disk → Option File
named kind system_name d = lookup (join_name kind system_name) d

names_differ :
    (kind : FilePath) (s t : Text)
    → same_text s t ≡ false
    → Differs (join_name kind t) (join_name kind s)
names_differ kind s t n = elim (Bool-cases (same_path (join_name kind t) (join_name kind s))) [
  | inl e ↦
      let same = ap (λ p. p.names) (same_path_sound (join_name kind t) (join_name kind s) e) in
      let eq : t ≡ s = cc in absurd (ground (arith, same_text_refl s))
  | inr e ↦ e
]

pub named-put :
    (kind : FilePath) (s t : Text) (f : File) (d : Disk)
    → named kind s (put (join_name kind t) f d) ≡ (if same_text s t then some f else named kind s d)
named-put kind s t f d = elim (Bool-cases (same_text s t)) [
  | inl e ↦ rw (same_text_sound s t e, same_text_refl t) (lookup-put (join_name kind t) f d)
  | inr e ↦
      rw e (lookup-put_other (join_name kind t) (join_name kind s) f d (names_differ kind s t e))
]

-- One attempt, for any answers of the attempts behind it.
module _ (g : Text) where
  absent_at_settled :
      (absent rest : Bool) (o : Option File)
      → (absent ≡ true → rest ≡ true)
      → absent_at g absent o ≡ true
      → settled_at g absent rest o ≡ true
  absent_at_settled absent rest none h p = p
  absent_at_settled absent rest (some r) h p = ground (arith, h)

  absent_at_unowned :
      (absent : Bool) (t : Text) (next : Probe) (o : Option File)
      → (absent ≡ true → owner next ≡ none)
      → absent_at g absent o ≡ true
      → owner (probe_at g t next o) ≡ none
  absent_at_unowned absent t next none h p = refl
  absent_at_unowned absent t next (some r) h p = ground (arith, h)

free_at_unnamed :
    (kind : FilePath) (f s t : Text) (next : Probe) (d : Disk) (o : Option File)
    → named kind t d ≡ o
    → (next ≡ free s → named kind s d ≡ none)
    → probe_at f t next o ≡ free s
    → named kind s d ≡ none
free_at_unnamed kind f s t next d none n h p =
    let same : t ≡ s = cc in subst (λ u. named kind u d ≡ none) same n
free_at_unnamed kind f s t next d (some r) n h p = elim (Bool-cases (same_text r.contents f)) [
  | inl e ↦ absurd (ground (arith))
  | inr e ↦ h (ground (arith))
]

module _ (sha256 : Text → List ℕ) (kind : FilePath) where
  abbrev pub slot : Text → ℕ → Text
  slot full_name attempt = derive_system_name sha256 (salted full_name attempt)

  unfoldable pub probe_from : ℕ → ℕ → Disk → Text → Probe
  probe_from zero attempt d full_name = full
  probe_from (suc left) attempt d full_name =
      probe_at full_name (slot full_name attempt) (probe_from left (suc attempt) d full_name)
        (named kind (slot full_name attempt) d)

  -- No attempt finds a record of the name.
  unfoldable pub is_absent : ℕ → ℕ → Disk → Text → Bool
  is_absent zero attempt d full_name = true
  is_absent (suc left) attempt d full_name =
      absent_at full_name (is_absent left (suc attempt) d full_name)
        (named kind (slot full_name attempt) d)

  -- Behind a free attempt, no attempt finds a record of the name.
  unfoldable pub is_settled : ℕ → ℕ → Disk → Text → Bool
  is_settled zero attempt d full_name = true
  is_settled (suc left) attempt d full_name =
      settled_at full_name (is_absent left (suc attempt) d full_name)
        (is_settled left (suc attempt) d full_name) (named kind (slot full_name attempt) d)

  pub absent_settled :
      (left attempt : ℕ) (d : Disk) (g : Text)
      → is_absent left attempt d g ≡ true
      → is_settled left attempt d g ≡ true
  unfolding is_absent is_settled
  absent_settled zero attempt d g a = refl
  absent_settled (suc left) attempt d g a =
      absent_at_settled g _ _ (named kind (slot g attempt) d)
        (absent_settled left (suc attempt) d g) a

  pub absent_unowned :
      (left attempt : ℕ) (d : Disk) (g : Text)
      → is_absent left attempt d g ≡ true
      → owner (probe_from left attempt d g) ≡ none
  unfolding is_absent probe_from
  absent_unowned zero attempt d g a = refl
  absent_unowned (suc left) attempt d g a =
      absent_at_unowned g _ (slot g attempt) _ (named kind (slot g attempt) d)
        (absent_unowned left (suc attempt) d g) a

  pub free_unnamed :
      (left attempt : ℕ) (d : Disk) (f s : Text)
      → probe_from left attempt d f ≡ free s
      → named kind s d ≡ none
  unfolding probe_from
  free_unnamed zero attempt d f s e = cc
  free_unnamed (suc left) attempt d f s e =
      free_at_unnamed kind f s (slot f attempt) _ d (named kind (slot f attempt) d) refl
        (free_unnamed left (suc attempt) d f s) e

  -- The probing reads nothing but the records.
  pub probe_from-cong :
      (left attempt : ℕ) (d d' : Disk) (f : Text)
      → ((t : Text) → named kind t d' ≡ named kind t d)
      → probe_from left attempt d' f ≡ probe_from left attempt d f
  unfolding probe_from
  probe_from-cong zero attempt d d' f h = refl
  probe_from-cong (suc left) attempt d d' f h =
      rw (h (slot f attempt), probe_from-cong left (suc attempt) d d' f h) refl

  is_absent-cong :
      (left attempt : ℕ) (d d' : Disk) (f : Text)
      → ((t : Text) → named kind t d' ≡ named kind t d)
      → is_absent left attempt d' f ≡ is_absent left attempt d f
  unfolding is_absent
  is_absent-cong zero attempt d d' f h = refl
  is_absent-cong (suc left) attempt d d' f h =
      rw (h (slot f attempt), is_absent-cong left (suc attempt) d d' f h) refl

  pub is_settled-cong :
      (left attempt : ℕ) (d d' : Disk) (f : Text)
      → ((t : Text) → named kind t d' ≡ named kind t d)
      → is_settled left attempt d' f ≡ is_settled left attempt d f
  unfolding is_settled
  is_settled-cong zero attempt d d' f h = refl
  is_settled-cong (suc left) attempt d d' f h =
      rw
        (
          h (slot f attempt),
          is_absent-cong left (suc attempt) d d' f h,
          is_settled-cong left (suc attempt) d d' f h,
        )
        refl
