-- ===== src/Bract/Rolodex/Reserving.antt =====
-- What a new record changes for the searches of bract/src/rolodex/mod.rs.
use douglas.Base.{
  ◌≡◌, refl, sym, ap, subst, ℕ, zero, suc, Bool, true, false, Option, none, some, List,
  if◌then◌else◌, Bool-cases, inl, inr, arith,
}
use douglas.Text.{Text, same_text, same_text_refl, same_text_sound}
use douglas.Paths.{FilePath, join_name}
use douglas.Disk.{File, Disk, put}
use douglas.Bract.Rolodex.Probing.{
  Probe, held, free, owner, probe_at, absent_at, settled_at, named, named-put, slot, probe_from,
  is_absent, is_settled, absent_settled, absent_unowned,
}

-- One attempt at `o` is one at `r` if `b`: there the new record `r` of `f` stands, where none was.
module _ (f g : Text) (r : File) (of_f : r.contents ≡ f) (others : same_text f g ≡ false) where
  absent_at_put :
      (b rest rest' : Bool) (o : Option File)
      → (rest ≡ true → rest' ≡ true)
      → absent_at g rest o ≡ true
      → absent_at g rest' (if b then some r else o) ≡ true
  absent_at_put false rest rest' none h p = h p
  absent_at_put false rest rest' (some q) h p = ground (arith, h)
  absent_at_put true rest rest' none h p = rw of_f (ground (arith, h))
  absent_at_put true rest rest' (some q) h p = rw of_f (ground (arith, h))

  settled_at_put :
      (b absent rest absent' rest' : Bool) (o : Option File)
      → (b ≡ true → o ≡ none)
      → (absent ≡ true → absent' ≡ true)
      → (absent' ≡ true → rest' ≡ true)
      → (rest ≡ true → rest' ≡ true)
      → settled_at g absent rest o ≡ true
      → settled_at g absent' rest' (if b then some r else o) ≡ true
  settled_at_put false absent rest absent' rest' none n h k l p = h p
  settled_at_put false absent rest absent' rest' (some q) n h k l p = ground (arith, l)
  settled_at_put true absent rest absent' rest' none n h k l p = rw of_f (ground (arith, k (h p)))
  settled_at_put true absent rest absent' rest' (some q) n h k l p = absurd (cc (n refl))

  owner_at_put :
      (b absent rest : Bool) (t : Text) (next next' : Probe) (o : Option File)
      → (b ≡ true → o ≡ none)
      → (absent ≡ true → owner next' ≡ none)
      → (rest ≡ true → owner next' ≡ owner next)
      → settled_at g absent rest o ≡ true
      → owner (probe_at g t next' (if b then some r else o)) ≡ owner (probe_at g t next o)
  owner_at_put false absent rest t next next' none n h k p = refl
  owner_at_put false absent rest t next next' (some q) n h k p = ground (arith, k)
  owner_at_put true absent rest t next next' none n h k p = rw of_f (ground (arith, h p))
  owner_at_put true absent rest t next next' (some q) n h k p = absurd (cc (n refl))

module _ (sha256 : Text → List ℕ) (kind : FilePath) (d : Disk) (f s : Text) (r : File)
    (of_f : r.contents ≡ f) (unnamed : named kind s d ≡ none) where
  abbrev after_put : Disk
  after_put = put (join_name kind s) r d

  unnamed_at : (t : Text) → same_text t s ≡ true → named kind t d ≡ none
  unnamed_at t e = subst (λ u. named kind u d ≡ none) (sym (same_text_sound t s e)) unnamed

  module _ (g : Text) (others : same_text f g ≡ false) where
    absent-put :
        (left attempt : ℕ)
        → is_absent sha256 kind left attempt d g ≡ true
        → is_absent sha256 kind left attempt after_put g ≡ true
    unfolding is_absent
    absent-put zero attempt a = refl
    absent-put (suc left) attempt a =
        rw (named-put kind (slot sha256 kind g attempt) s r d)
          (absent_at_put f g r of_f others _ _ _ _ (absent-put left (suc attempt)) a)

    pub settled-put :
        (left attempt : ℕ)
        → is_settled sha256 kind left attempt d g ≡ true
        → is_settled sha256 kind left attempt after_put g ≡ true
    unfolding is_settled
    settled-put zero attempt p = refl
    settled-put (suc left) attempt p =
        let t = slot sha256 kind g attempt in
        rw (named-put kind t s r d) (
          settled_at_put f g r of_f others (same_text t s) _ _ _ _ (named kind t d) (unnamed_at t)
            (absent-put left (suc attempt))
            (absent_settled sha256 kind left (suc attempt) after_put g)
            (settled-put left (suc attempt)) p)

    -- Whatever another name has reserved, it keeps.
    pub owner-put :
        (left attempt : ℕ)
        → is_settled sha256 kind left attempt d g ≡ true
        → owner (probe_from sha256 kind left attempt after_put g)
          ≡ owner (probe_from sha256 kind left attempt d g)
    unfolding is_settled probe_from
    owner-put zero attempt p = refl
    owner-put (suc left) attempt p =
        let t = slot sha256 kind g attempt in
        rw (named-put kind t s r d) (
          owner_at_put f g r of_f others (same_text t s) _ _ t _ _ (named kind t d) (unnamed_at t)
            (λ a.
              absent_unowned sha256 kind left (suc attempt) after_put g
                (absent-put left (suc attempt) a))
            (owner-put left (suc attempt)) p)

-- The name itself: the attempt that was free is the one that is found.
module _ (f s : Text) (r : File) (of_f : r.contents ≡ f) where
  held_at_put :
      (b : Bool) (t : Text) (next next' : Probe) (o : Option File)
      → b ≡ same_text t s
      → (next ≡ free s → next' ≡ held s)
      → probe_at f t next o ≡ free s
      → probe_at f t next' (if b then some r else o) ≡ held s
  held_at_put false t next next' none e h p =
      let same : t ≡ s = cc in absurd (ground (arith, same_text_refl s))
  held_at_put false t next next' (some q) e h p = elim (Bool-cases (same_text q.contents f)) [
    | inl x ↦ absurd (ground arith)
    | inr x ↦ rw x (h (ground arith))
  ]
  held_at_put true t next next' o e h p =
      rw (of_f, same_text_refl f) (ap held (same_text_sound t s (sym e)))

  own_settled_at_put :
      (b absent absent' rest' : Bool) (t : Text) (next : Probe) (o : Option File)
      → b ≡ same_text t s
      → (next ≡ free s → rest' ≡ true)
      → probe_at f t next o ≡ free s
      → settled_at f absent' rest' (if b then some r else o) ≡ true
  own_settled_at_put false absent absent' rest' t next none e h p =
      let same : t ≡ s = cc in absurd (ground (arith, same_text_refl s))
  own_settled_at_put false absent absent' rest' t next (some q) e h p =
      elim (Bool-cases (same_text q.contents f)) [
        | inl x ↦ absurd (ground arith)
        | inr x ↦ rw x (h (ground arith))
      ]
  own_settled_at_put true absent absent' rest' t next o e h p = rw (of_f, same_text_refl f) refl

module _ (sha256 : Text → List ℕ) (kind : FilePath) (d : Disk) (f s : Text) (r : File)
    (of_f : r.contents ≡ f) where
  -- The name that was free is reserved.
  pub held-put :
      (left attempt : ℕ)
      → probe_from sha256 kind left attempt d f ≡ free s
      → probe_from sha256 kind left attempt (put (join_name kind s) r d) f ≡ held s
  unfolding probe_from
  held-put zero attempt p = absurd (cc p)
  held-put (suc left) attempt p =
      let t = slot sha256 kind f attempt in
      rw (named-put kind t s r d) (
        held_at_put f s r of_f (same_text t s) t _ _ (named kind t d) refl
          (held-put left (suc attempt)) p)

  pub own_settled-put :
      (left attempt : ℕ)
      → probe_from sha256 kind left attempt d f ≡ free s
      → is_settled sha256 kind left attempt (put (join_name kind s) r d) f ≡ true
  unfolding probe_from is_settled
  own_settled-put zero attempt p = absurd (cc p)
  own_settled-put (suc left) attempt p =
      let t = slot sha256 kind f attempt in
      rw (named-put kind t s r d) (
        own_settled_at_put f s r of_f (same_text t s) true _ _ t _ (named kind t d) refl
          (own_settled-put left (suc attempt)) p)
