-- ===== src/Bract/Rolodex/Reserved.antt =====
-- The names that the records of bract/src/rolodex/mod.rs reserve, as a map from full names.
use douglas.Base.{
  ◌≡◌, refl, ◌∙◌, sym, ap, subst, ℕ, zero, suc, Bool, true, false, Option, none, some, List, [], ok,
  ok-injective, some-injective, Bool-cases, inl, inr, arith,
}
use douglas.Text.{Text, same_text, same_text_sound}
use douglas.Paths.{FilePath, join_name}
use douglas.Disk.{File, Disk, Differs, lookup, put, lookup-put_other}
use douglas.Host.{Host, answer, Answer, done, fails}
use douglas.Stateful.{>>=-ok}
use douglas.Bract.Rolodex.{
  create_answered, locate_from, make_root, locate, or_exhausted, reserve, max_attempts,
  create_recursively,
}
use douglas.Bract.Rolodex.Probing.{
  Probe, held, free, full, owner, probe_at, named, slot, probe_from, is_settled, free_unnamed,
}
use douglas.Bract.Rolodex.Reserving.{owner-put, settled-put, held-put, own_settled-put}
use douglas.Bract.Rolodex.Located.{new_record, Found, locate_from-Found}

-- A host on which every call goes well.
abbrev pub calm : Disk → Host
calm d = record { disk = d; answers = [] }

record_at :
    (kind : FilePath) (d : Disk) (f s t : Text) (next : Probe) (o : Option File)
    → named kind t d ≡ o
    → (next ≡ held s → (r : File) × (named kind s d ≡ some r) × (r.contents ≡ f))
    → probe_at f t next o ≡ held s
    → (r : File) × (named kind s d ≡ some r) × (r.contents ≡ f)
record_at kind d f s t next none n h p = absurd (cc p)
record_at kind d f s t next (some r) n h p = elim (Bool-cases (same_text r.contents f)) [
  | inl e ↦
      let same : t ≡ s = ground arith in
      (r, sym (ap (λ u. named kind u d) same) ∙ n, same_text_sound r.contents f e)
  | inr e ↦ h (ground arith)
]

module _ (sha256 : Text → List ℕ) (kind : FilePath) where
  -- The system name of a full name.
  abbrev pub reserved : Disk → Text → Option Text
  reserved d f = owner (probe_from sha256 kind max_attempts 0 d f)

  abbrev pub IsSettled : Disk → Type 0
  IsSettled d = (g : Text) → is_settled sha256 kind max_attempts 0 d g ≡ true

  held-record :
      (left attempt : ℕ) (d : Disk) (f s : Text)
      → probe_from sha256 kind left attempt d f ≡ held s
      → (r : File) × (named kind s d ≡ some r) × (r.contents ≡ f)
  unfolding probe_from
  held-record zero attempt d f s p = absurd (cc p)
  held-record (suc left) attempt d f s p =
      let t = slot sha256 kind f attempt in
      record_at kind d f s t _ (named kind t d) refl (held-record left (suc attempt) d f s) p

  owner_held : (p : Probe) (s : Text) → owner p ≡ some s → p ≡ held s
  owner_held (held t) s e = ap held (some-injective e)
  owner_held (free t) s e = absurd (cc e)
  owner_held full s e = absurd (cc e)

  -- No two full names have one system name.
  pub reserved-injective :
      (d : Disk) (f g s : Text) → reserved d f ≡ some s → reserved d g ≡ some s → f ≡ g
  reserved-injective d f g s a b =
      let (r, at, of_f) = held-record max_attempts 0 d f s (owner_held _ s a) in
      let (q, at', of_g) = held-record max_attempts 0 d g s (owner_held _ s b) in
      let same : r ≡ q = some-injective (sym at ∙ at') in
      sym of_f ∙ ap (λ x. x.contents) same ∙ of_g

  make_root-same : (create : Bool) (h : Host) → (make_root sha256 kind create h).1.disk ≡ h.disk
  unfolding create_recursively
  make_root-same false h = refl
  make_root-same true h = go (answer h)
    where
      go : (a : Answer) → (create_answered a h).1.disk ≡ h.disk
      go done = refl
      go (fails e part) = refl

  pub locate-Found :
      (create : Bool) (f : Text) (h : Host) (r : Option Text)
      → (locate sha256 kind f create h).0 ≡ ok r
      → Found sha256 kind f create r h.disk
          (locate sha256 kind f create h).1.disk
          (probe_from sha256 kind max_attempts 0 h.disk f)
  unfolding locate
  locate-Found create f h r e =
      let (u, e₁, s₁) =
        >>=-ok (make_root sha256 kind create) (λ _. locate_from sha256 max_attempts 0 kind f create)
          h r e in
      let left = (make_root sha256 kind create h).1 in
      subst
        (λ x.
          Found sha256 kind f create r h.disk x.1.disk
            (probe_from sha256 kind max_attempts 0 h.disk f))
        (sym s₁)
        (locate_from-Found sha256 kind f max_attempts 0 create h.disk left r
          (make_root-same create h) (sym (ap (λ x. x.0) s₁) ∙ e))

  -- What a reservation promises, of the records before and after it.
  abbrev pub Reserves : Text → Text → Disk → Disk → Type 0
  Reserves f s d d' =
      (reserved d' f ≡ some s)
      × ((g : Text) → same_text f g ≡ false → reserved d' g ≡ reserved d g)
      × IsSettled d'
      × ((p : FilePath) → ((t : Text) → Differs (join_name kind t) p) → lookup p d' ≡ lookup p d)

  Found-Reserves :
      (f s : Text) (d d' : Disk) (p : Probe)
      → IsSettled d
      → probe_from sha256 kind max_attempts 0 d f ≡ p
      → Found sha256 kind f true (some s) d d' p
      → Reserves f s d d'
  Found-Reserves f s d d' (held t) settled e (r, same) =
      subst (Reserves f s d) (sym same) (ap owner e ∙ sym r, λ g n. refl, settled, λ p n. refl)
  Found-Reserves f s d d' (free t) settled e (r, same) =
      let unnamed = free_unnamed sha256 kind max_attempts 0 d f t e in
      subst (Reserves f s d) (sym same) (
        ap owner (held-put sha256 kind d f t (new_record f) refl max_attempts 0 e) ∙ sym r,
        λ g n.
            owner-put sha256 kind d f t (new_record f) refl unnamed g n max_attempts 0 (settled g),
        λ g. elim (Bool-cases (same_text f g)) [
          | inl x ↦
              subst
                (λ y.
                  is_settled sha256 kind max_attempts 0 (put (join_name kind t) (new_record f) d) y
                  ≡ true)
                (same_text_sound f g x)
                (own_settled-put sha256 kind d f t (new_record f) refl max_attempts 0 e)
          | inr x ↦
              settled-put sha256 kind d f t (new_record f) refl unnamed g x max_attempts 0
                (settled g)
        ],
        λ p n. lookup-put_other (join_name kind t) p (new_record f) d (n t),
      )
  Found-Reserves f s d d' full settled e h = absurd h

  or_exhausted-ok :
      (f s : Text) (o : Option Text) (h : Host)
      → (or_exhausted sha256 f o h).0 ≡ ok s
      → (o ≡ some s) × (or_exhausted sha256 f o h ≡ (ok s, h))
  or_exhausted-ok f s none h e = absurd (cc e)
  or_exhausted-ok f s (some t) h e =
      let same : t ≡ s = ok-injective e in (ap some same, ap (λ x. (ok x, h)) same)

  -- A name that is reserved is found from then on, no other name gets or loses one by it, and
  -- nothing outside of the records is changed.
  pub reserve-Reserves :
      (f s : Text) (h : Host)
      → IsSettled h.disk
      → (reserve sha256 kind f h).0 ≡ ok s
      → Reserves f s h.disk (reserve sha256 kind f h).1.disk
  unfolding reserve
  reserve-Reserves f s h settled e =
      let (o, e₁, s₁) = >>=-ok (locate sha256 kind f true) (or_exhausted sha256 f) h s e in
      let left = (locate sha256 kind f true h).1 in
      let (is_s, end) = or_exhausted-ok f s o left (sym (ap (λ x. x.0) s₁) ∙ e) in
      subst (λ x. Reserves f s h.disk x.1.disk) (sym (s₁ ∙ end))
        (Found-Reserves f s h.disk left.disk _ settled refl (
          subst
            (λ y.
              Found sha256 kind f true y h.disk left.disk
                (probe_from sha256 kind max_attempts 0 h.disk f))
            is_s (locate-Found true f h o e₁)))
