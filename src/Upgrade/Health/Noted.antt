-- ===== src/Upgrade/Health/Noted.antt =====
-- What a run of the polls of `ConfirmHealthy` that succeeds has noted.
use douglas.Base.{
  map_err-eq-ok, some-injective, ℕ, zero, suc, ◌+◌, ◌≤◌, ◌<◌, ◌≡◌, refl, sym, ap, subst, ◌∙◌,
  String, Bool, true, false, Option, none, some, List, [], ◌∷◌, Result, ok, err, >>=-eq-ok,
  ok-injective, map_err, str_eq, str_eq_iff, ◌==◌, ==_iff, if◌then◌else◌, All, All-map, arith,
  Bool-cases, inl, inr,
}
use douglas.Upgrade.Health.{
  Unhealthy, Poll, Seen, get, core_services, compare_seen, check_service, check_services,
  check_once, poll_loop,
}

-- The service runs, as the process `pid`.
abbrev pub Runs : Poll → String → ℕ → Type 0
Runs poll service pid = ((poll service).pid ≡ ok pid) × ((poll service).is_active pid ≡ ok true)

abbrev Keeps : Seen → Seen → Type 0
Keeps seen later = (s : String) (pid : ℕ) → get s seen ≡ some pid → get s later ≡ some pid

get-first : (s : String) (pid : ℕ) (seen : Seen) → get s ((s, pid) ∷ seen) ≡ some pid
unfolding get
get-first s pid seen = rw ((str_eq_iff s s).1 refl) refl

insert-Keeps :
    (s : String) (pid : ℕ) (seen : Seen)
    → ((p : ℕ) → get s seen ≡ some p → p ≡ pid)
    → Keeps seen ((s, pid) ∷ seen)
unfolding get
insert-Keeps s pid seen agree t q g = elim (Bool-cases (str_eq s t)) [
  | inl e ↦ rw e (ap some (sym (agree q (ap (λ x. get x seen) ((str_eq_iff s t).0 e) ∙ g))))
  | inr e ↦ rw e g
]

compare_seen-ok :
    (s : String) (pid : ℕ) (o : Option ℕ) (seen later : Seen)
    → get s seen ≡ o
    → compare_seen s pid o seen ≡ ok later
    → (later ≡ (s, pid) ∷ seen) × Keeps seen later
compare_seen-ok s pid none seen later g e = (
  sym (ok-injective e),
  subst (Keeps seen) (ok-injective e) (insert-Keeps s pid seen (λ p h. absurd (cc (g, h)))),
)
compare_seen-ok s pid (some earlier) seen later g e = elim (Bool-cases (earlier == pid)) [
  | inl b ↦
      let same = ok-injective (sym (compared b) ∙ e) in
      (
        sym same,
        subst (Keeps seen) same (
            insert-Keeps s pid seen
              (λ p h. sym (some-injective (sym g ∙ h)) ∙ (==_iff earlier pid).0 b)),
      )
  | inr b ↦ absurd (refused b (sym e))
]
  where
    compared :
        (earlier == pid) ≡ true → compare_seen s pid (some earlier) seen ≡ ok ((s, pid) ∷ seen)
    compared b = rw b refl

    refused : (earlier == pid) ≡ false → ok later ≡ compare_seen s pid (some earlier) seen → ⊥
    refused b x = absurd (ground (arith, b, x))

-- The service runs as the process that is noted for it.
abbrev pub Noted : Poll → Seen → String → Type 0
Noted poll seen s = (pid : ℕ) × Runs poll s pid × (get s seen ≡ some pid)

Noted-Keeps :
    (poll : Poll) (seen later : Seen) (s : String)
    → Keeps seen later
    → Noted poll seen s
    → Noted poll later s
Noted-Keeps poll seen later s k (pid, r, g) = (pid, r, k s pid g)

alive_or :
    (alive : Bool) (s : String) (pid : ℕ) (r : Result Unhealthy Seen) (later : Seen) (e : Unhealthy)
    → (if alive then r else err e) ≡ ok later
    → (alive ≡ true) × (r ≡ ok later)
alive_or true s pid r later x e = (refl, e)
alive_or false s pid r later x e = absurd (cc e)

check_service-ok :
    (poll : Poll) (s : String) (seen later : Seen)
    → check_service poll s seen ≡ ok later
    → Noted poll later s × Keeps seen later
unfolding check_service
check_service-ok poll s seen later e =
    let (pid, a, e₁) = >>=-eq-ok (map_err _ (poll s).pid) _ e in
    let (alive, b, e₂) = >>=-eq-ok (map_err _ ((poll s).is_active pid)) _ e₁ in
    let (t, e₃) = alive_or alive s pid _ later _ e₂ in
    let (same, k) = compare_seen-ok s pid (get s seen) seen later refl e₃ in
    (
      (
        pid,
        (map_err-eq-ok _ _ pid a, map_err-eq-ok _ _ alive b ∙ ap ok t),
        ap (get s) same ∙ get-first s pid seen,
      ),
      k,
    )

check_services-ok :
    (poll : Poll) (services : List String) (seen later : Seen)
    → check_services poll services seen ≡ ok later
    → All (Noted poll later) services × Keeps seen later
unfolding check_services
check_services-ok poll [] seen later e = (tt, subst (Keeps seen) (ok-injective e) (λ s pid g. g))
check_services-ok poll (s ∷ services) seen later e =
    let (middle, e₁, e₂) = >>=-eq-ok (check_service poll s seen) _ e in
    let (noted, k) = check_service-ok poll s seen middle e₁ in
    let (others, k') = check_services-ok poll services middle later e₂ in
    ((Noted-Keeps poll middle later s k' noted, others), λ t pid g. k' t pid (k t pid g))

pub poll_loop-ok :
    (n i : ℕ) (host : ℕ → Poll) (seen later : Seen)
    → poll_loop n i host seen ≡ ok later
    → ((j : ℕ) → i ≤ j → j < i + n → All (Noted (host j) later) core_services) × Keeps seen later
unfolding poll_loop
poll_loop-ok zero i host seen later e =
    ((λ j a b. absurd (omega arith)), subst (Keeps seen) (ok-injective e) (λ s pid g. g))
poll_loop-ok (suc n) i host seen later e =
    let (middle, e₁, e₂) = >>=-eq-ok (check_once (host i) seen) _ e in
    let (noted, k) = check_services-ok (host i) core_services seen middle e₁ in
    let (others, k') = poll_loop-ok n (suc i) host middle later e₂ in
    (
      (λ j a b. elim (Bool-cases (i == j)) [
        | inl h ↦
            subst (λ x. All (Noted (host x) later) core_services) ((==_iff i j).0 h)
              (All-map (Noted (host i) middle) (Noted (host i) later) core_services
                (λ t. Noted-Keeps (host i) middle later t k') noted)
        | inr h ↦ others j (ground arith) (omega arith)
      ]),
      λ t pid g. k' t pid (k t pid g),
    )
