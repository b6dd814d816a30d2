-- ===== src/Blueprint/Saga.antt =====
-- What a run of commands that undo themselves leaves, in the journal and in the context.
use douglas.Base.{
  ℕ, suc, ◌≡◌, refl, ap, true, List, [], ◌∷◌, reverse, reverse-append, String, Result, ok, err, All,
  Bool-cases, inl, inr,
}
use douglas.Blueprint.Executor.{
  Command, success, failed, JournalingExecutor, run_command, rollback_command, push, Outcome,
  rollback_each, rollback, settle, run_from,
}

module _ {C E : Type 0} where
  -- A command that undoes itself: a run that is skipped leaves nothing to undo, what a successful
  -- run did is undone by the rollback with no error, and a run that fails cleans up behind itself.
  pub record Undoes (cmd : Command C E) : Type 0 where
    pub skipped :
        (c : C)
        → cmd.skip cmd.state c ≡ true
        → ((rollback_command cmd c).0 ≡ ok tt) × ((rollback_command cmd c).2 ≡ c)
    pub undone :
        (c : C)
        → (run_command cmd c).0 ≡ ok tt
        → let (r, cmd', c') = run_command cmd c in
          ((rollback_command cmd' c').0 ≡ ok tt) × ((rollback_command cmd' c').2 ≡ c)
    pub cleaned : (c : C) (e : E) → (run_command cmd c).0 ≡ err e → (run_command cmd c).2 ≡ c

  -- Rolling the journal back from context `c` leads to `c0` with no error.
  abbrev pub Restores : C → JournalingExecutor C E → C → Type 0
  Restores c0 ex c = rollback_each (reverse ex.journal) c ≡ ([], c0)

  push-Restores :
      (c0 : C) (ex : JournalingExecutor C E) (cmd : Command C E) (c c' : C)
      → Restores c0 ex c
      → (rollback_command cmd c').0 ≡ ok tt
      → (rollback_command cmd c').2 ≡ c
      → Restores c0 (push ex cmd) c'
  unfolding rollback_each
  push-Restores c0 ex cmd c c' h r e = rw (reverse-append ex.journal (cmd ∷ [])) (rw (r, e) h)

  abbrev pub Restored : C → Outcome C E → Type 1
  Restored c0 (success, ex, c) = Restores c0 ex c × Unit {1}
  Restored c0 (failed i n e errors, ex, c) = (errors ≡ []) × (ex.journal ≡ []) × (c ≡ c0)

  settle-Restored :
      (c0 : C) (i : ℕ) (n : String) (next : JournalingExecutor C E → C → Outcome C E)
      (ex : JournalingExecutor C E) (c : C) (r : Result E (Unit {0})) (cmd : Command C E) (c' : C)
      → Restores c0 ex c
      → (r ≡ ok tt → Restored c0 (next (push ex cmd) c'))
      → ((e : E) → r ≡ err e → c' ≡ c)
      → Restored c0 (settle i n next ex r cmd c')
  unfolding settle rollback
  settle-Restored c0 i n next ex c (ok _) cmd c' h k f = k refl
  settle-Restored c0 i n next ex c (err e) cmd c' h k f =
      rw (f e refl) (ap (λ p. p.0) h, refl, ap (λ p. p.1) h)

  -- If every command undoes itself and the journal rolls back to `c0`, then a plan that succeeds
  -- leaves a journal that still rolls back to `c0`, and a plan that fails has gone back to `c0`
  -- itself, with an empty journal and no rollback error.
  pub run_from-Restored :
      (c0 : C) (i : ℕ) (commands : List (Command C E)) (ex : JournalingExecutor C E) (c : C)
      → All Undoes commands
      → Restores c0 ex c
      → Restored c0 (run_from i commands ex c)
  unfolding run_from
  run_from-Restored c0 i [] ex c u h = (h, tt)
  run_from-Restored c0 i (x ∷ xs) ex c u h = elim (Bool-cases (x.skip x.state c)) [
    | inl s ↦ rw s (
        run_from-Restored c0 (suc i) xs (push ex x) c u.1
          (push-Restores c0 ex x c c h (u.0.skipped c s).0 (u.0.skipped c s).1))
    | inr s ↦ rw s (
        settle-Restored c0 i _ (run_from (suc i) xs) ex c _ _ _ h
          (λ r.
            run_from-Restored c0 (suc i) xs _ _ u.1
              (push-Restores c0 ex _ c _ h (u.0.undone c r).0 (u.0.undone c r).1))
          (u.0.cleaned c))
  ]
