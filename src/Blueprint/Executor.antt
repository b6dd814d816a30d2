-- ===== src/Blueprint/Executor.antt =====
-- The command trait and `JournalingExecutor` of blueprint/src/lib.rs. The reporting through `Span`
-- is left out; an error value stands for the boxed error.
use douglas.Base.{ℕ, suc, String, Bool, true, false, List, [], ◌∷◌, ◌++◌, reverse, Result, ok, err}

-- A boxed `dyn Command<C>`: `run` and `rollback` take `&mut self`, so each may change the
-- command's own state as well as the context.
pub record Command (C E : Type 0) : Type 1 where
  pub State : Type 0
  pub state : State
  pub name : State → String
  pub run : State → C → Result E (Unit {0}) × State × C
  pub rollback : State → C → Result E (Unit {0}) × State × C
  pub skip : State → C → Bool

pub data ExecutionResult (E : Type 0) : Type 0 where
  success : ExecutionResult E
  failed : ℕ → String → E → List E → ExecutionResult E

pub record JournalingExecutor (C E : Type 0) : Type 1 where
  pub journal : List (Command C E)

abbrev pub Outcome : Type 0 → Type 0 → Type 1
Outcome C E = ExecutionResult E × JournalingExecutor C E × C

abbrev pub collect : {E : Type 0} → Result E (Unit {0}) → List E → List E
collect (ok _) errors = errors
collect (err e) errors = e ∷ errors

module _ {C E : Type 0} where
  unfoldable pub new : JournalingExecutor C E
  new = record { journal = [] }

  abbrev pub run_command : Command C E → C → Result E (Unit {0}) × Command C E × C
  run_command cmd c = let (r, s, c') = cmd.run cmd.state c in (r, record cmd { state = s }, c')

  abbrev pub rollback_command : Command C E → C → Result E (Unit {0}) × Command C E × C
  rollback_command cmd c =
      let (r, s, c') = cmd.rollback cmd.state c in (r, record cmd { state = s }, c')

  abbrev pub push : JournalingExecutor C E → Command C E → JournalingExecutor C E
  push ex cmd = record { journal = ex.journal ++ cmd ∷ [] }

  -- The loop of `rollback`, over the drained journal in the order in which it is walked. An error
  -- is kept and the walk goes on.
  unfoldable pub rollback_each : List (Command C E) → C → List E × C
  rollback_each [] c = ([], c)
  rollback_each (cmd ∷ rest) c =
      let (r, cmd', c') = rollback_command cmd c in
      let (errors, c'') = rollback_each rest c' in (collect r errors, c'')

  -- `self.journal.drain(..).rev()`
  unfoldable pub rollback : JournalingExecutor C E → C → List E × JournalingExecutor C E × C
  unfolding rollback_each
  rollback ex c =
      let (errors, c') = rollback_each (reverse ex.journal) c in
      (errors, record { journal = [] }, c')

  -- What follows `command.run`: the next command, or the rollback of what is in the journal. The
  -- command that failed is not in the journal.
  unfoldable pub settle :
      ℕ
      → String
      → (JournalingExecutor C E → C → Outcome C E)
      → JournalingExecutor C E
      → Result E (Unit {0})
      → Command C E
      → C
      → Outcome C E
  settle i name next ex (ok _) cmd c = next (push ex cmd) c
  settle i name next ex (err e) cmd c =
      let (errors, ex', c') = rollback ex c in (failed i name e errors, ex', c')

  -- The loop of `run` from step `i`.
  unfoldable pub run_from : ℕ → List (Command C E) → JournalingExecutor C E → C → Outcome C E
  unfolding settle
  run_from i [] ex c = (success, ex, c)
  run_from i (cmd ∷ rest) ex c = elim (cmd.skip cmd.state c) [
    | true ↦ run_from (suc i) rest (push ex cmd) c
    | false ↦
        let (r, cmd', c') = run_command cmd c in
        settle i (cmd.name cmd.state) (run_from (suc i) rest) ex r cmd' c'
  ]

  unfoldable pub run : List (Command C E) → JournalingExecutor C E → C → Outcome C E
  unfolding run_from
  run commands ex c = run_from 0 commands ex c
