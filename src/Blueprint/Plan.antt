-- ===== src/Blueprint/Plan.antt =====
-- `resolve_plan`, `run_plan` and `execute_plan` of blueprint/src/bootstrap.rs. The text of the
-- failure, `step {step} ({name}): {error}`, is kept as the parts that it prints.
use douglas.Base.{ℕ, ◌≡◌, refl, String, List, [], ◌∷◌, Result, ok, err, All}
use douglas.Blueprint.Executor.{Command, success, failed, new, Outcome, rollback_each, run}
use douglas.Blueprint.Saga.{Undoes, Restored, run_from-Restored}

pub record Reason (E : Type 0) : Type 0 where
  pub step : ℕ
  pub step_name : String
  pub error : E

module _ {C E X : Type 0} where
  -- The hint that `resolve_plan` reports is left out, and it changes nothing else.
  abbrev pub resolve_plan : Result X (List (Command C E)) → Result X (List (Command C E))
  resolve_plan plan = plan

  abbrev conclude : (Reason E → X) → Outcome C E → Result X (Unit {0}) × C
  conclude on_failed (success, ex, c) = (ok tt, c)
  conclude on_failed (failed i name e rollback_errors, ex, c) =
      (err (on_failed (record { step = i; step_name = name; error = e })), c)

  unfoldable pub execute_plan : List (Command C E) → C → (Reason E → X) → Result X (Unit {0}) × C
  unfolding run new
  execute_plan plan c on_failed = conclude on_failed (run plan new c)

  abbrev execute_resolved :
      Result X (List (Command C E)) → C → (Reason E → X) → Result X (Unit {0}) × C
  execute_resolved (ok plan) c on_failed = execute_plan plan c on_failed
  execute_resolved (err x) c on_failed = (err x, c)

  -- `on_failed` takes a list of reasons here.
  unfoldable pub run_plan :
      Result X (List (Command C E)) → C → (List (Reason E) → X) → Result X (Unit {0}) × C
  unfolding execute_plan
  run_plan plan c on_failed =
      execute_resolved (resolve_plan plan) c (λ reason. on_failed (reason ∷ []))

  conclude-atomic :
      (c : C) (on_failed : Reason E → X) (o : Outcome C E) (x : X)
      → Restored c o
      → (conclude on_failed o).0 ≡ err x
      → (conclude on_failed o).1 ≡ c
  conclude-atomic c on_failed (success, ex, c') x h e = cc
  conclude-atomic c on_failed (failed i n e' es, ex, c') x h e = h.2

  -- A plan whose commands all undo themselves is atomic: if it returns an error, the context is the
  -- one that it was given.
  pub execute_plan-atomic :
      (plan : List (Command C E)) (c : C) (on_failed : Reason E → X) (x : X)
      → All Undoes plan
      → (execute_plan plan c on_failed).0 ≡ err x
      → (execute_plan plan c on_failed).1 ≡ c
  unfolding execute_plan rollback_each
  execute_plan-atomic plan c on_failed x u e =
      conclude-atomic c on_failed _ x (run_from-Restored c 0 plan new c u refl) e

  -- `run_plan` is atomic in the same sense, also where the plan could not be made.
  pub run_plan-atomic :
      (plan : Result X (List (Command C E))) (c : C) (on_failed : List (Reason E) → X) (x : X)
      → ((commands : List (Command C E)) → plan ≡ ok commands → All Undoes commands)
      → (run_plan plan c on_failed).0 ≡ err x
      → (run_plan plan c on_failed).1 ≡ c
  unfolding run_plan
  run_plan-atomic (ok plan) c on_failed x u e =
      execute_plan-atomic plan c (λ reason. on_failed (reason ∷ [])) x (u plan refl) e
  run_plan-atomic (err x') c on_failed x u e = refl
