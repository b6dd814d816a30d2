-- ===== src/Tests/Blueprint.antt =====
-- Plans over a context that is a list of numbers.
use douglas.Base.{if◌then◌else◌, ℕ, ◌≡◌, refl, String, false, List, [], ◌∷◌, ok, err, All}
use douglas.Blueprint.Executor.{Command, run_from, rollback}
use douglas.Blueprint.Saga.{Undoes}
use douglas.Blueprint.History.{
  History, HistoryError, cannot_rollback, current, push, is_initial_state, rollback-push,
}
use douglas.Blueprint.History
use douglas.Blueprint.Plan.{execute_plan, run_plan, execute_plan-atomic}

abbrev drop_first : List ℕ → List ℕ
drop_first [] = []
drop_first (x ∷ xs) = xs

-- Puts a number in front, and takes the first number away again.
abbrev put : ℕ → Command (List ℕ) String
put n = record {
  State = Unit {0};
  state = tt;
  name = λ _. "put";
  run = λ _ c. (ok tt, tt, n ∷ c);
  rollback = λ _ c. (ok tt, tt, drop_first c);
  skip = λ _ _. false;
}

abbrev boom : Command (List ℕ) String
boom = record {
  State = Unit {0};
  state = tt;
  name = λ _. "boom";
  run = λ _ c. (err "boom", tt, c);
  rollback = λ _ c. (ok tt, tt, c);
  skip = λ _ _. false;
}

abbrev plan : List (Command (List ℕ) String)
plan = put 1 ∷ put 2 ∷ boom ∷ []

put-Undoes : (n : ℕ) → Undoes (put n)
put-Undoes n = record {
  skipped = λ c h. absurd (cc h);
  undone = λ c h. (refl, refl);
  cleaned = λ c e h. absurd (cc h);
}

boom-Undoes : Undoes boom
boom-Undoes = record {
  skipped = λ c h. absurd (cc h);
  undone = λ c h. absurd (cc h);
  cleaned = λ c e h. refl;
}

plan-Undoes : All Undoes plan
plan-Undoes = (put-Undoes 1, (put-Undoes 2, (boom-Undoes, tt)))

plan_fails : (execute_plan plan (7 ∷ []) (λ r. r.step)).0 ≡ err 2
unfolding execute_plan run_from rollback
plan_fails = refl

execute_plan-atomic_example : (execute_plan plan (7 ∷ []) (λ r. r.step)).1 ≡ 7 ∷ []
execute_plan-atomic_example =
    execute_plan-atomic plan (7 ∷ []) (λ r. r.step) 2 plan-Undoes plan_fails

run_plan_fails :
    (run_plan (ok plan) (7 ∷ []) (λ rs. rs)).0
    ≡ err (record { step = 2; step_name = "boom"; error = "boom" } ∷ [])
unfolding run_plan run_from rollback
run_plan_fails = refl

abbrev numbers : History ℕ
numbers = record { initial = 1; rest = 2 ∷ [] }

rollback-push_example :
    History.rollback (push numbers 3)
    ≡ (if is_initial_state numbers then err cannot_rollback else ok numbers)
rollback-push_example = rollback-push numbers 3
