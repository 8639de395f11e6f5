-- ===== src/Scheduler/Dependents.antt =====
-- build_scheduler.py, `get_failed_dependents`: the search for the transitive dependents of a
-- failed job among the pending ones. The top of the Python stack is the head of `stack`.
use nixbot.Prelude.{
  ℕ, zero, suc, ◌+◌, String, not, ◌&&◌, List, [], ◌∷◌, ◌++◌, elem, string_eq, length, if◌then◌else◌,
}
use nixbot.Models.{NixEvalJobSuccess}
use nixbot.Scheduler.Closures.{Closures, drvs, by_drv, compute_reverse_deps}

pub record Walk : Type 0 where
  pub stack : List String
  pub seen : List String
  pub removed : List NixEvalJobSuccess

module _ (jobs : List NixEvalJobSuccess) where
  -- the body of the `for` loop
  unfoldable pub visit : Walk → String → Walk
  visit w dependent =
      if elem dependent (drvs jobs) && not (elem dependent w.seen)
      then record {
        stack = dependent ∷ w.stack;
        seen = dependent ∷ w.seen;
        removed = w.removed ++ by_drv jobs dependent;
      }
      else w

  unfoldable pub visit_all : Walk → List String → Walk
  visit_all w [] = w
  visit_all w (d ∷ ds) = visit_all (visit w d) ds

  -- the `while` loop, with a step for each entry of the stack
  unfoldable pub walk : (String → List String) → ℕ → Walk → Walk
  walk reverse_deps zero w = w
  walk reverse_deps (suc fuel) w = elim w.stack [
    | [] ↦ w
    | drv ∷ rest ↦ walk reverse_deps fuel (visit_all (record w { stack = rest }) (reverse_deps drv))
  ]

  unfoldable pub walk_from : Closures → String → Walk
  walk_from closures drv =
      walk (compute_reverse_deps closures) (length jobs + 1)
        (record { stack = drv ∷ []; seen = []; removed = [] })

unfoldable pub get_failed_dependents :
    NixEvalJobSuccess → List NixEvalJobSuccess → Closures → List NixEvalJobSuccess
get_failed_dependents job jobs closures = (walk_from jobs closures job.drv_path).removed
