-- ===== src/Scheduler/State.antt =====
-- build_scheduler.py: `_State`, and the operations on it that no build waits for.
use nixbot.Prelude.{
  ℕ, String, not, Option, none, some, List, [], ◌∷◌, ◌++◌, filter, elem, discard, get, put,
  string_eq, Result, ok, err, ◌>>=◌,
}
use nixbot.Models.{NixEvalJobSuccess}
use nixbot.Scheduler.Types.{AttributeStatus, AttributeResult, success_result}
use nixbot.Scheduler.Cache.{FailedBuildCache}
use nixbot.Scheduler.Closures.{Fault, key_error, Closures, drvs}
use nixbot.Scheduler.Dependents.{get_failed_dependents}

-- `running` maps a task, here its number, to its job. `started` counts the tasks created, and
-- `cache` and `reported` are the state behind the scheduler's cache and `on_result`.
pub record State : Type 0 where
  pub results : List AttributeResult
  pub pending : List NixEvalJobSuccess
  pub job_closures : Closures
  pub running : List (ℕ × NixEvalJobSuccess)
  pub started : ℕ
  pub reverse_deps : String → List String
  pub failed_drvs : List String
  pub cancelled_drvs : List String
  pub seen_attrs : List String
  pub cache : Option FailedBuildCache
  pub reported : List AttributeResult

abbrev pub initial : Option FailedBuildCache → State
initial cache = record {
  results = [];
  pending = [];
  job_closures = [];
  running = [];
  started = 0;
  reverse_deps = λ _. [];
  failed_drvs = [];
  cancelled_drvs = [];
  seen_attrs = [];
  cache = cache;
  reported = [];
}

-- `self.job_closures[dependent].discard(drv_path)` for each dependent
unfoldable pub discard_from : String → List String → Closures → Result Fault Closures
discard_from drv [] closures = ok closures
discard_from drv (dependent ∷ rest) closures = elim (get closures dependent) [
  | none ↦ err key_error
  | some deps ↦ discard_from drv rest (put dependent (discard drv deps) closures)
]

unfoldable pub prune : String → State → Result Fault State
prune drv s = do
  closures ← discard_from drv (s.reverse_deps drv) s.job_closures
  ok (record s { job_closures = closures })

abbrev pub append_result : AttributeResult → State → State
append_result r s = record s { results = s.results ++ r ∷ [] }

-- the `for` loop of `fail_dependents`
unfoldable pub settle_dependents :
    NixEvalJobSuccess → AttributeStatus → List NixEvalJobSuccess → State → Result Fault State
settle_dependents job status [] s = ok s
settle_dependents job status (dependent ∷ rest) s = do
  s' ←
      prune dependent.drv_path
        (append_result (success_result dependent status none (some job.attr) none) s)
  settle_dependents job status rest s'

cancels : AttributeStatus → List String → List String
cancels AttributeStatus.cancelled settled = settled
cancels _ settled = []

-- the part of `fail_dependents` above its loop
unfoldable pub mark_settled : AttributeStatus → List String → State → State
unfolding cancels
mark_settled status settled s = record s {
  failed_drvs = s.failed_drvs ++ settled;
  cancelled_drvs = s.cancelled_drvs ++ cancels status settled;
  pending = filter (λ j. not (elem j.drv_path settled)) s.pending;
}

unfoldable pub fail_dependents : NixEvalJobSuccess → AttributeStatus → State → Result Fault State
fail_dependents job status s =
    let dependents = get_failed_dependents job s.pending s.job_closures in
    settle_dependents job status dependents (mark_settled status (job.drv_path ∷ drvs dependents) s)

unfoldable pub fail_each : List NixEvalJobSuccess → State → State
fail_each [] s = s
fail_each (job ∷ jobs) s = fail_each jobs (
    append_result
      (success_result job AttributeStatus.failed (some "unresolvable dependencies") none none) s)

unfoldable pub fail_unresolvable : State → State
fail_unresolvable s = let s' = fail_each s.pending s in record s' { pending = [] }
