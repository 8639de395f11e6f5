-- ===== src/Scheduler/Tests.antt =====
-- The scheduler's theorems at concrete evaluations.
mod Runs
use nixbot.Prelude.{
  inl, inr, ℕ, zero, suc, ◌+◌, String, ◌≡◌, refl, ◌≢◌, ◌↔◌, ◌⊎◌, Bool, true, false, ◌&&◌, Option,
  none, List, [], ◌∷◌, All, arith, count, elem, nodup, get, put, remove, inter, string_eq, nat_eq,
  ◌==◌, Result, ok, err, if◌then◌else◌, length, map, false≢true,
}
use nixbot.Prelude.Json.{Json, Fields, field, end}
use nixbot.Models.{NixEvalJob, eval_success, NixEvalJobSuccess, require_failure}
use nixbot.Scheduler.Types.{
  BuildOutcome, success, failure, failure_no_cache, AttributeStatus, succeeded, AttributeResult,
  success_result, outcome_status, schedule_success,
}
use nixbot.Scheduler.Outcomes.{outcome_status-succeeded, IsFine, schedule_success_iff}
use nixbot.Scheduler.Settle.{settle_all_clear, settle_all-accounts}
use nixbot.Scheduler.Order.{count-sort_jobs_by_closures}
use nixbot.Scheduler.Cache.{PostgresFailedBuildCache, FailedBuildCache, check}
use nixbot.Scheduler.Closures.{
  Fault, value_error, Closures, drvs, needs, by_drv, closure_of, closures_from,
  compute_job_closures, compute_reverse_deps, sort_jobs_by_closures,
}
use nixbot.Scheduler.Dependents.{get_failed_dependents, visit, visit_all, walk, walk_from}
use nixbot.Scheduler.Search.{Reaches, get_failed_dependents_iff, count-get_failed_dependents}
use nixbot.Scheduler.State.{State, initial, fail_dependents}
use nixbot.Scheduler.Dispatch.{dispatch, dispatch_ready, ready, is_ready}
use nixbot.Scheduler.Ingest.{
  ingest, rebuild, admit, fresh_of, buildable, failed_evals, settle_all, settle_rounds, settle_pass,
  settle_step, settle, blocking, attr_of,
}
use nixbot.Scheduler.Loop.{Config, Progress, Outcome, done, run_incremental, rounds}
use nixbot.Scheduler.Samples.{job, order, order-IsTopological, config, chain, waits}

abbrev a_job : NixEvalJobSuccess
a_job = job "a" []

abbrev others : List NixEvalJobSuccess
others = job "b" ("a" ∷ []) ∷ job "c" ("b" ∷ "a" ∷ []) ∷ job "d" [] ∷ []

abbrev edges : Closures
edges = ("b", "a" ∷ []) ∷ ("c", "b" ∷ []) ∷ ("d", []) ∷ []

dependents_found : drvs (get_failed_dependents a_job others edges) ≡ "b" ∷ "c" ∷ []
unfolding get_failed_dependents walk_from walk visit_all visit by_drv compute_reverse_deps elem
dependents_found = refl

get_failed_dependents_iff_example :
    (elem "c" (drvs (get_failed_dependents a_job others edges)) ≡ true)
    ↔ Reaches others (compute_reverse_deps edges) "a" "c"
get_failed_dependents_iff_example = get_failed_dependents_iff a_job others edges "c"

count-get_failed_dependents_example :
    count (λ j. j.attr == "b") (get_failed_dependents a_job others edges)
    ≡ count
        (λ j. j.attr == "b" && elem j.drv_path (drvs (get_failed_dependents a_job others edges)))
        others
count-get_failed_dependents_example =
    count-get_failed_dependents a_job others edges (λ j. j.attr == "b")

settled_before : State
settled_before = record (initial none) { failed_drvs = "a" ∷ []; cancelled_drvs = "a" ∷ [] }

settle_all_clear_example :
    All
      (λ job. inter (needs job) (settle_all others settled_before).failed_drvs ≡ [])
      (settle_all others settled_before).remaining
settle_all_clear_example = settle_all_clear others settled_before

-- The job that needs `a` is settled, then the one that needs that job; the last one remains.
others_settled : drvs (settle_all others settled_before).remaining ≡ "d" ∷ []
unfolding settle_all settle_rounds settle_pass settle_step settle blocking needs elem settled_before
others_settled = refl

sorted_first :
    sort_jobs_by_closures order
      (job "c" ("b" ∷ []) ∷ job "b" [] ∷ [])
      (compute_job_closures (job "c" ("b" ∷ []) ∷ job "b" [] ∷ []) [])
    ≡ ok (job "b" [] ∷ job "c" ("b" ∷ []) ∷ [])
unfolding sort_jobs_by_closures compute_job_closures closures_from closure_of by_drv order elem get
    put needs
sorted_first = refl

count-sort_jobs_by_closures_example :
    count (λ j. j.attr == "b") (job "b" [] ∷ job "c" ("b" ∷ []) ∷ [])
    ≡ count (λ j. j.attr == "b") (job "c" ("b" ∷ []) ∷ job "b" [] ∷ [])
count-sort_jobs_by_closures_example =
    count-sort_jobs_by_closures order-IsTopological (job "c" ("b" ∷ []) ∷ job "b" [] ∷ []) []
      sorted_first (λ j. j.attr == "b")

outcome_status-succeeded_example : ((outcome_status a_job failure).0 ≡ succeeded) ↔ (
    (require_failure a_job ≡ true) × (failure ≡ failure)
    ⊎ (require_failure a_job ≡ false) × (failure ≡ success))
outcome_status-succeeded_example = outcome_status-succeeded a_job failure

some_results : List AttributeResult
some_results =
    success_result a_job succeeded none none none
    ∷ success_result a_job AttributeStatus.cancelled none none none
    ∷ []

schedule_success_iff_example : (schedule_success some_results ≡ true) ↔ All IsFine some_results
schedule_success_iff_example = schedule_success_iff some_results

abbrev empty_cache : PostgresFailedBuildCache
empty_cache = record { rows = []; now = "now" }
