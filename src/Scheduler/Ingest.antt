-- ===== src/Scheduler/Ingest.antt =====
-- build_scheduler.py: `_partition_jobs` and `_ingest`, which merge a batch of evaluated jobs.
use nixbot.Prelude.{
  ℕ, zero, suc, ◌+◌, String, Bool, true, false, not, none, some, List, [], ◌∷◌, ◌++◌, map, filter,
  elem, inter, subset, string_eq, length, is_nil, Result, ok, ◌>>=◌, if◌then◌else◌,
}
use nixbot.Models.{NixEvalJob, eval_error, eval_success, NixEvalJobSuccess, NixEvalJobError}
use nixbot.Scheduler.Types.{AttributeStatus, failed_eval, AttributeResult, success_result}
use nixbot.Scheduler.Closures.{
  Fault, StaticOrder, drvs, needs, compute_job_closures, compute_reverse_deps,
  sort_jobs_by_closures,
}
use nixbot.Scheduler.State.{State}

abbrev pub attr_of : NixEvalJob → String
attr_of (eval_error job) = job.attr
attr_of (eval_success job) = job.attr

unfoldable pub error_result : NixEvalJobError → AttributeResult
error_result job = record {
  attr = job.attr;
  status = failed_eval;
  job = eval_error job;
  error = some job.error;
  dependency_attr = none;
  first_failure_url = none;
  out_path = none;
  drv_path = none;
  system = none;
}

-- `_partition_jobs`: the results of the attributes that failed to evaluate, and the buildable jobs
unfoldable pub failed_evals : List NixEvalJob → List AttributeResult
failed_evals [] = []
failed_evals (eval_error job ∷ jobs) = error_result job ∷ failed_evals jobs
failed_evals (eval_success job ∷ jobs) = failed_evals jobs

unfoldable pub buildable : List String → List NixEvalJob → List NixEvalJobSuccess
buildable systems [] = []
buildable systems (eval_error job ∷ jobs) = buildable systems jobs
buildable systems (eval_success job ∷ jobs) =
    if elem job.system systems then job ∷ buildable systems jobs else buildable systems jobs

-- The variables of the settling loop; `results` are those that it appends.
pub record Settling : Type 0 where
  pub remaining : List NixEvalJobSuccess
  pub failed_drvs : List String
  pub cancelled_drvs : List String
  pub results : List AttributeResult
  pub settled_any : Bool

unfoldable pub blocking : Settling → NixEvalJobSuccess → List String
blocking t job = inter (needs job) t.failed_drvs

unfoldable pub settle : NixEvalJobSuccess → Settling → Settling
settle job t =
    if subset (blocking t job) t.cancelled_drvs
    then record {
      remaining = t.remaining;
      failed_drvs = job.drv_path ∷ t.failed_drvs;
      cancelled_drvs = job.drv_path ∷ t.cancelled_drvs;
      results = t.results ++ success_result job AttributeStatus.cancelled none none none ∷ [];
      settled_any = true;
    }
    else record {
      remaining = t.remaining;
      failed_drvs = job.drv_path ∷ t.failed_drvs;
      cancelled_drvs = t.cancelled_drvs;
      results =
          t.results ++ success_result job AttributeStatus.dependency_failed none none none ∷ [];
      settled_any = true;
    }

-- the body of the `for` loop
unfoldable pub settle_step : Settling → NixEvalJobSuccess → Settling
settle_step t job =
    if is_nil (blocking t job)
    then record t { remaining = t.remaining ++ job ∷ [] }
    else settle job t

unfoldable pub settle_pass : Settling → List NixEvalJobSuccess → Settling
settle_pass t [] = t
settle_pass t (job ∷ jobs) = settle_pass (settle_step t job) jobs

-- the `while settled_any` loop, with a step for each pass
unfoldable pub settle_rounds : ℕ → Settling → Settling
settle_rounds zero t = t
settle_rounds (suc fuel) t = elim t.settled_any [
  | false ↦ t
  | true ↦
      settle_rounds fuel
        (settle_pass (record t { remaining = []; settled_any = false }) t.remaining)
]

unfoldable pub settle_all : List NixEvalJobSuccess → State → Settling
settle_all candidates s = settle_rounds (length candidates + 2) (record {
  remaining = candidates;
  failed_drvs = s.failed_drvs;
  cancelled_drvs = s.cancelled_drvs;
  results = [];
  settled_any = true;
})

unfoldable pub fresh_of : List NixEvalJob → State → List NixEvalJob
fresh_of batch s = filter (λ job. not (elem (attr_of job) s.seen_attrs)) batch

abbrev pub running_jobs : State → List NixEvalJobSuccess
running_jobs s = map (λ t. t.1) s.running

-- the state behind the settling loop, without the closures
unfoldable pub admit : List String → List NixEvalJob → State → State
admit systems batch s =
    let fresh = fresh_of batch s in
    let t = settle_all (s.pending ++ buildable systems fresh) s in
    record s {
      results = (s.results ++ failed_evals fresh) ++ t.results;
      pending = t.remaining;
      failed_drvs = t.failed_drvs;
      cancelled_drvs = t.cancelled_drvs;
      seen_attrs = s.seen_attrs ++ map attr_of fresh;
    }

-- the closures, recomputed over the pending and the running jobs, and the topological order
unfoldable pub rebuild : StaticOrder → State → Result Fault State
rebuild static_order s =
    let closures = compute_job_closures s.pending (drvs (running_jobs s)) in
    sort_jobs_by_closures static_order s.pending closures >>= λ pending. ok (record s {
      job_closures = closures;
      reverse_deps = compute_reverse_deps closures;
      pending = pending;
    })

unfoldable pub ingest : StaticOrder → List String → List NixEvalJob → State → Result Fault State
ingest static_order systems batch s = rebuild static_order (admit systems batch s)
