-- ===== src/Scheduler/Dispatch.antt =====
-- build_scheduler.py: `_classify`, `_dispatch_ready` and `_finish_job`.
use nixbot.Prelude.{
  ℕ, zero, suc, ◌+◌, String, Bool, true, false, not, ◌&&◌, Option, none, some, List, [], ◌∷◌, ◌++◌,
  filter, length, get, string_eq, ◌==◌, Result, ok, err, ◌>>=◌, if◌then◌else◌,
}
use nixbot.Models.{
  CacheStatus, NixEvalJobSuccess, NixEvalJobSuccess-discrete, ignore_failure, require_failure,
}
use nixbot.Scheduler.Types.{
  BuildOutcome, AttributeStatus, skipped_local, cached_failure, dependency_failed, success_result,
  outcome_status,
}
use nixbot.Scheduler.Cache.{CachedFailure, FailedBuildCache, check, add}
use nixbot.Scheduler.Closures.{Fault, value_error, Closures}
use nixbot.Scheduler.State.{State, append_result, prune, fail_dependents}
use Prim.Native.String.{◌++◌ as append}

-- Python's `list.remove`
unfoldable pub remove_job :
    NixEvalJobSuccess → List NixEvalJobSuccess → Result Fault (List NixEvalJobSuccess)
remove_job job [] = err value_error
remove_job job (j ∷ jobs) = elim (NixEvalJobSuccess-discrete j job) [
  | yes _ ↦ ok jobs
  | no _ ↦ remove_job job jobs >>= (λ rest. ok (j ∷ rest))
]

pub data Action : Type 0 where
  run skip skip_failed : Action

url_suffix : String → String
url_suffix url = if url == "" then "" else append ": " url

unfoldable pub cached_failure_error : CachedFailure → String
unfolding url_suffix
cached_failure_error c =
    append "skipped due to cached failure, first failed at " (append c.time (url_suffix c.url))

-- The answer of the failed-build cache, which is asked only where there is one.
unfoldable pub cached : NixEvalJobSuccess → Option FailedBuildCache → Option CachedFailure
cached job none = none
cached job (some cache) = if ignore_failure job then none else check cache job.drv_path

unfoldable pub is_local : Option CacheStatus → Bool
is_local (some CacheStatus.local) = true
is_local _ = false

-- `_classify` behind its test for a local output
unfoldable pub classify_cached : NixEvalJobSuccess → Option CachedFailure → State → State × Action
classify_cached job none s = (s, run)
classify_cached job (some c) s = (
  append_result
      (success_result job cached_failure (some (cached_failure_error c)) none (some c.url)) s,
  skip_failed,
)

unfoldable pub classify : NixEvalJobSuccess → State → State × Action
classify job s =
    if require_failure job
    then (s, run)
    else if is_local job.cache_status
    then (append_result (success_result job skipped_local none none none) s, skip)
    else classify_cached job (cached job s.cache) s

-- `asyncio.create_task(self.executor.build(job))`
unfoldable pub start : NixEvalJobSuccess → State → State
start job s = record s { running = s.running ++ (s.started, job) ∷ []; started = s.started + 1 }

unfoldable pub act : NixEvalJobSuccess → Action → State → Result Fault State
act job run s = ok (start job s)
act job skip s = prune job.drv_path s
act job skip_failed s = fail_dependents job dependency_failed s >>= prune job.drv_path

-- the body of the `for` loop of `_dispatch_ready`
unfoldable pub dispatch : NixEvalJobSuccess → State → Result Fault State
dispatch job s = do
  pending ← remove_job job s.pending
  let c = classify job (record s { pending = pending })
  act job c.1 c.0

unfoldable pub dispatch_all : List NixEvalJobSuccess → State → Result Fault State
dispatch_all [] s = ok s
dispatch_all (job ∷ jobs) s = dispatch job s >>= dispatch_all jobs

is_empty : Option (List String) → Bool
is_empty none = true
is_empty (some []) = true
is_empty (some (_ ∷ _)) = false

-- `not state.job_closures.get(job.drv_path)`
unfoldable pub is_ready : Closures → NixEvalJobSuccess → Bool
unfolding is_empty
is_ready closures job = is_empty (get closures job.drv_path)

abbrev pub ready : State → List NixEvalJobSuccess
ready s = filter (is_ready s.job_closures) s.pending

-- the `while True` loop; `any_ready` is its second component
unfoldable pub dispatch_rounds : ℕ → Bool → State → Result Fault (State × Bool)
dispatch_rounds zero any_ready s = ok (s, any_ready)
dispatch_rounds (suc fuel) any_ready s = elim (ready s) [
  | [] ↦ ok (s, any_ready)
  | job ∷ jobs ↦ dispatch_all (job ∷ jobs) s >>= dispatch_rounds fuel true
]

-- A round for each pending job, and one that finds none ready.
unfoldable pub dispatch_ready : State → Result Fault (State × Bool)
dispatch_ready s = dispatch_rounds (length s.pending + 1) false s

is_failure : BuildOutcome → Bool
is_failure BuildOutcome.failure = true
is_failure _ = false

unfoldable pub record_failure :
    String → NixEvalJobSuccess → BuildOutcome → Option FailedBuildCache → Option FailedBuildCache
unfolding is_failure
record_failure build_url job outcome none = none
record_failure build_url job outcome (some cache) =
    if is_failure outcome && not (require_failure job) && not (ignore_failure job)
    then some (add cache job.drv_path build_url)
    else some cache

-- `_finish_job` behind the append of the result and the cache: cancelled builds cancel their
-- dependents, failed ones fail them, and a failed post-build step does neither.
unfoldable pub propagate : NixEvalJobSuccess → BuildOutcome → State → Result Fault State
propagate job BuildOutcome.success s = ok s
propagate job BuildOutcome.post_build_failure s = ok s
propagate job BuildOutcome.cancelled s = fail_dependents job AttributeStatus.cancelled s
propagate job _ s = fail_dependents job dependency_failed s

unfoldable pub finish_job : String → NixEvalJobSuccess → BuildOutcome → State → Result Fault State
finish_job build_url job outcome s =
    let (status, error) = outcome_status job outcome in
    let s' = append_result (success_result job status error none none) s in
    let recorded = record s' { cache = record_failure build_url job outcome s'.cache } in
    propagate job outcome recorded >>= prune job.drv_path
