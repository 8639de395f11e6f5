-- ===== src/Scheduler/Types.antt =====
-- build_scheduler.py: outcomes, statuses and results, and how an outcome becomes a status.
use nixbot.Prelude.{
  String, Bool, true, false, not, ◌&&◌, ◌||◌, Option, none, some, List, any, filter_map, Dict, get,
  string_eq, if◌then◌else◌,
}
use nixbot.Models.{
  NixEvalJob, NixEvalJobSuccess, build_dependencies_only, ignore_failure, require_failure,
}

pub data BuildOutcome : Type 0 where
  success failure failure_no_cache post_build_failure cancelled : BuildOutcome

pub data AttributeStatus : Type 0 where
  succeeded failed cancelled failed_eval dependency_failed : AttributeStatus
  cached_failure skipped_local ignored_failure : AttributeStatus

-- `status in TERMINAL_FAILURES`
unfoldable pub terminal_failure : AttributeStatus → Bool
terminal_failure AttributeStatus.failed = true
terminal_failure AttributeStatus.failed_eval = true
terminal_failure AttributeStatus.dependency_failed = true
terminal_failure AttributeStatus.cached_failure = true
terminal_failure _ = false

-- The structured failure of a result is kept in memory for the report alone, and is not modelled.
pub record AttributeResult : Type 0 where
  pub attr : String
  pub status : AttributeStatus
  pub job : NixEvalJob
  pub error : Option String
  pub dependency_attr : Option String
  pub first_failure_url : Option String
  pub out_path : Option String
  pub drv_path : Option String
  pub system : Option String

is_cancelled : AttributeStatus → Bool
is_cancelled AttributeStatus.cancelled = true
is_cancelled _ = false

-- `ScheduleResult.success`
unfoldable pub schedule_success : List AttributeResult → Bool
unfolding terminal_failure is_cancelled
schedule_success results =
    not (any (λ r. terminal_failure r.status || is_cancelled r.status) results)

skipped_out_path : AttributeStatus → String → Option String → Option (String × String)
skipped_out_path AttributeStatus.skipped_local attr (some path) = some (attr, path)
skipped_out_path _ attr path = none

-- `ScheduleResult.skipped_out_paths`
unfoldable pub skipped_out_paths : List AttributeResult → List (String × String)
unfolding skipped_out_path
skipped_out_paths results = filter_map (λ r. skipped_out_path r.status r.attr r.out_path) results

is_failure : BuildOutcome → Bool
is_failure BuildOutcome.failure = true
is_failure _ = false

is_success : BuildOutcome → Bool
is_success BuildOutcome.success = true
is_success _ = false

-- `outcome_status` behind its test for a cancelled build
status_of_built : NixEvalJobSuccess → BuildOutcome → AttributeStatus × Option String
unfolding is_failure is_success
status_of_built job outcome =
    if require_failure job
    then if is_failure outcome
      then (AttributeStatus.succeeded, none)
      else if is_success outcome
      then (AttributeStatus.failed, some "the build succeeded but requireFailure is set")
      else (AttributeStatus.failed, none)
    else if not (is_success outcome) && ignore_failure job
    then (AttributeStatus.ignored_failure, none)
    else if not (is_success outcome)
    then (AttributeStatus.failed, none)
    else (AttributeStatus.succeeded, none)

unfoldable pub outcome_status : NixEvalJobSuccess → BuildOutcome → AttributeStatus × Option String
unfolding status_of_built
outcome_status job BuildOutcome.cancelled = (AttributeStatus.cancelled, none)
outcome_status job outcome = status_of_built job outcome

-- `job.outputs.get("out")`: a missing output and a null one are both `None`
unfoldable pub out_output : Dict String (Option String) → Option String
out_output outputs = elim (get outputs "out") [ none ↦ none | some path ↦ path ]

unfoldable pub success_result :
    NixEvalJobSuccess
    → AttributeStatus
    → Option String
    → Option String
    → Option String
    → AttributeResult
success_result job status error dependency_attr first_failure_url = record {
  attr = job.attr;
  status = status;
  job = NixEvalJob.eval_success job;
  error = error;
  dependency_attr = dependency_attr;
  first_failure_url = first_failure_url;
  out_path = if build_dependencies_only job then none else out_output job.outputs;
  drv_path = some job.drv_path;
  system = some job.system;
}
