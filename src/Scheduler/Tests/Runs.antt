-- ===== src/Scheduler/Tests/Runs.antt =====
-- The scheduler's theorems at a whole run.
use nixbot.Prelude.{
  false≢true, String, ◌≡◌, refl, ◌≢◌, ◌⊎◌, true, false, Option, none, some, List, [], ◌∷◌, elem,
  nodup, get, put, remove, string_eq, nat_eq, ◌==◌, ok, err, if◌then◌else◌,
}
use nixbot.Models.{
  build_dependencies_only, NixEvalJobSuccess-discrete, eval_success, NixEvalJobSuccess, flag,
  require_failure, ignore_failure,
}
use nixbot.Scheduler.Types.{
  success, succeeded, out_output, AttributeStatus, AttributeResult, success_result, outcome_status,
}
use nixbot.Scheduler.Cache.{CachedFailure, postgres, check}
use nixbot.Scheduler.Closures.{
  value_error, Closures, needs, by_drv, closure_of, closures_from, compute_job_closures,
  compute_reverse_deps, sort_jobs_by_closures,
}
use nixbot.Scheduler.Dependents.{get_failed_dependents, visit, visit_all, walk, walk_from}
use nixbot.Scheduler.State.{
  State, initial, prune, discard_from, mark_settled, settle_dependents, fail_dependents,
}
use nixbot.Scheduler.Dispatch.{
  dispatch, dispatch_ready, dispatch_rounds, dispatch_all, ready, is_ready, remove_job, classify,
  classify_cached, cached_failure_error, cached, is_local, start, act, finish_job, propagate,
  record_failure,
}
use nixbot.Scheduler.Ingest.{
  ingest, rebuild, admit, fresh_of, buildable, failed_evals, settle_all, settle_rounds, settle_pass,
  settle_step, settle, blocking,
}
use nixbot.Scheduler.Loop.{
  done, out_of_rounds, run_incremental, rounds, wait, wait_for_progress, on_queue_item, finish_all,
  flush, idle, nothing_to_wait_for,
}
use nixbot.Scheduler.Samples.{job, order, order-IsTopological, config, chain, waits}
use nixbot.Scheduler.Guards.{has_result}
use nixbot.Scheduler.Shrinks.{in_flight_drv}
use nixbot.Scheduler.Visits.{Visits, outset, begin, step, finish, merge}
use nixbot.Scheduler.Once.{
  AtMostOnce, HasDistinctAttrs, nodup-HasDistinctAttrs, run_incremental-AtMostOnce,
}
use nixbot.Scheduler.Emission.{run_incremental-reported}
use nixbot.Scheduler.Rounds.{dispatch_ready_fixpoint, run_incremental_total}
use nixbot.Scheduler.Duplicates.{dispatch_duplicate}
use nixbot.Scheduler.Safety.{IsDetermined, dispatch_safe}

abbrev result : String → List String → AttributeStatus → Option String → AttributeResult
result drv deps status dependency = record {
  attr = drv;
  status = status;
  job = eval_success (job drv deps);
  error = none;
  dependency_attr = dependency;
  first_failure_url = none;
  out_path = some drv;
  drv_path = some drv;
  system = some "x86_64-linux";
}

abbrev a : NixEvalJobSuccess
a = job "a" []

abbrev b : NixEvalJobSuccess
b = job "b" ("a" ∷ [])

abbrev c : NixEvalJobSuccess
c = job "c" ("b" ∷ "a" ∷ [])

abbrev closures : Closures
closures = ("c", "b" ∷ "a" ∷ []) ∷ ("b", "a" ∷ []) ∷ ("a", []) ∷ []

-- The state behind the merge of the batch `c`, `b`, `a`.
abbrev merged : State
merged = record (initial none) {
  pending = a ∷ b ∷ c ∷ [];
  job_closures = closures;
  reverse_deps = compute_reverse_deps closures;
  seen_attrs = "c" ∷ "b" ∷ "a" ∷ [];
}

ingest-chain : ingest order ("x86_64-linux" ∷ []) chain (initial none) ≡ ok merged
unfolding ingest rebuild admit fresh_of buildable failed_evals settle_all settle_rounds settle_pass
    settle_step settle blocking needs compute_job_closures closures_from closure_of
    sort_jobs_by_closures by_drv order elem get put
ingest-chain = refl

-- The state behind the dispatch of `a`.
abbrev building : State
building = record merged { pending = b ∷ c ∷ []; running = (0, a) ∷ []; started = 1 }

dispatch-a : dispatch a merged ≡ ok building
unfolding dispatch remove_job classify classify_cached cached is_local start act require_failure
    flag NixEvalJobSuccess-discrete
dispatch-a = refl

-- The state behind its success.
abbrev built : State
built = record building {
  running = [];
  results = result "a" [] succeeded none ∷ [];
  job_closures = ("c", "b" ∷ []) ∷ ("b", []) ∷ ("a", []) ∷ [];
}

finish_job-a :
    finish_job "u" a success (record building { running = remove 0 building.running }) ≡ ok built
unfolding finish_job propagate record_failure outcome_status success_result out_output
    compute_reverse_deps elem prune discard_from require_failure flag put get remove
    build_dependencies_only
finish_job-a = refl

-- The state behind the dispatch of `b`.
abbrev building_b : State
building_b = record built { pending = c ∷ []; running = (1, b) ∷ []; started = 2 }

dispatch-b : dispatch b built ≡ ok building_b
unfolding dispatch remove_job classify classify_cached cached is_local start act require_failure
    flag NixEvalJobSuccess-discrete
dispatch-b = refl

needs_of : String → List String
needs_of d =
    if d == "c" then "c" ∷ "b" ∷ "a" ∷ [] else if d == "b" then "b" ∷ "a" ∷ [] else "a" ∷ []

chain-IsDetermined : IsDetermined needs_of chain
unfolding needs needs_of
chain-IsDetermined = (refl, (refl, (refl, tt)))

-- The run up to the dispatch of `b`.
visited : Visits config (IsDetermined needs_of) (b ∷ []) built
unfolding get is_ready
visited = begin built (
    finish 0 success a building built refl finish_job-a (
      step a [] merged building dispatch-a (
        begin merged
          (merge chain (initial none) merged chain-IsDetermined ingest-chain (outset none)))))

dispatch_safe_example : (in_flight_drv "a" built ≡ false) ⊎ (has_result "a" built.results ≡ true)
unfolding needs elem
dispatch_safe_example =
    dispatch_safe needs_of config order-IsTopological b [] built building_b "a" visited dispatch-b
      refl (λ e. false≢true ((string_eq.beq_iff "b" "a").1 e))

-- The state behind the failure of `b`, which fails `c`.
abbrev ended : State
ended = record building_b {
  pending = [];
  running = [];
  job_closures = ("c", []) ∷ ("b", []) ∷ ("a", []) ∷ [];
  failed_drvs = "b" ∷ "c" ∷ [];
  results =
      result "a" [] succeeded none
      ∷ result "b" ("a" ∷ []) AttributeStatus.failed none
      ∷ result "c" ("b" ∷ "a" ∷ []) AttributeStatus.dependency_failed (some "b")
      ∷ [];
  reported =
      result "a" [] succeeded none
      ∷ result "b" ("a" ∷ []) AttributeStatus.failed none
      ∷ result "c" ("b" ∷ "a" ∷ []) AttributeStatus.dependency_failed (some "b")
      ∷ [];
}

run-ended : run_incremental config none waits ≡ ok (done ended)
unfolding run_incremental rounds wait wait_for_progress on_queue_item finish_all flush idle
    nothing_to_wait_for dispatch_ready dispatch_rounds dispatch_all is_ready fail_dependents
    mark_settled settle_dependents dispatch remove_job classify classify_cached cached is_local
    start act require_failure ignore_failure flag NixEvalJobSuccess-discrete finish_job propagate
    record_failure outcome_status success_result prune discard_from put get remove out_output ingest
    rebuild admit fresh_of buildable failed_evals settle_all settle_rounds settle_pass settle_step
    settle blocking needs compute_job_closures closures_from closure_of compute_reverse_deps
    sort_jobs_by_closures by_drv order elem get_failed_dependents walk_from walk visit_all visit
    build_dependencies_only
run-ended = refl

run_incremental-reported_example : ended.reported ≡ ended.results
run_incremental-reported_example = run_incremental-reported config none waits ended run-ended

run_incremental_total_example : run_incremental config none waits ≢ ok out_of_rounds
run_incremental_total_example = run_incremental_total config none waits

chain-HasDistinctAttrs : HasDistinctAttrs chain
unfolding nodup elem
chain-HasDistinctAttrs = nodup-HasDistinctAttrs chain refl

run_incremental-AtMostOnce_example : AtMostOnce ended
run_incremental-AtMostOnce_example =
    run_incremental-AtMostOnce config order-IsTopological none waits (done ended)
      (chain-HasDistinctAttrs, (tt, (tt, tt))) run-ended

dispatch_ready-a : dispatch_ready merged ≡ ok (building, true)
unfolding dispatch_ready dispatch_rounds dispatch_all is_ready get dispatch remove_job classify
    classify_cached cached is_local start act require_failure flag NixEvalJobSuccess-discrete
dispatch_ready-a = refl

dispatch_ready_fixpoint_example : ready building ≡ []
dispatch_ready_fixpoint_example = dispatch_ready_fixpoint merged building true dispatch_ready-a

abbrev twin : NixEvalJobSuccess
twin = record (job "a" []) { attr = "twin" }

abbrev row : CachedFailure
row = record { drv_path = "a"; time = "noon"; url = "u" }

-- Two attributes with one derivation, which is in the failed-build cache.
abbrev twins : State
twins = record (initial (some (postgres (record { rows = ("a", row) ∷ []; now = "now" })))) {
  pending = a ∷ twin ∷ [];
  job_closures = ("a", []) ∷ [];
  reverse_deps = compute_reverse_deps (("a", []) ∷ []);
}

abbrev one_gone : State
one_gone = record twins {
  pending = [];
  failed_drvs = "a" ∷ [];
  results =
      record (result "a" [] AttributeStatus.cached_failure none) {
        error = some "skipped due to cached failure, first failed at noon: u";
        first_failure_url = some "u";
      }
      ∷ [];
}

dispatch_duplicate_example : dispatch twin one_gone ≡ err value_error
unfolding dispatch remove_job classify classify_cached cached cached_failure_error check is_local
    act fail_dependents mark_settled settle_dependents get_failed_dependents walk_from walk
    visit_all visit by_drv compute_reverse_deps prune discard_from success_result out_output
    build_dependencies_only require_failure ignore_failure flag NixEvalJobSuccess-discrete get put
    elem
dispatch_duplicate_example =
    dispatch_duplicate a twin twins one_gone (twin ∷ []) refl refl refl refl

-- The state behind the removal of `b`, whose failure fails `c`.
abbrev c_failed : State
c_failed = record building_b {
  running = [];
  pending = [];
  job_closures = ("c", "b" ∷ []) ∷ ("b", []) ∷ ("a", []) ∷ [];
  failed_drvs = "b" ∷ "c" ∷ [];
  results =
      result "a" [] succeeded none
      ∷ result "c" ("b" ∷ "a" ∷ []) AttributeStatus.dependency_failed (some "b")
      ∷ [];
}
