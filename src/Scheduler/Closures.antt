-- ===== src/Scheduler/Closures.antt =====
-- build_scheduler.py: derivation closures, their reverse edges and the topological order.
use nixbot.Prelude.{
  String, Option, none, some, List, [], ◌∷◌, ◌++◌, map, filter, flat_map, elem, inter, discard,
  Dict, put, ◌==◌, string_eq, Result, ok, err,
}
use nixbot.Models.{NixEvalJobSuccess}

-- The Python exceptions that the scheduler's code can raise.
pub data Fault : Type 0 where
  key_error value_error cycle_error : Fault

abbrev pub Closures : Type 0
Closures = Dict String (List String)

abbrev pub drvs : List NixEvalJobSuccess → List String
drvs jobs = map (λ j. j.drv_path) jobs

-- `{*job.needed_builds, *job.needed_substitutes}`
unfoldable pub needs : NixEvalJobSuccess → List String
needs job = job.needed_builds ++ job.needed_substitutes

-- `by_drv.get(drv, ())` of the dict that groups `jobs` by derivation
unfoldable pub by_drv : List NixEvalJobSuccess → String → List NixEvalJobSuccess
by_drv jobs drv = filter (λ j. j.drv_path == drv) jobs

unfoldable pub closure_of : List String → NixEvalJobSuccess → List String
closure_of job_set job = discard job.drv_path (inter (needs job) job_set)

-- The dict comprehension: a later job with the same derivation overrides an earlier one.
unfoldable pub closures_from : List String → Closures → List NixEvalJobSuccess → Closures
closures_from job_set closures [] = closures
closures_from job_set closures (job ∷ jobs) =
    closures_from job_set (put job.drv_path (closure_of job_set job) closures) jobs

unfoldable pub compute_job_closures : List NixEvalJobSuccess → List String → Closures
compute_job_closures jobs extra_drvs = closures_from (drvs jobs ++ extra_drvs) [] jobs

-- The dict of reverse edges, as the function that `reverse.get(dep, ())` is.
unfoldable pub compute_reverse_deps : Closures → String → List String
compute_reverse_deps closures dep =
    map (λ entry. entry.0) (filter (λ entry. elem dep entry.1) closures)

-- `graphlib.TopologicalSorter(closures).static_order()`; `none` is its `CycleError`.
abbrev pub StaticOrder : Type 0
StaticOrder = Closures → Option (List String)

unfoldable pub sort_jobs_by_closures :
    StaticOrder → List NixEvalJobSuccess → Closures → Result Fault (List NixEvalJobSuccess)
sort_jobs_by_closures static_order jobs closures = elim (static_order closures) [
  | none ↦ err cycle_error
  | some order ↦ ok (flat_map (by_drv jobs) order)
]
