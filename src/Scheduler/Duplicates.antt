-- ===== src/Scheduler/Duplicates.antt =====
-- build_scheduler.py, `_dispatch_ready`: attributes that share a derivation in the failed cache.
use nixbot.Prelude.{
  String, ◌≡◌, refl, true, false, not, List, [], ◌∷◌, arith, filter, elem, elem-cons, elem-head,
  string_eq, ok, err, >>=-eq-ok,
}
use nixbot.Models.{NixEvalJobSuccess}
use nixbot.Scheduler.Types.{dependency_failed, AttributeStatus}
use nixbot.Scheduler.Closures.{value_error, drvs}
use nixbot.Scheduler.State.{State, mark_settled, fail_dependents}
use nixbot.Scheduler.Frames.{prune_frame, fail_dependents_frame}
use nixbot.Scheduler.Dispatch.{skip_failed, act, classify, remove_job, dispatch}

-- `list.remove` raises for a job whose derivation is not there.
remove_job_absent :
    (job : NixEvalJobSuccess) (l : List NixEvalJobSuccess)
    → elem job.drv_path (drvs l) ≡ false
    → remove_job job l ≡ err value_error
unfolding remove_job
remove_job_absent job [] h = refl
remove_job_absent job (j ∷ l) h = ground (
  arith,
  elem-cons job.drv_path j.drv_path (drvs l),
  string_eq.beq_iff j.drv_path job.drv_path,
  remove_job_absent job l,
)

-- A filter that rejects a derivation leaves no job with it.
elem-drvs-reject :
    (d : String) (settled : List String) (l : List NixEvalJobSuccess)
    → elem d settled ≡ true
    → elem d (drvs (filter (λ j. not (elem j.drv_path settled)) l)) ≡ false
unfolding elem
elem-drvs-reject d settled [] h = refl
elem-drvs-reject d settled (j ∷ l) h =
    ground (arith, string_eq.beq_iff j.drv_path d, elem-drvs-reject d settled l h)

fail_dependents_gone :
    (job : NixEvalJobSuccess) (status : AttributeStatus) (s : State) {s' : State}
    → fail_dependents job status s ≡ ok s'
    → elem job.drv_path (drvs s'.pending) ≡ false
unfolding mark_settled
fail_dependents_gone job status s h =
    let (c, e) = fail_dependents_frame job status s h in
    rw e (elem-drvs-reject job.drv_path _ s.pending (elem-head job.drv_path _))

-- Of two jobs with one derivation in a round of dispatching, if the first is skipped for a cached
-- failure, list.remove raises ValueError for the second.
pub dispatch_duplicate :
    (job duplicate : NixEvalJobSuccess) (s s' : State) (pending : List NixEvalJobSuccess)
    → duplicate.drv_path ≡ job.drv_path
    → remove_job job s.pending ≡ ok pending
    → (classify job (record s { pending = pending })).1 ≡ skip_failed
    → dispatch job s ≡ ok s'
    → dispatch duplicate s' ≡ err value_error
unfolding dispatch act
dispatch_duplicate job duplicate s s' pending same taken skips h =
    let s1 : State = (classify job (record s { pending = pending })).0 in
    let (s2, f, g) =
      >>=-eq-ok (fail_dependents job dependency_failed s1) _ (rw (skips, act) at (rw taken at h)) in
    let (c, e) = prune_frame job.drv_path s2 g in
    let gone = fail_dependents_gone job dependency_failed s1 f in
    rw e (rw (remove_job_absent duplicate s2.pending (rw same gone)) refl)
