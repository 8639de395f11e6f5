-- ===== src/Scheduler/Frames.antt =====
-- build_scheduler.py: which fields the operations on the state change.
use nixbot.Prelude.{
  String, ◌≡◌, refl, sym, ◌∙◌, none, some, List, [], ◌∷◌, ◌++◌, map, append_assoc, ok, >>=-eq-ok,
  ap,
}
use mathlib.Core.List.{append-nil}
use nixbot.Models.{NixEvalJobSuccess}
use nixbot.Scheduler.Types.{AttributeStatus, AttributeResult, success_result}
use nixbot.Scheduler.Closures.{Closures, drvs}
use nixbot.Scheduler.Dependents.{get_failed_dependents}
use nixbot.Scheduler.State.{
  State, discard_from, prune, settle_dependents, mark_settled, fail_dependents, fail_each,
  fail_unresolvable,
}

-- Only the closures change.
pub prune_frame :
    (drv : String) (s : State) {s' : State}
    → prune drv s ≡ ok s'
    → (c : Closures) × (s' ≡ record s { job_closures = c })
unfolding prune
prune_frame drv s {s'} h =
    let (c, _, e) = >>=-eq-ok (discard_from drv (s.reverse_deps drv) s.job_closures) _ h in (c, cc)

abbrev pub dependent_results :
    NixEvalJobSuccess → AttributeStatus → List NixEvalJobSuccess → List AttributeResult
dependent_results job status =
    map (λ dependent. success_result dependent status none (some job.attr) none)

-- Each dependent gets a result, and the closures change.
pub settle_dependents_frame :
    (job : NixEvalJobSuccess) (status : AttributeStatus) (deps : List NixEvalJobSuccess) (s : State)
    {s' : State}
    → settle_dependents job status deps s ≡ ok s'
    → (c : Closures) × (s'
        ≡ record s { job_closures = c; results = s.results ++ dependent_results job status deps })
unfolding settle_dependents
settle_dependents_frame job status [] s h = (s.job_closures, cc (append-nil s.results))
settle_dependents_frame job status (d ∷ rest) s h =
    let (s1, e1, h1) = >>=-eq-ok _ _ h in
    let (c1, f1) = prune_frame d.drv_path _ e1 in
    let (c2, f2) = settle_dependents_frame job status rest s1 h1 in
    (
      c2,
      f2
          ∙ rw f1
              (ap (λ l. record s { job_closures = c2; results = l }) (append_assoc s.results _ _)),
    )

pub fail_dependents_frame :
    (job : NixEvalJobSuccess) (status : AttributeStatus) (s : State) {s' : State}
    → fail_dependents job status s ≡ ok s'
    → let deps = get_failed_dependents job s.pending s.job_closures in
      (c : Closures) × (s' ≡ record (mark_settled status (job.drv_path ∷ drvs deps) s) {
        job_closures = c;
        results = s.results ++ dependent_results job status deps;
      })
unfolding fail_dependents mark_settled
fail_dependents_frame job status s h = settle_dependents_frame job status _ _ h

-- Giving up appends a result for each pending job.
pub fail_each_frame :
    (jobs : List NixEvalJobSuccess) (s : State)
    → fail_each jobs s ≡ record s {
      results =
          s.results
          ++ map
              (λ j.
                success_result j AttributeStatus.failed
                  (some "unresolvable dependencies")
                  none
                  none)
              jobs;
    }
unfolding fail_each
fail_each_frame [] s = ap (λ l. record s { results = l }) (sym (append-nil s.results))
fail_each_frame (j ∷ jobs) s =
    fail_each_frame jobs _ ∙ ap (λ l. record s { results = l }) (append_assoc s.results _ _)

pub fail_unresolvable_frame :
    (s : State) → ((fail_unresolvable s).pending ≡ []) × ((fail_unresolvable s).running ≡ s.running)
unfolding fail_unresolvable
fail_unresolvable_frame s = (refl, rw (fail_each_frame s.pending s) refl)
