-- ===== src/Scheduler/Outcomes.antt =====
-- build_scheduler.py: what the outcome of a build means for its attribute, the cache and the whole.
use nixbot.Prelude.{◌≡◌, refl, ◌↔◌, ◌⊎◌, true, false, List, [], ◌∷◌, arith, All, string_eq}
use nixbot.Models.{NixEvalJobSuccess, require_failure}
use nixbot.Scheduler.Types.{
  BuildOutcome, success, failure, succeeded, skipped_local, ignored_failure, AttributeResult,
  outcome_status, schedule_success,
}

-- An attribute succeeds exactly if its build fails genuinely where failure is required, and
-- succeeds where it is not.
pub outcome_status-succeeded :
    (job : NixEvalJobSuccess) (outcome : BuildOutcome)
    → ((outcome_status job outcome).0 ≡ succeeded) ↔ (
        (require_failure job ≡ true) × (outcome ≡ failure)
        ⊎ (require_failure job ≡ false) × (outcome ≡ success))
unfolding outcome_status
outcome_status-succeeded job outcome = ground arith

-- The statuses that do not fail a build.
abbrev pub IsFine : AttributeResult → Type 0
IsFine r = (r.status ≡ succeeded) ⊎ (r.status ≡ skipped_local) ⊎ (r.status ≡ ignored_failure)

-- A schedule is a success exactly if every attribute succeeded, was in the local store, or failed
-- where failures are ignored.
pub schedule_success_iff :
    (results : List AttributeResult) → (schedule_success results ≡ true) ↔ All IsFine results
unfolding schedule_success
schedule_success_iff [] = (λ h. tt, λ h. refl)
schedule_success_iff (r ∷ results) = ground (arith, schedule_success_iff results)
