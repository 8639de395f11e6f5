-- ===== src/Scheduler/Cases.antt =====
-- build_scheduler.py: what a dispatched and a finished job can do to the state, case by case.
use nixbot.Prelude.{
  ◌≡◌, refl, ◌≢◌, ◌⊎◌, inl, inr, Option, none, some, List, ◌∷◌, String, ok, ◌>>=◌, >>=-eq-ok,
  Option-cases, Bool-cases,
}
use nixbot.Models.{NixEvalJobSuccess, NixEvalJobSuccess-discrete, require_failure}
use nixbot.Scheduler.Types.{
  AttributeStatus, AttributeResult, BuildOutcome, skipped_local, cached_failure, dependency_failed,
  success_result,
}
use nixbot.Scheduler.Cache.{FailedBuildCache}
use nixbot.Scheduler.State.{State, append_result, prune, fail_dependents}
use nixbot.Scheduler.Dispatch.{
  Action, run, skip, skip_failed, act, start, remove_job, dispatch, classify, classify_cached,
  cached, cached_failure_error, is_local, finish_job, propagate,
}

pub remove_job_cases :
    (job j : NixEvalJobSuccess) (l : List NixEvalJobSuccess) {l' : List NixEvalJobSuccess}
    → remove_job job (j ∷ l) ≡ ok l'
    → (j ≡ job) × (l' ≡ l)
      ⊎ (j ≢ job) × (rest : List NixEvalJobSuccess) × (remove_job job l ≡ ok rest) × (l' ≡ j ∷ rest)
unfolding remove_job
remove_job_cases job j l {l'} h = go (NixEvalJobSuccess-discrete j job) h
  where
    go :
        (d : Dec (j ≡ job))
        → elim d [ yes _ ↦ ok l | no _ ↦ remove_job job l >>= (λ rest. ok (j ∷ rest)) ] ≡ ok l'
        → (j ≡ job) × (l' ≡ l)
          ⊎ (j ≢ job)
            × (rest : List NixEvalJobSuccess) × (remove_job job l ≡ ok rest)
            × (l' ≡ j ∷ rest)
    go (yes e) h = inl (e, cc)
    go (no n) h = let (rest, r, e) = >>=-eq-ok (remove_job job l) _ h in inr (n, rest, r, cc)

-- `_classify` appends at most a result of the job, which it does unless the job is to run.
module _ (job : NixEvalJobSuccess) (s : State) where
  pub classify_frame :
      ((classify job s).1 ≡ run) × ((classify job s).0 ≡ s)
      ⊎ ((classify job s).1 ≢ run)
        × (r : AttributeResult) × (r.attr ≡ job.attr)
        × (r.drv_path ≡ some job.drv_path)
        × ((classify job s).0 ≡ append_result r s)
  unfolding classify classify_cached success_result
  classify_frame = elim (Bool-cases (require_failure job)) [
    | inl e ↦ inl (rw e, rw e)
    | inr e ↦ elim (Bool-cases (is_local job.cache_status)) [
      | inl l ↦ inr (
        rw (e, l) (λ x. cc),
        success_result job skipped_local none none none,
        refl,
        refl,
        rw (e, l),
      )
      | inr l ↦ elim (Option-cases (cached job s.cache)) [
        | inl n ↦ inl (rw (e, l, n), rw (e, l, n))
        | inr (c, n) ↦ inr (
          rw (e, l, n) (λ x. cc),
          success_result job cached_failure (some (cached_failure_error c)) none (some c.url),
          refl,
          refl,
          rw (e, l, n),
        )
      ]
    ]
  ]

-- The job is off `pending`. It is started, or has a result and is pruned, or has failed its
-- dependents before that.
pub data Dispatched (job : NixEvalJobSuccess) (s : State) (s' : State) : Type 0 where
  started :
      (l : List NixEvalJobSuccess)
      → remove_job job s.pending ≡ ok l
      → s' ≡ start job (record s { pending = l })
      → Dispatched job s s'
  skipped :
      (l : List NixEvalJobSuccess) (r : AttributeResult)
      → remove_job job s.pending ≡ ok l
      → r.attr ≡ job.attr
      → r.drv_path ≡ some job.drv_path
      → prune job.drv_path (append_result r (record s { pending = l })) ≡ ok s'
      → Dispatched job s s'
  failed :
      (l : List NixEvalJobSuccess) (r : AttributeResult) (s1 : State)
      → remove_job job s.pending ≡ ok l
      → r.attr ≡ job.attr
      → r.drv_path ≡ some job.drv_path
      → fail_dependents job dependency_failed (append_result r (record s { pending = l })) ≡ ok s1
      → prune job.drv_path s1 ≡ ok s'
      → Dispatched job s s'

act_cases :
    (job : NixEvalJobSuccess) (s : State) (l : List NixEvalJobSuccess) (r : AttributeResult)
    (action : Action) {s' : State}
    → remove_job job s.pending ≡ ok l
    → r.attr ≡ job.attr
    → r.drv_path ≡ some job.drv_path
    → action ≢ run
    → act job action (append_result r (record s { pending = l })) ≡ ok s'
    → Dispatched job s s'
unfolding act
act_cases job s l r run e a d n h = absurd (n refl)
act_cases job s l r skip e a d n h = skipped l r e a d h
act_cases job s l r skip_failed e a d n h =
    let (s1, f, g) =
      >>=-eq-ok (fail_dependents job dependency_failed (append_result r (record s { pending = l })))
        _ h in
    failed l r s1 e a d f g

pub dispatch_cases :
    (job : NixEvalJobSuccess) (s : State) {s' : State}
    → dispatch job s ≡ ok s'
    → Dispatched job s s'
unfolding dispatch act
dispatch_cases job s {s'} h =
    let (l, r, g) = >>=-eq-ok (remove_job job s.pending) _ h in
    let s1 : State = record s { pending = l } in
    elim (classify_frame job s1) [
      | inl (e, same) ↦ started l r (cc (rw (e, same) at g))
      | inr (n, x, attr, drv, same) ↦
          act_cases job s l x (classify job s1).1 r attr drv n (rw same at g)
    ]

-- The job has its result, and its dependents are left alone or settled with a status.
pub data Finished (job : NixEvalJobSuccess) (s : State) (s' : State) : Type 0 where
  kept :
      (r : AttributeResult) (c : Option FailedBuildCache)
      → r.attr ≡ job.attr
      → r.drv_path ≡ some job.drv_path
      → prune job.drv_path (record (append_result r s) { cache = c }) ≡ ok s'
      → Finished job s s'
  failed :
      (r : AttributeResult) (c : Option FailedBuildCache) (status : AttributeStatus) (s1 : State)
      → r.attr ≡ job.attr
      → r.drv_path ≡ some job.drv_path
      → fail_dependents job status (record (append_result r s) { cache = c }) ≡ ok s1
      → prune job.drv_path s1 ≡ ok s'
      → Finished job s s'

pub finish_job_cases :
    (build_url : String) (job : NixEvalJobSuccess) (outcome : BuildOutcome) (s : State) {s' : State}
    → finish_job build_url job outcome s ≡ ok s'
    → Finished job s s'
unfolding finish_job propagate success_result
finish_job_cases u job BuildOutcome.success s h = kept _ _ refl refl h
finish_job_cases u job BuildOutcome.post_build_failure s h = kept _ _ refl refl h
finish_job_cases u job BuildOutcome.cancelled s h =
    let (s1, f, g) = >>=-eq-ok _ _ h in failed _ _ AttributeStatus.cancelled s1 refl refl f g
finish_job_cases u job BuildOutcome.failure s h =
    let (s1, f, g) = >>=-eq-ok _ _ h in failed _ _ dependency_failed s1 refl refl f g
finish_job_cases u job BuildOutcome.failure_no_cache s h =
    let (s1, f, g) = >>=-eq-ok _ _ h in failed _ _ dependency_failed s1 refl refl f g

-- A dispatched job was pending.
pub Dispatched-taken :
    (job : NixEvalJobSuccess) (s : State) {s' : State}
    → Dispatched job s s'
    → (l : List NixEvalJobSuccess) × (remove_job job s.pending ≡ ok l)
Dispatched-taken job s (started l e same) = (l, e)
Dispatched-taken job s (skipped l r e attr drv g) = (l, e)
Dispatched-taken job s (Dispatched.failed l r s1 e attr drv f g) = (l, e)
