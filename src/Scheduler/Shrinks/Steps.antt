-- ===== src/Scheduler/Shrinks/Steps.antt =====
-- build_scheduler.py: dispatching and finishing a job shrink the state.
use nixbot.Prelude.{
  ℕ, String, ◌≡◌, refl, ◌∙◌, inl, inr, true, ◌||◌, Option, List, [], ◌∷◌, map, arith, elem,
  elem-nil, elem-cons, elem-append, remove, nat_eq, string_eq, ◌==◌, ==_refl, ok, subst, All,
}
use nixbot.Models.{NixEvalJobSuccess}
use nixbot.Scheduler.Types.{dependency_failed}
use nixbot.Scheduler.Cache.{FailedBuildCache}
use nixbot.Scheduler.Closures.{drvs}
use nixbot.Scheduler.State.{State, append_result}
use nixbot.Scheduler.Dispatch.{remove_job, start}
use nixbot.Scheduler.Cases.{remove_job_cases, Dispatched, started, skipped, Finished, kept}
use nixbot.Scheduler.Shrinks.{
  Shrinks, Shrinks-trans, append_result-Shrinks, prune-Shrinks, has_result_of,
  fail_dependents-Shrinks,
}
use mathlib.Core.List.{map-append}

-- What `list.remove` leaves was there.
remove_job-All :
    (job : NixEvalJobSuccess) (l : List NixEvalJobSuccess) {l' : List NixEvalJobSuccess}
    → remove_job job l ≡ ok l'
    → (P : NixEvalJobSuccess → Type 0) → All P l
    → All P l'
unfolding remove_job
remove_job-All job [] h P a = cc
remove_job-All job (j ∷ l) h P a = elim (remove_job_cases job j l h) [
  | inl (e, same) ↦ rw same a.1
  | inr (n, rest, r, longer) ↦ rw longer (a.0, remove_job-All job l r P a.1)
]

remove_job-drvs :
    (job : NixEvalJobSuccess) (l : List NixEvalJobSuccess) {l' : List NixEvalJobSuccess}
    (k : String)
    → remove_job job l ≡ ok l'
    → elem k (drvs l) ≡ (job.drv_path == k || elem k (drvs l'))
unfolding remove_job elem
remove_job-drvs job [] k h = cc
remove_job-drvs job (j ∷ l) k h = elim (remove_job_cases job j l h) [
  | inl (e, same) ↦ rw (same, e) refl
  | inr (n, rest, r, longer) ↦ rw longer (ground (arith, remove_job-drvs job l k r))
]

module _ (job : NixEvalJobSuccess) (s : State) {l : List NixEvalJobSuccess}
    (taken : remove_job job s.pending ≡ ok l) where
  take-Shrinks : Shrinks s (record s { pending = l })
  take-Shrinks = record {
    pending_all = λ P h. remove_job-All job s.pending taken P h;
    pending_drvs = λ k h. ground (arith, remove_job-drvs job s.pending k taken);
    flying = λ d h. ground (arith, remove_job-drvs job s.pending d taken);
    guarding = λ k d h. h;
    settled = λ d h. h;
    emptied = λ k d h. h;
  }

  start-Shrinks : Shrinks s (start job (record s { pending = l }))
  unfolding start
  start-Shrinks = record {
    pending_all = λ P h. remove_job-All job s.pending taken P h;
    pending_drvs = λ k h. ground (arith, remove_job-drvs job s.pending k taken);
    flying = λ d h. ground (
      arith,
      remove_job-drvs job s.pending d taken,
      map-append (λ (t : ℕ × NixEvalJobSuccess). t.1.drv_path) s.running ((s.started, job) ∷ []),
      elem-append d (map (λ t. t.1.drv_path) s.running) (job.drv_path ∷ []),
      elem-cons d job.drv_path [],
      elem-nil d,
    );
    guarding = λ k d h. h;
    settled = λ d h. h;
    emptied = λ k d h. h;
  }

  -- A pending job's derivation is among the pending ones.
  pub taken_drv : elem job.drv_path (drvs s.pending) ≡ true
  taken_drv =
      remove_job-drvs job s.pending job.drv_path taken ∙ ground (arith, ==_refl job.drv_path)

pub Dispatched-Shrinks :
    (job : NixEvalJobSuccess) (s : State) {s' : State} → Dispatched job s s' → Shrinks s s'
Dispatched-Shrinks job s (started l r e) = rw e (start-Shrinks job s r)
Dispatched-Shrinks job s (skipped l x r attr drv g) = Shrinks-trans (take-Shrinks job s r) (
    Shrinks-trans (append_result-Shrinks x _)
      (prune-Shrinks job.drv_path _ (has_result_of job.drv_path s.results x drv) g))
Dispatched-Shrinks job s (Dispatched.failed l x s1 r attr drv f g) =
    let fails =
      fail_dependents-Shrinks job dependency_failed (append_result x (record s { pending = l }))
        f in
    Shrinks-trans (take-Shrinks job s r) (
      Shrinks-trans (append_result-Shrinks x _) (
        Shrinks-trans fails (
          prune-Shrinks job.drv_path s1
            (fails.settled job.drv_path (has_result_of job.drv_path s.results x drv)) g)))

with_cache-Shrinks : (c : Option FailedBuildCache) (s : State) → Shrinks s (record s { cache = c })
with_cache-Shrinks c s = record {
  pending_all = λ P h. h;
  pending_drvs = λ k h. h;
  flying = λ d h. h;
  settled = λ d h. h;
  guarding = λ k d h. h;
  emptied = λ k d h. h;
}

pub Finished-Shrinks :
    (job : NixEvalJobSuccess) (s : State) {s' : State} → Finished job s s' → Shrinks s s'
Finished-Shrinks job s (kept x c attr drv g) = Shrinks-trans (append_result-Shrinks x s) (
    Shrinks-trans (with_cache-Shrinks c (append_result x s))
      (prune-Shrinks job.drv_path _ (has_result_of job.drv_path s.results x drv) g))
Finished-Shrinks job s (Finished.failed x c status s1 attr drv f g) =
    let fails = fail_dependents-Shrinks job status (record (append_result x s) { cache = c }) f in
    Shrinks-trans (append_result-Shrinks x s) (
      Shrinks-trans (with_cache-Shrinks c (append_result x s)) (
        Shrinks-trans fails (
          prune-Shrinks job.drv_path s1
            (fails.settled job.drv_path (has_result_of job.drv_path s.results x drv)) g)))

elem-remove :
    (task : ℕ) (d : String) (running : List (ℕ × NixEvalJobSuccess))
    → elem d (map (λ t. t.1.drv_path) (remove task running)) ≡ true
    → elem d (map (λ t. t.1.drv_path) running) ≡ true
unfolding remove elem
elem-remove task d [] h = h
elem-remove task d ((t, j) ∷ running) h = ground (arith, elem-remove task d running)

pub remove_task-Shrinks :
    (task : ℕ) (s : State) → Shrinks s (record s { running = remove task s.running })
remove_task-Shrinks task s = record {
  pending_all = λ P h. h;
  pending_drvs = λ k h. h;
  flying = λ d h. ground (arith, elem-remove task d s.running);
  settled = λ d h. h;
  guarding = λ k d h. h;
  emptied = λ k d h. h;
}

pub taken_all :
    (job : NixEvalJobSuccess) (l : List NixEvalJobSuccess) {l' : List NixEvalJobSuccess}
    → remove_job job l ≡ ok l'
    → (P : NixEvalJobSuccess → Type 0) → All P l
    → P job
unfolding remove_job
taken_all job [] h P a = cc
taken_all job (j ∷ l) h P a = elim (remove_job_cases job j l h) [
  | inl (e, same) ↦ subst P e a.0
  | inr (n, rest, r, longer) ↦ taken_all job l r P a.1
]
