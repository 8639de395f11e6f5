-- ===== src/Scheduler/Once.antt =====
-- build_scheduler.py: no attribute gets two results, however batches and builds interleave.
use nixbot.Prelude.{
  ℕ, ◌+◌, ◌≤◌, String, ◌≡◌, refl, ap, ◌∙◌, Bool, true, false, ◌||◌, Option, none, some, List, [],
  ◌∷◌, ◌++◌, map, arith, count, count-append, elem, elem-append, nodup, get, remove, nat_eq,
  string_eq, ◌==◌, ok, >>=-eq-ok, ok-injective, if◌then◌else◌,
}
use nixbot.Models.{NixEvalJob, eval_error, eval_success, NixEvalJobSuccess}
use nixbot.Scheduler.Types.{AttributeStatus, dependency_failed, AttributeResult, success_result}
use nixbot.Scheduler.Cache.{FailedBuildCache}
use nixbot.Scheduler.Closures.{StaticOrder, drvs}
use nixbot.Scheduler.State.{State, mark_settled, fail_unresolvable, prune, fail_dependents}
use nixbot.Scheduler.Frames.{prune_frame, fail_dependents_frame, fail_each_frame}
use nixbot.Scheduler.Dispatch.{start}
use nixbot.Scheduler.Ingest.{
  attr_of, error_result, failed_evals, buildable, fresh_of, admit, rebuild, ingest, running_jobs,
  settle_all,
}
use nixbot.Scheduler.Loop.{
  Config, Progress, Outcome, done, waiting, out_of_rounds, flush, run_incremental,
}
use nixbot.Scheduler.Cases.{
  Dispatched, started, skipped, dispatch_cases, Finished, kept, finish_job_cases,
}
use nixbot.Scheduler.Accounting.{accounts, Dispatched-accounts_le, Finished-accounts_le}
use nixbot.Scheduler.Settle.{settle_all-accounts}
use nixbot.Scheduler.Order.{IsTopological, count-sort_jobs_by_closures}
use nixbot.Scheduler.Induction.{IsKept, AdmissibleEvents, Ends, run_incremental_keeps}

-- The results and the buildable jobs of a batch are among its members.
count-partition :
    (a : String) (systems : List String) (batch : List NixEvalJob)
    → count (λ r. r.attr == a) (failed_evals batch)
        + count (λ j. j.attr == a) (buildable systems batch)
      ≤ count (λ j. attr_of j == a) batch
unfolding failed_evals buildable error_result
count-partition a systems [] = omega arith
count-partition a systems (eval_error j ∷ batch) = ground (arith, count-partition a systems batch)
count-partition a systems (eval_success j ∷ batch) = ground (arith, count-partition a systems batch)

-- Only attributes that have not been seen are fresh.
count-fresh :
    (a : String) (batch : List NixEvalJob) (s : State)
    → count (λ j. attr_of j == a) (fresh_of batch s)
      ≤ (if elem a s.seen_attrs then 0 else count (λ j. attr_of j == a) batch)
unfolding fresh_of
count-fresh a [] s = ground arith
count-fresh a (j ∷ batch) s = ground (arith, count-fresh a batch s, string_eq.beq_iff (attr_of j) a)

elem-attrs :
    (a : String) (l : List NixEvalJob)
    → elem a (map attr_of l) ≡ false
    → count (λ j. attr_of j == a) l ≡ 0
unfolding elem
elem-attrs a [] h = refl
elem-attrs a (j ∷ l) h = ground (arith, elem-attrs a l)

module _ (a : String) (systems : List String) (batch : List NixEvalJob) (s : State) where
  admit-accounts :
      accounts a (admit systems batch s)
      ≤ accounts a s + count (λ j. attr_of j == a) (fresh_of batch s)
  unfolding admit
  admit-accounts =
      let fresh = fresh_of batch s in
      let t = settle_all (s.pending ++ buildable systems fresh) s in
      omega (
        arith,
        count-append (λ (r : AttributeResult). r.attr == a) (s.results ++ failed_evals fresh)
            t.results,
        count-append (λ (r : AttributeResult). r.attr == a) s.results (failed_evals fresh),
        count-append (λ (j : NixEvalJobSuccess). j.attr == a) s.pending (buildable systems fresh),
        settle_all-accounts a (s.pending ++ buildable systems fresh) s,
        count-partition a systems fresh,
      )

  admit-seen :
      elem a (admit systems batch s).seen_attrs
      ≡ (elem a s.seen_attrs || elem a (map attr_of (fresh_of batch s)))
  unfolding admit
  admit-seen = elem-append a s.seen_attrs (map attr_of (fresh_of batch s))

rebuild-accounts :
    (a : String) {static_order : StaticOrder} (s : State) {s' : State}
    → IsTopological static_order
    → rebuild static_order s ≡ ok s'
    → (accounts a s' ≡ accounts a s) × (s'.seen_attrs ≡ s.seen_attrs)
unfolding rebuild
rebuild-accounts a s top h =
    let (l, e, g) = >>=-eq-ok _ _ h in
    let kept =
      count-sort_jobs_by_closures top s.pending (drvs (running_jobs s)) e (λ j. j.attr == a) in
    rw (← ok-injective g) (omega (arith, kept), refl)

-- Each attribute has at most one result or job on its way to one, and none unless it was seen.
abbrev IsOnce : State → Type 0
IsOnce s = (a : String) → accounts a s ≤ (if elem a s.seen_attrs then 1 else 0)

-- Results, pending jobs and running builds of an attribute are one at most in all.
abbrev pub AtMostOnce : State → Type 0
AtMostOnce s = (a : String) → accounts a s ≤ 1

-- No attribute stands twice in one batch. Between batches repetitions are allowed.
abbrev pub HasDistinctAttrs : List NixEvalJob → Type 0
HasDistinctAttrs batch = (a : String) → count (λ j. attr_of j == a) batch ≤ 1

-- A check for it.
pub nodup-HasDistinctAttrs :
    (batch : List NixEvalJob) → nodup (map attr_of batch) ≡ true → HasDistinctAttrs batch
unfolding nodup
nodup-HasDistinctAttrs [] h a = omega arith
nodup-HasDistinctAttrs (j ∷ batch) h a = ground (
  arith,
  string_eq.beq_iff (attr_of j) a,
  elem-attrs (attr_of j) batch,
  nodup-HasDistinctAttrs batch (ground arith) a,
  ap (λ b. count (λ x. attr_of x == b) batch),
)

ingest-IsOnce :
    {static_order : StaticOrder} (systems : List String) (batch : List NixEvalJob) (s s' : State)
    → IsTopological static_order
    → HasDistinctAttrs batch
    → ingest static_order systems batch s ≡ ok s'
    → IsOnce s
    → IsOnce s'
unfolding ingest
ingest-IsOnce systems batch s s' top d h once a =
    let (same, seen) = rebuild-accounts a (admit systems batch s) top h in
    rw (same, seen)
      (ground (
        arith,
        admit-accounts a systems batch s,
        count-fresh a batch s,
        admit-seen a systems batch s,
        elem-attrs a (fresh_of batch s),
        once a,
        d a,
      ))

count-remove_le :
    (p : NixEvalJobSuccess → Bool) (task : ℕ) (running : List (ℕ × NixEvalJobSuccess))
    → count (λ t. p t.1) (remove task running) ≤ count (λ t. p t.1) running
unfolding remove
count-remove_le p task [] = omega arith
count-remove_le p task ((t, j) ∷ running) = ground (arith, count-remove_le p task running)

count-remove :
    (p : NixEvalJobSuccess → Bool) (task : ℕ) (running : List (ℕ × NixEvalJobSuccess))
    {job : NixEvalJobSuccess}
    → get running task ≡ some job
    → count (λ t. p t.1) (remove task running) + (if p job then 1 else 0)
      ≤ count (λ t. p t.1) running
unfolding get remove
count-remove p task [] h = cc
count-remove p task ((t, j) ∷ running) {job} h =
    ground (arith, count-remove_le p task running, count-remove p task running {job = job})

fail_dependents-seen :
    (job : NixEvalJobSuccess) (status : AttributeStatus) (s : State) {s' : State}
    → fail_dependents job status s ≡ ok s'
    → s'.seen_attrs ≡ s.seen_attrs
unfolding mark_settled
fail_dependents-seen job status s h = let (c, e) = fail_dependents_frame job status s h in rw e refl

prune-seen :
    (drv : String) (s : State) {s' : State} → prune drv s ≡ ok s' → s'.seen_attrs ≡ s.seen_attrs
prune-seen drv s h = let (c, e) = prune_frame drv s h in rw e refl

Dispatched-seen :
    (job : NixEvalJobSuccess) (s : State) {s' : State}
    → Dispatched job s s'
    → s'.seen_attrs ≡ s.seen_attrs
unfolding start
Dispatched-seen job s (started l r e) = rw e refl
Dispatched-seen job s (skipped l x r attr drv g) = prune-seen job.drv_path _ g
Dispatched-seen job s (Dispatched.failed l x s1 r attr drv f g) =
    prune-seen job.drv_path s1 g ∙ fail_dependents-seen job dependency_failed _ f

Finished-seen :
    (job : NixEvalJobSuccess) (s : State) {s' : State}
    → Finished job s s'
    → s'.seen_attrs ≡ s.seen_attrs
Finished-seen job s (kept x c attr drv g) = prune-seen job.drv_path _ g
Finished-seen job s (Finished.failed x c status s1 attr drv f g) =
    prune-seen job.drv_path s1 g ∙ fail_dependents-seen job status _ f

count-failed :
    (a : String) (jobs : List NixEvalJobSuccess)
    → count
        (λ r. r.attr == a)
        (map
          (λ j.
            success_result j AttributeStatus.failed (some "unresolvable dependencies") none none)
          jobs)
      ≡ count (λ j. j.attr == a) jobs
unfolding success_result
count-failed a [] = refl
count-failed a (j ∷ jobs) = ground (arith, count-failed a jobs)

-- The jobs that are given up have their results, and are no longer pending.
pub fail_unresolvable-accounts :
    (a : String) (s : State) → accounts a (fail_unresolvable s) ≡ accounts a s
unfolding fail_unresolvable
fail_unresolvable-accounts a s = rw (fail_each_frame s.pending s) (
    omega (
      arith,
      count-append (λ (r : AttributeResult). r.attr == a) s.results _,
      count-failed a s.pending,
    ))

fail_unresolvable-seen : (s : State) → (fail_unresolvable s).seen_attrs ≡ s.seen_attrs
unfolding fail_unresolvable
fail_unresolvable-seen s = rw (fail_each_frame s.pending s) refl

flush-IsOnce : (s : State) → IsOnce s → IsOnce (flush s)
unfolding flush
flush-IsOnce s h = h

module _ (c : Config) (top : IsTopological c.static_order) where
  IsOnce-kept : IsKept c HasDistinctAttrs (λ todo s. IsOnce s)
  IsOnce-kept = record {
    begin = λ s h. h;
    step = λ job todo s s' e h a.
        let d = dispatch_cases job s e in
        rw (Dispatched-seen job s d) (omega (arith, h a, Dispatched-accounts_le a job s d));
    finish = λ task outcome job s s' r e h a.
        let before : State = record s { running = remove task s.running } in
        let f = finish_job_cases c.build_url job outcome before e in
        rw (Finished-seen job before f) (
          omega (
            arith,
            h a,
            Finished-accounts_le a job before f,
            count-remove (λ j. j.attr == a) task s.running r,
          ));
    flushed = λ s h a. flush-IsOnce s h a;
    merge = λ batch s s' d e h. ingest-IsOnce c.supported_systems batch s s' top d e h;
    give_up =
        λ s h a. rw (fail_unresolvable-seen s) (omega (arith, h a, fail_unresolvable-accounts a s));
  }

  -- However batches arrive and builds end, each attribute has at most one result, pending entry or
  -- running build in all wherever a run stands, if no batch names an attribute twice and the
  -- topological sort is as graphlib documents; re-sent attributes are allowed.
  pub run_incremental-AtMostOnce :
      (cache : Option FailedBuildCache) (events : List Progress) (o : Outcome)
      → AdmissibleEvents HasDistinctAttrs events
      → run_incremental c cache events ≡ ok o
      → Ends AtMostOnce AtMostOnce o
  run_incremental-AtMostOnce cache events o d h =
      weaken o
        (run_incremental_keeps IsOnce-kept IsOnce flush-IsOnce cache events d h (λ a. omega arith))
    where
      weaken : (o : Outcome) → Ends IsOnce IsOnce o → Ends AtMostOnce AtMostOnce o
      weaken (done s) p = λ a. ground (arith, p a)
      weaken (waiting reading s) p = λ a. ground (arith, p a)
      weaken out_of_rounds p = tt
