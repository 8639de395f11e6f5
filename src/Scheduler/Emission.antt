-- ===== src/Scheduler/Emission.antt =====
-- build_scheduler.py, `_ResultEmitter`: what `on_result` is told.
use nixbot.Prelude.{
  String, ◌≡◌, refl, sym, ◌∙◌, ap, Option, none, some, List, [], ◌∷◌, ◌++◌, append_assoc, length,
  drop, remove, nat_eq, ok, >>=-eq-ok, ok-injective, subst,
}
use mathlib.Core.List.{append-nil}
use nixbot.Models.{NixEvalJob, NixEvalJobSuccess}
use nixbot.Scheduler.Types.{AttributeStatus, AttributeResult, dependency_failed}
use nixbot.Scheduler.Cache.{FailedBuildCache}
use nixbot.Scheduler.Closures.{StaticOrder, drvs, compute_job_closures, sort_jobs_by_closures}
use nixbot.Scheduler.State.{State, prune, mark_settled, fail_dependents, fail_unresolvable}
use nixbot.Scheduler.Frames.{prune_frame, fail_dependents_frame, fail_each_frame}
use nixbot.Scheduler.Dispatch.{start}
use nixbot.Scheduler.Ingest.{running_jobs, admit, rebuild, ingest}
use nixbot.Scheduler.Cases.{
  Dispatched, started, skipped, dispatch_cases, Finished, kept, finish_job_cases,
}
use nixbot.Scheduler.Loop.{Item, Progress, Config, done, flush, run_incremental}
use nixbot.Scheduler.Induction.{IsKept, AdmissibleItem, AdmissibleEvents, run_incremental_keeps}

-- Results are only ever appended, and nothing is reported but by `flush`.
record Extends (s s' : State) : Type 0 where
  more : List AttributeResult
  results : s'.results ≡ s.results ++ more
  reported : s'.reported ≡ s.reported

Extends-refl : (s : State) → Extends s s
Extends-refl s = record { more = []; results = sym (append-nil s.results); reported = refl }

Extends-trans : {s t u : State} → Extends s t → Extends t u → Extends s u
Extends-trans {s} a b = record {
  more = a.more ++ b.more;
  results = b.results ∙ ap (λ l. l ++ b.more) a.results ∙ append_assoc s.results a.more b.more;
  reported = b.reported ∙ a.reported;
}

prune-Extends :
    {s s' : State} (job : NixEvalJobSuccess) → prune job.drv_path s ≡ ok s' → Extends s s'
prune-Extends {s} job h =
    let (c, e) = prune_frame job.drv_path s h in
    rw e (record { more = []; results = sym (append-nil s.results); reported = refl })

fail_dependents-Extends :
    (job : NixEvalJobSuccess) (status : AttributeStatus) (s : State) {s' : State}
    → fail_dependents job status s ≡ ok s'
    → Extends s s'
unfolding mark_settled
fail_dependents-Extends job status s h =
    let (c, e) = fail_dependents_frame job status s h in
    rw e (record { more = _; results = refl; reported = refl })

Dispatched-Extends :
    (job : NixEvalJobSuccess) (s : State) {s' : State} → Dispatched job s s' → Extends s s'
unfolding start
Dispatched-Extends job s (started l r e) =
    rw e (record { more = []; results = sym (append-nil s.results); reported = refl })
Dispatched-Extends job s (skipped l x r attr drv g) =
    Extends-trans (record { more = x ∷ []; results = refl; reported = refl }) (prune-Extends job g)
Dispatched-Extends job s (Dispatched.failed l x s1 r attr drv f g) =
    Extends-trans (record { more = x ∷ []; results = refl; reported = refl })
      (Extends-trans (fail_dependents-Extends job dependency_failed _ f) (prune-Extends job g))

Finished-Extends :
    (job : NixEvalJobSuccess) (s : State) {s' : State} → Finished job s s' → Extends s s'
Finished-Extends job s (kept x c attr drv g) =
    Extends-trans (record { more = x ∷ []; results = refl; reported = refl }) (prune-Extends job g)
Finished-Extends job s (Finished.failed x c status s1 attr drv f g) =
    Extends-trans (record { more = x ∷ []; results = refl; reported = refl })
      (Extends-trans (fail_dependents-Extends job status _ f) (prune-Extends job g))

rebuild-Extends :
    (static_order : StaticOrder) (s : State) {s' : State}
    → rebuild static_order s ≡ ok s'
    → Extends s s'
unfolding rebuild
rebuild-Extends static_order s h =
    let closures = compute_job_closures s.pending (drvs (running_jobs s)) in
    let (l, e, g) = >>=-eq-ok (sort_jobs_by_closures static_order s.pending closures) _ h in
    subst (Extends s) (ok-injective g)
      (record { more = []; results = sym (append-nil s.results); reported = refl })

admit-Extends :
    (systems : List String) (batch : List NixEvalJob) (s : State)
    → Extends s (admit systems batch s)
unfolding admit
admit-Extends systems batch s = record {
  more = _;
  results = append_assoc s.results _ _;
  reported = refl;
}

ingest-Extends :
    (c : Config) (batch : List NixEvalJob) (s : State) {s' : State}
    → ingest c.static_order c.supported_systems batch s ≡ ok s'
    → Extends s s'
unfolding ingest
ingest-Extends c batch s h =
    Extends-trans (admit-Extends c.supported_systems batch s) (rebuild-Extends c.static_order _ h)

give_up-Extends : (s : State) → Extends s (fail_unresolvable s)
unfolding fail_unresolvable
give_up-Extends s =
    rw (fail_each_frame s.pending s) (record { more = _; results = refl; reported = refl })

any_item : (item : Option Item) → AdmissibleItem (λ batch. Unit) item
any_item none = tt
any_item (some none) = tt
any_item (some (some batch)) = tt

any_events : (events : List Progress) → AdmissibleEvents (λ batch. Unit) events
any_events [] = tt
any_events (e ∷ events) = (any_item e.item, any_events events)

-- What was reported are the first results.
IsReported : State → Type 0
IsReported s = (rest : List AttributeResult) × (s.results ≡ s.reported ++ rest)

Extends-IsReported : {s s' : State} → Extends s s' → IsReported s → IsReported s'
unfolding IsReported
Extends-IsReported {s} e (rest, r) =
    (rest ++ e.more, e.results ∙ rw (r, e.reported) (append_assoc s.reported rest e.more))

drop-length : (xs ys : List AttributeResult) → drop (length xs) (xs ++ ys) ≡ ys
drop-length [] ys = refl
drop-length (x ∷ xs) ys = drop-length xs ys

flush-all : (s : State) → IsReported s → (flush s).reported ≡ (flush s).results
unfolding flush IsReported
flush-all s (rest, r) = rw r (ap (λ l. s.reported ++ l) (drop-length s.reported rest))

flush-IsReported : (s : State) → IsReported s → IsReported (flush s)
unfolding IsReported
flush-IsReported s h = ([], sym (append-nil (flush s).reported ∙ flush-all s h))

IsReported-kept : (c : Config) → IsKept c (λ batch. Unit) (λ todo s. IsReported s)
IsReported-kept c = record {
  begin = λ s h. h;
  step =
      λ job todo s s' e h. Extends-IsReported (Dispatched-Extends job s (dispatch_cases job s e)) h;
  finish = λ task outcome job s s' r e h.
      let before : State = record s { running = remove task s.running } in
      Extends-IsReported
        (Finished-Extends job before (finish_job_cases c.build_url job outcome before e))
        (unfold IsReported in h);
  flushed = flush-IsReported;
  merge = λ batch s s' a e h. Extends-IsReported (ingest-Extends c batch s e) h;
  give_up = λ s h. Extends-IsReported (give_up-Extends s) h;
}

-- Where a run ends, on_result was called with each result once, in the order of the results.
pub run_incremental-reported :
    (c : Config) (cache : Option FailedBuildCache) (events : List Progress) (s : State)
    → run_incremental c cache events ≡ ok (done s)
    → s.reported ≡ s.results
unfolding IsReported
run_incremental-reported c cache events s h =
    run_incremental_keeps (IsReported-kept c) (λ s. s.reported ≡ s.results) flush-all cache events
      (any_events events) h ([], refl)
