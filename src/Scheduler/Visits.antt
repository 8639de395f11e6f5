-- ===== src/Scheduler/Visits.antt =====
-- build_scheduler.py: the states that the loop passes through, as a relation.
use nixbot.Prelude.{ℕ, ◌≡◌, Option, some, List, [], ◌∷◌, get, remove, nat_eq, ok}
use nixbot.Models.{NixEvalJob, NixEvalJobSuccess}
use nixbot.Scheduler.Types.{BuildOutcome}
use nixbot.Scheduler.Cache.{FailedBuildCache}
use nixbot.Scheduler.State.{State, initial, fail_unresolvable}
use nixbot.Scheduler.Dispatch.{dispatch, ready, finish_job}
use nixbot.Scheduler.Ingest.{ingest}
use nixbot.Scheduler.Loop.{Progress, Config, Outcome, flush, run_incremental}
use nixbot.Scheduler.Induction.{IsKept, AdmissibleEvents, Ends, run_incremental_keeps}

-- `Visits c A todo s`: a run on batches that meet `A` comes to the state `s`, where the jobs `todo`
-- of the current round of dispatching are still to be dispatched.
pub data Visits (c : Config) (A : List NixEvalJob → Type 0)
    : List NixEvalJobSuccess → State → Type 0 where
  outset : (cache : Option FailedBuildCache) → Visits c A [] (initial cache)
  begin : (s : State) → Visits c A [] s → Visits c A (ready s) s
  step :
      (job : NixEvalJobSuccess) (todo : List NixEvalJobSuccess) (s s' : State)
      → dispatch job s ≡ ok s'
      → Visits c A (job ∷ todo) s
      → Visits c A todo s'
  finish :
      (task : ℕ) (outcome : BuildOutcome) (job : NixEvalJobSuccess) (s s' : State)
      → get s.running task ≡ some job
      → finish_job c.build_url job outcome (record s { running = remove task s.running }) ≡ ok s'
      → Visits c A [] s
      → Visits c A [] s'
  flushed : (s : State) → Visits c A [] s → Visits c A [] (flush s)
  merge :
      (batch : List NixEvalJob) (s s' : State)
      → A batch
      → ingest c.static_order c.supported_systems batch s ≡ ok s'
      → Visits c A [] s
      → Visits c A [] s'
  give_up : (s : State) → Visits c A [] s → Visits c A [] (fail_unresolvable s)

module _ {c : Config} {A : List NixEvalJob → Type 0} where
  -- What the operations keep holds at every visited state.
  pub Visits-keeps :
      (P : List NixEvalJobSuccess → State → Type 0)
      → IsKept c A P
      → ((cache : Option FailedBuildCache) → P [] (initial cache))
      → {todo : List NixEvalJobSuccess} {s : State} → Visits c A todo s
      → P todo s
  Visits-keeps P k i (outset cache) = i cache
  Visits-keeps P k i (begin s v) = k.begin s (Visits-keeps P k i v)
  Visits-keeps P k i (step job todo s s' e v) = k.step job todo s s' e (Visits-keeps P k i v)
  Visits-keeps P k i (finish t o job s s' r e v) = k.finish t o job s s' r e (Visits-keeps P k i v)
  Visits-keeps P k i (flushed s v) = k.flushed s (Visits-keeps P k i v)
  Visits-keeps P k i (merge batch s s' a e v) = k.merge batch s s' a e (Visits-keeps P k i v)
  Visits-keeps P k i (give_up s v) = k.give_up s (Visits-keeps P k i v)

Visits-kept : (c : Config) (A : List NixEvalJob → Type 0) → IsKept c A (Visits c A)
Visits-kept c A = record {
  begin = begin;
  step = step;
  finish = finish;
  flushed = flushed;
  merge = merge;
  give_up = give_up;
}

-- Where a run ends is a visited state.
pub run_incremental-Visits :
    (c : Config) (A : List NixEvalJob → Type 0) (cache : Option FailedBuildCache)
    (events : List Progress) {o : Outcome}
    → AdmissibleEvents A events
    → run_incremental c cache events ≡ ok o
    → Ends (Visits c A []) (Visits c A []) o
run_incremental-Visits c A cache events a h =
    run_incremental_keeps (Visits-kept c A) (Visits c A []) flushed cache events a h (outset cache)
