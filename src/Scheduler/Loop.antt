-- ===== src/Scheduler/Loop.antt =====
-- build_scheduler.py: `_ResultEmitter`, `_wait_for_progress` and `run_incremental`. The event loop
-- is the list of what each wait returns: an item of the queue, finished tasks, or both.
use nixbot.Prelude.{
  ℕ, zero, suc, ◌+◌, String, Bool, true, false, not, ◌&&◌, Option, none, some, List, [], ◌∷◌, ◌++◌,
  get, remove, nat_eq, length, drop, is_nil, Result, ok, err, ◌>>=◌, if◌then◌else◌,
}
use nixbot.Models.{NixEvalJob}
use nixbot.Scheduler.Types.{BuildOutcome}
use nixbot.Scheduler.Closures.{Fault, key_error, StaticOrder}
use nixbot.Scheduler.State.{State, initial, fail_unresolvable}
use nixbot.Scheduler.Cache.{FailedBuildCache}
use nixbot.Scheduler.Dispatch.{dispatch_ready, finish_job}
use nixbot.Scheduler.Ingest.{ingest}

-- An item of the queue: a batch, or `none`, the end-of-input sentinel.
abbrev pub Item : Type 0
Item = Option (List NixEvalJob)

pub record Progress : Type 0 where
  pub item : Option Item
  pub finished : List (ℕ × BuildOutcome)

-- How a run ends for a list of waits: with its result, or at a wait that the list does not answer.
pub data Outcome : Type 0 where
  done : State → Outcome
  waiting : Bool → State → Outcome
  out_of_rounds : Outcome

-- What the scheduler is made with, and the library that orders its jobs.
pub record Config : Type 0 where
  pub static_order : StaticOrder
  pub supported_systems : List String
  pub build_url : String

-- `flush`: `emitted` is the length of `reported`
unfoldable pub flush : State → State
flush s = record s { reported = s.reported ++ drop (length s.reported) s.results }

-- the test of the `while` loop, negated
unfoldable pub idle : Bool → State → Bool
idle reading s = not reading && is_nil s.pending && is_nil s.running

-- the branch for a loop with nothing to wait for
unfoldable pub nothing_to_wait_for : Bool → State → State
nothing_to_wait_for any_ready s =
    if not (is_nil s.pending) && not any_ready then fail_unresolvable s else s

module _ (c : Config) where
  -- `state.running.pop(task)`, `_finish_job` and `flush` for each finished task
  unfoldable pub finish_all : List (ℕ × BuildOutcome) → State → Result Fault State
  finish_all [] s = ok s
  finish_all ((task, outcome) ∷ rest) s = elim (get s.running task) [
    | none ↦ err key_error
    | some job ↦
        finish_job c.build_url job outcome (record s { running = remove task s.running }) >>= λ s'.
        finish_all rest (flush s')
  ]

  -- `_on_queue_item`; the flag says whether the reader of the queue lives on
  unfoldable pub on_queue_item : Option Item → Bool → State → Result Fault (State × Bool)
  on_queue_item none reading s = ok (s, reading)
  on_queue_item (some none) reading s = ok (s, false)
  on_queue_item (some (some batch)) reading s =
      ingest c.static_order c.supported_systems batch s >>= λ s'. ok (s', true)

  unfoldable pub wait_for_progress : Progress → Bool → State → Result Fault (State × Bool)
  wait_for_progress p reading s =
      on_queue_item (if reading then p.item else none) reading s >>= λ r.
      finish_all p.finished r.0 >>= λ s'. ok (s', r.1)

  -- the head of the environment's list is what the wait returns, and `next` is the next round
  unfoldable pub wait :
      (List Progress → State × Bool → Result Fault Outcome)
      → List Progress
      → Bool
      → State
      → Result Fault Outcome
  wait next [] reading s = ok (waiting reading s)
  wait next (event ∷ later) reading s = wait_for_progress event reading s >>= next later

  -- `run_incremental` from the head of its loop
  unfoldable pub rounds : ℕ → List Progress → Bool → State → Result Fault Outcome
  rounds zero events reading s = ok out_of_rounds
  rounds (suc fuel) events reading s = elim (idle reading s) [
    | true ↦ ok (done (flush s))
    | false ↦ dispatch_ready s >>= λ r. elim (not reading && is_nil (flush r.0).running) [
      | true ↦ rounds fuel events reading (nothing_to_wait_for r.1 (flush r.0))
      | false ↦ wait (λ later w. rounds fuel later w.1 w.0) events reading (flush r.0)
    ]
  ]

  unfoldable pub run_incremental : Option FailedBuildCache → List Progress → Result Fault Outcome
  run_incremental cache events = rounds (length events + 3) events true (initial cache)
