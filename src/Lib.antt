-- ===== src/Lib.antt =====
-- nixbot: models of the parts of the continuous integration service that decide, and proofs of what
-- they promise.
--
-- A build starts from the attributes that nix-eval-jobs evaluates (nixbot/nixbot/models.py,
-- Models). They arrive in batches at the build scheduler (nixbot/nixbot/build_scheduler.py,
-- Scheduler), which orders them by their derivations' closures, skips what is built or known to
-- fail (nixbot/nixbot/failed_builds.py, Scheduler/Cache), hands the rest to the executor, passes
-- failures on to dependents and reports each result.
--
-- Around it stand the tracking of in-flight builds by branch and pull request, which cancels what a
-- newer change supersedes (nixbot/nixbot/canceller.py, Canceller), and the sizing of the evaluation
-- workers (nixbot/nixbot/memory.py, EvalWorkers). Access to the projects is decided by the rules of
-- nixbot/nixbot/auth.py and by nixbot/nixbot/visibility.py (Access), where a forge is a function
-- from a user and repositories to an answer or a failure, and the rows of the database are given.
-- Effects that run on a schedule are due by nixbot/nixbot/schedules.py and `ScheduleWhen` of
-- nixbot/nixbot/config.py (Schedules); a time is a number of minutes, and the hash of a name and
-- the day of the month are parameters. Changes reach the service as webhooks
-- (nixbot/nixbot/webhooks.py, Webhooks): Webhooks/Values has what Python does with the values of a
-- payload, Webhooks/Discussion, Webhooks/Parsing and Webhooks/Gitlab the parsers,
-- Webhooks/Deliveries `DeliveryDeduper` and Webhooks/Handlers `_WebhookHandlers`. Of
-- nixbot/nixbot/executor.py Executor/Fair has the pool of build slots, `FairScheduler`, with the
-- tasks beside it (a step of the event loop is a constructor of `Step` in Executor/Fair/Steps), and
-- Executor/Logs the `LogWriter`, `read_log` and `iter_lines`, and Executor/Capture
-- `StructuredCapture`, which sorts the lines of a build by derivation into the container of
-- nixbot/nixbot/logstore.py (Logstore). Of the effects that a flake declares,
-- nixbot_effects/nixbot_effects/graph.py checks what each comes after (Effects/Graph). In Canceller
-- the builds are kept by value in the dict that owns them, and a cancel event is a number with the
-- list of those that are set.
--
-- The scheduler's files follow its code. Scheduler/Types has the outcomes, statuses and results,
-- Scheduler/Closures the closures and the topological sort (graphlib is a parameter; what it is
-- documented to do is `IsTopological` in Scheduler/Order), Scheduler/Dependents the search for
-- failed dependents, Scheduler/State `_State`, Scheduler/Dispatch `_classify`, `_dispatch_ready`
-- and `_finish_job`, Scheduler/Ingest `_partition_jobs` and `_ingest`, Scheduler/Loop the emitter
-- and `run_incremental`. Exceptions are the errors of a Result. The event loop is a list of what
-- each wait returns: a batch, the end of the input, finished tasks, or both. An answer of the
-- executor is part of that list.
--
-- Loops run on fuel. The search has one step for each job and one more, as every derivation goes on
-- the stack once; the settling loop has two more than its candidates, as each pass but the last
-- settles one; the sweep of a schedule has the minutes of its window; a dispatching loop has one
-- more than the pending jobs, as each round takes one away; and the main loop has three more than
-- the events, as a round without an event is followed by one with an event or by the end. The
-- dispatch of slots has one more than the waiting futures and keys, of which each turn takes one
-- away, the lines of a buffer have its bytes, and the visits of the effect graph go one deeper than
-- there are effects, as each has one more under way.
--
-- Sets of strings are lists without order, of which only membership is asked. Where Python iterates
-- over a set, the model takes one order; the order in which the results of a failure are listed is
-- the only thing that depends on it.
--
-- What does not stand in the sources is a parameter: HMAC, the decoding of JSON and forms, Python's
-- `str` of a value that is no text and its Unicode tables (Webhooks), the compression of logs and
-- the encoding of texts (Executor/Logs), and the regular expressions that scrape a log for failures
-- (Executor/Capture).
--
-- Not modelled are handlers of webhooks and writes of a log that are in flight at once, the packing
-- of the log container and its reader, the drawing of the effect graph, the keys of `branch_key`,
-- which Canceller takes as texts, the readers of the host's memory figures, the text of failure
-- reports, the cancellation of the scheduler's own task, and everything that talks to processes,
-- the network or the database.
pub mod Access
pub mod Canceller
pub mod Effects
pub mod EvalWorkers
pub mod Executor
pub mod Logstore
pub mod Models
pub mod Prelude
pub mod Scheduler
pub mod Schedules
pub mod Webhooks
