-- ===== src/Executor/Fair/Steps.antt =====
-- executor.py, `FairScheduler`: the steps of the tasks beside a pool, and those that give a slot back.
use nixbot.Prelude.{
  ℕ, ◌-◌, ◌≡◌, refl, ◌∙◌, true, false, ◌⊎◌, some, List, [], ◌∷◌, get, get-put, elem, nodup, nat_eq,
  arith, is_nil,
}
use nixbot.Executor.Fair.{
  TaskState, pending, granted, cancelled, ended, Task, FairScheduler, new, is_granted, set_progress,
  release, acquire, leave, give_back,
}
use nixbot.Executor.Fair.Queues.{count_tasks-put}
use nixbot.Executor.Fair.Loop.{IsBusy, dispatch-IsSound}
use nixbot.Executor.Fair.Turns.{IsSound}

-- One turn of the event loop. `cancel` is `Task.cancel` on a task that waits, which cancels its
-- future; `wake` is the handler of CancelledError, for a future that was cancelled or granted.
pub data Step : FairScheduler → FairScheduler → Type 0 where
  call : {s : FairScheduler} (key : ℕ) → Step s (acquire key s)
  cancel :
      {s : FairScheduler} (future : ℕ) (task : Task)
      → get s.tasks future ≡ some task
      → task.progress ≡ pending
      → Step s (set_progress future task cancelled s)
  wake :
      {s : FairScheduler} (future : ℕ) (task : Task)
      → get s.tasks future ≡ some task
      → (task.progress ≡ cancelled) ⊎ (task.progress ≡ granted)
      → Step s (give_back future task (leave task.key future s))
  finish :
      {s : FairScheduler} (future : ℕ) (task : Task)
      → get s.tasks future ≡ some task
      → task.progress ≡ granted
      → Step s (release (set_progress future task ended s))

-- What a pool of a capacity comes to.
pub data Reach (capacity : ℕ) : FairScheduler → Type 0 where
  opened : Reach capacity (new capacity)
  step : {s t : FairScheduler} → Reach capacity s → Step s t → Reach capacity t

unfoldable pub IsGood : ℕ → FairScheduler → Type 0
IsGood capacity s = IsSound s × IsBusy s × (s.capacity ≡ capacity)

pub new-IsGood : (capacity : ℕ) → IsGood capacity (new capacity)
unfolding IsGood nodup elem get
new-IsGood capacity = (
  record {
    held = refl;
    bounded = omega arith;
    keyed = λ k. refl;
    once = refl;
    queued = λ f t h p. ground (arith, h);
    fresh = λ f h. refl;
  },
  λ _. refl,
  refl,
)

-- A slot that is given back: the task ends, and the counter follows in `release`.
release-IsSound :
    (future : ℕ) (task : Task) (s : FairScheduler)
    → IsSound s
    → get s.tasks future ≡ some task
    → task.progress ≡ granted
    → IsSound (record (set_progress future task ended s) { active = s.active - 1 })
release-IsSound future task s c e p = record {
  held = ground (
    arith,
    count_tasks-put is_granted future task (record task { progress = ended }) s.tasks e,
    c.held,
    p,
  );
  bounded = omega (arith, c.bounded);
  keyed = c.keyed;
  once = c.once;
  queued = λ f t h q. ground (
    arith,
    get-put s.tasks future f (record task { progress = ended }),
    h,
    q,
    c.queued f t,
    nat_eq.beq_iff future f,
  );
  fresh = λ f h. ground (
    arith,
    get-put s.tasks future f (record task { progress = ended }),
    c.fresh f h,
    e,
    nat_eq.beq_iff future f,
  );
}

pub release-IsGood :
    (capacity future : ℕ) (task : Task) (s : FairScheduler)
    → IsSound s
    → s.capacity ≡ capacity
    → get s.tasks future ≡ some task
    → task.progress ≡ granted
    → IsGood capacity (release (set_progress future task ended s))
unfolding release IsGood
release-IsGood capacity future task s c size e p =
    let (sound, busy, same) =
      dispatch-IsSound (record (set_progress future task ended s) { active = s.active - 1 })
        (release-IsSound future task s c e p) in
    (sound, busy, same ∙ size)

-- A task that waits no more, and holds no slot.
pub drop_task-IsSound :
    (future : ℕ) (task : Task) (progress : TaskState) (s : FairScheduler)
    → IsSound s
    → get s.tasks future ≡ some task
    → is_granted task.progress ≡ false
    → (progress ≡ cancelled) ⊎ (progress ≡ ended)
    → IsSound (set_progress future task progress s)
drop_task-IsSound future task progress s c e p q = record {
  held = ground (
    arith,
    count_tasks-put is_granted future task (record task { progress = progress }) s.tasks e,
    c.held,
    p,
    q,
  );
  bounded = c.bounded;
  keyed = c.keyed;
  once = c.once;
  queued = λ f t h r. ground (
    arith,
    get-put s.tasks future f (record task { progress = progress }),
    h,
    r,
    q,
    c.queued f t,
    nat_eq.beq_iff future f,
  );
  fresh = λ f h. ground (
    arith,
    get-put s.tasks future f (record task { progress = progress }),
    c.fresh f h,
    e,
    nat_eq.beq_iff future f,
  );
}

pub no_elem : (f : ℕ) (queue : List ℕ) → is_nil queue ≡ true → elem f queue ≡ false
unfolding elem
no_elem f [] h = refl
no_elem f (x ∷ queue) h = ground (arith, h)
