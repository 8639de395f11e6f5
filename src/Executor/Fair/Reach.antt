-- ===== src/Executor/Fair/Reach.antt =====
-- executor.py, `FairScheduler`: what a pool of a capacity comes to, in any order of its tasks' turns.
use nixbot.Prelude.{
  ℕ, ◌≤◌, ◌<◌, ◌≡◌, refl, ◌∙◌, true, false, ◌&&◌, ◌⊎◌, inl, inr, some, get, elem, nat_eq, arith,
  ltb, ltb→lt, Bool-cases, is_nil,
}
use nixbot.Executor.Fair.{
  pending, granted, cancelled, ended, Task, FairScheduler, queue_of, is_granted, acquire, enqueue,
  leave, give_back,
}
use nixbot.Executor.Fair.Queues.{count_tasks}
use nixbot.Executor.Fair.Acquire.{
  waits, take-IsSound, enqueue-IsSound, leave-IsSound, leave_rest, leave-IsBusy,
}
use nixbot.Executor.Fair.Steps.{
  Step, Reach, IsGood, new-IsGood, release-IsGood, drop_task-IsSound, call, cancel, wake, finish,
  opened, step,
}

enqueue_rest :
    (key future : ℕ) (s : FairScheduler)
    → ((enqueue key future s).active ≡ s.active) × ((enqueue key future s).capacity ≡ s.capacity)
unfolding enqueue
enqueue_rest key future s = ground arith

acquire-IsGood :
    (capacity key : ℕ) (s : FairScheduler) → IsGood capacity s → IsGood capacity (acquire key s)
unfolding IsGood acquire waits
acquire-IsGood capacity key s (c, busy, size) =
    elim (Bool-cases (ltb s.active s.capacity && is_nil s.waiters)) [
      | inl e ↦
          rw (e, acquire) (take-IsSound s key c (ground (arith, e)), λ _. ground (arith, e), size)
      | inr e ↦
          let (active, capacity) = enqueue_rest key s.next (waits s key c) in
          rw (e, acquire)
            (
              enqueue-IsSound s key c,
              λ room. absurd (full e (omega (arith, room, active, capacity))),
              capacity ∙ size,
            )
    ]
  where
    full : (ltb s.active s.capacity && is_nil s.waiters) ≡ false → s.active < s.capacity → ⊥
    full e room = ground (arith, room, e, busy room)

give_back-IsGood :
    (capacity future : ℕ) (task : Task) (s : FairScheduler)
    → IsGood capacity s
    → get s.tasks future ≡ some task
    → (task.progress ≡ cancelled) ⊎ (task.progress ≡ granted)
    → IsGood capacity (give_back future task (leave task.key future s))
unfolding IsGood give_back
give_back-IsGood capacity future task s (c, busy, size) e (inl p) =
    let (tasks, active, same) = leave_rest s task.key c future in
    let t = leave task.key future s in
    rw p (
      drop_task-IsSound future task ended t (leave-IsSound s task.key c future task e (inl p))
          (rw tasks e) (ground (arith, p)) (inr refl),
      leave-IsBusy s task.key c future busy,
      same ∙ size,
    )
give_back-IsGood capacity future task s (c, busy, size) e (inr p) =
    let (tasks, active, same) = leave_rest s task.key c future in
    rw p (
      release-IsGood capacity future task (leave task.key future s)
        (leave-IsSound s task.key c future task e (inr p)) (same ∙ size) (rw tasks e) p)

Step-IsGood :
    (capacity : ℕ) {s t : FairScheduler} → Step s t → IsGood capacity s → IsGood capacity t
unfolding IsGood
Step-IsGood capacity {s} (call key) g = acquire-IsGood capacity key s g
Step-IsGood capacity {s} (cancel future task e p) (c, busy, size) =
    (drop_task-IsSound future task cancelled s c e (ground (arith, p)) (inl refl), busy, size)
Step-IsGood capacity {s} (wake future task e p) g = give_back-IsGood capacity future task s g e p
Step-IsGood capacity {s} (finish future task e p) (c, busy, size) =
    release-IsGood capacity future task s c size e p

pub Reach-IsGood : (capacity : ℕ) {s : FairScheduler} → Reach capacity s → IsGood capacity s
Reach-IsGood capacity opened = new-IsGood capacity
Reach-IsGood capacity (step r t) = Step-IsGood capacity t (Reach-IsGood capacity r)

-- In every state that a pool comes to, in whatever order its tasks acquire, are cancelled, handle
-- the cancellation and release, the counter is the number of tasks that hold a slot, and these are
-- no more than the capacity.
pub acquire-release-capacity :
    (capacity : ℕ) (s : FairScheduler)
    → Reach capacity s
    → (s.active ≡ count_tasks is_granted s.tasks) × (count_tasks is_granted s.tasks ≤ capacity)
unfolding IsGood
acquire-release-capacity capacity s r =
    let (c, busy, size) = Reach-IsGood capacity r in
    (c.held, omega (arith, c.held, c.bounded, size))

-- In every state that a pool comes to, in whatever order its tasks acquire, are cancelled, handle
-- the cancellation and release: while a task waits for a slot, all slots are held, and its future
-- stands in the queue of its key. No wake-up is lost.
pub release-acquire-busy :
    (capacity : ℕ) (s : FairScheduler) (future : ℕ) (task : Task)
    → Reach capacity s
    → get s.tasks future ≡ some task
    → task.progress ≡ pending
    → (count_tasks is_granted s.tasks ≡ capacity) × (elem future (queue_of s task.key) ≡ true)
unfolding IsGood get elem
release-acquire-busy capacity s future task r e p =
    let (c, busy, size) = Reach-IsGood capacity r in
    let waits = c.queued future task e p in
    elim (Bool-cases (ltb s.active s.capacity)) [
      | inl room ↦ absurd (ground (arith, rw (busy (ltb→lt s.active s.capacity room)) at waits))
      | inr full ↦ (ground (arith, full, c.held, c.bounded, size), waits)
    ]
