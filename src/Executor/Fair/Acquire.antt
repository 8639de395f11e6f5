-- ===== src/Executor/Fair/Acquire.antt =====
-- executor.py, `FairScheduler.acquire`: the calls that take a slot or wait, and their cancellation.
use nixbot.Prelude.{
  ℕ, ◌+◌, ◌<◌, ◌≡◌, ◌⊎◌, inl, inr, none, some, [], ◌∷◌, ◌++◌, get, put, get-put, get-remove, elem,
  elem-append, nodup, nat_eq, arith, Bool-cases, Option-cases, is_nil,
}
use nixbot.Executor.Fair.{
  pending, granted, cancelled, Task, FairScheduler, remove_first, is_granted, enqueue, leave,
}
use nixbot.Executor.Fair.Queues.{
  count_tasks-put_new, nodup-last, nodup-remove_first, elem-remove_first, elem-remove_first_other,
}
use nixbot.Executor.Fair.Loop.{IsBusy}
use nixbot.Executor.Fair.Turns.{IsSound}
use nixbot.Executor.Fair.Steps.{no_elem}

module _ (s : FairScheduler) (key : ℕ) (c : IsSound s) where
  -- The task of a new future, which waits.
  unfoldable pub waits : FairScheduler
  waits = record s {
    tasks = put s.next (record { key = key; progress = pending }) s.tasks;
    next = s.next + 1;
  }

  no_task : get s.tasks s.next ≡ none
  no_task = c.fresh s.next (omega arith)

  pub take-IsSound :
      s.active < s.capacity
      → IsSound (record s {
        active = s.active + 1;
        tasks = put s.next (record { key = key; progress = granted }) s.tasks;
        next = s.next + 1;
      })
  take-IsSound room = record {
    held = ground (
      arith,
      count_tasks-put_new is_granted s.next (record { key = key; progress = granted }) s.tasks
          no_task,
      c.held,
    );
    bounded = omega arith;
    keyed = c.keyed;
    once = c.once;
    queued = λ f t h p. ground (
      arith,
      get-put s.tasks s.next f (record { key = key; progress = granted }),
      h,
      p,
      c.queued f t,
      nat_eq.beq_iff s.next f,
    );
    fresh = λ f h. ground (
      arith,
      get-put s.tasks s.next f (record { key = key; progress = granted }),
      c.fresh f,
      nat_eq.beq_iff s.next f,
    );
  }

  pub enqueue-IsSound : IsSound (enqueue key s.next waits)
  unfolding enqueue waits nodup elem
  enqueue-IsSound = elim (Option-cases (get s.waiters key)) [
    | inl e ↦
        rw (e, enqueue)
          (record {
            held = ground (
              arith,
              count_tasks-put_new is_granted s.next (record { key = key; progress = pending })
                  s.tasks no_task,
              c.held,
            );
            bounded = c.bounded;
            keyed = λ k. ground (
              arith,
              get-put s.waiters key k (s.next ∷ []),
              c.keyed k,
              elem-append k s.rotation (key ∷ []),
              nat_eq.beq_iff key k,
            );
            once = nodup-last s.rotation key c.once (ground (arith, c.keyed key, e));
            queued = λ f t h p. ground (
              arith,
              get-put s.tasks s.next f (record { key = key; progress = pending }),
              h,
              p,
              c.queued f t,
              nat_eq.beq_iff s.next f,
              get-put s.waiters key t.key (s.next ∷ []),
              nat_eq.beq_iff key t.key,
              e,
            );
            fresh = λ f h. ground (
              arith,
              get-put s.tasks s.next f (record { key = key; progress = pending }),
              c.fresh f,
              nat_eq.beq_iff s.next f,
            );
          })
    | inr (queue, e) ↦
        rw (e, enqueue)
          (record {
            held = ground (
              arith,
              count_tasks-put_new is_granted s.next (record { key = key; progress = pending })
                  s.tasks no_task,
              c.held,
            );
            bounded = c.bounded;
            keyed = λ k. ground (
              arith,
              get-put s.waiters key k (queue ++ s.next ∷ []),
              c.keyed k,
              e,
              nat_eq.beq_iff key k,
            );
            once = c.once;
            queued = λ f t h p. ground (
              arith,
              get-put s.tasks s.next f (record { key = key; progress = pending }),
              h,
              p,
              c.queued f t,
              nat_eq.beq_iff s.next f,
              get-put s.waiters key t.key (queue ++ s.next ∷ []),
              nat_eq.beq_iff key t.key,
              e,
              elem-append f queue (s.next ∷ []),
            );
            fresh = λ f h. ground (
              arith,
              get-put s.tasks s.next f (record { key = key; progress = pending }),
              c.fresh f,
              nat_eq.beq_iff s.next f,
            );
          })
  ]

  -- The queue of a key that a cancelled or granted future leaves.
  pub leave-IsSound :
      (future : ℕ) (task : Task)
      → get s.tasks future ≡ some task
      → (task.progress ≡ cancelled) ⊎ (task.progress ≡ granted)
      → IsSound (leave key future s)
  unfolding leave
  leave-IsSound future task h p = elim (Option-cases (get s.waiters key)) [
    | inl e ↦ rw (e, leave) c
    | inr (queue, e) ↦ elim (Bool-cases (elem future queue)) [
      | inl i ↦ elim (Bool-cases (is_nil (remove_first future queue))) [
        | inl n ↦
            rw (e, leave, i, n)
              (record {
                held = c.held;
                bounded = c.bounded;
                keyed = λ k. ground (
                  arith,
                  get-remove s.waiters key k,
                  c.keyed k,
                  elem-remove_first key k s.rotation c.once,
                  nat_eq.beq_iff key k,
                );
                once = nodup-remove_first key s.rotation c.once;
                queued = λ f t g q. ground (
                  arith,
                  get-remove s.waiters key t.key,
                  elem-remove_first_other future f queue,
                  c.queued f t,
                  g,
                  q,
                  h,
                  p,
                  e,
                  n,
                  no_elem f (remove_first future queue),
                  nat_eq.beq_iff future f,
                  nat_eq.beq_iff key t.key,
                );
                fresh = c.fresh;
              })
        | inr n ↦
            rw (e, leave, i, n)
              (record {
                held = c.held;
                bounded = c.bounded;
                keyed = λ k. ground (
                  arith,
                  get-put s.waiters key k (remove_first future queue),
                  c.keyed k,
                  e,
                  nat_eq.beq_iff key k,
                );
                once = c.once;
                queued = λ f t g q. ground (
                  arith,
                  get-put s.waiters key t.key (remove_first future queue),
                  elem-remove_first_other future f queue,
                  c.queued f t,
                  g,
                  q,
                  h,
                  p,
                  e,
                  nat_eq.beq_iff future f,
                  nat_eq.beq_iff key t.key,
                );
                fresh = c.fresh;
              })
      ]
      | inr i ↦ rw (e, leave, i) c
    ]
  ]

  pub leave_rest :
      (future : ℕ)
      → ((leave key future s).tasks ≡ s.tasks)
        × ((leave key future s).active ≡ s.active)
        × ((leave key future s).capacity ≡ s.capacity)
  unfolding leave
  leave_rest future = ground arith

  pub leave-IsBusy : (future : ℕ) → IsBusy s → IsBusy (leave key future s)
  unfolding leave get
  leave-IsBusy future busy room =
      let (tasks, active, capacity) = leave_rest future in
      let empty = busy (omega (arith, room, active, capacity)) in rw (empty, leave) empty
