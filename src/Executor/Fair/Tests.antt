-- ===== src/Executor/Fair/Tests.antt =====
-- executor.py, `FairScheduler`: a pool of one slot, which one build holds and another waits for.
use nixbot.Prelude.{◌≤◌, ◌≡◌, refl, true, some, [], ◌∷◌, get, put, nat_eq, elem, arith}
use nixbot.Executor.Fair.{
  granted, pending, FairScheduler, new, enqueue, acquire, release, is_granted, queue_of,
}
use nixbot.Executor.Fair.Queues.{count_tasks}
use nixbot.Executor.Fair.Steps.{Reach, opened, step, call}
use nixbot.Executor.Fair.Reach.{acquire-release-capacity, release-acquire-busy}
use nixbot.Executor.Fair.Order.{release-rotate}

abbrev one_waits : FairScheduler
unfolding acquire
one_waits = acquire 8 (acquire 8 (acquire 7 (new 1)))

one_waits-Reach : Reach 1 one_waits
unfolding acquire one_waits
one_waits-Reach = step (step (step opened (call 7)) (call 8)) (call 8)

acquire-release-capacity_example :
    (one_waits.active ≡ count_tasks is_granted one_waits.tasks)
    × (count_tasks is_granted one_waits.tasks ≤ 1)
acquire-release-capacity_example = acquire-release-capacity 1 one_waits one_waits-Reach

release-acquire-busy_example :
    (count_tasks is_granted one_waits.tasks ≡ 1) × (elem 2 (queue_of one_waits 8) ≡ true)
unfolding acquire get enqueue put
release-acquire-busy_example =
    release-acquire-busy 1 one_waits 2 (record { key = 8; progress = pending }) one_waits-Reach refl
      refl

release-rotate_example :
    (get (release one_waits).tasks 1 ≡ some (record { key = 8; progress = granted }))
    × (get (release one_waits).tasks 2 ≡ get one_waits.tasks 2)
    × ((release one_waits).rotation ≡ 8 ∷ [])
    × (queue_of (release one_waits) 8 ≡ 2 ∷ [])
unfolding acquire get enqueue put
release-rotate_example =
    release-rotate 1 one_waits 8 1 2 [] (2 ∷ []) (record { key = 8; progress = pending })
      one_waits-Reach refl (omega arith) refl refl refl refl refl
