-- ===== src/Executor/Fair.antt =====
-- executor.py: `FairScheduler`. Keys (builds) and futures are numbers; the tasks that wait for a
-- slot, hold one or gave one back are the state of the event loop beside it.
pub mod Queues
pub mod Turns
pub mod Loop
pub mod Steps
pub mod Acquire
pub mod Reach
pub mod Order
pub mod Tests
use nixbot.Prelude.{
  ℕ, zero, suc, ◌+◌, ◌-◌, Bool, true, false, not, ◌&&◌, Option, none, some, List, [], ◌∷◌, ◌++◌,
  Dict, get, put, remove, elem, nat_eq, ◌==◌, ltb, is_nil, length, if◌then◌else◌,
}

-- What a future and its task have come to. A task that is granted holds a slot.
pub data TaskState : Type 0 where
  pending granted cancelled ended : TaskState

pub record Task : Type 0 where
  pub key : ℕ
  pub progress : TaskState

-- `tasks` has the task of each call of `acquire`, by the number of its future.
pub record FairScheduler : Type 0 where
  pub capacity : ℕ
  pub active : ℕ
  pub waiters : Dict ℕ (List ℕ)
  pub rotation : List ℕ
  pub tasks : Dict ℕ Task
  pub next : ℕ

abbrev pub new : ℕ → FairScheduler
new capacity = record {
  capacity = capacity;
  active = 0;
  waiters = [];
  rotation = [];
  tasks = [];
  next = 0;
}

-- `deque.remove`, where the item is known to be there
unfoldable pub remove_first : ℕ → List ℕ → List ℕ
remove_first k [] = []
remove_first k (x ∷ xs) = if x == k then xs else x ∷ remove_first k xs

abbrev pub queue_or_empty : Option (List ℕ) → List ℕ
queue_or_empty none = []
queue_or_empty (some queue) = queue

abbrev pub queue_of : FairScheduler → ℕ → List ℕ
queue_of s key = queue_or_empty (get s.waiters key)

abbrev pub is_pending : TaskState → Bool
is_pending pending = true
is_pending _ = false

abbrev pub is_granted : TaskState → Bool
is_granted granted = true
is_granted _ = false

abbrev pub set_progress : ℕ → Task → TaskState → FairScheduler → FairScheduler
set_progress future task progress s = record s {
  tasks = put future (record task { progress = progress }) s.tasks;
}

-- `if not future.done()`: the slot goes to a future that still waits
unfoldable pub grant : ℕ → FairScheduler → FairScheduler
grant future s = elim (get s.tasks future) [
  | none ↦ s
  | some task ↦
      if is_pending task.progress
      then record (set_progress future task granted s) { active = s.active + 1 }
      else s
]

-- the rotation, and the removal of a queue that is empty
unfoldable pub rotate : ℕ → List ℕ → List ℕ → FairScheduler → FairScheduler
rotate key rest [] s = record s {
  waiters = remove key s.waiters;
  rotation = remove_first key (rest ++ key ∷ []);
}
rotate key rest (future ∷ queue) s = record s {
  waiters = put key (future ∷ queue) s.waiters;
  rotation = rest ++ key ∷ [];
}

-- the body of the loop of `_dispatch`, for the first key, those behind it and the key's queue
unfoldable pub dispatch_step : ℕ → List ℕ → List ℕ → FairScheduler → FairScheduler
dispatch_step key rest [] s = record s { rotation = rest; waiters = remove key s.waiters }
dispatch_step key rest (future ∷ queue) s = grant future (rotate key rest queue s)

-- A turn of the loop takes a future or a key away.
unfoldable pub dispatch_loop : ℕ → FairScheduler → FairScheduler
dispatch_loop zero s = s
dispatch_loop (suc fuel) s = elim (ltb s.active s.capacity) [
  | false ↦ s
  | true ↦ elim s.rotation [
    | [] ↦ s
    | key ∷ rest ↦ dispatch_loop fuel (dispatch_step key rest (queue_of s key) s)
  ]
]

abbrev pub queued_total : Dict ℕ (List ℕ) → ℕ
queued_total [] = 0
queued_total ((key, queue) ∷ d) = length queue + queued_total d

abbrev pub weight : FairScheduler → ℕ
weight s = queued_total s.waiters + length s.rotation

unfoldable pub dispatch : FairScheduler → FairScheduler
dispatch s = dispatch_loop (weight s + 1) s

unfoldable pub release : FairScheduler → FairScheduler
release s = dispatch (record s { active = s.active - 1 })

-- A new queue for a key that has none; `_waiters[key].append(future)` for one that has.
unfoldable pub enqueue : ℕ → ℕ → FairScheduler → FairScheduler
enqueue key future s = elim (get s.waiters key) [
  | none ↦ record s { waiters = put key (future ∷ []) s.waiters; rotation = s.rotation ++ key ∷ [] }
  | some queue ↦ record s { waiters = put key (queue ++ future ∷ []) s.waiters }
]

-- `acquire` up to its `await`: the task of a new future holds a slot or waits
unfoldable pub acquire : ℕ → FairScheduler → FairScheduler
acquire key s =
    if ltb s.active s.capacity && is_nil s.waiters
    then record s {
      active = s.active + 1;
      tasks = put s.next (record { key = key; progress = granted }) s.tasks;
      next = s.next + 1;
    }
    else enqueue key s.next (record s {
      tasks = put s.next (record { key = key; progress = pending }) s.tasks;
      next = s.next + 1;
    })

-- the first part of the handler of CancelledError: the future leaves its queue
unfoldable pub leave : ℕ → ℕ → FairScheduler → FairScheduler
leave key future s = elim (get s.waiters key) [
  | none ↦ s
  | some queue ↦
      if elem future queue
      then if is_nil (remove_first future queue)
        then record s { waiters = remove key s.waiters; rotation = remove_first key s.rotation }
        else record s { waiters = put key (remove_first future queue) s.waiters }
      else s
]

-- its second part: a slot that was granted before the task could take it is given back
unfoldable pub give_back : ℕ → Task → FairScheduler → FairScheduler
give_back future task s = elim task.progress [
  | granted ↦ release (set_progress future task ended s)
  | pending ↦ set_progress future task ended s
  | cancelled ↦ set_progress future task ended s
  | ended ↦ s
]
