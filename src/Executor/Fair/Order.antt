-- ===== src/Executor/Fair/Order.antt =====
-- executor.py, `FairScheduler`: whom a slot that comes free goes to.
use nixbot.Prelude.{
  ℕ, zero, suc, ◌+◌, ◌-◌, ◌<◌, ◌≡◌, refl, ap, sym, ◌∙◌, true, false, some, List, [], ◌∷◌, ◌++◌, get,
  get-put, get-remove, elem, nodup, nat_eq, ◌==◌, arith, ltb, lt→ltb, if◌then◌else◌, is_nil,
}
use nixbot.Executor.Fair.{pending, granted, Task, FairScheduler, queue_of, release, dispatch}
use nixbot.Executor.Fair.Steps.{Reach, IsGood}
use nixbot.Executor.Fair.Reach.{Reach-IsGood}
use nixbot.Executor.Fair.{grant, rotate, dispatch_step, dispatch_loop, queue_or_empty, weight}
use nixbot.Executor.Fair.Queues.{remove_first-last}

full_loop : (fuel : ℕ) (s : FairScheduler) → s.active ≡ s.capacity → dispatch_loop fuel s ≡ s
unfolding dispatch_loop
full_loop zero s h = refl
full_loop (suc fuel) s h = ground (arith, h)

loop_turn :
    (fuel : ℕ) (s : FairScheduler) (key : ℕ) (rest : List ℕ)
    → ltb s.active s.capacity ≡ true
    → s.rotation ≡ key ∷ rest
    → dispatch_loop (suc fuel) s ≡ dispatch_loop fuel (dispatch_step key rest (queue_of s key) s)
unfolding dispatch_loop
loop_turn fuel s key rest h first = grind (arith, h, first)

-- The state after the turn that grants the slot.
module _ (s : FairScheduler) (key : ℕ) (rest : List ℕ) (future : ℕ) (queue : List ℕ) (task : Task)
    (full : s.active ≡ s.capacity) (some_slot : 0 < s.capacity) (first : s.rotation ≡ key ∷ rest)
    (free : elem key rest ≡ false) (e : get s.waiters key ≡ some (future ∷ queue))
    (h : get s.tasks future ≡ some task) (p : task.progress ≡ pending) where
  freed : FairScheduler
  freed = record s { active = s.active - 1 }

  turn : FairScheduler
  turn = grant future (rotate key rest queue freed)

  rotated :
      ((rotate key rest queue freed).tasks ≡ s.tasks)
      × ((rotate key rest queue freed).active ≡ s.active - 1)
      × ((rotate key rest queue freed).capacity ≡ s.capacity)
  unfolding rotate freed
  rotated =
      elim queue
        as (λ q.
          ((rotate key rest q freed).tasks ≡ s.tasks)
          × ((rotate key rest q freed).active ≡ s.active - 1)
          × ((rotate key rest q freed).capacity ≡ s.capacity)) [
            | [] ↦ (refl, refl, refl)
            | x ∷ q ↦ (refl, refl, refl)
          ]

  turn_full : turn.active ≡ turn.capacity
  unfolding turn grant
  turn_full =
      let (tasks, active, capacity) = rotated in ground (arith, tasks, active, capacity, h, p)

  first_turn : (fuel : ℕ) → dispatch_loop (suc fuel) freed ≡ turn
  unfolding dispatch_step freed turn
  first_turn fuel =
      loop_turn fuel freed key rest (lt→ltb (s.active - 1) s.capacity (omega arith)) first
      ∙ ap (λ q. dispatch_loop fuel (dispatch_step key rest q freed)) (ap queue_or_empty e)
      ∙ full_loop fuel turn turn_full

  fuel_suc : weight freed + 1 ≡ suc (weight freed)
  fuel_suc = omega arith

  release-turn : release s ≡ turn
  unfolding release dispatch freed
  release-turn = ap (λ n. dispatch_loop n freed) fuel_suc ∙ first_turn (weight freed)

  turn_tasks :
      (get turn.tasks future ≡ some (record task { progress = granted }))
      × ((f : ℕ) → (future == f) ≡ false → get turn.tasks f ≡ get s.tasks f)
  unfolding turn grant
  turn_tasks =
      let (tasks, active, capacity) = rotated in
      (
        ground (
          arith,
          tasks,
          h,
          p,
          get-put s.tasks future future (record task { progress = granted }),
          nat_eq.beq_iff future future,
        ),
        λ f other. ground (
          arith,
          tasks,
          h,
          p,
          get-put s.tasks future f (record task { progress = granted }),
          other,
        ),
      )

grant_rest :
    (future : ℕ) (s : FairScheduler)
    → ((grant future s).waiters ≡ s.waiters) × ((grant future s).rotation ≡ s.rotation)
unfolding grant
grant_rest future s = ground arith

rotate_order :
    (key : ℕ) (rest queue : List ℕ) (s : FairScheduler)
    → elem key rest ≡ false
    → ((rotate key rest queue s).rotation ≡ (if is_nil queue then rest else rest ++ key ∷ []))
      × (queue_of (rotate key rest queue s) key ≡ queue)
unfolding rotate
rotate_order key rest [] s free = (
  remove_first-last key rest free,
  ground (arith, get-remove s.waiters key key, nat_eq.beq_iff key key),
)
rotate_order key rest (x ∷ queue) s free =
    (refl, ground (arith, get-put s.waiters key key (x ∷ queue), nat_eq.beq_iff key key))

-- In a state that a pool of at least one slot comes to, all slots being in use, a release gives the
-- slot to the first waiter of the first key if that waiter still waits, leaves any other task as it
-- is, and moves the key behind the others, or drops it when nobody else waits under it.
pub release-rotate :
    (capacity : ℕ) (s : FairScheduler) (key future other : ℕ) (rest queue : List ℕ) (task : Task)
    → Reach capacity s
    → (future == other) ≡ false
    → 0 < capacity
    → s.active ≡ capacity
    → s.rotation ≡ key ∷ rest
    → get s.waiters key ≡ some (future ∷ queue)
    → get s.tasks future ≡ some task
    → task.progress ≡ pending
    → (get (release s).tasks future ≡ some (record task { progress = granted }))
      × (get (release s).tasks other ≡ get s.tasks other)
      × ((release s).rotation ≡ (if is_nil queue then rest else rest ++ key ∷ []))
      × (queue_of (release s) key ≡ queue)
unfolding IsGood nodup turn freed
release-rotate capacity s key future other rest queue task r differs some_slot full first e h p =
    let (c, busy, size) = Reach-IsGood capacity r in
    let free : elem key rest ≡ false = ground (arith, rw first at c.once) in
    let same = full ∙ sym size in
    let slot : 0 < s.capacity = rw size some_slot in
    let (given, others) = turn_tasks s key rest future queue task same slot first free e h p in
    let (line, behind) = rotate_order key rest queue (record s { active = s.active - 1 }) free in
    let (waiters, rotation) =
      grant_rest future (rotate key rest queue (record s { active = s.active - 1 })) in
    rw (release-turn s key rest future queue task same slot first free e h p)
      (given, others other differs, rotation ∙ line, rw waiters behind)
