-- ===== src/Executor/Fair/Loop.antt =====
-- executor.py, `FairScheduler._dispatch`: the loop keeps the pool sound, and ends by its test.
use nixbot.Prelude.{
  ℕ, zero, suc, ◌+◌, ◌<◌, ◌≡◌, refl, ap, ◌∙◌, inl, inr, some, List, [], ◌∷◌, get, remove,
  get-remove, elem, nodup, nat_eq, arith, length, ltb, ltb→lt, Bool-cases,
}
use nixbot.Executor.Fair.{
  FairScheduler, weight, queue_of, grant, rotate, dispatch_step, dispatch_loop, dispatch,
}
use nixbot.Executor.Fair.Queues.{total-remove, no_queue}
use nixbot.Executor.Fair.Turns.{
  IsSound, rotate-keyed, rotate-once, rotate-queued, rotate-rest, rotate-weight, grant-IsSound,
  turn_cases,
}

-- A turn of the loop, for the first key of the rotation.
module _ (s : FairScheduler) (key : ℕ) (rest : List ℕ) (c : IsSound s)
    (room : s.active < s.capacity) (first : s.rotation ≡ key ∷ rest) where
  drop-IsSound :
      queue_of s key ≡ [] → IsSound (record s { rotation = rest; waiters = remove key s.waiters })
  unfolding elem nodup
  drop-IsSound e = record {
    held = c.held;
    bounded = c.bounded;
    keyed = λ k. ground (
      arith,
      get-remove s.waiters key k,
      rw first at (c.keyed k),
      rw first at c.once,
      nat_eq.beq_iff key k,
    );
    once = ground (arith, rw first at c.once);
    queued = λ f t h p.
        ground
          (arith, c.queued f t h p, get-remove s.waiters key t.key, nat_eq.beq_iff key t.key, e);
    fresh = c.fresh;
  }

  some_queue :
      (future : ℕ) (queue : List ℕ)
      → queue_of s key ≡ future ∷ queue
      → get s.waiters key ≡ some (future ∷ queue)
  some_queue future queue e = ground (arith, e)

  taken-IsSound :
      (future : ℕ) (queue : List ℕ)
      → queue_of s key ≡ future ∷ queue
      → IsSound (grant future (rotate key rest queue s))
  taken-IsSound future queue e =
      let g = some_queue future queue e in
      let (tasks, active, capacity, next) = rotate-rest s key future rest queue c first g in
      grant-IsSound future (rotate key rest queue s) (rw (active, capacity) room)
        (rw (active, tasks) c.held) (rotate-keyed s key future rest queue c first g)
        (rotate-once s key future rest queue c first g)
        (λ f t h p other.
          rotate-queued s key future rest queue c first g f t (rw tasks at h) p other)
        (λ f h. rw tasks (c.fresh f (rw next at h)))

  dispatch_step-IsSound : IsSound (dispatch_step key rest (queue_of s key) s)
  unfolding dispatch_step
  dispatch_step-IsSound = elim (turn_cases (queue_of s key)) [
    | inl e ↦ rw (e, dispatch_step) (drop-IsSound e)
    | inr (future, queue, e) ↦ rw (e, dispatch_step) (taken-IsSound future queue e)
  ]

  step_capacity : (dispatch_step key rest (queue_of s key) s).capacity ≡ s.capacity
  unfolding dispatch_step grant
  step_capacity = elim (turn_cases (queue_of s key)) [
    | inl e ↦ rw (e, dispatch_step) refl
    | inr (future, queue, e) ↦
        let (tasks, active, capacity, next) =
          rotate-rest s key future rest queue c first (some_queue future queue e) in
        rw (e, dispatch_step) (ground (arith, capacity))
  ]

  step_weight : weight (dispatch_step key rest (queue_of s key) s) < weight s
  unfolding dispatch_step grant
  step_weight = elim (turn_cases (queue_of s key)) [
    | inl e ↦ rw (e, dispatch_step) (omega (arith, total-remove key s.waiters, ap length first))
    | inr (future, queue, e) ↦
        rw (e, dispatch_step)
          (ground
            (arith, rotate-weight s key future rest queue c first (some_queue future queue e)))
  ]

-- No slot is free while a key has a queue.
abbrev pub IsBusy : FairScheduler → Type 0
IsBusy s = s.active < s.capacity → s.waiters ≡ []

no_rotation : (s : FairScheduler) → IsSound s → s.rotation ≡ [] → s.waiters ≡ []
unfolding elem
no_rotation s c e = no_queue s.waiters (λ k. ground (arith, rw e at (c.keyed k)))

pub dispatch_loop-IsSound :
    (fuel : ℕ) (s : FairScheduler)
    → IsSound s
    → weight s < fuel
    → IsSound (dispatch_loop fuel s)
      × IsBusy (dispatch_loop fuel s)
      × ((dispatch_loop fuel s).capacity ≡ s.capacity)
unfolding dispatch_loop
dispatch_loop-IsSound zero s c h = absurd (omega arith)
dispatch_loop-IsSound (suc fuel) s c h = elim (Bool-cases (ltb s.active s.capacity)) [
  | inl e ↦ elim (turn_cases s.rotation) [
    | inl r ↦ rw (e, r, dispatch_loop) (c, λ _. no_rotation s c r, refl)
    | inr (key, rest, r) ↦
        let room = ltb→lt s.active s.capacity e in
        let (sound, busy, capacity) =
          dispatch_loop-IsSound fuel (dispatch_step key rest (queue_of s key) s)
            (dispatch_step-IsSound s key rest c room r)
            (omega (arith, step_weight s key rest c room r)) in
        rw (e, r, dispatch_loop) (sound, busy, capacity ∙ step_capacity s key rest c room r)
  ]
  | inr e ↦ rw (e, dispatch_loop) (c, λ room. ground (arith, e, room), refl)
]

pub dispatch-IsSound :
    (s : FairScheduler)
    → IsSound s
    → IsSound (dispatch s) × IsBusy (dispatch s) × ((dispatch s).capacity ≡ s.capacity)
unfolding dispatch
dispatch-IsSound s c = dispatch_loop-IsSound (weight s + 1) s c (omega arith)
