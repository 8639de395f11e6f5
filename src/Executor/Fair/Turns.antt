-- ===== src/Executor/Fair/Turns.antt =====
-- executor.py, `FairScheduler._dispatch`: what a turn of its loop does, and what it keeps.
use nixbot.Prelude.{
  ℕ, ◌≤◌, ◌<◌, ◌≡◌, refl, ap, Bool, true, false, ◌⊎◌, inl, inr, Option, none, some, List, [], ◌∷◌,
  get, get-put, get-remove, elem, elem-append, nodup, nat_eq, ◌==◌, arith, length, length-append,
  Bool-cases, Option-cases,
}
use nixbot.Executor.Fair.{
  pending, granted, Task, FairScheduler, weight, queue_of, is_granted, is_pending, grant, rotate,
}
use nixbot.Executor.Fair.Queues.{
  count_tasks, count_tasks-put, nodup-last, remove_first-last, total-put, total-remove,
}

abbrev pub is_some : Option (List ℕ) → Bool
is_some none = false
is_some (some _) = true

-- The counter counts the tasks that hold a slot and respects the capacity; the rotation has the
-- keys of the queues; who waits stands in the queue of its key; numbers are fresh.
pub record IsSound (s : FairScheduler) : Type 0 where
  pub held : s.active ≡ count_tasks is_granted s.tasks
  pub bounded : s.active ≤ s.capacity
  pub keyed : (k : ℕ) → elem k s.rotation ≡ is_some (get s.waiters k)
  pub once : nodup s.rotation ≡ true
  pub queued :
      (f : ℕ) (t : Task)
      → get s.tasks f ≡ some t
      → t.progress ≡ pending
      → elem f (queue_of s t.key) ≡ true
  pub fresh : (f : ℕ) → s.next ≤ f → get s.tasks f ≡ none

-- The rotation of the queue behind a future that was taken off it.
module _ (s : FairScheduler) (key future : ℕ) (rest queue : List ℕ) (c : IsSound s)
    (first : s.rotation ≡ key ∷ rest) (e : get s.waiters key ≡ some (future ∷ queue)) where
  rest_free : elem key rest ≡ false
  unfolding nodup
  rest_free = ground (arith, rw first at c.once)

  pub rotate-keyed :
      (k : ℕ)
      → elem k (rotate key rest queue s).rotation
        ≡ is_some (get (rotate key rest queue s).waiters k)
  unfolding rotate elem
  rotate-keyed k =
      elim queue
        as (λ q.
          elem k (rotate key rest q s).rotation ≡ is_some (get (rotate key rest q s).waiters k)) [
            | [] ↦ rw (remove_first-last key rest rest_free) (
                ground (
                  arith,
                  get-remove s.waiters key k,
                  rw first at (c.keyed k),
                  rest_free,
                  nat_eq.beq_iff key k,
                ))
            | x ∷ q ↦ ground (
              arith,
              get-put s.waiters key k (x ∷ q),
              rw first at (c.keyed k),
              elem-append k rest (key ∷ []),
              nat_eq.beq_iff key k,
            )
          ]

  pub rotate-once : nodup (rotate key rest queue s).rotation ≡ true
  unfolding rotate nodup
  rotate-once = elim queue as (λ q. nodup (rotate key rest q s).rotation ≡ true) [
    | [] ↦ rw (remove_first-last key rest rest_free) (ground (arith, rw first at c.once))
    | x ∷ q ↦ nodup-last rest key (ground (arith, rw first at c.once)) rest_free
  ]

  pub rotate-queued :
      (f : ℕ) (t : Task)
      → get s.tasks f ≡ some t
      → t.progress ≡ pending
      → (future == f) ≡ false
      → elem f (queue_of (rotate key rest queue s) t.key) ≡ true
  unfolding rotate elem
  rotate-queued f t h p other =
      elim queue
          as (λ q.
            get s.waiters key ≡ some (future ∷ q)
            → elem f (queue_of (rotate key rest q s) t.key) ≡ true) [
              | [] ↦ λ e. ground (
                arith,
                c.queued f t h p,
                get-remove s.waiters key t.key,
                nat_eq.beq_iff key t.key,
                e,
                other,
              )
              | x ∷ q ↦ λ e. ground (
                arith,
                c.queued f t h p,
                get-put s.waiters key t.key (x ∷ q),
                nat_eq.beq_iff key t.key,
                e,
                other,
              )
            ]
        e

  pub rotate-rest :
      ((rotate key rest queue s).tasks ≡ s.tasks)
      × ((rotate key rest queue s).active ≡ s.active)
      × ((rotate key rest queue s).capacity ≡ s.capacity)
      × ((rotate key rest queue s).next ≡ s.next)
  unfolding rotate
  rotate-rest =
      elim queue
        as (λ q.
          ((rotate key rest q s).tasks ≡ s.tasks)
          × ((rotate key rest q s).active ≡ s.active)
          × ((rotate key rest q s).capacity ≡ s.capacity)
          × ((rotate key rest q s).next ≡ s.next)) [
            | [] ↦ (refl, refl, refl, refl)
            | x ∷ q ↦ (refl, refl, refl, refl)
          ]

  -- A turn takes one future, or none, off the weight.
  pub rotate-weight : weight (rotate key rest queue s) < weight s
  unfolding rotate
  rotate-weight =
      elim queue
          as (λ q.
            get s.waiters key ≡ some (future ∷ q) → weight (rotate key rest q s) < weight s) [
              | [] ↦ λ e.
                  rw (remove_first-last key rest rest_free)
                    (omega (arith, rw e at (total-remove key s.waiters), ap length first))
              | x ∷ q ↦ λ e. omega (
                arith,
                total-put key (future ∷ x ∷ q) (x ∷ q) s.waiters e,
                ap length first,
                length-append rest (key ∷ []),
              )
            ]
        e

-- What is sound but for one future, which no queue has to hold.
abbrev IsQueued : FairScheduler → ℕ → Type 0
IsQueued s future =
    (f : ℕ) (t : Task)
    → get s.tasks f ≡ some t
    → t.progress ≡ pending
    → (future == f) ≡ false
    → elem f (queue_of s t.key) ≡ true

pub grant-IsSound :
    (future : ℕ) (s : FairScheduler)
    → s.active < s.capacity
    → s.active ≡ count_tasks is_granted s.tasks
    → ((k : ℕ) → elem k s.rotation ≡ is_some (get s.waiters k))
    → nodup s.rotation ≡ true
    → IsQueued s future
    → ((f : ℕ) → s.next ≤ f → get s.tasks f ≡ none)
    → IsSound (grant future s)
unfolding grant
grant-IsSound future s room held keyed once queued fresh =
    elim (Option-cases (get s.tasks future)) [
      | inl e ↦
          rw (e, grant)
            (record {
              held = held;
              bounded = omega arith;
              keyed = keyed;
              once = once;
              queued = λ f t h p. queued f t h p (ground (arith, h, e, nat_eq.beq_iff future f));
              fresh = fresh;
            })
      | inr (task, e) ↦ elim (Bool-cases (is_pending task.progress)) [
        | inl p ↦
            rw (e, grant, p)
              (record {
                held = ground (
                  arith,
                  count_tasks-put is_granted future task (record task { progress = granted })
                      s.tasks e,
                );
                bounded = omega arith;
                keyed = keyed;
                once = once;
                queued = λ f t h q. ground (
                  arith,
                  get-put s.tasks future f (record task { progress = granted }),
                  h,
                  q,
                  queued f t,
                  nat_eq.beq_iff future f,
                );
                fresh = λ f h. ground (
                  arith,
                  get-put s.tasks future f (record task { progress = granted }),
                  fresh f h,
                  e,
                  nat_eq.beq_iff future f,
                );
              })
        | inr p ↦
            rw (e, grant, p)
              (record {
                held = held;
                bounded = omega arith;
                keyed = keyed;
                once = once;
                queued =
                    λ f t h q. queued f t h q (ground (arith, h, e, p, q, nat_eq.beq_iff future f));
                fresh = fresh;
              })
      ]
    ]

pub turn_cases : (l : List ℕ) → (l ≡ []) ⊎ ((future : ℕ) × (queue : List ℕ) × (l ≡ future ∷ queue))
turn_cases [] = inl refl
turn_cases (future ∷ queue) = inr (future, queue, refl)
