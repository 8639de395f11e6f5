-- ===== src/Executor/Fair/Queues.antt =====
-- executor.py: counting tasks, and removals from the rotation and the queues.
use nixbot.Prelude.{
  ℕ, ◌+◌, ◌≤◌, ◌≡◌, refl, Bool, true, false, not, ◌&&◌, none, some, List, [], ◌∷◌, ◌++◌, Dict, get,
  put, remove, elem, elem-append, nodup, nat_eq, ◌==◌, arith, length, if◌then◌else◌,
}
use nixbot.Executor.Fair.{TaskState, Task, remove_first, queued_total, queue_or_empty}

abbrev pub count_tasks : (TaskState → Bool) → Dict ℕ Task → ℕ
count_tasks p [] = 0
count_tasks p ((f, t) ∷ d) = (if p t.progress then 1 else 0) + count_tasks p d

pub count_tasks-put :
    (p : TaskState → Bool) (f : ℕ) (t u : Task) (d : Dict ℕ Task)
    → get d f ≡ some t
    → count_tasks p (put f u d) + (if p t.progress then 1 else 0)
      ≡ count_tasks p d + (if p u.progress then 1 else 0)
unfolding get put
count_tasks-put p f t u [] h = cc
count_tasks-put p f t u ((g, v) ∷ d) h =
    ground (arith, nat_eq.beq_iff g f, count_tasks-put p f t u d, h)

pub count_tasks-put_new :
    (p : TaskState → Bool) (f : ℕ) (u : Task) (d : Dict ℕ Task)
    → get d f ≡ none
    → count_tasks p (put f u d) ≡ (if p u.progress then 1 else 0) + count_tasks p d
unfolding get put
count_tasks-put_new p f u [] h = omega arith
count_tasks-put_new p f u ((g, v) ∷ d) h =
    ground (arith, nat_eq.beq_iff g f, count_tasks-put_new p f u d, h)

pub elem-remove_first :
    (k j : ℕ) (l : List ℕ) → nodup l ≡ true → elem j (remove_first k l) ≡ (not (k == j) && elem j l)
unfolding remove_first nodup elem
elem-remove_first k j [] h = ground arith
elem-remove_first k j (x ∷ l) h =
    ground
      (arith, elem-remove_first k j l, nat_eq.beq_iff x k, nat_eq.beq_iff k j, nat_eq.beq_iff x j)

-- What is removed is one number: the others stay.
pub elem-remove_first_other :
    (k j : ℕ) (l : List ℕ) → (k == j) ≡ false → elem j (remove_first k l) ≡ elem j l
unfolding remove_first elem
elem-remove_first_other k j [] h = refl
elem-remove_first_other k j (x ∷ l) h = ground (
  arith,
  elem-remove_first_other k j l,
  nat_eq.beq_iff x k,
  nat_eq.beq_iff k j,
  nat_eq.beq_iff x j,
)

pub nodup-remove_first : (k : ℕ) (l : List ℕ) → nodup l ≡ true → nodup (remove_first k l) ≡ true
unfolding remove_first nodup
nodup-remove_first k [] h = refl
nodup-remove_first k (x ∷ l) h =
    ground (
      arith,
      nodup-remove_first k l,
      nat_eq.beq_iff x k,
      nat_eq.beq_iff k x,
      elem-remove_first k x l,
    )

pub nodup-last :
    (l : List ℕ) (k : ℕ) → nodup l ≡ true → elem k l ≡ false → nodup (l ++ k ∷ []) ≡ true
unfolding nodup elem
nodup-last [] k h n = refl
nodup-last (x ∷ l) k h n =
    ground (arith, nodup-last l k, elem-append x l (k ∷ []), nat_eq.beq_iff x k, nat_eq.beq_iff k x)

pub remove_first-last : (k : ℕ) (l : List ℕ) → elem k l ≡ false → remove_first k (l ++ k ∷ []) ≡ l
unfolding remove_first elem
remove_first-last k [] h = ground (arith, nat_eq.beq_iff k k)
remove_first-last k (x ∷ l) h = ground (arith, remove_first-last k l, nat_eq.beq_iff x k)

-- A queue is counted, and an empty dict has no queue.
pub total-put :
    (k : ℕ) (q q' : List ℕ) (d : Dict ℕ (List ℕ))
    → get d k ≡ some q
    → queued_total (put k q' d) + length q ≡ queued_total d + length q'
unfolding get put
total-put k q q' [] h = cc
total-put k q q' ((j, r) ∷ d) h = ground (arith, nat_eq.beq_iff j k, total-put k q q' d, h)

pub total-remove :
    (k : ℕ) (d : Dict ℕ (List ℕ))
    → queued_total (remove k d) + length (queue_or_empty (get d k)) ≤ queued_total d
unfolding get remove
total-remove k [] = omega arith
total-remove k ((j, r) ∷ d) = ground (arith, nat_eq.beq_iff j k, total-remove k d)

pub no_queue : (d : Dict ℕ (List ℕ)) → ((k : ℕ) → get d k ≡ none) → d ≡ []
unfolding get
no_queue [] h = refl
no_queue ((k, q) ∷ d) h = ground (arith, h k, nat_eq.beq_iff k k)
