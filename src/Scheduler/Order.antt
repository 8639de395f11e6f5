-- ===== src/Scheduler/Order.antt =====
-- build_scheduler.py, `sort_jobs_by_closures`: what graphlib documents, and what the sort keeps.
use nixbot.Prelude.{
  String, ◌≡◌, refl, ◌∙◌, ◌≢◌, Bool, true, ◌&&◌, none, some, List, [], ◌∷◌, ◌++◌, arith, count,
  count-append, flat_map, elem, elem-nil, elem-cons, nodup, get, get-put, string_eq, ◌==◌, ==_refl,
  put, ok, ok-injective, Option-cases, Bool-cases, All, All-append, ◌⊎◌, inl, inr,
}
use nixbot.Models.{NixEvalJobSuccess}
use nixbot.Scheduler.Closures.{
  Closures, StaticOrder, drvs, by_drv, closure_of, closures_from, compute_job_closures,
  sort_jobs_by_closures,
}
use nixbot.Scheduler.Search.Counts.{count-seen, count-none}

-- Whether the dependencies of each derivation of an order stand before it.
abbrev pub Follows : Closures → List String → List String → Type 0
Follows closures before [] = Unit
Follows closures before (d ∷ order) =
    ((deps : List String) (e : String)
      → get closures d ≡ some deps
      → elem e deps ≡ true
      → elem e before ≡ true)
    × Follows closures (d ∷ before) order

-- `TopologicalSorter.static_order` as graphlib documents it: each key of the graph once, and its
-- predecessors before it.
pub record IsTopological (static_order : StaticOrder) : Type 0 where
  pub once : (c : Closures) (order : List String) → static_order c ≡ some order → nodup order ≡ true
  pub complete :
      (c : Closures) (order : List String) (d : String)
      → static_order c ≡ some order
      → get c d ≢ none
      → elem d order ≡ true
  pub follows :
      (c : Closures) (order : List String) → static_order c ≡ some order → Follows c [] order

-- Picking the jobs of each derivation of an order picks those whose derivation is in it.
count-pick :
    (p : NixEvalJobSuccess → Bool) (jobs : List NixEvalJobSuccess) (order : List String)
    → nodup order ≡ true
    → count p (flat_map (by_drv jobs) order) ≡ count (λ j. p j && elem j.drv_path order) jobs
unfolding nodup
count-pick p jobs [] h = count-none p jobs
count-pick p jobs (d ∷ order) h = omega (
  arith,
  count-append p (by_drv jobs d) (flat_map (by_drv jobs) order),
  count-pick p jobs order (ground arith),
  count-seen p d order jobs (ground arith),
)

-- The closures have a key for each job.
pub has_key_of :
    (job_set : List String) (jobs : List NixEvalJobSuccess) (closures : Closures) (d : String)
    → (get closures d ≢ none) ⊎ (elem d (drvs jobs) ≡ true)
    → get (closures_from job_set closures jobs) d ≢ none
unfolding closures_from
has_key_of job_set [] closures d (inl h) = h
has_key_of job_set [] closures d (inr h) = cc (elem-nil d)
has_key_of job_set (j ∷ jobs) closures d h =
    has_key_of job_set jobs (put j.drv_path (closure_of job_set j) closures) d (
      ground (
        arith,
        get-put closures j.drv_path d (closure_of job_set j),
        elem-cons d j.drv_path (drvs jobs),
        h,
      ))

count-all_in :
    (p : NixEvalJobSuccess → Bool) (order : List String) (l : List NixEvalJobSuccess)
    → ((d : String) → elem d (drvs l) ≡ true → elem d order ≡ true)
    → count (λ j. p j && elem j.drv_path order) l ≡ count p l
count-all_in p order [] h = refl
count-all_in p order (j ∷ l) h = ground (
  arith,
  h j.drv_path (ground (arith, elem-cons j.drv_path j.drv_path (drvs l), ==_refl j.drv_path)),
  count-all_in p order l (λ d m. h d (ground (arith, elem-cons d j.drv_path (drvs l)))),
)

module _ {static_order : StaticOrder} (topological : IsTopological static_order)
    (jobs : List NixEvalJobSuccess) (extra : List String) {sorted : List NixEvalJobSuccess}
    (h : sort_jobs_by_closures static_order jobs (compute_job_closures jobs extra)
      ≡ ok sorted) where
  abbrev closures : Closures
  closures = compute_job_closures jobs extra

  -- With a topological sort as documented, sort_jobs_by_closures keeps every job, as often as it is
  -- there.
  pub count-sort_jobs_by_closures : (p : NixEvalJobSuccess → Bool) → count p sorted ≡ count p jobs
  unfolding sort_jobs_by_closures compute_job_closures
  count-sort_jobs_by_closures p = elim (Option-cases (static_order closures)) [
    | inl e ↦ cc (rw (e, sort_jobs_by_closures) at h)
    | inr (order, e) ↦ rw (← ok-injective (rw (e, sort_jobs_by_closures) at h)) (
        count-pick p jobs order (topological.once closures order e)
        ∙ count-all_in p order jobs (λ d m.
          topological.complete closures order d e
            (has_key_of (drvs jobs ++ extra) jobs [] d (inr m))))
  ]

  All-by_drv :
      (P : NixEvalJobSuccess → Type 0) (d : String) (l : List NixEvalJobSuccess)
      → All P l
      → All P (by_drv l d)
  unfolding by_drv
  All-by_drv P d [] a = tt
  All-by_drv P d (j ∷ l) a = elim (Bool-cases (j.drv_path == d)) [
    | inl e ↦ rw e (a.0, All-by_drv P d l a.1)
    | inr e ↦ rw e (All-by_drv P d l a.1)
  ]

  All-pick :
      (P : NixEvalJobSuccess → Type 0) (order : List String)
      → All P jobs
      → All P (flat_map (by_drv jobs) order)
  All-pick P [] a = tt
  All-pick P (d ∷ order) a = All-append P _ _ (All-by_drv P d jobs a) (All-pick P order a)

  pub All-sort_jobs_by_closures : (P : NixEvalJobSuccess → Type 0) → All P jobs → All P sorted
  unfolding sort_jobs_by_closures
  All-sort_jobs_by_closures P a = elim (Option-cases (static_order closures)) [
    | inl e ↦ cc (rw (e, sort_jobs_by_closures) at h)
    | inr (order, e) ↦ rw (← ok-injective (rw (e, sort_jobs_by_closures) at h)) (All-pick P order a)
  ]
