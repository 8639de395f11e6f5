-- ===== src/Scheduler/Accounting.antt =====
-- build_scheduler.py: no operation makes two of one attribute, and none loses one.
use nixbot.Prelude.{
  ℕ, ◌+◌, ◌≤◌, String, ◌≡◌, refl, Bool, false, not, ◌&&◌, List, [], ◌∷◌, ◌++◌, filter, arith, count,
  count-append, elem, elem-cons, string_eq, ◌==◌, ok, if◌then◌else◌, inl, inr,
}
use nixbot.Models.{NixEvalJobSuccess}
use nixbot.Scheduler.Types.{AttributeStatus, AttributeResult, dependency_failed, success_result}
use nixbot.Scheduler.Closures.{drvs}
use nixbot.Scheduler.Dependents.{get_failed_dependents}
use nixbot.Scheduler.Search.{count-get_failed_dependents}
use nixbot.Scheduler.State.{State, append_result, mark_settled, prune, fail_dependents}
use nixbot.Scheduler.Frames.{prune_frame, dependent_results, fail_dependents_frame}
use nixbot.Scheduler.Cases.{remove_job_cases, Dispatched, started, skipped, Finished, kept}
use nixbot.Scheduler.Dispatch.{remove_job, start}

-- How many jobs that pass a test are pending or running.
abbrev pub in_flight : (NixEvalJobSuccess → Bool) → State → ℕ
in_flight p s = count p s.pending + count (λ t. p t.1) s.running

-- How often an attribute has a result or is on its way to one.
abbrev pub accounts : String → State → ℕ
accounts a s = count (λ r. r.attr == a) s.results + in_flight (λ j. j.attr == a) s

count-dependent_results :
    (job : NixEvalJobSuccess) (status : AttributeStatus) (a : String)
    (deps : List NixEvalJobSuccess)
    → count (λ r. r.attr == a) (dependent_results job status deps) ≡ count (λ j. j.attr == a) deps
unfolding success_result
count-dependent_results job status a [] = refl
count-dependent_results job status a (d ∷ deps) =
    ground (arith, count-dependent_results job status a deps)

-- The jobs with a derivation in `settled`, and those that a filter by `drv ∷ settled` keeps.
count-settled-le :
    (p : NixEvalJobSuccess → Bool) (drv : String) (settled : List String)
    (l : List NixEvalJobSuccess)
    → count (λ j. p j && elem j.drv_path settled) l
        + count p (filter (λ j. not (elem j.drv_path (drv ∷ settled))) l)
      ≤ count p l
count-settled-le p drv settled [] = omega arith
count-settled-le p drv settled (j ∷ l) =
    ground (arith, count-settled-le p drv settled l, elem-cons j.drv_path drv settled)

count-settled :
    (p : NixEvalJobSuccess → Bool) (drv : String) (settled : List String)
    (l : List NixEvalJobSuccess)
    → elem drv (drvs l) ≡ false
    → count (λ j. p j && elem j.drv_path settled) l
        + count p (filter (λ j. not (elem j.drv_path (drv ∷ settled))) l)
      ≡ count p l
count-settled p drv settled [] h = omega arith
count-settled p drv settled (j ∷ l) h = ground (
  arith,
  count-settled p drv settled l,
  elem-cons j.drv_path drv settled,
  elem-cons drv j.drv_path (drvs l),
  string_eq.beq_iff drv j.drv_path,
  string_eq.beq_iff j.drv_path drv,
)

module _ (job : NixEvalJobSuccess) (status : AttributeStatus) (s : State) {s' : State}
    (h : fail_dependents job status s ≡ ok s') where
  abbrev deps : List NixEvalJobSuccess
  deps = get_failed_dependents job s.pending s.job_closures

  pub fail_dependents-accounts_le : (a : String) → accounts a s' ≤ accounts a s
  unfolding mark_settled
  fail_dependents-accounts_le a =
      let (c, e) = fail_dependents_frame job status s h in
      rw e (
        omega (
          arith,
          count-append (λ (r : AttributeResult). r.attr == a) s.results
              (dependent_results job status deps),
          count-dependent_results job status a deps,
          count-get_failed_dependents job s.pending s.job_closures (λ j. j.attr == a),
          count-settled-le (λ j. j.attr == a) job.drv_path (drvs deps) s.pending,
        ))

  -- If no pending job shares its derivation with the failed one, fail_dependents keeps the number
  -- of results, pending entries and running builds of each attribute.
  pub fail_dependents-accounts :
      (a : String) → elem job.drv_path (drvs s.pending) ≡ false → accounts a s' ≡ accounts a s
  unfolding mark_settled
  fail_dependents-accounts a alone =
      let (c, e) = fail_dependents_frame job status s h in
      rw e (
        omega (
          arith,
          count-append (λ (r : AttributeResult). r.attr == a) s.results
              (dependent_results job status deps),
          count-dependent_results job status a deps,
          count-get_failed_dependents job s.pending s.job_closures (λ j. j.attr == a),
          count-settled (λ j. j.attr == a) job.drv_path (drvs deps) s.pending alone,
        ))

  pub fail_dependents-in_flight_le : (p : NixEvalJobSuccess → Bool) → in_flight p s' ≤ in_flight p s
  unfolding mark_settled
  fail_dependents-in_flight_le p =
      let (c, e) = fail_dependents_frame job status s h in
      rw e (omega (arith, count-settled-le p job.drv_path (drvs deps) s.pending))

-- `list.remove` takes away one copy of its argument.
pub count-remove_job :
    (p : NixEvalJobSuccess → Bool) (job : NixEvalJobSuccess) (l : List NixEvalJobSuccess)
    {l' : List NixEvalJobSuccess}
    → remove_job job l ≡ ok l'
    → count p l ≡ count p l' + (if p job then 1 else 0)
unfolding remove_job
count-remove_job p job [] h = cc
count-remove_job p job (j ∷ l) h = elim (remove_job_cases job j l h) [
  | inl (e, same) ↦ ground arith
  | inr (_, rest, r, longer) ↦ rw longer (ground (arith, count-remove_job p job l r))
]

pub count-last :
    (a : String) (rs : List AttributeResult) (r : AttributeResult)
    → count (λ x. x.attr == a) (rs ++ r ∷ [])
      ≡ count (λ x. x.attr == a) rs + (if r.attr == a then 1 else 0)
count-last a rs r = ground (arith, count-append (λ (x : AttributeResult). x.attr == a) rs (r ∷ []))

prune-in_flight :
    (p : NixEvalJobSuccess → Bool) (drv : String) (s : State) {s' : State}
    → prune drv s ≡ ok s'
    → in_flight p s' ≡ in_flight p s
prune-in_flight p drv s h = let (c, e) = prune_frame drv s h in rw e refl

prune-accounts :
    (a drv : String) (s : State) {s' : State} → prune drv s ≡ ok s' → accounts a s' ≡ accounts a s
prune-accounts a drv s h = let (c, e) = prune_frame drv s h in rw e refl

start-accounts :
    (a : String) (job : NixEvalJobSuccess) (s : State)
    → accounts a (start job s) ≡ accounts a s + (if job.attr == a then 1 else 0)
unfolding start
start-accounts a job s = ground (
  arith,
  count-append (λ (t : ℕ × NixEvalJobSuccess). t.1.attr == a) s.running ((s.started, job) ∷ []),
)

module _ (a : String) (job : NixEvalJobSuccess) where
  abbrev is_it : ℕ
  is_it = if job.attr == a then 1 else 0

  append_result-accounts :
      (r : AttributeResult) (s : State)
      → r.attr ≡ job.attr
      → accounts a (append_result r s) ≡ accounts a s + is_it
  append_result-accounts r s e = rw (← e) (omega (arith, count-last a s.results r))

  pub Dispatched-accounts_le :
      (s : State) {s' : State} → Dispatched job s s' → accounts a s' ≤ accounts a s
  Dispatched-accounts_le s (started l r e) = rw e (
      omega (
        arith,
        start-accounts a job (record s { pending = l }),
        count-remove_job (λ j. j.attr == a) job s.pending r,
      ))
  Dispatched-accounts_le s (skipped l x r attr drv g) = omega (
    arith,
    prune-accounts a job.drv_path _ g,
    append_result-accounts x (record s { pending = l }) attr,
    count-remove_job (λ j. j.attr == a) job s.pending r,
  )
  Dispatched-accounts_le s (Dispatched.failed l x s1 r attr drv f g) = omega (
    arith,
    prune-accounts a job.drv_path s1 g,
    fail_dependents-accounts_le job dependency_failed _ f a,
    append_result-accounts x (record s { pending = l }) attr,
    count-remove_job (λ j. j.attr == a) job s.pending r,
  )

  -- No other pending job has the derivation of the dispatched one: nothing is lost.
  pub Dispatched-accounts :
      (s : State) {s' : State}
      → Dispatched job s s'
      → ((l : List NixEvalJobSuccess)
          → remove_job job s.pending ≡ ok l
          → elem job.drv_path (drvs l) ≡ false)
      → accounts a s' ≡ accounts a s
  Dispatched-accounts s (started l r e) alone = rw e (
      omega (
        arith,
        start-accounts a job (record s { pending = l }),
        count-remove_job (λ j. j.attr == a) job s.pending r,
      ))
  Dispatched-accounts s (skipped l x r attr drv g) alone = omega (
    arith,
    prune-accounts a job.drv_path _ g,
    append_result-accounts x (record s { pending = l }) attr,
    count-remove_job (λ j. j.attr == a) job s.pending r,
  )
  Dispatched-accounts s (Dispatched.failed l x s1 r attr drv f g) alone = omega (
    arith,
    prune-accounts a job.drv_path s1 g,
    fail_dependents-accounts job dependency_failed _ f a (alone l r),
    append_result-accounts x (record s { pending = l }) attr,
    count-remove_job (λ j. j.attr == a) job s.pending r,
  )

  pub Finished-accounts_le :
      (s : State) {s' : State} → Finished job s s' → accounts a s' ≤ accounts a s + is_it
  Finished-accounts_le s (kept x c attr drv g) =
      omega (arith, prune-accounts a job.drv_path _ g, append_result-accounts x s attr)
  Finished-accounts_le s (Finished.failed x c status s1 attr drv f g) = omega (
    arith,
    prune-accounts a job.drv_path s1 g,
    fail_dependents-accounts_le job status _ f a,
    append_result-accounts x s attr,
  )

  pub Finished-accounts :
      (s : State) {s' : State}
      → Finished job s s'
      → elem job.drv_path (drvs s.pending) ≡ false
      → accounts a s' ≡ accounts a s + is_it
  Finished-accounts s (kept x c attr drv g) alone =
      omega (arith, prune-accounts a job.drv_path _ g, append_result-accounts x s attr)
  Finished-accounts s (Finished.failed x c status s1 attr drv f g) alone = omega (
    arith,
    prune-accounts a job.drv_path s1 g,
    fail_dependents-accounts job status _ f a alone,
    append_result-accounts x s attr,
  )
