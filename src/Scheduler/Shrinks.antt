-- ===== src/Scheduler/Shrinks.antt =====
-- build_scheduler.py: between batches jobs leave the state, and closures lose only what is settled.
pub mod Steps
use nixbot.Prelude.{
  ℕ, ◌+◌, String, ◌≡◌, refl, sym, ◌∙◌, ap, ◌≢◌, ◌⊎◌, inl, inr, Bool, true, false, not, ◌&&◌, ◌||◌,
  Option, none, some, List, [], ◌∷◌, ◌++◌, map, arith, filter, any, elem, elem-nil, elem-cons,
  elem-append, get, remove, nat_eq, string_eq, ◌==◌, ==_refl, Result, ok, err, >>=-eq-ok,
  ok-injective, subst, if◌then◌else◌, Option-cases, Bool-cases, All,
}
use nixbot.Models.{NixEvalJobSuccess}
use nixbot.Scheduler.Types.{AttributeStatus, AttributeResult, dependency_failed, success_result}
use nixbot.Scheduler.Cache.{FailedBuildCache}
use nixbot.Scheduler.Closures.{Closures, drvs}
use nixbot.Scheduler.Dependents.{get_failed_dependents}
use nixbot.Scheduler.State.{
  State, append_result, discard_from, prune, settle_dependents, mark_settled, fail_dependents,
}
use nixbot.Scheduler.Dispatch.{remove_job, start}
use nixbot.Scheduler.Cases.{remove_job_cases, Dispatched, started, skipped, Finished, kept}
use nixbot.Scheduler.Guards.{in_closure, has_result, in_closure-discard_from, empty_at-discard_from}

-- A job with the derivation is pending or running.
abbrev pub in_flight_drv : String → State → Bool
in_flight_drv drv s = elem drv (drvs s.pending) || elem drv (map (λ t. t.1.drv_path) s.running)

abbrev pub guards : State → String → String → Bool
guards s key drv = in_closure s.job_closures key drv || has_result drv s.results

pub record Shrinks (s s' : State) : Type 1 where
  pub pending_all : (P : NixEvalJobSuccess → Type 0) → All P s.pending → All P s'.pending
  pub pending_drvs : (k : String) → elem k (drvs s'.pending) ≡ true → elem k (drvs s.pending) ≡ true
  pub flying : (d : String) → in_flight_drv d s' ≡ true → in_flight_drv d s ≡ true
  pub guarding : (k d : String) → guards s k d ≡ true → guards s' k d ≡ true
  pub settled : (d : String) → has_result d s.results ≡ true → has_result d s'.results ≡ true
  pub emptied :
      (k d : String)
      → in_closure s.job_closures k d ≡ false
      → in_closure s'.job_closures k d ≡ false

pub Shrinks-trans : {s t u : State} → Shrinks s t → Shrinks t u → Shrinks s u
Shrinks-trans a b = record {
  pending_all = λ P h. b.pending_all P (a.pending_all P h);
  pending_drvs = λ k h. a.pending_drvs k (b.pending_drvs k h);
  flying = λ d h. a.flying d (b.flying d h);
  settled = λ d h. b.settled d (a.settled d h);
  guarding = λ k d h. b.guarding k d (a.guarding k d h);
  emptied = λ k d h. b.emptied k d (a.emptied k d h);
}

pub Shrinks-refl : (s : State) → Shrinks s s
Shrinks-refl s = record {
  pending_all = λ P h. h;
  pending_drvs = λ k h. h;
  flying = λ d h. h;
  guarding = λ k d h. h;
  settled = λ d h. h;
  emptied = λ k d h. h;
}

any-append :
    (p : AttributeResult → Bool) (xs ys : List AttributeResult)
    → any p (xs ++ ys) ≡ (any p xs || any p ys)
any-append p [] ys = refl
any-append p (x ∷ xs) ys = ground (arith, any-append p xs ys)

has_result-last :
    (d : String) (rs : List AttributeResult) (r : AttributeResult)
    → has_result d (rs ++ r ∷ []) ≡ (has_result d rs || has_result d (r ∷ []))
has_result-last d rs r = any-append _ rs (r ∷ [])

pub append_result-Shrinks : (r : AttributeResult) (s : State) → Shrinks s (append_result r s)
append_result-Shrinks r s = record {
  pending_all = λ P h. h;
  pending_drvs = λ k h. h;
  flying = λ d h. h;
  guarding = λ k d h. ground (arith, has_result-last d s.results r);
  settled = λ d h. ground (arith, has_result-last d s.results r);
  emptied = λ k d h. h;
}

pub prune-Shrinks :
    (drv : String) (s : State) {s' : State}
    → has_result drv s.results ≡ true
    → prune drv s ≡ ok s'
    → Shrinks s s'
unfolding prune
prune-Shrinks drv s settled h =
    let (c, e, g) = >>=-eq-ok (discard_from drv (s.reverse_deps drv) s.job_closures) _ h in
    subst (Shrinks s) (ok-injective g) (record {
      pending_all = λ P h. h;
      pending_drvs = λ k h. h;
      flying = λ d h. h;
      settled = λ d h. h;
      guarding = λ k d h. elim (Bool-cases (d == drv)) [
        | inl same ↦ ground (arith, string_eq.beq_iff d drv)
        | inr other ↦ ground (
          arith,
          in_closure-discard_from drv (s.reverse_deps drv) s.job_closures k d e
              (λ q. cc ((string_eq.beq_iff d drv).1 q)),
        )
      ];
      emptied = λ k d h. empty_at-discard_from drv (s.reverse_deps drv) s.job_closures k d e h;
    })

pub has_result_of :
    (drv : String) (rs : List AttributeResult) (r : AttributeResult)
    → r.drv_path ≡ some drv
    → has_result drv (rs ++ r ∷ []) ≡ true
has_result_of drv rs r e = has_result-last drv rs r ∙ rw e (ground (arith, ==_refl drv))

settle_dependents-Shrinks :
    (job : NixEvalJobSuccess) (status : AttributeStatus) (deps : List NixEvalJobSuccess) (s : State)
    {s' : State}
    → settle_dependents job status deps s ≡ ok s'
    → Shrinks s s'
unfolding settle_dependents success_result
settle_dependents-Shrinks job status [] s h = subst (Shrinks s) (ok-injective h) (Shrinks-refl s)
settle_dependents-Shrinks job status (d ∷ deps) s h =
    let (s1, e, g) = >>=-eq-ok _ _ h in
    Shrinks-trans (append_result-Shrinks _ s) (
      Shrinks-trans (prune-Shrinks d.drv_path _ (has_result_of d.drv_path s.results _ refl) e)
        (settle_dependents-Shrinks job status deps s1 g))

module _ (q : NixEvalJobSuccess → Bool) where
  All-filter :
      (P : NixEvalJobSuccess → Type 0) (l : List NixEvalJobSuccess) → All P l → All P (filter q l)
  All-filter P [] h = tt
  All-filter P (j ∷ l) h = elim (Bool-cases (q j)) [
    | inl e ↦ rw e (h.0, All-filter P l h.1)
    | inr e ↦ rw e (All-filter P l h.1)
  ]

  elem-drvs-filter :
      (k : String) (l : List NixEvalJobSuccess)
      → elem k (drvs (filter q l)) ≡ true
      → elem k (drvs l) ≡ true
  unfolding elem
  elem-drvs-filter k [] h = h
  elem-drvs-filter k (j ∷ l) h = ground (arith, elem-drvs-filter k l)

mark_settled-Shrinks :
    (status : AttributeStatus) (settled : List String) (s : State)
    → Shrinks s (mark_settled status settled s)
unfolding mark_settled
mark_settled-Shrinks status settled s = record {
  pending_all = λ P h. All-filter _ P s.pending h;
  pending_drvs = λ k h. elem-drvs-filter _ k s.pending h;
  flying = λ d h. ground (arith, elem-drvs-filter (λ j. not (elem j.drv_path settled)) d s.pending);
  guarding = λ k d h. h;
  settled = λ d h. h;
  emptied = λ k d h. h;
}

pub fail_dependents-Shrinks :
    (job : NixEvalJobSuccess) (status : AttributeStatus) (s : State) {s' : State}
    → fail_dependents job status s ≡ ok s'
    → Shrinks s s'
unfolding fail_dependents
fail_dependents-Shrinks job status s h =
    Shrinks-trans (mark_settled-Shrinks status _ s) (settle_dependents-Shrinks job status _ _ h)
