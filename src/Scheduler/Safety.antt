-- ===== src/Scheduler/Safety.antt =====
-- build_scheduler.py: a job is dispatched only when none of its dependencies is in flight.
use nixbot.Prelude.{
  ℕ, String, ◌≡◌, refl, ap, ◌≢◌, ◌⊎◌, inl, inr, Bool, true, false, Option, List, [], ◌∷◌, ◌++◌, map,
  arith, filter, elem, elem-nil, elem-cons, elem-append, remove, nat_eq, string_eq, ◌==◌, ==_refl,
  ok, >>=-eq-ok, ok-injective, subst, Bool-cases, All, All-append,
}
use nixbot.Models.{NixEvalJob, eval_error, eval_success, NixEvalJobSuccess}
use nixbot.Scheduler.Cache.{FailedBuildCache}
use nixbot.Scheduler.Closures.{Closures, StaticOrder, drvs, needs, compute_job_closures}
use nixbot.Scheduler.State.{State, initial, fail_unresolvable}
use nixbot.Scheduler.Dispatch.{dispatch, is_ready}
use nixbot.Scheduler.Ingest.{buildable, fresh_of, admit, rebuild, ingest, running_jobs}
use nixbot.Scheduler.Loop.{Config, flush}
use nixbot.Scheduler.Cases.{dispatch_cases, Dispatched-taken, finish_job_cases}
use nixbot.Scheduler.Guards.{in_closure, has_result, in_closure-closures_from}
use nixbot.Scheduler.Shrinks.{in_flight_drv, guards, Shrinks}
use nixbot.Scheduler.Shrinks.Steps.{
  Dispatched-Shrinks, Finished-Shrinks, remove_task-Shrinks, taken_drv, taken_all,
}
use nixbot.Scheduler.Order.{IsTopological, All-sort_jobs_by_closures}
use nixbot.Scheduler.Settle.{settle_all-All}
use nixbot.Scheduler.Induction.{IsKept}
use nixbot.Scheduler.Visits.{Visits, Visits-keeps}

-- What Nix guarantees: the derivations that a job needs are determined by its own derivation.
abbrev pub IsDetermined : (String → List String) → List NixEvalJob → Type 0
IsDetermined needs_of [] = Unit
IsDetermined needs_of (eval_error job ∷ batch) = IsDetermined needs_of batch
IsDetermined needs_of (eval_success job ∷ batch) =
    (needs job ≡ needs_of job.drv_path) × IsDetermined needs_of batch

module _ (needs_of : String → List String) where
  record IsGuarded (s : State) : Type 0 where
    known : All (λ j. needs j ≡ needs_of j.drv_path) s.pending
    guarded :
        (k d : String)
        → elem k (drvs s.pending) ≡ true
        → elem d (needs_of k) ≡ true
        → k ≢ d
        → in_flight_drv d s ≡ true
        → guards s k d ≡ true

  Shrinks-IsGuarded : {s s' : State} → Shrinks s s' → IsGuarded s → IsGuarded s'
  Shrinks-IsGuarded h g = record {
    known = h.pending_all _ g.known;
    guarded = λ k d p need n fly.
        h.guarding k d (g.guarded k d (h.pending_drvs k p) need n (h.flying d fly));
  }

  abbrev Empties : State → List NixEvalJobSuccess → Type 0
  Empties s todo = All (λ j. (d : String) → in_closure s.job_closures j.drv_path d ≡ false) todo

  Shrinks-Empties :
      {s s' : State} (todo : List NixEvalJobSuccess)
      → Shrinks s s'
      → Empties s todo
      → Empties s' todo
  Shrinks-Empties [] h e = tt
  Shrinks-Empties (j ∷ todo) h e = (λ d. h.emptied j.drv_path d (e.0 d), Shrinks-Empties todo h e.1)

  Empties-ready :
      (c : Closures) (l : List NixEvalJobSuccess)
      → All (λ j. (d : String) → in_closure c j.drv_path d ≡ false) (filter (is_ready c) l)
  unfolding is_ready
  Empties-ready c [] = tt
  Empties-ready c (j ∷ l) = elim (Bool-cases (is_ready c j)) [
    | inl e ↦ rw e (λ d. ground (arith, elem-nil d), Empties-ready c l)
    | inr e ↦ rw e (Empties-ready c l)
  ]

  fresh-IsDetermined :
      (q : NixEvalJob → Bool) (batch : List NixEvalJob)
      → IsDetermined needs_of batch
      → IsDetermined needs_of (filter q batch)
  fresh-IsDetermined q [] h = tt
  fresh-IsDetermined q (eval_error j ∷ batch) h = elim (Bool-cases (q (eval_error j))) [
    | inl e ↦ rw e (fresh-IsDetermined q batch h)
    | inr e ↦ rw e (fresh-IsDetermined q batch h)
  ]
  fresh-IsDetermined q (eval_success j ∷ batch) h = elim (Bool-cases (q (eval_success j))) [
    | inl e ↦ rw e (h.0, fresh-IsDetermined q batch h.1)
    | inr e ↦ rw e (fresh-IsDetermined q batch h.1)
  ]

  buildable_known :
      (systems : List String) (batch : List NixEvalJob)
      → IsDetermined needs_of batch
      → All (λ j. needs j ≡ needs_of j.drv_path) (buildable systems batch)
  unfolding buildable
  buildable_known systems [] h = tt
  buildable_known systems (eval_error j ∷ batch) h = buildable_known systems batch h
  buildable_known systems (eval_success j ∷ batch) h = elim (Bool-cases (elem j.system systems)) [
    | inl e ↦ rw e (h.0, buildable_known systems batch h.1)
    | inr e ↦ rw e (buildable_known systems batch h.1)
  ]

  admit_known :
      (systems : List String) (batch : List NixEvalJob) (s : State)
      → IsDetermined needs_of batch
      → IsGuarded s
      → All (λ j. needs j ≡ needs_of j.drv_path) (admit systems batch s).pending
  unfolding admit fresh_of
  admit_known systems batch s d h =
      settle_all-All (λ j. needs j ≡ needs_of j.drv_path) _ s
        (All-append (λ j. needs j ≡ needs_of j.drv_path) s.pending _ h.known
          (buildable_known systems _ (fresh-IsDetermined _ batch d)))

  All-drvs :
      (set : List String) (l : List NixEvalJobSuccess) (k : String)
      → All (λ j. elem j.drv_path set ≡ true) l
      → elem k (drvs l) ≡ true
      → elem k set ≡ true
  All-drvs set [] k a m = cc (elem-nil k)
  All-drvs set (j ∷ l) k a m = elim (Bool-cases (j.drv_path == k)) [
    | inl e ↦ rw ((string_eq.beq_iff j.drv_path k).0 e) at a.0
    | inr e ↦ All-drvs set l k a.1 (ground (arith, elem-cons k j.drv_path (drvs l)))
  ]

  -- Every job's derivation is in any set that holds all of theirs.
  own_drvs :
      (set : List String) (l : List NixEvalJobSuccess)
      → ((k : String) → elem k (drvs l) ≡ true → elem k set ≡ true)
      → All (λ j. elem j.drv_path set ≡ true) l
  own_drvs set [] h = tt
  own_drvs set (j ∷ l) h = (
    h j.drv_path (ground (arith, elem-cons j.drv_path j.drv_path (drvs l), ==_refl j.drv_path)),
    own_drvs set l (λ k m. h k (ground (arith, elem-cons k j.drv_path (drvs l)))),
  )

  running_drvs :
      (running : List (ℕ × NixEvalJobSuccess))
      → map (λ t. t.1.drv_path) running ≡ drvs (map (λ t. t.1) running)
  running_drvs [] = refl
  running_drvs ((t, j) ∷ running) = ap (λ l. j.drv_path ∷ l) (running_drvs running)

  rebuild-IsGuarded :
      {static_order : StaticOrder} (s : State) {s' : State}
      → IsTopological static_order
      → All (λ j. needs j ≡ needs_of j.drv_path) s.pending
      → rebuild static_order s ≡ ok s'
      → IsGuarded s'
  unfolding rebuild compute_job_closures
  rebuild-IsGuarded s top known h =
      let (sorted, e, g) = >>=-eq-ok _ _ h in
      let extra = drvs (running_jobs s) in
      let all = All-sort_jobs_by_closures top s.pending extra e in
      let was_pending = λ (k : String) (m : elem k (drvs sorted) ≡ true).
        All-drvs (drvs s.pending) sorted k (all _ (own_drvs (drvs s.pending) s.pending (λ k m. m)))
          m in
      subst IsGuarded (ok-injective g) (record {
        known = all _ known;
        guarded = λ k d p need n fly. ground (
          arith,
          in_closure-closures_from needs_of (drvs s.pending ++ extra) s.pending [] k d known need
              (ground (
                arith,
                was_pending d,
                elem-append d (drvs s.pending) extra,
                running_drvs s.running,
              ))
              n (inl (was_pending k p)),
        );
      })

  give_up-IsGuarded : (s : State) → IsGuarded s → IsGuarded (fail_unresolvable s)
  unfolding fail_unresolvable
  give_up-IsGuarded s h = record { known = tt; guarded = λ k d p need n fly. cc (elem-nil k) }

  initial-IsGuarded : (cache : Option FailedBuildCache) → IsGuarded (initial cache)
  initial-IsGuarded cache = record { known = tt; guarded = λ k d p need n fly. cc (elem-nil k) }

  flush-IsGuarded : (s : State) → IsGuarded s → IsGuarded (flush s)
  unfolding flush
  flush-IsGuarded s h = record { known = h.known; guarded = h.guarded }

  module _ (c : Config) (top : IsTopological c.static_order) where
    IsGuarded-kept : IsKept c (IsDetermined needs_of) (λ todo s. IsGuarded s × Empties s todo)
    IsGuarded-kept = record {
      begin = λ s h. (h.0, Empties-ready s.job_closures s.pending);
      step = λ job todo s s' e h.
          let d = Dispatched-Shrinks job s (dispatch_cases job s e) in
          (Shrinks-IsGuarded d h.0, Shrinks-Empties todo d h.1.1);
      finish = λ task outcome job s s' r e h.
          let before : State = record s { running = remove task s.running } in
          let f = Finished-Shrinks job before (finish_job_cases c.build_url job outcome before e) in
          (Shrinks-IsGuarded f (Shrinks-IsGuarded (remove_task-Shrinks task s) h.0), tt);
      flushed = λ s h. (flush-IsGuarded s h.0, tt);
      merge = λ batch s s' d e h. (
        rebuild-IsGuarded (admit c.supported_systems batch s) top
            (admit_known c.supported_systems batch s d h.0) (unfold ingest in e),
        tt,
      );
      give_up = λ s h. (give_up-IsGuarded s h.0, tt);
    }

    -- When a run dispatches a job (the derivations that a job needs being determined by its own
    -- derivation, and the topological sort being as documented), each derivation that it needs,
    -- itself aside, either is neither pending nor running or belongs to an attribute that has its
    -- result.
    pub dispatch_safe :
        (job : NixEvalJobSuccess) (todo : List NixEvalJobSuccess) (s s' : State) (d : String)
        → Visits c (IsDetermined needs_of) (job ∷ todo) s
        → dispatch job s ≡ ok s'
        → elem d (needs job) ≡ true
        → job.drv_path ≢ d
        → (in_flight_drv d s ≡ false) ⊎ (has_result d s.results ≡ true)
    dispatch_safe job todo s s' d v h need n =
        let (g, empty) = Visits-keeps _ IsGuarded-kept (λ cache. (initial-IsGuarded cache, tt)) v in
        let (l, taken) = Dispatched-taken job s (dispatch_cases job s h) in
        let known = taken_all job s.pending taken (λ j. needs j ≡ needs_of j.drv_path) g.known in
        ground (
          arith,
          known,
          empty.0 d,
          g.guarded job.drv_path d (taken_drv job s taken) (rw known at need) n,
        )
