-- ===== src/Scheduler/Rounds.antt =====
-- build_scheduler.py: the loops of the scheduler end.
use nixbot.Prelude.{
  ℕ, zero, suc, ◌+◌, ◌≤◌, String, ◌≡◌, refl, sym, ◌∙◌, ap, ◌≢◌, ◌⊎◌, inl, inr, Bool, true, false,
  not, ◌&&◌, Option, List, [], ◌∷◌, arith, length, length-filter-le, is_nil, ok, ◌>>=◌, >>=-eq-ok,
  ok-injective, Bool-cases,
}
use native.Mathlib.Numerals.{add-one}
use nixbot.Models.{NixEvalJobSuccess}
use nixbot.Scheduler.Types.{AttributeStatus, dependency_failed}
use nixbot.Scheduler.Cache.{FailedBuildCache}
use nixbot.Scheduler.State.{State, initial, mark_settled, prune, fail_dependents}
use nixbot.Scheduler.Frames.{prune_frame, fail_dependents_frame, fail_unresolvable_frame}
use nixbot.Scheduler.Dispatch.{
  remove_job, start, dispatch, dispatch_all, dispatch_rounds, dispatch_ready, ready,
}
use nixbot.Scheduler.Cases.{remove_job_cases, Dispatched, started, skipped, dispatch_cases}
use nixbot.Scheduler.Loop.{
  Progress, Config, Outcome, out_of_rounds, flush, idle, nothing_to_wait_for, wait,
  wait_for_progress, rounds, run_incremental,
}

length-remove_job :
    (job : NixEvalJobSuccess) (l : List NixEvalJobSuccess) {l' : List NixEvalJobSuccess}
    → remove_job job l ≡ ok l'
    → length l ≡ suc (length l')
unfolding remove_job
length-remove_job job [] h = cc
length-remove_job job (j ∷ l) h = elim (remove_job_cases job j l h) [
  | inl (e, same) ↦ rw same
  | inr (n, rest, r, longer) ↦ rw longer (omega (arith, length-remove_job job l r))
]

prune-pending :
    (drv : String) (s : State) {s' : State} → prune drv s ≡ ok s' → s'.pending ≡ s.pending
prune-pending drv s h = let (c, e) = prune_frame drv s h in rw e refl

fail_dependents-pending :
    (job : NixEvalJobSuccess) (status : AttributeStatus) (s : State) {s' : State}
    → fail_dependents job status s ≡ ok s'
    → length s'.pending ≤ length s.pending
unfolding mark_settled
fail_dependents-pending job status s h =
    let (c, e) = fail_dependents_frame job status s h in rw e (length-filter-le _ s.pending)

-- A dispatched job leaves the pending ones.
Dispatched-length :
    (job : NixEvalJobSuccess) (s : State) {s' : State}
    → Dispatched job s s'
    → suc (length s'.pending) ≤ length s.pending
unfolding start
Dispatched-length job s (started l r e) = rw e (omega (arith, length-remove_job job s.pending r))
Dispatched-length job s (skipped l x r attr drv g) =
    rw (prune-pending job.drv_path _ g) (omega (arith, length-remove_job job s.pending r))
Dispatched-length job s (Dispatched.failed l x s1 r attr drv f g) =
    rw (prune-pending job.drv_path s1 g) (
      omega (
        arith,
        length-remove_job job s.pending r,
        fail_dependents-pending job dependency_failed _ f,
      ))

dispatch_all-length :
    (jobs : List NixEvalJobSuccess) (s : State) {s' : State}
    → dispatch_all jobs s ≡ ok s'
    → length s'.pending + length jobs ≤ length s.pending
unfolding dispatch_all
dispatch_all-length [] s h = rw (← ok-injective h) (omega arith)
dispatch_all-length (job ∷ jobs) s h =
    let (s1, e, g) = >>=-eq-ok (dispatch job s) _ h in
    omega (arith, Dispatched-length job s (dispatch_cases job s e), dispatch_all-length jobs s1 g)

List-cases :
    (l : List NixEvalJobSuccess)
    → (l ≡ []) ⊎ ((j : NixEvalJobSuccess) × (r : List NixEvalJobSuccess) × (l ≡ j ∷ r))
List-cases [] = inl refl
List-cases (j ∷ r) = inr (j, r, refl)

dispatch_rounds-ready :
    (fuel : ℕ) (any_ready : Bool) (s : State) {r : State × Bool}
    → suc (length s.pending) ≤ fuel
    → dispatch_rounds fuel any_ready s ≡ ok r
    → ready r.0 ≡ []
unfolding dispatch_rounds
dispatch_rounds-ready zero any_ready s m h = absurd (omega arith)
dispatch_rounds-ready (suc fuel) any_ready s m h = elim (List-cases (ready s)) [
  | inl e ↦ rw (← ok-injective (rw (e, dispatch_rounds) at h)) e
  | inr (job, jobs, e) ↦
      let (s1, f, g) = >>=-eq-ok (dispatch_all (job ∷ jobs) s) _ (rw (e, dispatch_rounds) at h) in
      dispatch_rounds-ready fuel true s1 (omega (arith, dispatch_all-length (job ∷ jobs) s f)) g
]

-- When _dispatch_ready returns, no pending job is free of dependencies.
pub dispatch_ready_fixpoint :
    (s s' : State) (any_ready : Bool) → dispatch_ready s ≡ ok (s', any_ready) → ready s' ≡ []
unfolding dispatch_ready
dispatch_ready_fixpoint s s' any_ready h =
    dispatch_rounds-ready (length s.pending + 1) false s (omega arith) h

-- Without a ready job nothing is done.
dispatch_ready_idle : (s : State) → ready s ≡ [] → dispatch_ready s ≡ ok (s, false)
unfolding dispatch_ready dispatch_rounds
dispatch_ready_idle s e = rw add-one (rw (e, dispatch_rounds) refl)

not_reading : (reading b : Bool) → (not reading && b) ≡ true → false ≡ reading
not_reading reading b h = ground arith

module _ (c : Config) where
  -- A stopped loop returns.
  rounds-idle :
      (fuel : ℕ) (events : List Progress) (reading : Bool) (s : State)
      → idle reading s ≡ true
      → rounds c (suc fuel) events reading s ≢ ok out_of_rounds
  unfolding rounds
  rounds-idle fuel events reading s e h = cc (rw (e, rounds) at h)

  idle_after :
      (s : State) (any_ready : Bool)
      → is_nil s.running ≡ true
      → (any_ready ≡ false) ⊎ (is_nil s.pending ≡ true)
      → idle false (nothing_to_wait_for any_ready s) ≡ true
  unfolding idle nothing_to_wait_for
  idle_after s any_ready r h = let (p, q) = fail_unresolvable_frame s in ground (arith, p, q)

  -- A round without a wait.
  rounds_continue :
      (fuel : ℕ) (events : List Progress) (reading : Bool) (s : State) (r : State × Bool)
      → idle reading s ≡ false
      → dispatch_ready s ≡ ok r
      → (not reading && is_nil (flush r.0).running) ≡ true
      → rounds c (suc fuel) events reading s
        ≡ rounds c fuel events reading (nothing_to_wait_for r.1 (flush r.0))
  unfolding rounds
  rounds_continue fuel events reading s r more f e = rw (more, rounds) (rw f (rw (e, ◌>>=◌) refl))

  -- A round with a wait.
  rounds-wait :
      (fuel : ℕ) (events : List Progress) (reading : Bool) (s : State) (r : State × Bool)
      → idle reading s ≡ false
      → dispatch_ready s ≡ ok r
      → (not reading && is_nil (flush r.0).running) ≡ false
      → rounds c (suc fuel) events reading s
        ≡ wait c (λ later w. rounds c fuel later w.1 w.0) events reading (flush r.0)
  unfolding rounds
  rounds-wait fuel events reading s r more f e = rw (more, rounds) (rw f (rw (e, ◌>>=◌) refl))

  rounds_fault :
      (fuel : ℕ) (events : List Progress) (reading : Bool) (s : State) (o : Outcome)
      → idle reading s ≡ false
      → rounds c (suc fuel) events reading s ≡ ok o
      → (r : State × Bool) × (dispatch_ready s ≡ ok r)
  unfolding rounds
  rounds_fault fuel events reading s o more h =
      let (r, f, g) = >>=-eq-ok (dispatch_ready s) _ (rw (more, rounds) at h) in (r, f)

  -- Nothing is being built, and nothing is ready: one more round ends the loop.
  rounds_stuck :
      (fuel : ℕ) (events : List Progress) (s : State)
      → is_nil s.running ≡ true
      → ready s ≡ []
      → rounds c (suc (suc fuel)) events false s ≢ ok out_of_rounds
  unfolding flush
  rounds_stuck fuel events s r e h = elim (Bool-cases (idle false s)) [
    | inl stop ↦ rounds-idle (suc fuel) events false s stop h
    | inr more ↦
        rounds-idle fuel events false (nothing_to_wait_for false (flush s))
          (idle_after (flush s) false r (inl refl))
          (sym (
              rounds_continue (suc fuel) events false s (s, false) more (dispatch_ready_idle s e) r)
            ∙ h)
  ]

  wait_total :
      (fuel : ℕ)
      → ((events : List Progress) (reading : Bool) (s : State)
          → length events + 3 ≤ fuel
          → rounds c fuel events reading s ≢ ok out_of_rounds)
      → (events : List Progress) (reading : Bool) (s : State) → length events + 3 ≤ suc fuel
      → wait c (λ later w. rounds c fuel later w.1 w.0) events reading s ≢ ok out_of_rounds
  unfolding wait
  wait_total fuel ih [] reading s m h = cc
  wait_total fuel ih (event ∷ later) reading s m h =
      let (w, f, g) = >>=-eq-ok (wait_for_progress c event reading s) _ h in
      ih later w.1 w.0 (omega arith) g

  flush-running : (s : State) → (flush s).running ≡ s.running
  unfolding flush
  flush-running s = refl

  flush-ready : (s : State) → ready (flush s) ≡ ready s
  unfolding flush
  flush-ready s = refl

  -- The round after one that has nothing to wait for.
  continue_total :
      (fuel : ℕ) (events : List Progress) (any_ready : Bool) (s : State)
      → is_nil s.running ≡ true
      → ready s ≡ []
      → rounds c (suc (suc fuel)) events false (nothing_to_wait_for any_ready s) ≢ ok out_of_rounds
  continue_total fuel events false s r e h =
      rounds-idle (suc fuel) events false (nothing_to_wait_for false s)
        (idle_after s false r (inl refl)) h
  continue_total fuel events true s r e h = rounds_stuck fuel events s r e (rw (kept_state s) at h)
    where
      kept_state : (s : State) → nothing_to_wait_for true s ≡ s
      kept_state s = unfold nothing_to_wait_for in ground arith

  rounds_total :
      (fuel : ℕ) (events : List Progress) (reading : Bool) (s : State)
      → length events + 3 ≤ fuel
      → rounds c fuel events reading s ≢ ok out_of_rounds
  rounds_total zero events reading s m h = absurd (omega arith)
  rounds_total (suc zero) events reading s m h = absurd (omega arith)
  rounds_total (suc (suc zero)) events reading s m h = absurd (omega arith)
  rounds_total (suc (suc (suc fuel))) events reading s m h = elim (Bool-cases (idle reading s)) [
    | inl stop ↦ rounds-idle (suc (suc fuel)) events reading s stop h
    | inr more ↦
        let (r, f) = rounds_fault (suc (suc fuel)) events reading s out_of_rounds more h in
        elim (Bool-cases (not reading && is_nil (flush r.0).running)) [
          | inl e ↦
              continue_total fuel events r.1 (flush r.0) (ground arith)
                (flush-ready r.0 ∙ dispatch_ready_fixpoint s r.0 r.1 f)
                (ap (λ b. rounds c (suc (suc fuel)) events b (nothing_to_wait_for r.1 (flush r.0)))
                    (not_reading reading _ e)
                  ∙ sym (rounds_continue (suc (suc fuel)) events reading s r more f e)
                  ∙ h)
          | inr e ↦
              wait_total (suc (suc fuel)) (rounds_total (suc (suc fuel))) events reading (flush r.0)
                m (sym (rounds-wait (suc (suc fuel)) events reading s r more f e) ∙ h)
        ]
  ]

  -- Whatever the environment does, a run that raises no exception ends or comes to a wait that the
  -- given list does not answer: it does not spin.
  pub run_incremental_total :
      (cache : Option FailedBuildCache) (events : List Progress)
      → run_incremental c cache events ≢ ok out_of_rounds
  unfolding run_incremental
  run_incremental_total cache events =
      rounds_total (length events + 3) events true (initial cache) (omega arith)
