-- ===== src/Scheduler/Induction.antt =====
-- build_scheduler.py: the rule for what every run of the loop keeps.
use nixbot.Prelude.{
  ℕ, zero, suc, ◌+◌, ◌≡◌, refl, inl, inr, Bool, true, false, not, ◌&&◌, Option, none, some, List,
  [], ◌∷◌, get, remove, nat_eq, length, is_nil, ok, >>=-eq-ok, ok-injective, subst, if◌then◌else◌,
  Bool-cases, Option-cases,
}
use nixbot.Models.{NixEvalJob, NixEvalJobSuccess}
use nixbot.Scheduler.Types.{BuildOutcome}
use nixbot.Scheduler.Cache.{FailedBuildCache}
use nixbot.Scheduler.State.{State, initial, fail_unresolvable}
use nixbot.Scheduler.Dispatch.{
  dispatch, dispatch_all, dispatch_rounds, dispatch_ready, ready, finish_job,
}
use nixbot.Scheduler.Ingest.{ingest}
use nixbot.Scheduler.Loop.{
  Item, Progress, Config, Outcome, done, waiting, out_of_rounds, flush, finish_all, on_queue_item,
  wait_for_progress, idle, nothing_to_wait_for, wait, rounds, run_incremental,
}

-- `P todo s` is to hold where the jobs `todo` of a round of dispatching are still to be dispatched.
pub record IsKept (c : Config) (Admissible : List NixEvalJob → Type 0)
    (P : List NixEvalJobSuccess → State → Type 0) : Type 0 where
  pub begin : (s : State) → P [] s → P (ready s) s
  pub step :
      (job : NixEvalJobSuccess) (todo : List NixEvalJobSuccess) (s s' : State)
      → dispatch job s ≡ ok s'
      → P (job ∷ todo) s
      → P todo s'
  pub finish :
      (task : ℕ) (outcome : BuildOutcome) (job : NixEvalJobSuccess) (s s' : State)
      → get s.running task ≡ some job
      → finish_job c.build_url job outcome (record s { running = remove task s.running }) ≡ ok s'
      → P [] s
      → P [] s'
  pub flushed : (s : State) → P [] s → P [] (flush s)
  pub merge :
      (batch : List NixEvalJob) (s s' : State)
      → Admissible batch
      → ingest c.static_order c.supported_systems batch s ≡ ok s'
      → P [] s
      → P [] s'
  pub give_up : (s : State) → P [] s → P [] (fail_unresolvable s)

abbrev pub AdmissibleItem : (List NixEvalJob → Type 0) → Option Item → Type 0
AdmissibleItem A none = Unit
AdmissibleItem A (some none) = Unit
AdmissibleItem A (some (some batch)) = A batch

abbrev pub AdmissibleEvents : (List NixEvalJob → Type 0) → List Progress → Type 0
AdmissibleEvents A [] = Unit
AdmissibleEvents A (p ∷ ps) = AdmissibleItem A p.item × AdmissibleEvents A ps

-- `D` at the end of a run, and `P` at a wait.
abbrev pub Ends : (State → Type 0) → (State → Type 0) → Outcome → Type 0
Ends D P (done s) = D s
Ends D P (waiting reading s) = P s
Ends D P out_of_rounds = Unit

module _ {c : Config} {A : List NixEvalJob → Type 0} {P : List NixEvalJobSuccess → State → Type 0}
    (k : IsKept c A P) where
  dispatch_all_keeps :
      (jobs : List NixEvalJobSuccess) (s : State) {s' : State}
      → dispatch_all jobs s ≡ ok s'
      → P jobs s
      → P [] s'
  unfolding dispatch_all
  dispatch_all_keeps [] s h p = subst (P []) (ok-injective h) p
  dispatch_all_keeps (job ∷ jobs) s h p =
      let (s1, e, g) = >>=-eq-ok _ _ h in dispatch_all_keeps jobs s1 g (k.step job jobs s s1 e p)

  dispatch_rounds_keeps :
      (fuel : ℕ) (any_ready : Bool) (s : State) {r : State × Bool}
      → dispatch_rounds fuel any_ready s ≡ ok r
      → P [] s
      → P [] r.0
  unfolding dispatch_rounds
  dispatch_rounds_keeps zero any_ready s h p = subst (λ x. P [] x.0) (ok-injective h) p
  dispatch_rounds_keeps (suc fuel) any_ready s {r} h p =
      go (λ s1 r1. dispatch_rounds_keeps fuel true s1) (ready s) refl
    where
      go :
          ((s1 : State) (r1 : State × Bool)
            → dispatch_rounds fuel true s1 ≡ ok r1
            → P [] s1
            → P [] r1.0)
          → (l : List NixEvalJobSuccess) → ready s ≡ l
          → P [] r.0
      go ih [] e = subst (λ x. P [] x.0) (ok-injective (rw (e, dispatch_rounds) at h)) p
      go ih (job ∷ jobs) e =
          let (s1, f, g) =
            >>=-eq-ok (dispatch_all (job ∷ jobs) s) _ (rw (e, dispatch_rounds) at h) in
          ih s1 r g (dispatch_all_keeps (job ∷ jobs) s f (rw e at (k.begin s p)))

  dispatch_ready_keeps :
      (s : State) {r : State × Bool} → dispatch_ready s ≡ ok r → P [] s → P [] r.0
  unfolding dispatch_ready
  dispatch_ready_keeps s = dispatch_rounds_keeps (length s.pending + 1) false s

  finish_all_keeps :
      (tasks : List (ℕ × BuildOutcome)) (s : State) {s' : State}
      → finish_all c tasks s ≡ ok s'
      → P [] s
      → P [] s'
  unfolding finish_all
  finish_all_keeps [] s h p = subst (P []) (ok-injective h) p
  finish_all_keeps ((task, outcome) ∷ rest) s {s'} h p = elim (Option-cases (get s.running task)) [
    | inl e ↦ cc (rw (e, finish_all) at h)
    | inr (job, e) ↦
        let (s1, f, g) = >>=-eq-ok _ _ (rw (e, finish_all) at h) in
        finish_all_keeps rest (flush s1) g (k.flushed s1 (k.finish task outcome job s s1 e f p))
  ]

  on_queue_item_keeps :
      (item : Option Item) (reading : Bool) (s : State) {r : State × Bool}
      → AdmissibleItem A item
      → on_queue_item c item reading s ≡ ok r
      → P [] s
      → P [] r.0
  unfolding on_queue_item
  on_queue_item_keeps none reading s a h p = subst (λ x. P [] x.0) (ok-injective h) p
  on_queue_item_keeps (some none) reading s a h p = subst (λ x. P [] x.0) (ok-injective h) p
  on_queue_item_keeps (some (some batch)) reading s a h p =
      let (s1, f, g) = >>=-eq-ok _ _ h in
      subst (λ x. P [] x.0) (ok-injective g) (k.merge batch s s1 a f p)

  wait_for_progress_keeps :
      (e : Progress) (reading : Bool) (s : State) {r : State × Bool}
      → AdmissibleItem A e.item
      → wait_for_progress c e reading s ≡ ok r
      → P [] s
      → P [] r.0
  unfolding wait_for_progress
  wait_for_progress_keeps e reading s a h p =
      let (r1, f, g) = >>=-eq-ok _ _ h in
      let (s2, f2, g2) = >>=-eq-ok _ _ g in
      subst (λ x. P [] x.0) (ok-injective g2)
        (finish_all_keeps e.finished r1.0 f2
          (on_queue_item_keeps (if reading then e.item else none) reading s (item reading) f p))
    where
      item : (b : Bool) → AdmissibleItem A (if b then e.item else none)
      item true = a
      item false = tt

  nothing_to_wait_for_keeps :
      (any_ready : Bool) (s : State) → P [] s → P [] (nothing_to_wait_for any_ready s)
  unfolding nothing_to_wait_for
  nothing_to_wait_for_keeps any_ready s p =
      elim (Bool-cases (not (is_nil s.pending) && not any_ready)) [
        | inl e ↦ rw e (k.give_up s p)
        | inr e ↦ rw e p
      ]

  module _ (D : State → Type 0) (last : (s : State) → P [] s → D (flush s)) where
    wait_keeps :
        (fuel : ℕ)
        → ((events : List Progress) (reading : Bool) (s : State) (o : Outcome)
            → AdmissibleEvents A events
            → rounds c fuel events reading s ≡ ok o
            → P [] s
            → Ends D (P []) o)
        → (events : List Progress) (reading : Bool) (s : State) {o : Outcome}
        → AdmissibleEvents A events
        → wait c (λ later w. rounds c fuel later w.1 w.0) events reading s ≡ ok o
        → P [] s
        → Ends D (P []) o
    unfolding wait
    wait_keeps fuel ih [] reading s a h p = subst (Ends D (P [])) (ok-injective h) p
    wait_keeps fuel ih (event ∷ later) reading s {o} a h p =
        let (w, f, g) = >>=-eq-ok (wait_for_progress c event reading s) _ h in
        ih later w.1 w.0 o a.1 g (wait_for_progress_keeps event reading s a.0 f p)

    rounds_keeps :
        (fuel : ℕ) (events : List Progress) (reading : Bool) (s : State) {o : Outcome}
        → AdmissibleEvents A events
        → rounds c fuel events reading s ≡ ok o
        → P [] s
        → Ends D (P []) o
    unfolding rounds
    rounds_keeps zero events reading s a h p = subst (Ends D (P [])) (ok-injective h) tt
    rounds_keeps (suc fuel) events reading s {o} a h p = elim (Bool-cases (idle reading s)) [
      | inl stop ↦ subst (Ends D (P [])) (ok-injective (rw (stop, rounds) at h)) (last s p)
      | inr more ↦
          let (r, f, g) = >>=-eq-ok (dispatch_ready s) _ (rw (more, rounds) at h) in
          let q = k.flushed r.0 (dispatch_ready_keeps s f p) in
          elim (Bool-cases (not reading && is_nil (flush r.0).running)) [
            | inl e ↦
                rounds_keeps fuel events reading (nothing_to_wait_for r.1 (flush r.0)) a (rw e at g)
                  (nothing_to_wait_for_keeps r.1 (flush r.0) q)
            | inr e ↦
                wait_keeps fuel (λ l b s1 o1. rounds_keeps fuel l b s1) events reading (flush r.0) a
                  (rw e at g) q
          ]
    ]

    -- What the initial state has and every step keeps holds where the run ends.
    pub run_incremental_keeps :
        (cache : Option FailedBuildCache) (events : List Progress) {o : Outcome}
        → AdmissibleEvents A events
        → run_incremental c cache events ≡ ok o
        → P [] (initial cache)
        → Ends D (P []) o
    unfolding run_incremental
    run_incremental_keeps cache events a h p =
        rounds_keeps (length events + 3) events true (initial cache) a h p
