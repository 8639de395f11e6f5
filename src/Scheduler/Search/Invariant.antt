-- ===== src/Scheduler/Search/Invariant.antt =====
-- build_scheduler.py, `get_failed_dependents`: the invariant and the measure of its loop.
use nixbot.Prelude.{
  ℕ, zero, suc, ◌+◌, ◌≤◌, String, ◌≡◌, refl, ◌⊎◌, inl, inr, Bool, true, false, not, ◌&&◌, List, [],
  ◌∷◌, ◌++◌, arith, elem, elem-nil, elem-cons, elem-append, string_eq, ◌==◌, ==_refl, length, count,
  count-append, subst, Bool-cases,
}
use mathlib.Core.List.{map-append}
use nixbot.Models.{NixEvalJobSuccess}
use nixbot.Scheduler.Closures.{drvs, by_drv}
use nixbot.Scheduler.Dependents.{Walk, visit, visit_all, walk}
use nixbot.Scheduler.Search.Counts.{count-seen, elem-drvs-by_drv, count-unseen}

-- The derivations of pending jobs that a chain of reverse edges through pending jobs reaches.
pub data Reaches (jobs : List NixEvalJobSuccess) (reverse_deps : String → List String)
    (root : String) : String → Type 0 where
  direct :
      {d : String}
      → elem d (reverse_deps root) ≡ true
      → elem d (drvs jobs) ≡ true
      → Reaches jobs reverse_deps root d
  through :
      {d e : String}
      → Reaches jobs reverse_deps root d
      → elem e (reverse_deps d) ≡ true
      → elem e (drvs jobs) ≡ true
      → Reaches jobs reverse_deps root e

module _ (jobs : List NixEvalJobSuccess) (reverse_deps : String → List String) (root : String) where
  abbrev pub Known : String → List String → Type 0
  Known d seen = (root ≡ d) ⊎ (elem d seen ≡ true)

  -- `open` are the reverse edges still to be visited from the derivation `at`.
  pub record IsWalk (at : String) (todo : List String) (w : Walk) : Type 0 where
    pub counted :
        (p : NixEvalJobSuccess → Bool)
        → count p w.removed ≡ count (λ j. p j && elem j.drv_path w.seen) jobs
    pub drvs_seen : (d : String) → elem d (drvs w.removed) ≡ elem d w.seen
    pub sound : (d : String) → elem d w.seen ≡ true → Reaches jobs reverse_deps root d
    pub stack_known : (d : String) → elem d w.stack ≡ true → Known d w.seen
    pub todo_of : (e : String) → elem e todo ≡ true → elem e (reverse_deps at) ≡ true
    pub at_known : Known at w.seen
    pub closed :
        (d e : String)
        → Known d w.seen
        → elem d w.stack ≡ false
        → elem e (reverse_deps d) ≡ true
        → elem e (drvs jobs) ≡ true
        → (elem e w.seen ≡ true) ⊎ ((at ≡ d) × (elem e todo ≡ true))

  reach :
      (at d : String) (w : Walk) (todo : List String)
      → IsWalk at todo w
      → elem d (reverse_deps at) ≡ true
      → elem d (drvs jobs) ≡ true
      → Reaches jobs reverse_deps root d
  reach at d w todo h edge pending = elim h.at_known [
    | inl e ↦ direct (rw e edge) pending
    | inr s ↦ through (h.sound at s) edge pending
  ]

  sound-cons :
      (d : String) (seen : List String)
      → Reaches jobs reverse_deps root d
      → ((x : String) → elem x seen ≡ true → Reaches jobs reverse_deps root x)
      → (x : String) → elem x (d ∷ seen) ≡ true
      → Reaches jobs reverse_deps root x
  sound-cons d seen r h x m = elim (Bool-cases (d == x)) [
    | inl e ↦ subst (Reaches jobs reverse_deps root) ((string_eq.beq_iff d x).0 e) r
    | inr n ↦ h x (ground (arith, elem-cons x d seen))
  ]

  visit_new :
      (at d : String) (todo : List String) (w : Walk)
      → IsWalk at (d ∷ todo) w
      → elem d (drvs jobs) ≡ true
      → elem d w.seen ≡ false
      → IsWalk at todo
          (record { stack = d ∷ w.stack; seen = d ∷ w.seen; removed = w.removed ++ by_drv jobs d })
  visit_new at d todo w h pending new = record {
    counted = λ p. omega (
      arith,
      count-append p w.removed (by_drv jobs d),
      h.counted p,
      count-seen p d w.seen jobs new,
    );
    drvs_seen = λ x. ground (
      arith,
      elem-append x (drvs w.removed) (drvs (by_drv jobs d)),
      map-append (λ (j : NixEvalJobSuccess). j.drv_path) w.removed (by_drv jobs d),
      h.drvs_seen x,
      elem-drvs-by_drv d x jobs,
      elem-cons x d w.seen,
    );
    sound =
        sound-cons d w.seen
          (reach at d w (d ∷ todo) h (h.todo_of d (ground (arith, elem-cons d d todo, ==_refl d)))
            pending)
          h.sound;
    stack_known =
        λ x m. ground (arith, elem-cons x d w.stack, elem-cons x d w.seen, h.stack_known x);
    todo_of = λ e m. h.todo_of e (ground (arith, elem-cons e d todo));
    at_known = ground (arith, elem-cons at d w.seen, h.at_known);
    closed = λ x e known off edge p. ground (
      arith,
      elem-cons x d w.stack,
      elem-cons x d w.seen,
      elem-cons e d w.seen,
      elem-cons e d todo,
      h.closed x e,
    );
  }

  visit-IsWalk :
      (at d : String) (todo : List String) (w : Walk)
      → IsWalk at (d ∷ todo) w
      → IsWalk at todo (visit jobs w d)
  unfolding visit
  visit-IsWalk at d todo w h = elim (Bool-cases (elem d (drvs jobs) && not (elem d w.seen))) [
    | inl new ↦ rw new (visit_new at d todo w h (ground arith) (ground arith))
    | inr old ↦ rw old (record {
      counted = h.counted;
      drvs_seen = h.drvs_seen;
      sound = h.sound;
      stack_known = h.stack_known;
      todo_of = λ e m. h.todo_of e (ground (arith, elem-cons e d todo));
      at_known = h.at_known;
      closed = λ x e known off edge p.
          ground (arith, string_eq.beq_iff d e, elem-cons e d todo, h.closed x e known off edge p);
    })
  ]

  visit_all-IsWalk :
      (at : String) (todo : List String) (w : Walk)
      → IsWalk at todo w
      → IsWalk at [] (visit_all jobs w todo)
  unfolding visit_all
  visit_all-IsWalk at [] w h = h
  visit_all-IsWalk at (d ∷ todo) w h =
      visit_all-IsWalk at todo (visit jobs w d) (visit-IsWalk at d todo w h)

  pop-IsWalk :
      (at drv : String) (rest seen : List String) (removed : List NixEvalJobSuccess)
      → IsWalk at [] (record { stack = drv ∷ rest; seen = seen; removed = removed })
      → IsWalk drv (reverse_deps drv) (record { stack = rest; seen = seen; removed = removed })
  pop-IsWalk at drv rest seen removed h = record {
    counted = h.counted;
    drvs_seen = h.drvs_seen;
    sound = h.sound;
    stack_known = λ d m. h.stack_known d (ground (arith, elem-cons d drv rest));
    todo_of = λ e m. m;
    at_known = h.stack_known drv (ground (arith, elem-cons drv drv rest, ==_refl drv));
    closed = λ d e known off edge p.
        ground
          (arith, elem-cons d drv rest, string_eq.beq_iff drv d, elem-nil e, h.closed d e known);
  }

  -- How many rounds are left at most.
  abbrev pub measure : Walk → ℕ
  measure w = length w.stack + count (λ j. not (elem j.drv_path w.seen)) jobs

  pub walk-IsWalk :
      (fuel : ℕ) (at : String) (stack seen : List String) (removed : List NixEvalJobSuccess)
      → IsWalk at [] (record { stack = stack; seen = seen; removed = removed })
      → (last : String) × IsWalk last []
          (walk jobs reverse_deps fuel (record { stack = stack; seen = seen; removed = removed }))
  unfolding walk
  walk-IsWalk zero at stack seen removed h = (at, h)
  walk-IsWalk (suc fuel) at [] seen removed h = (at, h)
  walk-IsWalk (suc fuel) at (drv ∷ rest) seen removed h =
      let w =
        visit_all jobs (record { stack = rest; seen = seen; removed = removed })
          (reverse_deps drv) in
      walk-IsWalk fuel drv w.stack w.seen w.removed
        (visit_all-IsWalk drv (reverse_deps drv) _ (pop-IsWalk at drv rest seen removed h))

  visit-measure : (w : Walk) (d : String) → measure (visit jobs w d) ≤ measure w
  unfolding visit
  visit-measure w d = elim (Bool-cases (elem d (drvs jobs) && not (elem d w.seen))) [
    | inl new ↦ rw new (omega (arith, count-unseen d w.seen jobs (ground arith) (ground arith)))
    | inr old ↦ rw old (omega arith)
  ]

  visit_all-measure : (ds : List String) (w : Walk) → measure (visit_all jobs w ds) ≤ measure w
  unfolding visit_all
  visit_all-measure [] w = omega arith
  visit_all-measure (d ∷ ds) w =
      omega (arith, visit_all-measure ds (visit jobs w d), visit-measure w d)

  pub walk-stack :
      (fuel : ℕ) (stack seen : List String) (removed : List NixEvalJobSuccess)
      → measure (record { stack = stack; seen = seen; removed = removed }) ≤ fuel
      → (walk jobs reverse_deps fuel
          (record { stack = stack; seen = seen; removed = removed })).stack
        ≡ []
  unfolding walk
  walk-stack zero [] seen removed h = refl
  walk-stack zero (drv ∷ rest) seen removed h = absurd (omega arith)
  walk-stack (suc fuel) [] seen removed h = refl
  walk-stack (suc fuel) (drv ∷ rest) seen removed h =
      let start : Walk = record { stack = rest; seen = seen; removed = removed } in
      let w = visit_all jobs start (reverse_deps drv) in
      walk-stack fuel w.stack w.seen w.removed
        (omega (arith, visit_all-measure (reverse_deps drv) start))
