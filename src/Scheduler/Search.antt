-- ===== src/Scheduler/Search.antt =====
-- build_scheduler.py, `get_failed_dependents`: the search ends, and finds the reachable jobs.
pub mod Counts
mod Invariant
pub use Invariant.{Reaches, direct, through}
use Invariant.{Known, IsWalk, walk-IsWalk, walk-stack}
use Counts.{count-none, count-all}
use nixbot.Prelude.{
  ℕ, zero, suc, ◌+◌, ◌≤◌, String, ◌≡◌, ◌↔◌, refl, sym, ◌⊎◌, inl, inr, Bool, true, false, not, ◌&&◌,
  ◌||◌, List, [], ◌∷◌, ◌++◌, map, arith, elem, elem-nil, elem-cons, elem-append, string_eq, ◌==◌,
  ==_refl, length, count, count-append, filter, subst, Bool-cases, if◌then◌else◌, ap, ◌∙◌,
}
use mathlib.Core.List.{map-append}
use nixbot.Models.{NixEvalJobSuccess}
use nixbot.Scheduler.Closures.{Closures, drvs, by_drv, compute_reverse_deps}
use nixbot.Scheduler.Dependents.{Walk, visit, visit_all, walk, walk_from, get_failed_dependents}
use mathlib.Core.Path.{fun_ext}

module _ (jobs : List NixEvalJobSuccess) (closures : Closures) (drv : String) where
  abbrev reverse : String → List String
  reverse = compute_reverse_deps closures

  abbrev ended : Walk
  ended = walk_from jobs closures drv

  -- The loop ends by its test: the fuel is enough.
  pub walk_from-stack : ended.stack ≡ []
  unfolding walk_from
  walk_from-stack =
      walk-stack jobs reverse drv (length jobs + 1) (drv ∷ []) [] [] (omega (arith, count-all jobs))

  closes :
      (last : String) × IsWalk jobs reverse drv last [] ended
      → (d e : String) → Known jobs reverse drv d ended.seen
      → elem e (reverse d) ≡ true
      → elem e (drvs jobs) ≡ true
      → elem e ended.seen ≡ true
  closes (last, w) d e known edge p =
      ground (arith, w.closed d e known (rw walk_from-stack (elem-nil d)) edge p, elem-nil e)

  start-IsWalk :
      IsWalk jobs reverse drv drv [] (record { stack = drv ∷ []; seen = []; removed = [] })
  start-IsWalk = record {
    counted = λ p. count-none p jobs;
    drvs_seen = λ d. refl;
    sound = λ d m. cc (elem-nil d);
    stack_known = λ d m. ground (arith, elem-cons d drv [], elem-nil d, string_eq.beq_iff drv d);
    todo_of = λ e m. cc (elem-nil e);
    at_known = inl refl;
    closed = λ d e known off edge p.
        ground (arith, elem-cons d drv [], elem-nil d, string_eq.beq_iff drv d);
  }

  ended-IsWalk : (last : String) × IsWalk jobs reverse drv last [] ended
  unfolding walk_from
  ended-IsWalk = walk-IsWalk jobs reverse drv (length jobs + 1) drv (drv ∷ []) [] [] start-IsWalk

  Reaches-seen : {d : String} → Reaches jobs reverse drv d → elem d ended.seen ≡ true
  Reaches-seen (direct {d} edge p) = closes ended-IsWalk drv d (inl refl) edge p
  Reaches-seen (through {d} {e} r edge p) = closes ended-IsWalk d e (inr (Reaches-seen r)) edge p

-- The search of get_failed_dependents finds exactly the derivations of jobs that reverse
-- dependencies reach from the failed job through jobs of the given list.
pub get_failed_dependents_iff :
    (job : NixEvalJobSuccess) (jobs : List NixEvalJobSuccess) (closures : Closures) (d : String)
    → (elem d (drvs (get_failed_dependents job jobs closures)) ≡ true)
      ↔ Reaches jobs (compute_reverse_deps closures) job.drv_path d
unfolding get_failed_dependents
get_failed_dependents_iff job jobs closures d =
    let w = (ended-IsWalk jobs closures job.drv_path).1 in
    (
      λ m. w.sound d (rw (w.drvs_seen d) at m),
      λ r. w.drvs_seen d ∙ Reaches-seen jobs closures job.drv_path r,
    )

-- The search of get_failed_dependents lists each job of the derivations that it finds once.
pub count-get_failed_dependents :
    (job : NixEvalJobSuccess) (jobs : List NixEvalJobSuccess) (closures : Closures)
    (p : NixEvalJobSuccess → Bool)
    → count p (get_failed_dependents job jobs closures)
      ≡ count (λ j. p j && elem j.drv_path (drvs (get_failed_dependents job jobs closures))) jobs
unfolding get_failed_dependents
count-get_failed_dependents job jobs closures p =
    let w = (ended-IsWalk jobs closures job.drv_path).1 in
    w.counted p
    ∙ ap (λ f. count (λ j. p j && f j.drv_path) jobs) (fun_ext (λ d. sym (w.drvs_seen d)))
