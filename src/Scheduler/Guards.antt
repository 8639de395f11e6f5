-- ===== src/Scheduler/Guards.antt =====
-- build_scheduler.py: what the closures know of the dependencies that are in flight.
use nixbot.Prelude.{
  String, ◌≡◌, refl, ◌∙◌, ap, ◌≢◌, ◌⊎◌, inl, inr, Bool, true, false, not, ◌&&◌, Option, none, some,
  List, [], ◌∷◌, arith, any, elem, elem-nil, elem-cons, elem-filter, discard, inter, get, put,
  get-put, string_eq, ◌==◌, ok, ok-injective, Option-cases, Bool-cases, All,
}
use nixbot.Models.{NixEvalJobSuccess}
use nixbot.Scheduler.Types.{AttributeResult}
use nixbot.Scheduler.Closures.{Closures, drvs, closure_of, closures_from, needs}
use nixbot.Scheduler.State.{discard_from}

-- `drv` is in the closure that is kept for `key`.
abbrev pub in_closure : Closures → String → String → Bool
in_closure closures key drv = elim (get closures key) [ none ↦ false | some deps ↦ elem drv deps ]

abbrev names : Option String → String → Bool
names none drv = false
names (some x) drv = x == drv

-- An attribute with the derivation has its result.
abbrev pub has_result : String → List AttributeResult → Bool
has_result drv results = any (λ r. names r.drv_path drv) results

-- Discarding takes away the one derivation, and no key.
pub in_closure-discard_from :
    (drv : String) (keys : List String) (closures : Closures) {c : Closures} (k d : String)
    → discard_from drv keys closures ≡ ok c
    → d ≢ drv
    → in_closure c k d ≡ in_closure closures k d
unfolding discard_from
in_closure-discard_from drv [] closures k d h n = rw (ok-injective h) refl
in_closure-discard_from drv (x ∷ keys) closures {c} k d h n = elim (Option-cases (get closures x)) [
  | inl e ↦ cc (rw (e, discard_from) at h)
  | inr (deps, e) ↦
      in_closure-discard_from drv keys (put x (discard drv deps) closures) k d
        (rw (e, discard_from) at h) n
      ∙ ground (
        arith,
        get-put closures x k (discard drv deps),
        string_eq.beq_iff x k,
        elem-filter d (λ y. not (y == drv)) deps,
        string_eq.beq_iff d drv,
      )
]

-- The key's closure is empty: the job is ready.
abbrev pub EmptyAt : Closures → String → Type 0
EmptyAt closures key = (d : String) → in_closure closures key d ≡ false

pub empty_at-discard_from :
    (drv : String) (keys : List String) (closures : Closures) {c : Closures} (k d : String)
    → discard_from drv keys closures ≡ ok c
    → in_closure closures k d ≡ false
    → in_closure c k d ≡ false
unfolding discard_from
empty_at-discard_from drv [] closures k d h n = rw (← ok-injective h) n
empty_at-discard_from drv (x ∷ keys) closures {c} k d h n = elim (Option-cases (get closures x)) [
  | inl e ↦ cc (rw (e, discard_from) at h)
  | inr (deps, e) ↦
      empty_at-discard_from drv keys (put x (discard drv deps) closures) k d
        (rw (e, discard_from) at h)
        (ground (
          arith,
          get-put closures x k (discard drv deps),
          string_eq.beq_iff x k,
          elem-filter d (λ y. not (y == drv)) deps,
        ))
]

module _ (needs_of : String → List String) (job_set : List String) where
  elem-closure_of :
      (d : String) (j : NixEvalJobSuccess)
      → elem d (closure_of job_set j)
        ≡ (not (d == j.drv_path) && (elem d job_set && elem d (needs j)))
  unfolding closure_of
  elem-closure_of d j =
      elem-filter d (λ x. not (x == j.drv_path)) (inter (needs j) job_set)
      ∙ ap (λ b. not (d == j.drv_path) && b) (elem-filter d (λ x. elem x job_set) (needs j))

  -- A derivation's closure is the same whichever of its jobs it is computed for.
  pub in_closure-closures_from :
      (jobs : List NixEvalJobSuccess) (closures : Closures) (k d : String)
      → All (λ j. needs j ≡ needs_of j.drv_path) jobs
      → elem d (needs_of k) ≡ true
      → elem d job_set ≡ true
      → k ≢ d
      → (elem k (drvs jobs) ≡ true) ⊎ (in_closure closures k d ≡ true)
      → in_closure (closures_from job_set closures jobs) k d ≡ true
  unfolding closures_from closure_of
  in_closure-closures_from [] closures k d a need set n h = ground (arith, elem-nil k)
  in_closure-closures_from (j ∷ jobs) closures k d a need set n h =
      in_closure-closures_from jobs (put j.drv_path (closure_of job_set j) closures) k d a.1 need
        set n
        (elim (Bool-cases (j.drv_path == k)) [
          | inl e ↦ inr (
              ground (
                arith,
                get-put closures j.drv_path k (closure_of job_set j),
                elem-closure_of d j,
                string_eq.beq_iff j.drv_path k,
                string_eq.beq_iff d j.drv_path,
                ap needs_of ((string_eq.beq_iff j.drv_path k).0 e),
                a.0,
              ))
          | inr e ↦ ground (
            arith,
            get-put closures j.drv_path k (closure_of job_set j),
            elem-cons k j.drv_path (drvs jobs),
            h,
          )
        ])
