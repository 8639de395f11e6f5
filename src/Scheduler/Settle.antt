-- ===== src/Scheduler/Settle.antt =====
-- build_scheduler.py, `_ingest`: the loop that settles the jobs of which a dependency has failed.
use nixbot.Prelude.{
  ℕ, zero, suc, ◌+◌, ◌≤◌, String, ◌≡◌, refl, inl, inr, true, false, List, [], ◌∷◌, none, arith,
  count, count-append, length, length-append, All, All-append, is_nil, inter, subset, string_eq,
  ◌==◌, if◌then◌else◌, Bool-cases,
}
use nixbot.Models.{NixEvalJobSuccess}
use nixbot.Scheduler.Types.{AttributeStatus, AttributeResult, success_result}
use nixbot.Scheduler.Closures.{needs}
use nixbot.Scheduler.State.{State}
use nixbot.Scheduler.Ingest.{
  Settling, blocking, settle, settle_step, settle_pass, settle_rounds, settle_all,
}

-- Results and remaining jobs of an attribute.
abbrev accounts : String → Settling → ℕ
accounts a t = count (λ r. r.attr == a) t.results + count (λ j. j.attr == a) t.remaining

settle_step-accounts :
    (a : String) (t : Settling) (job : NixEvalJobSuccess)
    → accounts a (settle_step t job) ≡ accounts a t + (if job.attr == a then 1 else 0)
unfolding settle_step settle success_result
settle_step-accounts a t job = ground (
  arith,
  count-append (λ (j : NixEvalJobSuccess). j.attr == a) t.remaining (job ∷ []),
  count-append (λ (r : AttributeResult). r.attr == a) t.results
      (success_result job AttributeStatus.cancelled none none none ∷ []),
  count-append (λ (r : AttributeResult). r.attr == a) t.results
      (success_result job AttributeStatus.dependency_failed none none none ∷ []),
)

settle_pass-accounts :
    (a : String) (jobs : List NixEvalJobSuccess) (t : Settling)
    → accounts a (settle_pass t jobs) ≡ accounts a t + count (λ j. j.attr == a) jobs
unfolding settle_pass
settle_pass-accounts a [] t = omega arith
settle_pass-accounts a (job ∷ jobs) t =
    ground (arith, settle_pass-accounts a jobs (settle_step t job), settle_step-accounts a t job)

settle_rounds-accounts :
    (a : String) (fuel : ℕ) (t : Settling) → accounts a (settle_rounds fuel t) ≡ accounts a t
unfolding settle_rounds
settle_rounds-accounts a zero t = refl
settle_rounds-accounts a (suc fuel) t = elim (Bool-cases t.settled_any) [
  | inl e ↦
      rw (e, settle_rounds)
        (omega (
          arith,
          settle_rounds-accounts a fuel
              (settle_pass (record t { remaining = []; settled_any = false }) t.remaining),
          settle_pass-accounts a t.remaining (record t { remaining = []; settled_any = false }),
        ))
  | inr e ↦ rw (e, settle_rounds)
]

abbrev unsettled : List NixEvalJobSuccess → State → Settling
unsettled candidates s = record {
  remaining = candidates;
  failed_drvs = s.failed_drvs;
  cancelled_drvs = s.cancelled_drvs;
  results = [];
  settled_any = true;
}

-- The settling loop of _ingest settles each candidate or lets it remain, once.
pub settle_all-accounts :
    (a : String) (candidates : List NixEvalJobSuccess) (s : State)
    → count (λ r. r.attr == a) (settle_all candidates s).results
        + count (λ j. j.attr == a) (settle_all candidates s).remaining
      ≡ count (λ j. j.attr == a) candidates
unfolding settle_all
settle_all-accounts a candidates s =
    omega (arith, settle_rounds-accounts a (length candidates + 2) (unsettled candidates s))

-- If no job was settled since the pass began, nothing that remains is blocked.
abbrev IsClear : Settling → Type 0
IsClear t = t.settled_any ≡ false → All (λ job. blocking t job ≡ []) t.remaining

settle_step-IsClear :
    (t : Settling) (job : NixEvalJobSuccess) → IsClear t → IsClear (settle_step t job)
unfolding settle_step settle blocking
settle_step-IsClear t job h = elim (Bool-cases (is_nil (blocking t job))) [
  | inl e ↦ rw e (λ none. All-append _ t.remaining (job ∷ []) (h none) (nil_of e, tt))
  | inr e ↦ rw e (λ none. absurd (busy none))
]
  where
    nil_of : {l : List String} → is_nil l ≡ true → l ≡ []
    nil_of e = ground arith

    busy : (settle job t).settled_any ≡ false → ⊥
    busy e = ground arith

settle_pass-IsClear :
    (jobs : List NixEvalJobSuccess) (t : Settling) → IsClear t → IsClear (settle_pass t jobs)
unfolding settle_pass
settle_pass-IsClear [] t h = h
settle_pass-IsClear (job ∷ jobs) t h =
    settle_pass-IsClear jobs (settle_step t job) (settle_step-IsClear t job h)

-- A settled job is off the remaining ones.
settle_step-length :
    (t : Settling) (job : NixEvalJobSuccess) (n : ℕ)
    → length t.remaining + (if t.settled_any then 1 else 0) ≤ n
    → length (settle_step t job).remaining + (if (settle_step t job).settled_any then 1 else 0)
      ≤ suc n
unfolding settle_step settle
settle_step-length t job n h = ground (arith, length-append t.remaining (job ∷ []))

settle_pass-length :
    (jobs : List NixEvalJobSuccess) (t : Settling) (n : ℕ)
    → length t.remaining + (if t.settled_any then 1 else 0) ≤ n
    → length (settle_pass t jobs).remaining + (if (settle_pass t jobs).settled_any then 1 else 0)
      ≤ length jobs + n
unfolding settle_pass
settle_pass-length [] t n h = omega arith
settle_pass-length (job ∷ jobs) t n h =
    omega
      (arith, settle_pass-length jobs (settle_step t job) (suc n) (settle_step-length t job n h))

-- With a round for each remaining job and one more the loop ends by its test.
settle_rounds_end :
    (fuel : ℕ) (t : Settling)
    → IsClear t
    → length t.remaining + (if t.settled_any then 1 else 0) ≤ fuel
    → IsClear (settle_rounds fuel t) × ((settle_rounds fuel t).settled_any ≡ false)
unfolding settle_rounds
settle_rounds_end zero t c h = (c, ground arith)
settle_rounds_end (suc fuel) t c h = elim (Bool-cases t.settled_any) [
  | inl e ↦
      let start : Settling = record t { remaining = []; settled_any = false } in
      rw (e, settle_rounds)
        (settle_rounds_end fuel (settle_pass start t.remaining)
          (settle_pass-IsClear t.remaining start (λ _. tt))
          (ground (arith, settle_pass-length t.remaining start 0)))
  | inr e ↦ rw (e, settle_rounds) (c, e)
]

-- When the settling loop of _ingest ends, no remaining job needs a derivation that has failed.
pub settle_all_clear :
    (candidates : List NixEvalJobSuccess) (s : State)
    → All
        (λ job. inter (needs job) (settle_all candidates s).failed_drvs ≡ [])
        (settle_all candidates s).remaining
unfolding settle_all blocking
settle_all_clear candidates s =
    let (clear, ended) =
      settle_rounds_end (length candidates + 2) (unsettled candidates s) (λ e. cc)
        (omega (arith)) in
    clear ended

settle_pass-All :
    (P : NixEvalJobSuccess → Type 0) (jobs : List NixEvalJobSuccess) (t : Settling)
    → All P jobs
    → All P t.remaining
    → All P (settle_pass t jobs).remaining
unfolding settle_pass settle_step settle
settle_pass-All P [] t a b = b
settle_pass-All P (job ∷ jobs) t a b =
    settle_pass-All P jobs (settle_step t job) a.1 (elim (Bool-cases (is_nil (blocking t job))) [
      | inl e ↦ rw e (All-append P t.remaining (job ∷ []) b (a.0, tt))
      | inr e ↦ rw e (elim (Bool-cases (subset (blocking t job) t.cancelled_drvs)) [
        | inl x ↦ rw x b
        | inr x ↦ rw x b
      ])
    ])

settle_rounds-All :
    (P : NixEvalJobSuccess → Type 0) (fuel : ℕ) (t : Settling)
    → All P t.remaining
    → All P (settle_rounds fuel t).remaining
unfolding settle_rounds
settle_rounds-All P zero t a = a
settle_rounds-All P (suc fuel) t a = elim (Bool-cases t.settled_any) [
  | inl e ↦
      rw (e, settle_rounds) (settle_rounds-All P fuel _ (settle_pass-All P t.remaining _ a tt))
  | inr e ↦ rw (e, settle_rounds) a
]

-- What remains was a candidate.
pub settle_all-All :
    (P : NixEvalJobSuccess → Type 0) (candidates : List NixEvalJobSuccess) (s : State)
    → All P candidates
    → All P (settle_all candidates s).remaining
unfolding settle_all
settle_all-All P candidates s a =
    settle_rounds-All P (length candidates + 2) (unsettled candidates s) a
