-- ===== src/Scheduler/Samples.antt =====
-- Small evaluations that the examples of the scheduler's theorems run on.
use nixbot.Prelude.{
  subst, arith, ℕ, zero, suc, String, ◌≡◌, refl, Bool, true, Option, none, some, List, [], ◌∷◌,
  ◌++◌, map, filter, length, elem, all, not, subset, nodup, get, ◌&&◌, ◌≢◌, Bool-cases, inl, inr,
  string_eq, if◌then◌else◌,
}
use nixbot.Models.{CacheStatus, NixEvalJob, eval_success, NixEvalJobSuccess}
use nixbot.Scheduler.Types.{BuildOutcome}
use nixbot.Scheduler.Closures.{Closures, StaticOrder}
use nixbot.Scheduler.Order.{Follows, IsTopological}
use nixbot.Scheduler.Loop.{Config, Progress}

-- A job whose closure holds itself, as nix-eval-jobs reports it.
abbrev pub job : String → List String → NixEvalJobSuccess
job drv deps = record {
  attr = drv;
  attr_path = drv ∷ [];
  cache_status = some CacheStatus.not_built;
  needed_builds = drv ∷ deps;
  needed_substitutes = [];
  drv_path = drv;
  name = drv;
  warnings = [];
  traces = [];
  stats = none;
  outputs = ("out", some drv) ∷ [];
  system = "x86_64-linux";
  extra_value = none;
}

-- Repeated selection of the keys whose dependencies are out, for the examples.
select : ℕ → List String → Closures → List String
select zero out closures = out
select (suc fuel) out closures =
    let next =
      filter (λ e. all (λ d. elem d out) e.1) (filter (λ e. not (elem e.0 out)) closures) in
    select fuel (out ++ map (λ e. e.0) next) closures

listed : Option (List String) → List String → Bool
listed none before = true
listed (some deps) before = subset deps before

in_order : Closures → List String → List String → Bool
in_order closures before [] = true
in_order closures before (d ∷ order) =
    listed (get closures d) before && in_order closures (d ∷ before) order

-- An order is given only after a check of what graphlib documents.
checked : Closures → List String → Option (List String)
checked closures order =
    if nodup order && all (λ e. elem e.0 order) closures && in_order closures [] order
    then some order
    else none

unfoldable pub order : StaticOrder
unfolding select checked listed in_order elem nodup get
order closures = checked closures (select (length closures) [] closures)

same : {a b : List String} → ◌≡◌ {A = Option (List String)} (some a) (some b) → a ≡ b
same h = cc

checked-some :
    (closures : Closures) (l : List String) {l' : List String}
    → checked closures l ≡ some l'
    → (nodup l' ≡ true)
      × (all (λ e. elem e.0 l') closures ≡ true)
      × (in_order closures [] l' ≡ true)
unfolding checked
checked-some closures l h =
    elim (Bool-cases (nodup l && all (λ e. elem e.0 l) closures && in_order closures [] l)) [
      | inl e ↦
          subst
            (λ l.
              (nodup l ≡ true)
              × (all (λ e. elem e.0 l) closures ≡ true)
              × (in_order closures [] l ≡ true))
            (same (rw e at h)) (ground arith, ground arith, ground arith)
      | inr e ↦ cc (rw e at h)
    ]

all-get :
    (l : List String) (closures : Closures) (d : String)
    → all (λ e. elem e.0 l) closures ≡ true
    → get closures d ≢ none
    → elem d l ≡ true
unfolding get
all-get l [] d h n = absurd (n refl)
all-get l ((k, v) ∷ closures) d h n = ground (arith, string_eq.beq_iff k d, all-get l closures d)

subset-elem :
    (deps before : List String) (e : String)
    → subset deps before ≡ true
    → elem e deps ≡ true
    → elem e before ≡ true
unfolding elem
subset-elem [] before e h m = cc
subset-elem (x ∷ deps) before e h m =
    ground (arith, string_eq.beq_iff x e, subset-elem deps before e)

Follows-in_order :
    (closures : Closures) (before l : List String)
    → in_order closures before l ≡ true
    → Follows closures before l
unfolding in_order listed
Follows-in_order closures before [] h = tt
Follows-in_order closures before (d ∷ l) h = (
  λ deps e g m. subset-elem deps before e (ground (arith, g)) m,
  Follows-in_order closures (d ∷ before) l (ground arith),
)

pub order-IsTopological : IsTopological order
unfolding order
order-IsTopological = record {
  once = λ c l h. (checked-some c (select (length c) [] c) h).0;
  complete = λ c l d h. all-get l c d (checked-some c (select (length c) [] c) h).1;
  follows = λ c l h. Follows-in_order c [] l (checked-some c (select (length c) [] c) h).2;
}

abbrev pub config : Config
config = record { static_order = order; supported_systems = "x86_64-linux" ∷ []; build_url = "u" }

abbrev pub chain : List NixEvalJob
chain =
    eval_success (job "c" ("b" ∷ "a" ∷ []))
    ∷ eval_success (job "b" ("a" ∷ []))
    ∷ eval_success (job "a" [])
    ∷ []

abbrev pub waits : List Progress
waits =
    record { item = some (some chain); finished = [] }
    ∷ record { item = some none; finished = (0, BuildOutcome.success) ∷ [] }
    ∷ record { item = none; finished = (1, BuildOutcome.failure) ∷ [] }
    ∷ []
