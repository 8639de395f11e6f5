-- ===== src/Models.antt =====
-- models.py: what nix-eval-jobs reports for an attribute.
use Prim.Native.Nat.{ℕ}
use native.Mathlib.Decide.{ℕ_discrete}
use nixbot.Prelude.{
  String, ◌≡◌, refl, Bool, true, false, Option, none, some, List, ◌==◌, string_eq, ◌↔◌, Dict,
}
use nixbot.Prelude.Json.{Fields, get_field, truthy}

pub data CacheStatus : Type 0 where
  cached local not_built : CacheStatus

pub record EvalStats : Type 0 where
  pub wall_ms : ℕ
  pub alloc_bytes : ℕ

pub record NixEvalJobError : Type 0 where
  pub error : String
  pub attr : String
  pub attr_path : List String
  pub warnings : List String
  pub traces : List String
  pub stats : Option EvalStats

pub record NixEvalJobSuccess : Type 0 where
  pub attr : String
  pub attr_path : List String
  pub cache_status : Option CacheStatus
  pub needed_builds : List String
  pub needed_substitutes : List String
  pub drv_path : String
  pub name : String
  pub warnings : List String
  pub traces : List String
  pub stats : Option EvalStats
  -- a null output is a path that is known only after the build
  pub outputs : Dict String (Option String)
  pub system : String
  pub extra_value : Option Fields

pub data NixEvalJob : Type 0 where
  eval_error : NixEvalJobError → NixEvalJob
  eval_success : NixEvalJobSuccess → NixEvalJob

-- `bool((self.extra_value or {}).get(name))`: a missing key gives `None`, which is false
flag_of : Option Fields → String → Bool
flag_of none name = false
flag_of (some fields) name = elim (get_field name fields) [ none ↦ false | some v ↦ truthy v ]

unfoldable pub flag : NixEvalJobSuccess → String → Bool
unfolding flag_of
flag job name = flag_of job.extra_value name

unfoldable pub build_dependencies_only : NixEvalJobSuccess → Bool
build_dependencies_only job = flag job "buildDependenciesOnly"

unfoldable pub ignore_failure : NixEvalJobSuccess → Bool
ignore_failure job = flag job "ignoreFailure"

unfoldable pub require_failure : NixEvalJobSuccess → Bool
require_failure job = flag job "requireFailure"

unfoldable pub String-discrete : Discrete String
String-discrete a b = dec (a == b) (string_eq.beq_iff a b)
  where
    dec : (t : Bool) → ((t ≡ true) ↔ (a ≡ b)) → Dec (a ≡ b)
    dec true h = yes (h.0 refl)
    dec false h = no (λ e. cc (h.1 e))

Fields-discrete : Discrete Fields
Fields-discrete = hlevel (String-discrete, ℕ_discrete)

-- Two models are equal in Python when all their fields are.
unfoldable pub NixEvalJobSuccess-discrete : Discrete NixEvalJobSuccess
unfolding Fields-discrete String-discrete
NixEvalJobSuccess-discrete = hlevel (String-discrete, ℕ_discrete, Fields-discrete)
