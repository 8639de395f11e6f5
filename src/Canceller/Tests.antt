-- ===== src/Canceller/Tests.antt =====
-- The theorems of the supersede tracking at a branch and a pull request that share a build.
use nixbot.Prelude.{
  ℕ, ◌≡◌, refl, ◌⊎◌, false, some, [], ◌∷◌, arith, get, put, remove, string_eq, nat_eq, pair_eq,
}
use nixbot.Canceller.{
  CancellationManager, new, Registration, update, release_context, track, old_build, supersede,
  register, running_commit_for, complete, cancel_context,
}
use nixbot.Canceller.Consistent.{IsConsistent}
use nixbot.Canceller.Register.{
  IsSameBuild, register-IsConsistent, complete-IsConsistent, cancel_context-IsConsistent,
}
use nixbot.Canceller.Orphans.{Serves}
use nixbot.Canceller.Running.{register-running_commit_for}
use nixbot.Canceller.Cancels.{Cancels, Spares, register-Cancels, register-by_context}

abbrev empty : CancellationManager
empty = record { builds = []; by_context = []; set_events = [] }

empty-IsConsistent : IsConsistent empty
unfolding get
empty-IsConsistent = record { linked = λ b p k. ground arith; named = λ b x h. cc }

abbrev push : Registration
push = record {
  project_id = 1;
  context_key = "branch/main";
  build_id = 5;
  tree_hash = "t5";
  commit_sha = "c5";
  cancel_event = 50;
  incoming_is_ancestor_of_running = false;
}

abbrev later : Registration
later = record push { build_id = 6; tree_hash = "t6"; commit_sha = "c6"; cancel_event = 60 }

abbrev one : CancellationManager
one = record {
  builds =
      (
        5,
        record {
          build_id = 5;
          project_id = 1;
          tree_hash = "t5";
          commit_sha = "c5";
          cancel_event = 50;
          contexts = "branch/main" ∷ [];
        },
      )
      ∷ [];
  by_context = ((1, "branch/main"), 5) ∷ [];
  set_events = [];
}

register-push : register push empty ≡ (one, new)
unfolding register supersede old_build update track get put
register-push = refl

-- The next push to the branch cancels the first build.
register-later : (register later one).0.set_events ≡ 50 ∷ []
unfolding register supersede old_build update track get put release_context remove
register-later = refl

push-IsSameBuild : IsSameBuild push empty
unfolding get
push-IsSameBuild x h = cc

one-IsConsistent : IsConsistent one
unfolding register supersede old_build update track get put
one-IsConsistent = register-IsConsistent push empty push-IsSameBuild empty-IsConsistent

later-IsSameBuild : IsSameBuild later one
unfolding get
later-IsSameBuild x h = cc

register-IsConsistent_example : IsConsistent (register later one).0
register-IsConsistent_example = register-IsConsistent later one later-IsSameBuild one-IsConsistent

-- A pull request of the same tree joins the first build.
abbrev pull_request : Registration
pull_request = record push { context_key = "pr/7" }

abbrev shared : CancellationManager
shared = (register pull_request one).0

pull_request-IsSameBuild : IsSameBuild pull_request one
unfolding get
pull_request-IsSameBuild x h = ground (arith, h)

shared-IsConsistent : IsConsistent shared
shared-IsConsistent =
    register-IsConsistent pull_request one pull_request-IsSameBuild one-IsConsistent

-- The next push to the branch leaves the build to the pull request.
later-shared :
    ((register later shared).0.set_events ≡ [])
    × (running_commit_for 1 "pr/7" (register later shared).0 ≡ some "c5")
unfolding register supersede old_build update track get put release_context remove
    running_commit_for
later-shared = (refl, refl)

register-Cancels_example :
    (Spares one (register later one).0 ⊎ Cancels later one (register later one).0)
    × ((b : ℕ) → Serves one (register later one).0 b)
register-Cancels_example = register-Cancels later one later-IsSameBuild one-IsConsistent

register-by_context_example :
    (get (register later shared).0.by_context (1, "pr/7") ≡ get shared.by_context (1, "pr/7"))
    × (running_commit_for 1 "pr/7" (register later shared).0 ≡ running_commit_for 1 "pr/7" shared)
register-by_context_example = register-by_context later shared 1 "pr/7" shared-IsConsistent refl

complete-IsConsistent_example : IsConsistent (complete 5 one)
complete-IsConsistent_example = complete-IsConsistent 5 one one-IsConsistent

cancel_context-IsConsistent_example : IsConsistent (cancel_context 1 "branch/main" one).0
cancel_context-IsConsistent_example =
    cancel_context-IsConsistent 1 "branch/main" one one-IsConsistent

register-running_commit_for_example :
    running_commit_for 1 "branch/main" (register later shared).0 ≡ some "c6"
unfolding register supersede old_build update track get put release_context remove
register-running_commit_for_example = register-running_commit_for later shared refl refl
