-- ===== src/Canceller.antt =====
-- canceller.py: the supersede tracking of `CancellationManager`.
pub mod Lookup
pub mod Consistent
pub mod Register
pub mod Kept
pub mod Supersede
pub mod Orphans
pub mod Cancels
pub mod Running
mod Tests
use nixbot.Prelude.{
  ℕ, String, Bool, true, false, Option, none, some, List, [], ◌∷◌, Dict, get, put, remove, discard,
  is_nil, string_eq, nat_eq, pair_eq, ◌==◌, if◌then◌else◌,
}

-- `cancel_event` is the number of an asyncio event.
pub record InFlightBuild : Type 0 where
  pub build_id : ℕ
  pub project_id : ℕ
  pub tree_hash : String
  pub commit_sha : String
  pub cancel_event : ℕ
  pub contexts : List String

pub data RegisterOutcome : Type 0 where
  new duplicate stale : RegisterOutcome

-- `_builds`, `_by_context` and the cancel events that have been set. The objects are those that
-- `_builds` holds: what is done to one that has been popped is seen by nobody.
pub record CancellationManager : Type 0 where
  pub builds : Dict ℕ InFlightBuild
  pub by_context : Dict (ℕ × String) ℕ
  pub set_events : List ℕ

-- an assignment to the build of that number, if there is one
unfoldable pub update :
    ℕ → (InFlightBuild → InFlightBuild) → CancellationManager → CancellationManager
update id f m = elim (get m.builds id) [
  | none ↦ m
  | some build ↦ record m { builds = put id (f build) m.builds }
]

abbrev pub add_context : String → InFlightBuild → InFlightBuild
add_context key build = record build { contexts = key ∷ discard key build.contexts }

unfoldable pub release_context : InFlightBuild → String → CancellationManager → CancellationManager
release_context build key m =
    let contexts = discard key build.contexts in
    let by_context = remove (build.project_id, key) m.by_context in
    if is_nil contexts
    then record {
      builds = remove build.build_id m.builds;
      by_context = by_context;
      set_events = build.cancel_event ∷ m.set_events;
    }
    else record {
      builds = put build.build_id (record build { contexts = contexts }) m.builds;
      by_context = by_context;
      set_events = m.set_events;
    }

-- the arguments of `register`
pub record Registration : Type 0 where
  pub project_id : ℕ
  pub context_key : String
  pub build_id : ℕ
  pub tree_hash : String
  pub commit_sha : String
  pub cancel_event : ℕ
  pub incoming_is_ancestor_of_running : Bool

abbrev pub fresh_build : Registration → InFlightBuild
fresh_build r = record {
  build_id = r.build_id;
  project_id = r.project_id;
  tree_hash = r.tree_hash;
  commit_sha = r.commit_sha;
  cancel_event = r.cancel_event;
  contexts = r.context_key ∷ [];
}

-- the end of `register`; `build` is what its first line found
unfoldable pub track :
    Registration → Option InFlightBuild → CancellationManager → CancellationManager
track r none m = record m {
  builds = put r.build_id (fresh_build r) m.builds;
  by_context = put (r.project_id, r.context_key) r.build_id m.by_context;
}
track r (some build) m =
    let m' = update r.build_id (add_context r.context_key) m in
    record m' { by_context = put (r.project_id, r.context_key) r.build_id m'.by_context }

-- the build that the context had, if it is tracked
unfoldable pub old_build : Registration → CancellationManager → Option InFlightBuild
old_build r m = elim (get m.by_context (r.project_id, r.context_key)) [
  | none ↦ none
  | some id ↦ get m.builds id
]

unfoldable pub supersede :
    Registration
    → Option InFlightBuild
    → Option InFlightBuild
    → CancellationManager
    → CancellationManager × RegisterOutcome
supersede r build none m = (track r build m, new)
supersede r build (some old) m =
    if old.tree_hash == r.tree_hash
    then (update old.build_id (add_context r.context_key) m, duplicate)
    else if r.incoming_is_ancestor_of_running
    then (m, stale)
    else (track r build (release_context old r.context_key m), new)

unfoldable pub register : Registration → CancellationManager → CancellationManager × RegisterOutcome
register r m =
    let m' = update r.build_id (λ build. record build { cancel_event = r.cancel_event }) m in
    supersede r (get m.builds r.build_id) (old_build r m') m'

unfoldable pub pop_contexts : ℕ → List String → Dict (ℕ × String) ℕ → Dict (ℕ × String) ℕ
pop_contexts project [] by_context = by_context
pop_contexts project (key ∷ keys) by_context =
    pop_contexts project keys (remove (project, key) by_context)

unfoldable pub complete : ℕ → CancellationManager → CancellationManager
complete id m = elim (get m.builds id) [
  | none ↦ m
  | some build ↦ record m {
    builds = remove id m.builds;
    by_context = pop_contexts build.project_id build.contexts m.by_context;
  }
]

-- `cancel_pr` for the key that `branch_key` gives the pull request
unfoldable pub cancel_context : ℕ → String → CancellationManager → CancellationManager × Bool
cancel_context project key m = elim (get m.by_context (project, key)) [
  | none ↦ (m, false)
  | some id ↦ elim (get m.builds id) [
    | none ↦ (m, false)
    | some build ↦ (release_context build key m, true)
  ]
]

unfoldable pub running_commit_for : ℕ → String → CancellationManager → Option String
running_commit_for project key m = elim (get m.by_context (project, key)) [
  | none ↦ none
  | some id ↦ elim (get m.builds id) [ none ↦ none | some build ↦ some build.commit_sha ]
]
