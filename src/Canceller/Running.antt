-- ===== src/Canceller/Running.antt =====
-- canceller.py: `running_commit_for` behind `register`.
use nixbot.Prelude.{
  ℕ, String, ◌≡◌, refl, ◌∙◌, inl, inr, none, some, arith, get, get-put, string_eq, nat_eq, pair_eq,
  ◌==◌, ==_refl, Bool-cases, Option-cases,
}
use nixbot.Canceller.{
  InFlightBuild, CancellationManager, new, release_context, Registration, fresh_build, track,
  old_build, supersede, register, running_commit_for,
}
use nixbot.Canceller.Register.{refresh}
use nixbot.Canceller.Cancels.{track-by_context}

running_commit :
    (m : CancellationManager) (p : ℕ) (k : String) (id : ℕ) (x : InFlightBuild)
    → get m.by_context (p, k) ≡ some id
    → get m.builds id ≡ some x
    → running_commit_for p k m ≡ some x.commit_sha
unfolding running_commit_for
running_commit m p k id x e g = rw (e, running_commit_for, g) refl

tracked :
    (r : Registration) (m : CancellationManager)
    → running_commit_for r.project_id r.context_key (track r none m) ≡ some r.commit_sha
tracked r m =
    running_commit (track r none m) r.project_id r.context_key r.build_id (fresh_build r)
      (track-by_context r none m r.project_id r.context_key
        ∙ ground (arith, ==_refl r.project_id, ==_refl r.context_key))
      (unfold track in
        get-put m.builds r.build_id r.build_id (fresh_build r) ∙ ground (arith, ==_refl r.build_id))

-- When a build of an untracked number is registered as new, its context has its commit as the
-- running one.
pub register-running_commit_for :
    (r : Registration) (m : CancellationManager)
    → get m.builds r.build_id ≡ none
    → (register r m).1 ≡ new
    → running_commit_for r.project_id r.context_key (register r m).0 ≡ some r.commit_sha
unfolding register supersede running_commit_for track
register-running_commit_for r m e h =
    let f = λ (build : InFlightBuild). record build { cancel_event = r.cancel_event } in
    elim (Option-cases (old_build r (refresh r m))) [
      | inl n ↦ rw (n, supersede, e) (tracked r (refresh r m))
      | inr (old, g) ↦ elim (Bool-cases (old.tree_hash == r.tree_hash)) [
        | inl t ↦ cc (rw (g, supersede, t) at h)
        | inr t ↦ elim (Bool-cases r.incoming_is_ancestor_of_running) [
          | inl a ↦ cc (rw (g, supersede, t, a) at h)
          | inr a ↦
              rw (g, supersede, t, a, e)
                (tracked r (release_context old r.context_key (refresh r m)))
        ]
      ]
    ]
