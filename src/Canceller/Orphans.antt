-- ===== src/Canceller/Orphans.antt =====
-- canceller.py: no build that had a context is left tracked without one by `register`.
use nixbot.Prelude.{
  ℕ, String, ◌≡◌, refl, ◌⊎◌, inl, inr, Bool, true, false, Option, none, some, arith, get, get-put,
  get-remove, discard, is_nil, string_eq, nat_eq, pair_eq, ◌==◌, Bool-cases, Option-cases,
}
use nixbot.Canceller.{
  InFlightBuild, CancellationManager, update, add_context, release_context, Registration,
  fresh_build, track, old_build, supersede, register,
}
use nixbot.Canceller.Register.{refresh}

abbrev pub lacks_contexts : Option InFlightBuild → Bool
lacks_contexts none = false
lacks_contexts (some x) = is_nil x.contexts

-- The build of that number had no context, or it has one, or it is not tracked.
abbrev pub Serves : CancellationManager → CancellationManager → ℕ → Type 0
Serves m m' b =
    (lacks_contexts (get m.builds b) ≡ true) ⊎ (lacks_contexts (get m'.builds b) ≡ false)

update-Serves :
    (id : ℕ) (f : InFlightBuild → InFlightBuild) (m : CancellationManager) (b : ℕ)
    → ((x : InFlightBuild) → (is_nil x.contexts ≡ true) ⊎ (is_nil (f x).contexts ≡ false))
    → Serves m (update id f m) b
unfolding update
update-Serves id f m b h = elim (Option-cases (get m.builds id)) [
  | inl e ↦ rw (e, update) (ground arith)
  | inr (x, e) ↦
      rw (e, update) (ground (arith, get-put m.builds id b (f x), nat_eq.beq_iff id b, e, h x))
]

refresh-Serves : (r : Registration) (m : CancellationManager) (b : ℕ) → Serves m (refresh r m) b
refresh-Serves r m b =
    update-Serves r.build_id (λ build. record build { cancel_event = r.cancel_event }) m b
      (λ x. ground arith)

release-Serves :
    (build : InFlightBuild) (key : String) (m : CancellationManager) (b : ℕ)
    → Serves m (release_context build key m) b
unfolding release_context
release-Serves build key m b = elim (Bool-cases (is_nil (discard key build.contexts))) [
  | inl n ↦ rw n (ground (arith, get-remove m.builds build.build_id b))
  | inr n ↦ rw n (
      ground (
        arith,
        get-put m.builds build.build_id b (record build { contexts = discard key build.contexts }),
        n,
      ))
]

track-Serves :
    (r : Registration) (found : Option InFlightBuild) (m : CancellationManager) (b : ℕ)
    → Serves m (track r found m) b
unfolding track
track-Serves r none m b = ground (arith, get-put m.builds r.build_id b (fresh_build r))
track-Serves r (some x) m b =
    update-Serves r.build_id (add_context r.context_key) m b (λ y. inr refl)

pub register-Serves :
    (r : Registration) (m : CancellationManager) (b : ℕ) → Serves m (register r m).0 b
unfolding register supersede
register-Serves r m b =
    let found = get m.builds r.build_id in
    elim (Option-cases (old_build r (refresh r m))) [
      | inl e ↦
          rw (e, supersede)
            (ground (arith, refresh-Serves r m b, track-Serves r found (refresh r m) b))
      | inr (old, e) ↦ elim (Bool-cases (old.tree_hash == r.tree_hash)) [
        | inl t ↦
            rw (e, supersede, t)
              (ground (
                arith,
                refresh-Serves r m b,
                update-Serves old.build_id (add_context r.context_key) (refresh r m) b
                    (λ y. inr refl),
              ))
        | inr t ↦ elim (Bool-cases r.incoming_is_ancestor_of_running) [
          | inl a ↦ rw (e, supersede, t, a) (refresh-Serves r m b)
          | inr a ↦
              let rest = release_context old r.context_key (refresh r m) in
              rw (e, supersede, t, a)
                (ground (
                  arith,
                  refresh-Serves r m b,
                  release-Serves old r.context_key (refresh r m) b,
                  track-Serves r found rest b,
                ))
        ]
      ]
    ]
