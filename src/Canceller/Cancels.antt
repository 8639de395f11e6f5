-- ===== src/Canceller/Cancels.antt =====
-- canceller.py: which builds `register` cancels, and which it leaves alone.
use nixbot.Prelude.{
  ℕ, String, ◌≡◌, refl, ap, sym, subst, ◌∙◌, ◌⊎◌, inl, inr, true, false, ◌&&◌, Option, none, some,
  ◌∷◌, arith, get, get-put, discard, elem, is_nil, string_eq, nat_eq, pair_eq, ◌==◌, if◌then◌else◌,
  Bool-cases, Option-cases,
}
use nixbot.Canceller.{
  InFlightBuild, CancellationManager, add_context, release_context, Registration, track, old_build,
  supersede, register, running_commit_for,
}
use nixbot.Canceller.Lookup.{release-by_context, update-by_context}
use nixbot.Canceller.Consistent.{IsConsistent, update-IsConsistent}
use nixbot.Canceller.Supersede.{
  leads, only_context, release-set_events, update-set_events, track-set_events, differs, superseded,
  refresh-tracked_commit, superseded-Stays, tracked-Stays, shared-Stays,
}
use nixbot.Canceller.Kept.{Stays, update-others, track-others}
use nixbot.Canceller.Orphans.{Serves, register-Serves}
use nixbot.Canceller.Register.{IsSameBuild, refresh, context_cases, register-IsConsistent}

pub track-by_context :
    (r : Registration) (found : Option InFlightBuild) (m : CancellationManager) (p : ℕ) (k : String)
    → get (track r found m).by_context (p, k) ≡ (
        if r.project_id == p && r.context_key == k
        then some r.build_id
        else get m.by_context (p, k))
unfolding track
track-by_context r none m p k =
    ground (arith, get-put m.by_context (r.project_id, r.context_key) (p, k) r.build_id)
track-by_context r (some x) m p k = ground (
  arith,
  get-put m.by_context (r.project_id, r.context_key) (p, k) r.build_id,
  update-by_context r.build_id (add_context r.context_key) m,
)

register-get :
    (r : Registration) (m : CancellationManager) (p : ℕ) (k : String)
    → IsConsistent m
    → (r.project_id == p && r.context_key == k) ≡ false
    → get (register r m).0.by_context (p, k) ≡ get m.by_context (p, k)
unfolding register supersede old_build track
register-get r m p k c other =
    let f = λ (build : InFlightBuild). record build { cancel_event = r.cancel_event } in
    let c1 = update-IsConsistent r.build_id f m (λ x. refl) (λ x. refl) (λ x. refl) c in
    elim (context_cases (refresh r m) r.project_id r.context_key c1) [
      | inl e ↦
          rw (e, old_build, supersede)
            (ground (
              arith,
              other,
              track-by_context r (get m.builds r.build_id) (refresh r m) p k,
              update-by_context r.build_id f m,
            ))
      | inr (id, old, e, g, n, same, own) ↦ elim (Bool-cases (old.tree_hash == r.tree_hash)) [
        | inl t ↦
            rw (e, old_build, g, supersede, t)
              (ap (λ d. get d (p, k))
                (update-by_context old.build_id (add_context r.context_key) (refresh r m)
                  ∙ update-by_context r.build_id f m))
        | inr t ↦ elim (Bool-cases r.incoming_is_ancestor_of_running) [
          | inl a ↦
              rw (e, old_build, g, supersede, t, a)
                (ap (λ d. get d (p, k)) (update-by_context r.build_id f m))
          | inr a ↦
              rw (e, old_build, g, supersede, t, a)
                (ground (
                  arith,
                  other,
                  same,
                  track-by_context r (get m.builds r.build_id)
                      (release_context old r.context_key (refresh r m)) p k,
                  release-by_context old r.context_key (refresh r m) p k,
                  update-by_context r.build_id f m,
                ))
        ]
      ]
    ]

-- One build, of another tree, whose commit does not descend from the registered one and whose only
-- context is the registered one, is cancelled: its event is
-- set, it is not tracked any more, no context leads to it, and the other builds stay.
abbrev pub Cancels : Registration → CancellationManager → CancellationManager → Type 0
Cancels r m m' =
    (x : InFlightBuild) × (get m.builds x.build_id ≡ some x)
    × ((x.tree_hash == r.tree_hash) ≡ false)
    × (r.incoming_is_ancestor_of_running ≡ false)
    × ((p : ℕ) (k : String) → leads m p k x.build_id ≡ (r.project_id == p && r.context_key == k))
    × (m'.set_events ≡ x.cancel_event ∷ m.set_events)
    × (get m'.builds x.build_id ≡ none)
    × ((p : ℕ) (k : String) → leads m' p k x.build_id ≡ false)
    × ((b : ℕ) → ((b ≡ x.build_id) ⊎ Stays m m' b))

-- No event is set, and all builds stay.
abbrev pub Spares : CancellationManager → CancellationManager → Type 0
Spares m m' = (m'.set_events ≡ m.set_events) × ((b : ℕ) → Stays m m' b)

-- The released build is cancelled, or some other context shares it and all builds stay.
superseded-Cancels :
    (r : Registration) (m : CancellationManager) (old : InFlightBuild)
    → IsConsistent m
    → IsConsistent (superseded r m old)
    → get m.builds old.build_id ≡ some old
    → (r.build_id == old.build_id) ≡ false
    → old.project_id ≡ r.project_id
    → elem r.context_key old.contexts ≡ true
    → (old.tree_hash == r.tree_hash) ≡ false
    → r.incoming_is_ancestor_of_running ≡ false
    → Spares m (superseded r m old) ⊎ Cancels r m (superseded r m old)
superseded-Cancels r m old c after here other p own t a =
    let f = λ (build : InFlightBuild). record build { cancel_event = r.cancel_event } in
    let found = get m.builds r.build_id in
    let m2 = release_context old r.context_key (refresh r m) in
    let here1 = update-others r.build_id f m old.build_id other ∙ here in
    elim (release-set_events old r.context_key (refresh r m)) [
      | inl (n, e) ↦ inl (
        track-set_events r found m2 ∙ e ∙ update-set_events r.build_id f m,
        λ b. superseded-Stays r m old b here1 (inl n),
      )
      | inr (n, e, gone) ↦
          let untracked = track-others r found m2 old.build_id other ∙ gone in
          inr (
            old,
            here,
            t,
            a,
            λ q k. rw (← p) (only_context r.context_key m old q k c here own n),
            track-set_events r found m2
                ∙ e
                ∙ ap (λ l. old.cancel_event ∷ l) (update-set_events r.build_id f m),
            untracked,
            λ q k. ground (arith, after.linked old.build_id q k, untracked),
            λ b. elim (Bool-cases (old.build_id == b)) [
              | inl same ↦ inl (ground (arith, nat_eq.beq_iff old.build_id b))
              | inr new_one ↦ inr (superseded-Stays r m old b here1 (inr new_one))
            ],
          )
    ]

register-cases :
    (r : Registration) (m : CancellationManager)
    → IsSameBuild r m
    → IsConsistent m
    → Spares m (register r m).0 ⊎ Cancels r m (register r m).0
unfolding register supersede old_build track
register-cases r m same c =
    let f = λ (build : InFlightBuild). record build { cancel_event = r.cancel_event } in
    let c1 = update-IsConsistent r.build_id f m (λ x. refl) (λ x. refl) (λ x. refl) c in
    let after = register-IsConsistent r m same c in
    elim (context_cases (refresh r m) r.project_id r.context_key c1) [
      | inl e ↦
          rw (e, old_build, supersede)
            (inl (
              track-set_events r (get m.builds r.build_id) (refresh r m)
                  ∙ update-set_events r.build_id f m,
              tracked-Stays r m,
            ))
      | inr (id, old, e, g, n, p, own) ↦ elim (Bool-cases (old.tree_hash == r.tree_hash)) [
        | inl t ↦
            rw (e, old_build, g, supersede, t)
              (inl (
                update-set_events old.build_id (add_context r.context_key) (refresh r m)
                    ∙ update-set_events r.build_id f m,
                shared-Stays r m old,
              ))
        | inr t ↦ elim (Bool-cases r.incoming_is_ancestor_of_running) [
          | inl a ↦
              rw (e, old_build, g, supersede, t, a)
                (inl (update-set_events r.build_id f m, λ b. inr (refresh-tracked_commit r m b)))
          | inr a ↦
              let other = differs r m old same (rw (← n) at g) t in
              let result : (register r m).0 ≡ superseded r m old =
                rw (e, old_build, g, supersede, t, a) refl in
              subst (λ m'. Spares m m' ⊎ Cancels r m m') (sym result)
                (superseded-Cancels r m old c (subst IsConsistent result after)
                  (sym (update-others r.build_id f m old.build_id other) ∙ rw (← n) at g) other p
                  own t a)
        ]
      ]
    ]

-- Where the dicts are consistent and the build under a known number is the same build, registering
-- a change sets no cancel event and leaves all builds tracked with their commits, or it sets the
-- event of one build, of another tree, where the incoming commit is not said to be an ancestor of
-- the running one, to which the registered context led and no other, untracks it so that no context
-- leads to it, and leaves all other builds so; either way no build that had a context stays tracked
-- without one.
pub register-Cancels :
    (r : Registration) (m : CancellationManager)
    → IsSameBuild r m
    → IsConsistent m
    → (Spares m (register r m).0 ⊎ Cancels r m (register r m).0)
      × ((b : ℕ) → Serves m (register r m).0 b)
register-Cancels r m same c = (register-cases r m same c, register-Serves r m)

-- The build of another context stays, though it loses the registered one.
context-Stays :
    (r : Registration) (m : CancellationManager) (old : InFlightBuild) (b p : ℕ) (k : String)
    → IsConsistent (refresh r m)
    → get (refresh r m).builds old.build_id ≡ some old
    → old.project_id ≡ r.project_id
    → elem r.context_key old.contexts ≡ true
    → get m.by_context (p, k) ≡ some b
    → (r.project_id == p && r.context_key == k) ≡ false
    → Stays m (superseded r m old) b
context-Stays r m old b p k c here proj own e other =
    elim (Bool-cases (is_nil (discard r.context_key old.contexts))) [
      | inr n ↦ superseded-Stays r m old b here (inl n)
      | inl n ↦ superseded-Stays r m old b here (
          inr (
            ground (
              arith,
              only_context r.context_key (refresh r m) old p k c here own n,
              update-by_context r.build_id (λ build. record build { cancel_event = r.cancel_event })
                  m,
              nat_eq.beq_iff old.build_id b,
              proj,
              e,
              other,
            )))
    ]

register-Stays :
    (r : Registration) (m : CancellationManager) (b p : ℕ) (k : String)
    → IsConsistent m
    → get m.by_context (p, k) ≡ some b
    → (r.project_id == p && r.context_key == k) ≡ false
    → Stays m (register r m).0 b
unfolding register supersede old_build track
register-Stays r m b p k c led other =
    let f = λ (build : InFlightBuild). record build { cancel_event = r.cancel_event } in
    let c1 = update-IsConsistent r.build_id f m (λ x. refl) (λ x. refl) (λ x. refl) c in
    elim (context_cases (refresh r m) r.project_id r.context_key c1) [
      | inl e ↦ rw (e, old_build, supersede) (tracked-Stays r m b)
      | inr (id, old, e, g, n, proj, own) ↦ elim (Bool-cases (old.tree_hash == r.tree_hash)) [
        | inl t ↦ rw (e, old_build, g, supersede, t) (shared-Stays r m old b)
        | inr t ↦ elim (Bool-cases r.incoming_is_ancestor_of_running) [
          | inl a ↦ rw (e, old_build, g, supersede, t, a) (inr (refresh-tracked_commit r m b))
          | inr a ↦
              rw (e, old_build, g, supersede, t, a)
                (context-Stays r m old b p k c1 (rw (← n) at g) proj own led other)
        ]
      ]
    ]

-- In a consistent manager, registering a change for one context leaves every other context with the
-- build that it had, still tracked with its commit.
pub register-by_context :
    (r : Registration) (m : CancellationManager) (p : ℕ) (k : String)
    → IsConsistent m
    → (r.project_id == p && r.context_key == k) ≡ false
    → (get (register r m).0.by_context (p, k) ≡ get m.by_context (p, k))
      × (running_commit_for p k (register r m).0 ≡ running_commit_for p k m)
unfolding running_commit_for
register-by_context r m p k c other =
    let kept = register-get r m p k c other in
    (
      kept,
      elim (Option-cases (get m.by_context (p, k))) [
        | inl e ↦ ground (arith, kept, e)
        | inr (b, e) ↦ ground (arith, kept, e, register-Stays r m b p k c e other, c.linked b p k)
      ],
    )
