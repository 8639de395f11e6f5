-- ===== src/Canceller/Kept.antt =====
-- canceller.py: the builds that an operation leaves tracked, with their commits.
use nixbot.Prelude.{
  ℕ, String, ◌≡◌, refl, ◌⊎◌, inl, inr, false, Option, none, some, arith, get, get-put, discard,
  is_nil, string_eq, nat_eq, pair_eq, ◌==◌, Bool-cases, Option-cases,
}
use nixbot.Canceller.{
  InFlightBuild, CancellationManager, update, add_context, release_context, Registration,
  fresh_build, track,
}
use nixbot.Canceller.Lookup.{release-builds, update-none}
use nixbot.Canceller.Register.{refresh}

abbrev pub sha_of : Option InFlightBuild → Option String
sha_of none = none
sha_of (some x) = some x.commit_sha

-- the commit of the tracked build of that number
abbrev pub tracked_commit : CancellationManager → ℕ → Option String
tracked_commit m b = sha_of (get m.builds b)

-- The build of that number was not tracked, or it still is, with its commit.
abbrev pub Stays : CancellationManager → CancellationManager → ℕ → Type 0
Stays m m' b = (tracked_commit m b ≡ none) ⊎ (tracked_commit m' b ≡ tracked_commit m b)

pub update-others :
    (id : ℕ) (f : InFlightBuild → InFlightBuild) (m : CancellationManager) (b : ℕ)
    → (id == b) ≡ false
    → get (update id f m).builds b ≡ get m.builds b
unfolding update
update-others id f m b h = elim (Option-cases (get m.builds id)) [
  | inl e ↦ rw (e, update) refl
  | inr (x, e) ↦ rw (e, update) (ground (arith, get-put m.builds id b (f x)))
]

pub track-others :
    (r : Registration) (found : Option InFlightBuild) (m : CancellationManager) (b : ℕ)
    → (r.build_id == b) ≡ false
    → get (track r found m).builds b ≡ get m.builds b
unfolding track
track-others r none m b h = ground (arith, get-put m.builds r.build_id b (fresh_build r))
track-others r (some x) m b h = update-others r.build_id (add_context r.context_key) m b h

pub update-tracked_commit :
    (id : ℕ) (f : InFlightBuild → InFlightBuild) (m : CancellationManager) (b : ℕ)
    → ((x : InFlightBuild) → (f x).commit_sha ≡ x.commit_sha)
    → tracked_commit (update id f m) b ≡ tracked_commit m b
unfolding update
update-tracked_commit id f m b keeps = elim (Option-cases (get m.builds id)) [
  | inl e ↦ rw (e, update) refl
  | inr (x, e) ↦
      rw (e, update) (ground (arith, get-put m.builds id b (f x), nat_eq.beq_iff id b, e, keeps x))
]

pub release-tracked_commit :
    (build : InFlightBuild) (key : String) (m : CancellationManager) (b : ℕ)
    → get m.builds build.build_id ≡ some build
    → is_nil (discard key build.contexts) ≡ false
    → tracked_commit (release_context build key m) b ≡ tracked_commit m b
unfolding release_context
release-tracked_commit build key m b e n = rw n (
    ground (
      arith,
      get-put m.builds build.build_id b (record build { contexts = discard key build.contexts }),
      nat_eq.beq_iff build.build_id b,
      e,
    ))

-- No build is tracked because another one is released.
pub release-none :
    (build : InFlightBuild) (key : String) (m : CancellationManager) (b : ℕ)
    → get m.builds build.build_id ≡ some build
    → get m.builds b ≡ none
    → get (release_context build key m).builds b ≡ none
release-none build key m b e n =
    ground (arith, release-builds build key m b, nat_eq.beq_iff build.build_id b)

-- The first line of `register` found the build, or it is not tracked.
abbrev pub IsLookup : Registration → Option InFlightBuild → CancellationManager → Type 0
IsLookup r found m = (get m.builds r.build_id ≡ none) ⊎ ((y : InFlightBuild) × (found ≡ some y))

pub refresh-IsLookup :
    (r : Registration) (m : CancellationManager)
    → IsLookup r (get m.builds r.build_id) (refresh r m)
refresh-IsLookup r m = elim (Option-cases (get m.builds r.build_id)) [
  | inl e ↦
      inl (
        rw (update-none r.build_id (λ build. record build { cancel_event = r.cancel_event }) m e) e)
  | inr (y, e) ↦ inr (y, e)
]

pub release-IsLookup :
    (r : Registration) (found : Option InFlightBuild) (build : InFlightBuild) (key : String)
    (m : CancellationManager)
    → get m.builds build.build_id ≡ some build
    → IsLookup r found m
    → IsLookup r found (release_context build key m)
release-IsLookup r found build key m e (inl n) = inl (release-none build key m r.build_id e n)
release-IsLookup r found build key m e (inr y) = inr y

pub track-Stays :
    (r : Registration) (found : Option InFlightBuild) (m : CancellationManager) (b : ℕ)
    → IsLookup r found m
    → Stays m (track r found m) b
unfolding track
track-Stays r (some x) m b h =
    inr (update-tracked_commit r.build_id (add_context r.context_key) m b (λ x. refl))
track-Stays r none m b (inr (y, h)) = absurd (ground (arith, h))
track-Stays r none m b (inl h) = elim (Bool-cases (r.build_id == b)) [
  | inl e ↦ inl (ground (arith, nat_eq.beq_iff r.build_id b, h))
  | inr e ↦ inr (ground (arith, get-put m.builds r.build_id b (fresh_build r), e))
]
