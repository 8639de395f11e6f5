-- ===== src/Canceller/Supersede.antt =====
-- canceller.py: the steps of `register` that supersede a build, and the events that they set.
use nixbot.Prelude.{
  ℕ, String, ◌≡◌, refl, ap, ◌∙◌, ◌⊎◌, inl, inr, Bool, true, false, ◌&&◌, Option, none, some, ◌∷◌,
  arith, get, get-remove, discard, elem, is_nil, string_eq, nat_eq, pair_eq, ◌==◌, ==_refl,
  Bool-cases, Option-cases,
}
use nixbot.Canceller.{
  InFlightBuild, CancellationManager, update, add_context, release_context, Registration, track,
}
use nixbot.Canceller.Lookup.{elem-discard, nil_elem, release-builds}
use nixbot.Canceller.Consistent.{IsConsistent}
use nixbot.Canceller.Kept.{
  sha_of, tracked_commit, Stays, update-tracked_commit, release-tracked_commit, refresh-IsLookup,
  release-IsLookup, track-Stays,
}
use nixbot.Canceller.Register.{IsSameBuild, refresh, found_cases}

pub update-set_events :
    (id : ℕ) (f : InFlightBuild → InFlightBuild) (m : CancellationManager)
    → (update id f m).set_events ≡ m.set_events
unfolding update
update-set_events id f m = elim (Option-cases (get m.builds id)) [
  | inl e ↦ rw (e, update) refl
  | inr (x, e) ↦ rw (e, update) refl
]

pub track-set_events :
    (r : Registration) (found : Option InFlightBuild) (m : CancellationManager)
    → (track r found m).set_events ≡ m.set_events
unfolding track
track-set_events r none m = refl
track-set_events r (some x) m = update-set_events r.build_id (add_context r.context_key) m

-- `_release_context` cancels a build and forgets it if it has no context left, and otherwise leaves
-- all events alone.
pub release-set_events :
    (build : InFlightBuild) (key : String) (m : CancellationManager)
    → ((is_nil (discard key build.contexts) ≡ false)
        × ((release_context build key m).set_events ≡ m.set_events))
      ⊎ (is_nil (discard key build.contexts) ≡ true)
        × ((release_context build key m).set_events ≡ build.cancel_event ∷ m.set_events)
        × (get (release_context build key m).builds build.build_id ≡ none)
unfolding release_context
release-set_events build key m = elim (Bool-cases (is_nil (discard key build.contexts))) [
  | inl n ↦ rw n (
      inr (
        refl,
        refl,
        ground (arith, get-remove m.builds build.build_id build.build_id, ==_refl build.build_id),
      ))
  | inr n ↦ rw n (inl (refl, refl))
]

-- The build of another tree has another number.
pub differs :
    (r : Registration) (m : CancellationManager) (old : InFlightBuild)
    → IsSameBuild r m
    → get (refresh r m).builds old.build_id ≡ some old
    → (old.tree_hash == r.tree_hash) ≡ false
    → (r.build_id == old.build_id) ≡ false
differs r m old same here t = elim (found_cases r m same) [
  | inl (n, n1) ↦ ground (arith, nat_eq.beq_iff r.build_id old.build_id, here, n1)
  | inr (x, y, g, g1, p, tree) ↦ ground (
    arith,
    nat_eq.beq_iff r.build_id old.build_id,
    string_eq.beq_iff old.tree_hash r.tree_hash,
    here,
    g1,
  )
]

-- whether the context leads to the build of that number
abbrev pub leads : CancellationManager → ℕ → String → ℕ → Bool
leads m p k b = elim (get m.by_context (p, k)) [ none ↦ false | some id ↦ id == b ]

-- A build that loses its last context had no other.
pub only_context :
    (key : String) (m : CancellationManager) (old : InFlightBuild) (p : ℕ) (k : String)
    → IsConsistent m
    → get m.builds old.build_id ≡ some old
    → elem key old.contexts ≡ true
    → is_nil (discard key old.contexts) ≡ true
    → leads m p k old.build_id ≡ (old.project_id == p && key == k)
only_context key m old p k c here own n = ground (
  arith,
  c.linked old.build_id p k,
  nil_elem (discard key old.contexts) k n,
  elem-discard k key old.contexts,
  string_eq.beq_iff k key,
  string_eq.beq_iff key k,
  here,
  own,
)

pub release-Stays :
    (old : InFlightBuild) (key : String) (m : CancellationManager) (b : ℕ)
    → get m.builds old.build_id ≡ some old
    → (is_nil (discard key old.contexts) ≡ false) ⊎ ((old.build_id == b) ≡ false)
    → Stays m (release_context old key m) b
release-Stays old key m b here (inl n) = inr (release-tracked_commit old key m b here n)
release-Stays old key m b here (inr n) = inr (ap sha_of (release-builds old key m b n))

pub refresh-tracked_commit :
    (r : Registration) (m : CancellationManager) (b : ℕ)
    → tracked_commit (refresh r m) b ≡ tracked_commit m b
refresh-tracked_commit r m b =
    update-tracked_commit r.build_id (λ build. record build { cancel_event = r.cancel_event }) m b
      (λ x. refl)

-- The end of a registration that supersedes a build.
abbrev pub superseded : Registration → CancellationManager → InFlightBuild → CancellationManager
superseded r m old =
    track r (get m.builds r.build_id) (release_context old r.context_key (refresh r m))

pub superseded-Stays :
    (r : Registration) (m : CancellationManager) (old : InFlightBuild) (b : ℕ)
    → get (refresh r m).builds old.build_id ≡ some old
    → (is_nil (discard r.context_key old.contexts) ≡ false) ⊎ ((old.build_id == b) ≡ false)
    → Stays m (superseded r m old) b
superseded-Stays r m old b here h =
    let found = get m.builds r.build_id in
    let m1 = refresh r m in
    let m2 = release_context old r.context_key m1 in
    ground (
      arith,
      refresh-tracked_commit r m b,
      release-Stays old r.context_key m1 b here h,
      track-Stays r found m2 b
          (release-IsLookup r found old r.context_key m1 here (refresh-IsLookup r m)),
    )

pub tracked-Stays :
    (r : Registration) (m : CancellationManager) (b : ℕ)
    → Stays m (track r (get m.builds r.build_id) (refresh r m)) b
tracked-Stays r m b = ground (
  arith,
  refresh-tracked_commit r m b,
  track-Stays r (get m.builds r.build_id) (refresh r m) b (refresh-IsLookup r m),
)

pub shared-Stays :
    (r : Registration) (m : CancellationManager) (old : InFlightBuild) (b : ℕ)
    → Stays m (update old.build_id (add_context r.context_key) (refresh r m)) b
shared-Stays r m old b = inr (
    update-tracked_commit old.build_id (add_context r.context_key) (refresh r m) b (λ x. refl)
    ∙ refresh-tracked_commit r m b)
