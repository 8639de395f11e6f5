-- ===== src/Canceller/Register.antt =====
-- canceller.py: `register`, `complete` and `cancel_pr` keep the two dicts consistent.
use nixbot.Prelude.{
  ℕ, String, ◌≡◌, refl, ◌⊎◌, inl, inr, true, false, ◌&&◌, none, some, List, [], ◌∷◌, arith, Dict,
  get, remove, get-remove, elem, elem-cons, elem-nil, string_eq, nat_eq, pair_eq, ◌==◌, ==_refl,
  if◌then◌else◌, Bool-cases, Option-cases,
}
use nixbot.Canceller.{
  InFlightBuild, CancellationManager, update, add_context, release_context, Registration, track,
  old_build, supersede, register, complete, pop_contexts, cancel_context,
}
use nixbot.Canceller.Lookup.{
  release-by_context, add_context-claims, update-by_context, release-builds, update-builds,
  update-none,
}
use nixbot.Canceller.Consistent.{
  IsConsistent, release-IsConsistent, update-IsConsistent, update-named, track-IsConsistent,
}

-- The number of a build determines its project and tree, as the table of builds does.
abbrev pub IsSameBuild : Registration → CancellationManager → Type 0
IsSameBuild r m =
    (x : InFlightBuild)
    → get m.builds r.build_id ≡ some x
    → (x.project_id ≡ r.project_id) × (x.tree_hash ≡ r.tree_hash)

-- A context leads nowhere, or to a tracked build that has it.
pub context_cases :
    (m : CancellationManager) (p : ℕ) (k : String)
    → IsConsistent m
    → (get m.by_context (p, k) ≡ none)
      ⊎ ((id : ℕ) × (x : InFlightBuild) × (get m.by_context (p, k) ≡ some id)
          × (get m.builds id ≡ some x)
          × (x.build_id ≡ id)
          × (x.project_id ≡ p)
          × (elem k x.contexts ≡ true))
context_cases m p k c = elim (Option-cases (get m.by_context (p, k))) [
  | inl e ↦ inl e
  | inr (id, e) ↦ elim (Option-cases (get m.builds id)) [
    | inl f ↦ ground (arith, c.linked id p k)
    | inr (x, f) ↦ inr (
      id,
      x,
      e,
      f,
      c.named id x f,
      ground (arith, c.linked id p k, nat_eq.beq_iff x.project_id p),
      ground (arith, c.linked id p k),
    )
  ]
]

add_own-IsConsistent :
    (x : InFlightBuild) (key : String) (m : CancellationManager)
    → IsConsistent m
    → get m.builds x.build_id ≡ some x
    → elem key x.contexts ≡ true
    → IsConsistent (update x.build_id (add_context key) m)
add_own-IsConsistent x key m c e own = record {
  linked = λ b p k. ground (
    arith,
    add_context-claims key x.build_id m x b p k e,
    update-by_context x.build_id (add_context key) m,
    c.linked b p k,
    nat_eq.beq_iff b x.build_id,
    nat_eq.beq_iff x.project_id p,
    string_eq.beq_iff k key,
    e,
    own,
  );
  named = λ b y h. update-named x.build_id (add_context key) m b y (λ x. refl) c.named h;
}

abbrev pub refresh : Registration → CancellationManager → CancellationManager
refresh r m = update r.build_id (λ build. record build { cancel_event = r.cancel_event }) m

-- What the first line of `register` found is there still, but for its new event.
pub found_cases :
    (r : Registration) (m : CancellationManager)
    → IsSameBuild r m
    → ((get m.builds r.build_id ≡ none) × (get (refresh r m).builds r.build_id ≡ none))
      ⊎ ((x y : InFlightBuild) × (get m.builds r.build_id ≡ some y)
          × (get (refresh r m).builds r.build_id ≡ some x)
          × (x.project_id ≡ r.project_id)
          × (x.tree_hash ≡ r.tree_hash))
found_cases r m same = elim (Option-cases (get m.builds r.build_id)) [
  | inl e ↦ inl (
    e,
    rw (update-none r.build_id (λ build. record build { cancel_event = r.cancel_event }) m e) e,
  )
  | inr (y, e) ↦ inr (
    record y { cancel_event = r.cancel_event },
    y,
    e,
    update-builds r.build_id (λ build. record build { cancel_event = r.cancel_event }) m y e,
    (same y e).0,
    (same y e).1,
  )
]

-- What `supersede` does, behind the refreshed event.
released-IsConsistent :
    (r : Registration) (m m1 : CancellationManager) (old : InFlightBuild)
    → IsConsistent m1
    → get m1.builds old.build_id ≡ some old
    → old.project_id ≡ r.project_id
    → elem r.context_key old.contexts ≡ true
    → (old.tree_hash == r.tree_hash) ≡ false
    → ((get m.builds r.build_id ≡ none) × (get m1.builds r.build_id ≡ none))
      ⊎ ((x y : InFlightBuild) × (get m.builds r.build_id ≡ some y)
          × (get m1.builds r.build_id ≡ some x)
          × (x.project_id ≡ r.project_id)
          × (x.tree_hash ≡ r.tree_hash))
    → IsConsistent (track r (get m.builds r.build_id) (release_context old r.context_key m1))
released-IsConsistent r m m1 old c e proj own differs found =
    track-IsConsistent r (get m.builds r.build_id) (release_context old r.context_key m1)
      (release-IsConsistent old r.context_key m1 c e own)
      (ground (
        arith,
        release-by_context old r.context_key m1 r.project_id r.context_key,
        nat_eq.beq_iff old.project_id r.project_id,
        ==_refl r.context_key,
        proj,
      ))
      (still found)
  where
    others :
        (old.build_id == r.build_id) ≡ false
        → get (release_context old r.context_key m1).builds r.build_id ≡ get m1.builds r.build_id
    others = release-builds old r.context_key m1 r.build_id

    still :
        ((get m.builds r.build_id ≡ none) × (get m1.builds r.build_id ≡ none))
          ⊎ ((x y : InFlightBuild) × (get m.builds r.build_id ≡ some y)
              × (get m1.builds r.build_id ≡ some x)
              × (x.project_id ≡ r.project_id)
              × (x.tree_hash ≡ r.tree_hash))
        → ((get m.builds r.build_id ≡ none)
            × (get (release_context old r.context_key m1).builds r.build_id ≡ none))
          ⊎ ((x y : InFlightBuild) × (get m.builds r.build_id ≡ some y)
              × (get (release_context old r.context_key m1).builds r.build_id ≡ some x)
              × (x.project_id ≡ r.project_id))
    still (inl (n, n1)) =
        inl (n, ground (arith, others, nat_eq.beq_iff old.build_id r.build_id, n1, e))
    still (inr (x, y, f, f1, p, t)) = inr (
      x,
      y,
      f,
      ground (
        arith,
        others,
        nat_eq.beq_iff old.build_id r.build_id,
        string_eq.beq_iff old.tree_hash r.tree_hash,
        f1,
        e,
        t,
      ),
      p,
    )

-- Registering a change keeps the builds and the contexts consistent, whatever the outcome, if the
-- build under a known number is the same build.
pub register-IsConsistent :
    (r : Registration) (m : CancellationManager)
    → IsSameBuild r m
    → IsConsistent m
    → IsConsistent (register r m).0
unfolding register supersede old_build track
register-IsConsistent r m same c =
    let c1 =
      update-IsConsistent r.build_id (λ build. record build { cancel_event = r.cancel_event }) m
        (λ x. refl) (λ x. refl) (λ x. refl) c in
    let found = found_cases r m same in
    elim (context_cases (refresh r m) r.project_id r.context_key c1) [
      | inl e ↦
          rw (e, old_build, supersede)
            (track-IsConsistent r (get m.builds r.build_id) (refresh r m) c1 e
              (ground (arith, found)))
      | inr (id, old, e, f, n, p, own) ↦
          let here = rw (← n) at f in
          elim (Bool-cases (old.tree_hash == r.tree_hash)) [
            | inl t ↦
                rw (e, old_build, f, supersede, t)
                  (add_own-IsConsistent old r.context_key (refresh r m) c1 here own)
            | inr t ↦ elim (Bool-cases r.incoming_is_ancestor_of_running) [
              | inl a ↦ rw (e, old_build, f, supersede, t, a) c1
              | inr a ↦
                  rw (e, old_build, f, supersede, t, a)
                    (released-IsConsistent r m (refresh r m) old c1 here p own t found)
            ]
          ]
    ]

-- Where a completed build's contexts lead afterwards.
get-pop_contexts :
    (project : ℕ) (keys : List String) (d : Dict (ℕ × String) ℕ) (p : ℕ) (k : String)
    → get (pop_contexts project keys d) (p, k)
      ≡ (if project == p && elem k keys then none else get d (p, k))
unfolding pop_contexts
get-pop_contexts project [] d p k = ground (arith, elem-nil k)
get-pop_contexts project (key ∷ keys) d p k = ground (
  arith,
  get-pop_contexts project keys (remove (project, key) d) p k,
  get-remove d (project, key) (p, k),
  elem-cons k key keys,
)

-- Completing a build keeps the builds and the contexts consistent.
pub complete-IsConsistent :
    (id : ℕ) (m : CancellationManager) → IsConsistent m → IsConsistent (complete id m)
unfolding complete
complete-IsConsistent id m c = elim (Option-cases (get m.builds id)) [
  | inl e ↦ rw (e, complete) c
  | inr (x, e) ↦
      rw (e, complete)
        (record {
          linked = λ b p k. ground (
            arith,
            get-pop_contexts x.project_id x.contexts m.by_context p k,
            get-remove m.builds id b,
            c.linked b p k,
            c.linked id p k,
            nat_eq.beq_iff id b,
            nat_eq.beq_iff x.project_id p,
            e,
          );
          named = λ b y h. ground (arith, get-remove m.builds id b, c.named b y, h);
        })
]

-- Closing a pull request keeps the builds and the contexts consistent.
pub cancel_context-IsConsistent :
    (project : ℕ) (key : String) (m : CancellationManager)
    → IsConsistent m
    → IsConsistent (cancel_context project key m).0
unfolding cancel_context
cancel_context-IsConsistent project key m c = elim (context_cases m project key c) [
  | inl e ↦ rw (e, cancel_context) c
  | inr (id, x, e, f, n, p, own) ↦
      rw (e, cancel_context, f) (release-IsConsistent x key m c (rw (← n) at f) own)
]
