-- ===== src/Canceller/Consistent.antt =====
-- canceller.py: `_builds` and `_by_context` fit together, and every operation keeps them so.
use nixbot.Prelude.{
  ℕ, String, ◌≡◌, refl, ◌⊎◌, inl, inr, ◌↔◌, true, Option, none, some, [], arith, get, get-put,
  get-remove, discard, is_nil, elem, elem-cons, elem-nil, string_eq, nat_eq, pair_eq, Bool-cases,
  Option-cases,
}
use nixbot.Canceller.{
  InFlightBuild, CancellationManager, update, add_context, release_context, Registration,
  fresh_build, track,
}
use nixbot.Canceller.Lookup.{
  claims, update-claims, release-claims, release-by_context, add_context-claims, update-by_context,
}

-- A context leads to a build exactly if that build is tracked and counts the context among its
-- own; builds stand under their numbers.
pub record IsConsistent (m : CancellationManager) : Type 0 where
  pub linked : (b p : ℕ) (k : String) → (get m.by_context (p, k) ≡ some b) ↔ (claims m b p k ≡ true)
  pub named : (b : ℕ) (x : InFlightBuild) → get m.builds b ≡ some x → x.build_id ≡ b

release-named :
    (build : InFlightBuild) (key : String) (m : CancellationManager) (b : ℕ) (x : InFlightBuild)
    → ((b : ℕ) (x : InFlightBuild) → get m.builds b ≡ some x → x.build_id ≡ b)
    → get m.builds build.build_id ≡ some build
    → get (release_context build key m).builds b ≡ some x
    → x.build_id ≡ b
unfolding release_context
release-named build key m b x named e h = elim (Bool-cases (is_nil (discard key build.contexts))) [
  | inl n ↦ ground (arith, rw n at h, get-remove m.builds build.build_id b, named b x)
  | inr n ↦ ground (
    arith,
    rw n at h,
    get-put m.builds build.build_id b (record build { contexts = discard key build.contexts }),
    named b x,
    nat_eq.beq_iff build.build_id b,
  )
]

pub release-IsConsistent :
    (build : InFlightBuild) (key : String) (m : CancellationManager)
    → IsConsistent m
    → get m.builds build.build_id ≡ some build
    → elem key build.contexts ≡ true
    → IsConsistent (release_context build key m)
unfolding release_context
release-IsConsistent build key m c e own = record {
  linked = λ b p k. ground (
    arith,
    release-claims build key m b p k e,
    release-by_context build key m p k,
    c.linked b p k,
    c.linked build.build_id build.project_id key,
    nat_eq.beq_iff b build.build_id,
    nat_eq.beq_iff build.project_id p,
    string_eq.beq_iff key k,
    string_eq.beq_iff k key,
    e,
  );
  named = λ b x h. release-named build key m b x c.named e h;
}

pub update-named :
    (id : ℕ) (f : InFlightBuild → InFlightBuild) (m : CancellationManager) (b : ℕ)
    (x : InFlightBuild)
    → ((x : InFlightBuild) → (f x).build_id ≡ x.build_id)
    → ((b : ℕ) (x : InFlightBuild) → get m.builds b ≡ some x → x.build_id ≡ b)
    → get (update id f m).builds b ≡ some x
    → x.build_id ≡ b
unfolding update
update-named id f m b x keeps named h = elim (Option-cases (get m.builds id)) [
  | inl e ↦ named b x (rw (e, update) at h)
  | inr (y, e) ↦ ground (
    arith,
    rw (e, update) at h,
    get-put m.builds id b (f y),
    named b x,
    named id y e,
    keeps y,
    nat_eq.beq_iff id b,
  )
]

pub update-IsConsistent :
    (id : ℕ) (f : InFlightBuild → InFlightBuild) (m : CancellationManager)
    → ((x : InFlightBuild) → (f x).build_id ≡ x.build_id)
    → ((x : InFlightBuild) → (f x).project_id ≡ x.project_id)
    → ((x : InFlightBuild) → (f x).contexts ≡ x.contexts)
    → IsConsistent m
    → IsConsistent (update id f m)
update-IsConsistent id f m hb hp hc c = record {
  linked = λ b p k.
      ground (arith, update-claims id f m b p k hp hc, c.linked b p k, update-by_context id f m);
  named = λ b x h. update-named id f m b x hb c.named h;
}

-- A context that leads nowhere gets a build of its own.
pub track-IsConsistent :
    (r : Registration) (found : Option InFlightBuild) (m : CancellationManager)
    → IsConsistent m
    → get m.by_context (r.project_id, r.context_key) ≡ none
    → ((found ≡ none) × (get m.builds r.build_id ≡ none))
      ⊎ ((x y : InFlightBuild) × (found ≡ some y)
          × (get m.builds r.build_id ≡ some x)
          × (x.project_id ≡ r.project_id))
    → IsConsistent (track r found m)
unfolding track
track-IsConsistent r found m c free (inl (f, e)) = rw f (record {
  linked = λ b p k. ground (
    arith,
    get-put m.builds r.build_id b (fresh_build r),
    get-put m.by_context (r.project_id, r.context_key) (p, k) r.build_id,
    c.linked b p k,
    nat_eq.beq_iff r.build_id b,
    nat_eq.beq_iff r.project_id p,
    string_eq.beq_iff r.context_key k,
    elem-cons k r.context_key [],
    elem-nil k,
    e,
    free,
  );
  named = λ b x h. ground (
    arith,
    get-put m.builds r.build_id b (fresh_build r),
    c.named b x,
    h,
    nat_eq.beq_iff r.build_id b,
  );
})
track-IsConsistent r found m c free (inr (x, y, f, e, same)) = rw f (record {
  linked = λ b p k. ground (
    arith,
    add_context-claims r.context_key r.build_id m x b p k e,
    update-by_context r.build_id (add_context r.context_key) m,
    get-put m.by_context (r.project_id, r.context_key) (p, k) r.build_id,
    c.linked b p k,
    c.linked r.build_id p k,
    nat_eq.beq_iff b r.build_id,
    nat_eq.beq_iff r.build_id b,
    nat_eq.beq_iff r.project_id p,
    string_eq.beq_iff r.context_key k,
    string_eq.beq_iff k r.context_key,
    e,
    free,
    same,
  );
  named = λ b z h. update-named r.build_id (add_context r.context_key) m b z (λ x. refl) c.named h;
})
