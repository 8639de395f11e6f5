-- ===== src/Effects/Graph/Errors.antt =====
-- nixbot_effects/graph.py: what the error for an unknown effect tells.
use nixbot.Prelude.{
  ℕ, zero, suc, ◌+◌, ◌≡◌, ◌∙◌, true, false, inl, inr, List, [], ◌∷◌, ◌++◌, Dict, get, elem, length,
  string_eq, String, Result, err, Result-cases, map, Bool-cases, arith,
}
use nixbot.Effects.Graph.{
  GraphError, unknown_effect, EffectMeta, Search, after_of, is_effect, for_each, known_dep,
  visit_effect, validate_deps,
}

-- An exception of a loop is one of its body.
for_each-error :
    (body : String → Search → Result GraphError Search) (names : List String) (s : Search)
    (e : GraphError)
    → for_each body names s ≡ err e
    → (name : String) × (t : Search) × (elem name names ≡ true) × (body name t ≡ err e)
unfolding for_each elem
for_each-error body [] s e h = absurd (ground (arith, h))
for_each-error body (name ∷ names) s e h = elim (Result-cases (body name s)) [
  | inl (fault, b) ↦
      let same : err fault ≡ err e = rw (b, for_each) at h in
      (name, s, ground (arith, string_eq.beq_iff name name), b ∙ same)
  | inr (t, b) ↦
      let (other, u, i, raised) = for_each-error body names t e (rw (b, for_each) at h) in
      (other, u, ground (arith, i), raised)
]

module _ (meta : Dict String EffectMeta) where
  visit_effect-unknown :
      (fuel : ℕ) (chain : List String) (visited : String) (s : Search) (name dep : String)
      → visit_effect fuel meta chain visited s ≡ err (unknown_effect name dep)
      → (is_effect meta dep ≡ false) × (elem dep (after_of (get meta name)) ≡ true)
  unfolding visit_effect
  visit_effect-unknown zero chain visited s name dep h = absurd (ground (arith, h))
  visit_effect-unknown (suc fuel) chain visited s name dep h =
      elim (Bool-cases (elem visited s.done)) [
        | inl e ↦ absurd (ground (arith, rw (e, visit_effect) at h))
        | inr e ↦ elim (Bool-cases (elem visited s.visiting)) [
          | inl v ↦ absurd (ground (arith, rw (e, visit_effect, v) at h))
          | inr v ↦
              let body = known_dep meta visited (visit_effect fuel meta (chain ++ visited ∷ [])) in
              let start = record s { visiting = visited ∷ s.visiting } in
              elim (Result-cases (for_each body (after_of (get meta visited)) start)) [
                | inr (t, l) ↦ absurd (ground (arith, rw (e, visit_effect, v, l) at h))
                | inl (fault, l) ↦
                    let same : err fault ≡ err (unknown_effect name dep) =
                      rw (e, visit_effect, v, l) at h in
                    let (other, u, i, raised) =
                      for_each-error body (after_of (get meta visited)) start
                        (unknown_effect name dep) (l ∙ same) in
                    elim (Bool-cases (is_effect meta other)) [
                      | inl known ↦
                          visit_effect-unknown fuel (chain ++ visited ∷ []) other u name dep
                            (rw (known_dep, known) at raised)
                      | inr new ↦
                          let told : err (unknown_effect visited other)
                              ≡ err (unknown_effect name dep) =
                            rw (known_dep, new) at raised in
                          let who : visited ≡ name = cc in
                          let what : other ≡ dep = cc in (rw what at new, rw (who, what) at i)
                    ]
              ]
        ]
      ]

  pub validate_deps-unknown :
      (name dep : String)
      → validate_deps meta ≡ err (unknown_effect name dep)
      → (is_effect meta dep ≡ false) × (elem dep (after_of (get meta name)) ≡ true)
  unfolding validate_deps
  validate_deps-unknown name dep h =
      let (visited, s, i, raised) =
        for_each-error (visit_effect (length meta + 1) meta []) (map (λ entry. entry.0) meta)
          (record { visiting = []; done = [] }) (unknown_effect name dep) h in
      visit_effect-unknown (length meta + 1) [] visited s name dep raised
