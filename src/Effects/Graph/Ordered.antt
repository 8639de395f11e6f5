-- ===== src/Effects/Graph/Ordered.antt =====
-- nixbot_effects/graph.py: an order of the effects in which each stands behind those it comes after.
use nixbot.Prelude.{
  ℕ, zero, suc, ◌+◌, ◌≡◌, refl, ap, sym, Bool, true, ◌&&◌, inl, inr, List, [], ◌∷◌, ◌++◌, Dict, get,
  elem, length, string_eq, String, Result, ok, >>=-eq-ok, ok-injective, map, all, Bool-cases, arith,
}
use nixbot.Effects.Graph.{
  GraphError, EffectMeta, Search, after_of, is_effect, for_each, known_dep, visit_effect,
  validate_deps,
}

-- Whether all of these pass a test and are among the given ones.
abbrev pub all_with : (String → Bool) → List String → List String → Bool
all_with p names list = all (λ name. p name && elem name list) names

-- The last effect first: each comes after effects that stand behind it in the list.
unfoldable pub is_ordered : Dict String EffectMeta → List String → Bool
is_ordered meta [] = true
is_ordered meta (name ∷ list) =
    all_with (is_effect meta) (after_of (get meta name)) list && is_ordered meta list

abbrev IsWithin : List String → List String → Type 0
IsWithin names list = (name : String) → elem name names ≡ true → elem name list ≡ true

all_with-within :
    (p : String → Bool) (names list list' : List String)
    → IsWithin list list'
    → all_with p names list ≡ true
    → all_with p names list' ≡ true
all_with-within p [] list list' within h = refl
all_with-within p (name ∷ names) list list' within h =
    ground (arith, h, within name, all_with-within p names list list' within)

module _ (meta : Dict String EffectMeta) where
  -- A body that keeps the order and marks what it is given.
  IsMarking : (String → Bool) → (String → Search → Result GraphError Search) → Type 0
  IsMarking p body =
      (name : String) (s s' : Search)
      → is_ordered meta s.done ≡ true
      → body name s ≡ ok s'
      → (is_ordered meta s'.done ≡ true)
        × IsWithin s.done s'.done
        × ((p name && elem name s'.done) ≡ true)

  for_each-marks :
      (p : String → Bool) (body : String → Search → Result GraphError Search) (names : List String)
      (s s' : Search)
      → IsMarking p body
      → is_ordered meta s.done ≡ true
      → for_each body names s ≡ ok s'
      → (is_ordered meta s'.done ≡ true)
        × IsWithin s.done s'.done
        × (all_with p names s'.done ≡ true)
  unfolding for_each IsMarking
  for_each-marks p body [] s s' marks ordered h =
      let same : s ≡ s' = cc in (rw⁻¹ same ordered, λ name e. rw⁻¹ same e, refl)
  for_each-marks p body (name ∷ names) s s' marks ordered h =
      let (t, first, rest) = >>=-eq-ok (body name s) _ h in
      let (ordered', within, marked) = marks name s t ordered first in
      let (ordered'', within', marked') = for_each-marks p body names t s' marks ordered' rest in
      (
        ordered'',
        λ other e. within' other (within other e),
        ground (arith, marked, marked', within' name),
      )

  known_dep-marks :
      (name : String) (body : String → Search → Result GraphError Search)
      → IsMarking (λ _. true) body
      → IsMarking (is_effect meta) (known_dep meta name body)
  unfolding IsMarking
  known_dep-marks name body marks dep s s' ordered h = elim (Bool-cases (is_effect meta dep)) [
    | inl e ↦
        let (ordered', within, marked) = marks dep s s' ordered (rw (known_dep, e) at h) in
        (ordered', within, ground (arith, e, marked))
    | inr e ↦ absurd (ground (arith, rw (known_dep, e) at h))
  ]

  visit_effect-marks :
      (fuel : ℕ) (chain : List String) → IsMarking (λ _. true) (visit_effect fuel meta chain)
  unfolding visit_effect IsMarking is_ordered elem
  visit_effect-marks zero chain name s s' ordered h = absurd (ground (arith, h))
  visit_effect-marks (suc fuel) chain name s s' ordered h = elim (Bool-cases (elem name s.done)) [
    | inl e ↦
        let same : s ≡ s' = let h' : ok s ≡ ok s' = rw (e, visit_effect) at h in ok-injective h' in
        (rw⁻¹ same ordered, λ other i. rw⁻¹ same i, rw⁻¹ same e)
    | inr e ↦ elim (Bool-cases (elem name s.visiting)) [
      | inl v ↦ absurd (ground (arith, rw (e, visit_effect, v) at h))
      | inr v ↦
          let (t, loop, last) =
            >>=-eq-ok
              (for_each (known_dep meta name (visit_effect fuel meta (chain ++ name ∷ [])))
                (after_of (get meta name)) (record s { visiting = name ∷ s.visiting }))
              _ (rw (e, visit_effect, v) at h) in
          let same : record t { done = name ∷ t.done } ≡ s' = ok-injective last in
          let (ordered', within, marked) =
            for_each-marks (is_effect meta)
              (known_dep meta name (visit_effect fuel meta (chain ++ name ∷ [])))
              (after_of (get meta name)) (record s { visiting = name ∷ s.visiting }) t
              (known_dep-marks name (visit_effect fuel meta (chain ++ name ∷ []))
                (visit_effect-marks fuel (chain ++ name ∷ [])))
              ordered loop in
          let d : s'.done ≡ name ∷ t.done = sym (ap (λ search. search.done) same) in
          (
            rw d (ground (arith, ordered', marked)),
            λ other i. rw d (ground (arith, within other i)),
            rw d (ground (arith, string_eq.beq_iff name name)),
          )
    ]
  ]

  -- An order that validate_deps finds has all effects, each behind what it comes after.
  pub validate_deps-ordered :
      (s : Search)
      → validate_deps meta ≡ ok s
      → (is_ordered meta s.done ≡ true)
        × (all_with (λ _. true) (map (λ entry. entry.0) meta) s.done ≡ true)
  unfolding validate_deps is_ordered
  validate_deps-ordered s h =
      let (ordered, within, marked) =
        for_each-marks (λ _. true) (visit_effect (length meta + 1) meta [])
          (map (λ entry. entry.0) meta) (record { visiting = []; done = [] }) s
          (visit_effect-marks (length meta + 1) []) refl h in
      (ordered, marked)
