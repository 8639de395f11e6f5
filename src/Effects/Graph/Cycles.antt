-- ===== src/Effects/Graph/Cycles.antt =====
-- nixbot_effects/graph.py: the cycle that the error of `validate_deps` tells.
use nixbot.Prelude.{
  ℕ, zero, suc, ◌+◌, ◌≡◌, refl, subst, ◌∙◌, ◌⊎◌, Bool, true, false, inl, inr, ◌&&◌, List, [], ◌∷◌,
  ◌++◌, Dict, get, elem, length, string_eq, String, ◌==◌, Result, ok, err, Result-cases, map,
  >>=-eq-ok, elem-append, Bool-cases, arith,
}
use nixbot.Effects.Graph.{
  GraphError, cycle, EffectMeta, Search, after_of, is_effect, for_each, known_dep, chain_from,
  visit_effect, validate_deps,
}

-- the first of the effects of a chain, or what comes behind the chain
abbrev next : List String → String → String
next [] target = target
next (name ∷ names) target = name

-- Each effect of the chain comes after the next one, and the last one after the target.
abbrev pub leads_to : Dict String EffectMeta → List String → String → Bool
leads_to meta [] target = true
leads_to meta (name ∷ names) target =
    elem (next names target) (after_of (get meta name)) && leads_to meta names target

abbrev pub starts_with : String → List String → Bool
starts_with name [] = false
starts_with name (other ∷ names) = other == name

next-++ :
    (chain : List String) (name target : String)
    → next (chain ++ name ∷ []) target ≡ next chain name
next-++ [] name target = refl
next-++ (x ∷ chain) name target = refl

leads_to-++ :
    (meta : Dict String EffectMeta) (chain : List String) (name target : String)
    → leads_to meta chain name ≡ true
    → elem target (after_of (get meta name)) ≡ true
    → leads_to meta (chain ++ name ∷ []) target ≡ true
leads_to-++ meta [] name target h e = ground (arith, e)
leads_to-++ meta (x ∷ chain) name target h e =
    ground (arith, h, next-++ chain name target, leads_to-++ meta chain name target, e)

leads_to-chain_from :
    (meta : Dict String EffectMeta) (chain : List String) (name target : String)
    → elem name chain ≡ true
    → leads_to meta chain target ≡ true
    → (starts_with name (chain_from name chain) ≡ true)
      × (leads_to meta (chain_from name chain) target ≡ true)
unfolding elem
leads_to-chain_from meta [] name target e h = absurd (ground (arith, e))
leads_to-chain_from meta (x ∷ chain) name target e h = elim (Bool-cases (x == name)) [
  | inl same ↦ rw same (same, h)
  | inr other ↦ rw other (
      leads_to-chain_from meta chain name target
        (ground (arith, e, string_eq.beq_iff name x, string_eq.beq_iff x name)) (ground (arith, h)))
]

-- Whatever is being visited is in the chain, or done.
abbrev Covers : List String → Search → Type 0
Covers chain s =
    (name : String)
    → elem name s.visiting ≡ true
    → (elem name s.done ≡ true) ⊎ (elem name chain ≡ true)

for_each-keeps :
    (P : Search → Type 0) (body : String → Search → Result GraphError Search)
    → ((name : String) (s t : Search) → body name s ≡ ok t → P s → P t)
    → (names : List String) (s t : Search) → for_each body names s ≡ ok t
    → P s
    → P t
unfolding for_each
for_each-keeps P body step [] s t h p = let same : s ≡ t = cc in subst P same p
for_each-keeps P body step (name ∷ names) s t h p = elim (Result-cases (body name s)) [
  | inl (fault, b) ↦ absurd (ground (arith, rw (b, for_each) at h))
  | inr (u, b) ↦ for_each-keeps P body step names u t (rw (b, for_each) at h) (step name s u b p)
]

for_each-raises :
    (P : Search → Type 0) (body : String → Search → Result GraphError Search)
    → ((name : String) (s t : Search) → body name s ≡ ok t → P s → P t)
    → (names : List String) (s : Search) (e : GraphError) → for_each body names s ≡ err e
    → P s
    → (name : String) × (t : Search) × (elem name names ≡ true) × (body name t ≡ err e) × P t
unfolding for_each elem
for_each-raises P body step [] s e h p = absurd (ground (arith, h))
for_each-raises P body step (name ∷ names) s e h p = elim (Result-cases (body name s)) [
  | inl (fault, b) ↦
      let same : err fault ≡ err e = rw (b, for_each) at h in
      (name, s, ground (arith, string_eq.beq_iff name name), b ∙ same, p)
  | inr (u, b) ↦
      let (other, t, i, raised, q) =
        for_each-raises P body step names u e (rw (b, for_each) at h) (step name s u b p) in
      (other, t, ground (arith, i), raised, q)
]

module _ (meta : Dict String EffectMeta) where
  known_dep-keeps :
      (P : Search → Type 0) (name : String) (visit : String → Search → Result GraphError Search)
      → ((dep : String) (s t : Search) → visit dep s ≡ ok t → P s → P t)
      → (dep : String) (s t : Search) → known_dep meta name visit dep s ≡ ok t
      → P s
      → P t
  known_dep-keeps P name visit step dep s t h p = elim (Bool-cases (is_effect meta dep)) [
    | inl known ↦ step dep s t (rw (known_dep, known) at h) p
    | inr new ↦ absurd (ground (arith, rw (known_dep, new) at h))
  ]

  entered-Covers :
      (chain : List String) (name : String) (s : Search)
      → Covers chain s
      → Covers (chain ++ name ∷ []) (record s { visiting = name ∷ s.visiting })
  unfolding elem
  entered-Covers chain name s c x h =
      ground (arith, h, c x, elem-append x chain (name ∷ []), string_eq.beq_iff name x)

  visit_effect-Covers :
      (fuel : ℕ) (chain : List String) (name : String) (s t : Search)
      → visit_effect fuel meta chain name s ≡ ok t
      → Covers chain s
      → Covers chain t
  unfolding visit_effect elem
  visit_effect-Covers zero chain name s t h c = absurd (ground (arith, h))
  visit_effect-Covers (suc fuel) chain name s t h c = elim (Bool-cases (elem name s.done)) [
    | inl e ↦ let same : s ≡ t = cc (rw (e, visit_effect) at h) in subst (Covers chain) same c
    | inr e ↦ elim (Bool-cases (elem name s.visiting)) [
      | inl v ↦ absurd (ground (arith, rw (e, visit_effect, v) at h))
      | inr v ↦
          let chain' = chain ++ name ∷ [] in
          let (u, loop, same) = >>=-eq-ok _ _ (rw (e, visit_effect, v) at h) in
          let covered =
            for_each-keeps (Covers chain') (known_dep meta name (visit_effect fuel meta chain'))
              (known_dep-keeps (Covers chain') name (visit_effect fuel meta chain')
                (visit_effect-Covers fuel chain'))
              (after_of (get meta name)) (record s { visiting = name ∷ s.visiting }) u loop
              (entered-Covers chain name s c) in
          let left : record u { done = name ∷ u.done } ≡ t = cc same in
          subst (Covers chain) left (λ x i.
            ground (arith, covered x i, elem-append x chain (name ∷ []), string_eq.beq_iff name x))
    ]
  ]

  visit_effect-cycle :
      (fuel : ℕ) (chain : List String) (visited : String) (s : Search) (found : List String)
      (name : String)
      → leads_to meta chain visited ≡ true
      → Covers chain s
      → visit_effect fuel meta chain visited s ≡ err (cycle found name)
      → (starts_with name found ≡ true) × (leads_to meta found name ≡ true)
  unfolding visit_effect
  visit_effect-cycle zero chain visited s found name path c h = absurd (ground (arith, h))
  visit_effect-cycle (suc fuel) chain visited s found name path c h =
      elim (Bool-cases (elem visited s.done)) [
        | inl e ↦ absurd (ground (arith, rw (e, visit_effect) at h))
        | inr e ↦ elim (Bool-cases (elem visited s.visiting)) [
          | inl v ↦
              let told : err (cycle (chain_from visited chain) visited) ≡ err (cycle found name) =
                rw (e, visit_effect, v) at h in
              let who : visited ≡ name = cc in
              let what : chain_from visited chain ≡ found = cc in
              rw (← what, ← who)
                (leads_to-chain_from meta chain visited visited (ground (arith, c visited v, e))
                  path)
          | inr v ↦
              let chain' = chain ++ visited ∷ [] in
              let start = record s { visiting = visited ∷ s.visiting } in
              let visit = visit_effect fuel meta chain' in
              elim (Result-cases
                (for_each (known_dep meta visited visit) (after_of (get meta visited)) start)) [
                  | inr (t, l) ↦ absurd (ground (arith, rw (e, visit_effect, v, l) at h))
                  | inl (fault, l) ↦
                      let same : err fault ≡ err (cycle found name) =
                        rw (e, visit_effect, v, l) at h in
                      let (dep, t, i, raised, covered) =
                        for_each-raises (Covers chain') (known_dep meta visited visit)
                          (known_dep-keeps (Covers chain') visited visit
                            (visit_effect-Covers fuel chain'))
                          (after_of (get meta visited)) start (cycle found name) (l ∙ same)
                          (entered-Covers chain visited s c) in
                      elim (Bool-cases (is_effect meta dep)) [
                        | inl known ↦
                            visit_effect-cycle fuel chain' dep t found name
                              (leads_to-++ meta chain visited dep path i) covered
                              (rw (known_dep, known) at raised)
                        | inr new ↦ absurd (ground (arith, rw (known_dep, new) at raised))
                      ]
                ]
        ]
      ]

  pub validate_deps-cycle :
      (found : List String) (name : String)
      → validate_deps meta ≡ err (cycle found name)
      → (starts_with name found ≡ true) × (leads_to meta found name ≡ true)
  unfolding validate_deps elem
  validate_deps-cycle found name h =
      let (visited, s, i, raised, covered) =
        for_each-raises (Covers []) (visit_effect (length meta + 1) meta [])
          (visit_effect-Covers (length meta + 1) []) (map (λ entry. entry.0) meta)
          (record { visiting = []; done = [] }) (cycle found name) h
          (λ x e. absurd (ground (arith, e))) in
      visit_effect-cycle (length meta + 1) [] visited s found name refl covered raised
