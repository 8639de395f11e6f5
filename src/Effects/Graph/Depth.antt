-- ===== src/Effects/Graph/Depth.antt =====
-- nixbot_effects/graph.py: the recursion of `visit` is no deeper than there are effects.
use nixbot.Prelude.{
  ℕ, zero, suc, ◌+◌, ◌-◌, ◌≤◌, ◌<◌, ◌≡◌, ◌≢◌, all, refl, ap, ◌∙◌, Bool, true, false, not, inl, inr,
  List, [], ◌∷◌, ◌++◌, Dict, get, elem, length, count, ◌==◌, string_eq, String, Result, ok, err,
  ok-injective, Result-cases, map, Bool-cases, arith,
}
use nixbot.Effects.Graph.{
  GraphError, out_of_fuel, EffectMeta, Search, after_of, is_effect, for_each, known_dep,
  visit_effect, validate_deps,
}

-- How many of the effects are not under way.
abbrev fresh_count : List String → List String → ℕ
fresh_count names visiting = count (λ name. not (elem name visiting)) names

abbrev IsWithin : List String → List String → Type 0
IsWithin names list = (name : String) → elem name names ≡ true → elem name list ≡ true

fresh_count-within :
    (names visiting visiting' : List String)
    → IsWithin visiting visiting'
    → fresh_count names visiting' ≤ fresh_count names visiting
fresh_count-within [] visiting visiting' within = omega arith
fresh_count-within (name ∷ names) visiting visiting' within =
    ground (arith, within name, fresh_count-within names visiting visiting' within)

fresh_count-cons :
    (name : String) (names visiting : List String)
    → elem name names ≡ true
    → elem name visiting ≡ false
    → fresh_count names (name ∷ visiting) < fresh_count names visiting
unfolding elem
fresh_count-cons name [] visiting h new = absurd (ground (arith, h))
fresh_count-cons name (other ∷ names) visiting h new = elim (Bool-cases (other == name)) [
  | inl e ↦
      let within = fresh_count-within names visiting (name ∷ visiting) (λ x i. ground (arith, i)) in
      ground (arith, e, new, within, string_eq.beq_iff other name, string_eq.beq_iff name other)
  | inr e ↦
      let rest =
        fresh_count-cons name names visiting
          (ground (arith, h, e, string_eq.beq_iff name other, string_eq.beq_iff other name)) new in
      ground (arith, e, rest, string_eq.beq_iff other name, string_eq.beq_iff name other)
]

IsEnough : (String → Bool) → List String → ℕ → (String → Search → Result GraphError Search) → Type 0
IsEnough p names n body =
    (name : String) (s : Search)
    → p name ≡ true
    → fresh_count names s.visiting ≤ n
    → (body name s ≢ err out_of_fuel)
      × ((s' : Search) → body name s ≡ ok s' → IsWithin s.visiting s'.visiting)

for_each-enough :
    (p : String → Bool) (names : List String) (n : ℕ)
    (body : String → Search → Result GraphError Search) (list : List String) (s : Search)
    → IsEnough p names n body
    → all p list ≡ true
    → fresh_count names s.visiting ≤ n
    → (for_each body list s ≢ err out_of_fuel)
      × ((s' : Search) → for_each body list s ≡ ok s' → IsWithin s.visiting s'.visiting)
unfolding for_each IsEnough
for_each-enough p names n body [] s enough h few =
    (λ bad. ground (arith, bad), λ s' same name i. rw⁻¹ (ok-injective same) i)
for_each-enough p names n body (name ∷ list) s enough h few =
    let (no_fault, grows) = enough name s (ground (arith, h)) few in
    elim (Result-cases (body name s)) [
      | inl (fault, e) ↦
          rw (e, for_each) (λ bad. no_fault (e ∙ bad), λ s' same. absurd (ground (arith, same)))
      | inr (t, e) ↦
          let within = grows t e in
          let (rest, grows') =
            for_each-enough p names n body list t enough (ground (arith, h))
              (omega (arith, few, fresh_count-within names s.visiting t.visiting within)) in
          rw (e, for_each) (rest, λ s' same x i. grows' s' same x (within x i))
    ]

effect_key :
    (meta : Dict String EffectMeta) (name : String)
    → is_effect meta name ≡ true
    → elem name (map (λ entry. entry.0) meta) ≡ true
unfolding get elem
effect_key [] name h = ground (arith, h)
effect_key ((other, info) ∷ meta) name h =
    ground
      (arith, h, effect_key meta name, string_eq.beq_iff other name, string_eq.beq_iff name other)

key_effect :
    (meta : Dict String EffectMeta) (name : String)
    → elem name (map (λ entry. entry.0) meta) ≡ true
    → is_effect meta name ≡ true
unfolding get elem
key_effect [] name h = ground (arith, h)
key_effect ((other, info) ∷ meta) name h =
    ground
      (arith, h, key_effect meta name, string_eq.beq_iff other name, string_eq.beq_iff name other)

anything_goes : (names : List String) → all (λ _. true) names ≡ true
anything_goes [] = refl
anything_goes (name ∷ names) = anything_goes names

all_keys :
    (meta : Dict String EffectMeta) (names : List String)
    → IsWithin names (map (λ entry. entry.0) meta)
    → all (is_effect meta) names ≡ true
unfolding elem
all_keys meta [] within = refl
all_keys meta (name ∷ names) within = ground (
  arith,
  key_effect meta name (within name (ground (arith, string_eq.beq_iff name name))),
  all_keys meta names (λ other i. within other (ground (arith, i))),
)

count_all : (names : List String) → fresh_count names [] ≡ length names
unfolding elem
count_all [] = refl
count_all (name ∷ names) = ap suc (count_all names)

length_keys : (meta : Dict String EffectMeta) → length (map (λ entry. entry.0) meta) ≡ length meta
length_keys [] = refl
length_keys (entry ∷ meta) = ap suc (length_keys meta)

module _ (meta : Dict String EffectMeta) where
  abbrev keys_of : List String
  keys_of = map (λ entry. entry.0) meta

  known_dep-IsEnough :
      (n : ℕ) (name : String) (body : String → Search → Result GraphError Search)
      → IsEnough (is_effect meta) keys_of n body
      → IsEnough (λ _. true) keys_of n (known_dep meta name body)
  unfolding IsEnough
  known_dep-IsEnough n name body enough dep s _ few = elim (Bool-cases (is_effect meta dep)) [
    | inl e ↦ rw (known_dep, e) (enough dep s e few)
    | inr e ↦
        rw (known_dep, e) (λ bad. ground (arith, bad), λ s' same. absurd (ground (arith, same)))
  ]

  visit_effect-IsEnough :
      (fuel : ℕ) (chain : List String) (n : ℕ)
      → n < fuel
      → IsEnough (is_effect meta) keys_of n (visit_effect fuel meta chain)
  unfolding visit_effect IsEnough elem
  visit_effect-IsEnough zero chain n room name s h few = absurd (omega (arith, room))
  visit_effect-IsEnough (suc fuel) chain n room name s h few =
      elim (Bool-cases (elem name s.done)) [
        | inl e ↦
            rw (e, visit_effect)
              (λ bad. ground (arith, bad), λ s' same x i. rw⁻¹ (ok-injective same) i)
        | inr e ↦ elim (Bool-cases (elem name s.visiting)) [
          | inl v ↦
              rw (e, visit_effect, v)
                (λ bad. ground (arith, bad), λ s' same. absurd (ground (arith, same)))
          | inr v ↦
              let under = fresh_count-cons name keys_of s.visiting (effect_key meta name h) v in
              let below =
                known_dep-IsEnough (n - 1) name (visit_effect fuel meta (chain ++ name ∷ [])) (
                  visit_effect-IsEnough fuel (chain ++ name ∷ []) (n - 1)
                    (omega (arith, room, few, under))) in
              let (no_fault, grows) =
                for_each-enough (λ _. true) keys_of (n - 1)
                  (known_dep meta name (visit_effect fuel meta (chain ++ name ∷ [])))
                  (after_of (get meta name)) (record s { visiting = name ∷ s.visiting }) below
                  (anything_goes (after_of (get meta name))) (omega (arith, few, under)) in
              elim (Result-cases (
                for_each (known_dep meta name (visit_effect fuel meta (chain ++ name ∷ [])))
                  (after_of (get meta name)) (record s { visiting = name ∷ s.visiting }))) [
                    | inl (fault, l) ↦
                        rw (e, visit_effect, v, l)
                          (λ bad. no_fault (l ∙ bad), λ s' same. absurd (ground (arith, same)))
                    | inr (t, l) ↦
                        rw (e, visit_effect, v, l)
                          (
                            λ bad. ground (arith, bad),
                            λ s' same x i.
                                rw⁻¹ (ok-injective same) (grows t l x (ground (arith, i))),
                          )
                  ]
        ]
      ]

  pub validate_deps-fuel : validate_deps meta ≢ err out_of_fuel
  unfolding validate_deps
  validate_deps-fuel =
      (for_each-enough (is_effect meta) keys_of (length meta)
        (visit_effect (length meta + 1) meta []) keys_of (record { visiting = []; done = [] })
        (visit_effect-IsEnough (length meta + 1) [] (length meta) (omega arith))
        (all_keys meta keys_of (λ name i. i))
        (omega (arith, count_all keys_of, length_keys meta))).0
