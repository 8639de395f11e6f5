-- ===== src/Effects/Graph/Tests.antt =====
-- nixbot_effects/graph.py: two effects in order, and two that come after each other.
use nixbot.Prelude.{
  false, ◌≡◌, refl, ◌⊎◌, true, List, [], ◌∷◌, none, Dict, get, elem, string_eq, String, ok, err,
  map,
}
use nixbot.Effects.Graph.{
  after_of, is_effect, unknown_effect, cycle, EffectMeta, Search, for_each, visit_effect,
  validate_deps,
}
use nixbot.Effects.Graph.Ordered.{is_ordered, all_with}
use nixbot.Effects.Graph.Cycles.{leads_to, starts_with}
use nixbot.Effects.Graph.Valid.{validate_deps_total}

abbrev after : List String → EffectMeta
after names = record { after = names; lock = none; changed = none }

abbrev in_order : Dict String EffectMeta
in_order = ("deploy", after ("test" ∷ [])) ∷ ("test", after []) ∷ []

abbrev in_a_ring : Dict String EffectMeta
in_a_ring = ("deploy", after ("test" ∷ [])) ∷ ("test", after ("deploy" ∷ [])) ∷ []

in_order_valid :
    validate_deps in_order
    ≡ ok (record { visiting = "test" ∷ "deploy" ∷ []; done = "deploy" ∷ "test" ∷ [] })
unfolding validate_deps for_each visit_effect get elem
in_order_valid = refl

in_a_ring_refused : validate_deps in_a_ring ≡ err (cycle ("deploy" ∷ "test" ∷ []) "deploy")
unfolding validate_deps for_each visit_effect get elem
in_a_ring_refused = refl

validate_deps_total_example :
    ((name : String) × (dep : String) × (validate_deps in_order ≡ err (unknown_effect name dep))
      × (is_effect in_order dep ≡ false)
      × (elem dep (after_of (get in_order name)) ≡ true))
    ⊎ (((chain : List String) × (name : String) × (validate_deps in_order ≡ err (cycle chain name))
          × (starts_with name chain ≡ true)
          × (leads_to in_order chain name ≡ true))
        ⊎ ((s : Search) × (validate_deps in_order ≡ ok s)
            × (is_ordered in_order s.done ≡ true)
            × (all_with (λ _. true) (map (λ entry. entry.0) in_order) s.done ≡ true)))
validate_deps_total_example = validate_deps_total in_order
