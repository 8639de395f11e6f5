-- ===== src/Effects/Graph/Valid.antt =====
-- nixbot_effects/graph.py: what `validate_deps` comes to.
use nixbot.Prelude.{
  false, get, elem, string_eq, ◌≡◌, ◌⊎◌, inl, inr, true, List, Dict, String, ok, err, Result-cases,
  map,
}
use nixbot.Effects.Graph.Cycles.{leads_to, starts_with, validate_deps-cycle}
use nixbot.Effects.Graph.Errors.{validate_deps-unknown}
use nixbot.Effects.Graph.{
  after_of, is_effect, unknown_effect, cycle, out_of_fuel, EffectMeta, Search, validate_deps,
}
use nixbot.Effects.Graph.Ordered.{is_ordered, all_with, validate_deps-ordered}
use nixbot.Effects.Graph.Depth.{validate_deps-fuel}

-- Whatever effects a flake declares, validate_deps ends: it raises for an effect that another comes
-- after and that is not declared, or with a chain of effects from the named one, each of which
-- comes after the next and the last after the named one again, or it comes to an order that has all
-- effects, in which all that an effect comes after are effects and come before it.
pub validate_deps_total :
    (meta : Dict String EffectMeta)
    → ((name : String) × (dep : String) × (validate_deps meta ≡ err (unknown_effect name dep))
        × (is_effect meta dep ≡ false)
        × (elem dep (after_of (get meta name)) ≡ true))
      ⊎ (((chain : List String) × (name : String) × (validate_deps meta ≡ err (cycle chain name))
            × (starts_with name chain ≡ true)
            × (leads_to meta chain name ≡ true))
          ⊎ ((s : Search) × (validate_deps meta ≡ ok s)
              × (is_ordered meta s.done ≡ true)
              × (all_with (λ _. true) (map (λ entry. entry.0) meta) s.done ≡ true)))
validate_deps_total meta = elim (Result-cases (validate_deps meta)) [
  | inl (unknown_effect name dep, e) ↦
      let (absent, wanted) = validate_deps-unknown meta name dep e in
      inl (name, dep, e, absent, wanted)
  | inl (cycle chain name, e) ↦
      let (first, path) = validate_deps-cycle meta chain name e in
      inr (inl (chain, name, e, first, path))
  | inl (out_of_fuel, e) ↦ absurd (validate_deps-fuel meta e)
  | inr (s, e) ↦
      let (ordered, whole) = validate_deps-ordered meta s e in inr (inr (s, e, ordered, whole))
]
