-- ===== src/Effects/Graph.antt =====
-- nixbot_effects/graph.py: `validate_deps`, a depth-first search of the effects by what they come
-- after.
pub mod Depth
pub mod Ordered
pub mod Errors
pub mod Cycles
pub mod Valid
pub mod Tests
use nixbot.Prelude.{
  ℕ, zero, suc, ◌+◌, Bool, true, false, not, ◌&&◌, Option, none, some, List, [], ◌∷◌, ◌++◌, Dict,
  get, elem, length, ◌==◌, string_eq, if◌then◌else◌, String, Result, ok, err, ◌>>=◌, map,
}

-- `EffectGraphError`, and what the model returns where its fuel is spent.
pub data GraphError : Type 0 where
  unknown_effect : String → String → GraphError
  cycle : List String → String → GraphError
  out_of_fuel : GraphError

pub record EffectMeta : Type 0 where
  pub after : List String
  pub lock : Option String
  pub changed : Option (Dict String String)

pub record Search : Type 0 where
  pub visiting : List String
  pub done : List String

abbrev pub after_of : Option EffectMeta → List String
after_of none = []
after_of (some info) = info.after

abbrev pub is_effect : Dict String EffectMeta → String → Bool
is_effect meta name = elim (get meta name) [ none ↦ false | some _ ↦ true ]

-- a `for` loop whose body may raise
unfoldable pub for_each :
    (String → Search → Result GraphError Search) → List String → Search → Result GraphError Search
for_each body [] s = ok s
for_each body (name ∷ names) s = body name s >>= (λ s'. for_each body names s')

-- `chain[chain.index(name):]`
abbrev pub chain_from : String → List String → List String
chain_from name [] = []
chain_from name (other ∷ chain) = if other == name then other ∷ chain else chain_from name chain

abbrev pub known_dep :
    Dict String EffectMeta
    → String
    → (String → Search → Result GraphError Search)
    → String
    → Search
    → Result GraphError Search
known_dep meta name visit_dep dep s =
    if is_effect meta dep then visit_dep dep s else err (unknown_effect name dep)

unfoldable pub visit_effect :
    ℕ → Dict String EffectMeta → List String → String → Search → Result GraphError Search
visit_effect zero meta chain name s = err out_of_fuel
visit_effect (suc fuel) meta chain name s =
    if elem name s.done
    then ok s
    else if elem name s.visiting
    then err (cycle (chain_from name chain) name)
    else (for_each (known_dep meta name (visit_effect fuel meta (chain ++ name ∷ [])))
          (after_of (get meta name)) (record s { visiting = name ∷ s.visiting })
        >>= (λ s'. ok (record s' { done = name ∷ s'.done })))

-- Each visit below another has one more effect under way, so that there are no more than these.
unfoldable pub validate_deps : Dict String EffectMeta → Result GraphError Search
validate_deps meta =
    for_each (visit_effect (length meta + 1) meta []) (map (λ entry. entry.0) meta)
      (record { visiting = []; done = [] })
