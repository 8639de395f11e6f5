-- ===== src/Schedules/Keys.antt =====
-- schedules.py: the rows of a discovery meet the primary key of their table.
use nixbot.Prelude.{
  String, ◌≡◌, refl, Bool, true, false, List, [], ◌∷◌, ◌++◌, map, elem, elem-append, elem-cons,
  elem-nil, nodup, Dict, string_eq, pair_eq, pair_beq_iff, arith, Bool-cases, inl, inr,
}
use mathlib.Core.List.{map-append}
use nixbot.Schedules.{ScheduleWhen}
use nixbot.Schedules.Replace.{
  ScheduledEffectConfig, ScheduleRow, key_of, previous_rows, add_effect, add_effects, add_schedules,
  replace_schedules,
}

nodup-last :
    (keys : List (String × String)) (k : String × String)
    → nodup keys ≡ true
    → elem k keys ≡ false
    → nodup (keys ++ k ∷ []) ≡ true
unfolding nodup
nodup-last [] k h n = ground (arith, elem-nil k)
nodup-last (j ∷ keys) k h n = ground (
  arith,
  nodup-last keys k,
  elem-cons k j keys,
  elem-append j keys (k ∷ []),
  elem-cons j k [],
  elem-nil j,
  pair_beq_iff j k,
  pair_beq_iff k j,
)

module _ (dump : ScheduleWhen → String) (same_json : String → String → Bool) where
  add_effect-nodup :
      (previous : Dict (String × String) ScheduleRow) (config : ScheduledEffectConfig)
      (effect : String) (rows : List ScheduleRow)
      → nodup (map key_of rows) ≡ true
      → nodup (map key_of (add_effect dump same_json previous config effect rows)) ≡ true
  unfolding add_effect
  add_effect-nodup previous config effect rows h =
      elim (Bool-cases (elem (config.name, effect) (map key_of rows))) [
        | inl e ↦ rw e h
        | inr e ↦
            rw e (
              rw (map-append key_of rows _)
                (nodup-last (map key_of rows) (config.name, effect) h e))
      ]

  add_effects-nodup :
      (previous : Dict (String × String) ScheduleRow) (config : ScheduledEffectConfig)
      (effects : List String) (rows : List ScheduleRow)
      → nodup (map key_of rows) ≡ true
      → nodup (map key_of (add_effects dump same_json previous config effects rows)) ≡ true
  unfolding add_effects
  add_effects-nodup previous config [] rows h = h
  add_effects-nodup previous config (effect ∷ effects) rows h =
      add_effects-nodup previous config effects _ (add_effect-nodup previous config effect rows h)

  add_schedules-nodup :
      (previous : Dict (String × String) ScheduleRow) (configs : List ScheduledEffectConfig)
      (rows : List ScheduleRow)
      → nodup (map key_of rows) ≡ true
      → nodup (map key_of (add_schedules dump same_json previous configs rows)) ≡ true
  unfolding add_schedules
  add_schedules-nodup previous [] rows h = h
  add_schedules-nodup previous (config ∷ configs) rows h =
      add_schedules-nodup previous configs _
        (add_effects-nodup previous config config.effects rows h)

-- Whatever the repository declares, no two rows that replace_schedules stores share the names of
-- their schedule and effect, which are the primary key.
pub replace_schedules-nodup :
    (dump : ScheduleWhen → String) (same_json : String → String → Bool) (old : List ScheduleRow)
    (configs : List ScheduledEffectConfig)
    → nodup (map key_of (replace_schedules dump same_json old configs)) ≡ true
unfolding replace_schedules nodup
replace_schedules-nodup dump same_json old configs =
    add_schedules-nodup dump same_json (previous_rows [] old) configs [] refl
