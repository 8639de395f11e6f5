-- ===== src/Schedules/Replace.antt =====
-- schedules.py: `replace_schedules`, which stores the schedules of a fresh discovery.
use nixbot.Prelude.{
  ℕ, String, Bool, Option, none, some, List, [], ◌∷◌, ◌++◌, map, elem, Dict, get, put, string_eq,
  pair_eq, if◌then◌else◌,
}
use nixbot.Schedules.{ScheduleWhen}

pub record ScheduledEffectConfig : Type 0 where
  pub name : String
  pub when : ScheduleWhen
  pub effects : List String

-- a row of the project's schedules, with its spec as text
pub record ScheduleRow : Type 0 where
  pub schedule_name : String
  pub effect : String
  pub when_spec : String
  pub last_run : Option ℕ

abbrev pub key_of : ScheduleRow → String × String
key_of row = (row.schedule_name, row.effect)

-- the dict comprehension of the previous rows
unfoldable pub previous_rows :
    Dict (String × String) ScheduleRow → List ScheduleRow → Dict (String × String) ScheduleRow
previous_rows d [] = d
previous_rows d (row ∷ rows) = previous_rows (put (key_of row) row d) rows

-- `dump` is `model_dump_json(exclude_none=True)`, and `same_json` compares two texts as JSON.
module _ (dump : ScheduleWhen → String) (same_json : String → String → Bool) where
  unfoldable pub kept_last_run : Option ScheduleRow → String → Option ℕ
  kept_last_run none when_spec = none
  kept_last_run (some old) when_spec =
      if same_json old.when_spec when_spec then old.last_run else none

  -- the body of the inner loop; the keys seen are those of the rows
  unfoldable pub add_effect :
      Dict (String × String) ScheduleRow
      → ScheduledEffectConfig
      → String
      → List ScheduleRow
      → List ScheduleRow
  add_effect previous config effect rows =
      if elem (config.name, effect) (map key_of rows)
      then rows
      else rows
        ++ record {
          schedule_name = config.name;
          effect = effect;
          when_spec = dump config.when;
          last_run = kept_last_run (get previous (config.name, effect)) (dump config.when);
        }
          ∷ []

  unfoldable pub add_effects :
      Dict (String × String) ScheduleRow
      → ScheduledEffectConfig
      → List String
      → List ScheduleRow
      → List ScheduleRow
  add_effects previous config [] rows = rows
  add_effects previous config (effect ∷ effects) rows =
      add_effects previous config effects (add_effect previous config effect rows)

  unfoldable pub add_schedules :
      Dict (String × String) ScheduleRow
      → List ScheduledEffectConfig
      → List ScheduleRow
      → List ScheduleRow
  add_schedules previous [] rows = rows
  add_schedules previous (config ∷ configs) rows =
      add_schedules previous configs (add_effects previous config config.effects rows)

  unfoldable pub replace_schedules :
      List ScheduleRow → List ScheduledEffectConfig → List ScheduleRow
  replace_schedules old configs = add_schedules (previous_rows [] old) configs []
