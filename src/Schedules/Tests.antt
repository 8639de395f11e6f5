-- ===== src/Schedules/Tests.antt =====
-- The sweep window at an hourly schedule.
use nixbot.Prelude.{ℕ, ◌≤◌, ◌<◌, arith, String, ◌≡◌, refl, ◌↔◌, true, none, some, elem, nat_eq}
use nixbot.Schedules.{
  ScheduleWhen, ScheduledEffect, is_due, fields_due, resolved, resolved_days, resolved_hours, range,
  due_occurrence, occurrence_from, is_effect_due,
}
use nixbot.Schedules.Replace.{ScheduledEffectConfig, key_of, replace_schedules}
use nixbot.Schedules.Keys.{replace_schedules-nodup}
use nixbot.Prelude.{[], ◌∷◌, map, nodup, string_eq, pair_eq, ◌==◌}
use nixbot.Schedules.Window.{due_occurrence_iff, is_effect_due_iff}

abbrev hourly : ScheduleWhen
hourly = record { minute = some 30; hour = none; day_of_week = none; day_of_month = none }

abbrev hashed : String → ℕ
hashed name = 7

abbrev first_day : ℕ → ℕ
first_day t = 1

-- 1970-01-02 01:30, and a sweep that is three minutes late
hourly-due : is_due hashed first_day hourly "tick" 1530 ≡ some true
unfolding is_due fields_due resolved resolved_days resolved_hours range elem
hourly-due = refl

late_sweep : due_occurrence hashed first_day hourly "tick" 1533 ≡ some (some 1530)
unfolding due_occurrence occurrence_from is_due fields_due resolved resolved_days resolved_hours
    range elem
late_sweep = refl

due_occurrence_iff_example :
    (due_occurrence hashed first_day hourly "tick" 1533 ≡ some (some 1530))
    ↔ ((is_due hashed first_day hourly "tick" 1530 ≡ some true) × (1530 ≤ 1533) × (1533 < 1535))
due_occurrence_iff_example =
    due_occurrence_iff hashed first_day hourly "tick" 1533 1530 (omega arith)

abbrev tick : ScheduledEffect
tick = record {
  project_id = 1;
  schedule_name = "tick";
  effect = "e";
  when = hourly;
  last_run = some 1471;
}

is_effect_due_iff_example :
    (is_effect_due hashed first_day 1533 tick ≡ true)
    ↔ ((last : ℕ) → tick.last_run ≡ some last → last < 1530)
is_effect_due_iff_example =
    is_effect_due_iff hashed first_day tick 1533 1530 (omega arith) hourly-due (omega arith)
      (omega arith)

abbrev twice : ScheduledEffectConfig
twice = record { name = "tick"; when = hourly; effects = "e" ∷ "f" ∷ "e" ∷ [] }

abbrev spec_of : ScheduleWhen → String
spec_of w = "{}"

replace_schedules-nodup_example :
    nodup (map key_of (replace_schedules spec_of (λ a b. a == b) [] (twice ∷ twice ∷ []))) ≡ true
replace_schedules-nodup_example =
    replace_schedules-nodup spec_of (λ a b. a == b) [] (twice ∷ twice ∷ [])
