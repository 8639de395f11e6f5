-- ===== src/Schedules.antt =====
-- schedules.py and `ScheduleWhen.resolved` of config.py: when a scheduled effect is due. A time in
-- UTC is its number of minutes since 1970-01-01, a Thursday.
pub mod Window
pub mod Replace
pub mod Keys
mod Tests
use nixbot.Prelude.{
  ℕ, zero, suc, ◌+◌, ◌-◌, ◌/◌, ◌%◌, String, Bool, true, false, not, ◌&&◌, ◌||◌, Option, none, some,
  List, [], ◌∷◌, filter, elem, string_eq, nat_eq, ◌==◌, ltb, if◌then◌else◌,
}

pub data Hours : Type 0 where
  at : ℕ → Hours
  at_each : List ℕ → Hours

pub record ScheduleWhen : Type 0 where
  pub minute : Option ℕ
  pub hour : Option Hours
  pub day_of_week : Option (List String)
  pub day_of_month : Option (List ℕ)

-- `fields` of `resolved`, with `hours` for its hour or hours
pub record Fields : Type 0 where
  pub minute : ℕ
  pub hours : List ℕ
  pub day_of_week : Option (List ℕ)
  pub day_of_month : Option (List ℕ)

-- `day_map`; an unknown name is a KeyError
unfoldable pub day_number : String → Option ℕ
day_number d =
    if d == "Mon"
    then some 0
    else if d == "Tue"
    then some 1
    else if d == "Wed"
    then some 2
    else if d == "Thu"
    then some 3
    else if d == "Fri"
    then some 4
    else if d == "Sat"
    then some 5
    else if d == "Sun"
    then some 6
    else none

unfoldable pub day_numbers : List String → Option (List ℕ)
day_numbers [] = some []
day_numbers (d ∷ ds) = elim (day_number d) [
  | none ↦ none
  | some n ↦ elim (day_numbers ds) [ none ↦ none | some ns ↦ some (n ∷ ns) ]
]

unfoldable pub resolved_days : Option (List String) → Option (Option (List ℕ))
resolved_days none = some none
resolved_days (some names) = elim (day_numbers names) [ none ↦ none | some ns ↦ some (some ns) ]

-- `range(start, start + n)`
unfoldable pub range : ℕ → ℕ → List ℕ
range start zero = []
range start (suc n) = start ∷ range (start + 1) n

unfoldable pub resolved_hours : Option Hours → List ℕ
resolved_hours none = range 0 24
resolved_hours (some (at h)) = h ∷ []
resolved_hours (some (at_each hs)) = hs

abbrev pub or_else : Option ℕ → ℕ → ℕ
or_else none d = d
or_else (some n) d = n

-- `candidate.minute`, `candidate.hour`, `candidate.weekday()`
abbrev pub minute_of : ℕ → ℕ
minute_of t = t % 60

abbrev pub hour_of : ℕ → ℕ
hour_of t = t / 60 % 24

abbrev pub weekday_of : ℕ → ℕ
weekday_of t = (t / 1440 + 3) % 7

abbrev pub allowed : Option (List ℕ) → ℕ → Bool
allowed none n = true
allowed (some ns) n = elem n ns

abbrev pub due_window_minutes : ℕ
due_window_minutes = 5

-- A row of the schedules, with its spec read.
pub record ScheduledEffect : Type 0 where
  pub project_id : ℕ
  pub schedule_name : String
  pub effect : String
  pub when : ScheduleWhen
  pub last_run : Option ℕ

abbrev pub ran_before : Option ℕ → ℕ → Bool
ran_before none t = true
ran_before (some last) t = ltb last t

-- `seed` is the number that SHA-256 gives a name, and `day_of` is `datetime.day`.
module _ (seed : String → ℕ) (day_of : ℕ → ℕ) where
  unfoldable pub resolved : ScheduleWhen → String → Option Fields
  resolved w name = elim (resolved_days w.day_of_week) [
    | none ↦ none
    | some days ↦ some (record {
      minute = or_else w.minute (seed name % 60);
      hours = resolved_hours w.hour;
      day_of_week = days;
      day_of_month = w.day_of_month;
    })
  ]

  unfoldable pub fields_due : Fields → ℕ → Bool
  fields_due fields now =
      if not (minute_of now == fields.minute)
      then false
      else if not (elem (hour_of now) fields.hours)
      then false
      else if not (allowed fields.day_of_week (weekday_of now))
      then false
      else allowed fields.day_of_month (day_of now)

  -- `none` is the KeyError of an unknown day
  unfoldable pub is_due : ScheduleWhen → String → ℕ → Option Bool
  is_due w name now = elim (resolved w name) [
    | none ↦ none
    | some fields ↦ some (fields_due fields now)
  ]

  -- the loop of `due_occurrence` from an offset on, for so many steps
  unfoldable pub occurrence_from : ScheduleWhen → String → ℕ → ℕ → ℕ → Option (Option ℕ)
  occurrence_from w name now offset zero = some none
  occurrence_from w name now offset (suc n) =
      let rest = occurrence_from w name now (offset + 1) n in
      elim (is_due w name (now - offset)) [
        | none ↦ none
        | some due ↦ if due then some (some (now - offset)) else rest
      ]

  unfoldable pub due_occurrence : ScheduleWhen → String → ℕ → Option (Option ℕ)
  due_occurrence w name now = occurrence_from w name now 0 due_window_minutes

  -- the test of `due_effects`; an invalid spec is skipped
  unfoldable pub is_effect_due : ℕ → ScheduledEffect → Bool
  is_effect_due now row = elim (due_occurrence row.when row.schedule_name now) [
    | none ↦ false
    | some occurrence ↦ elim occurrence [ none ↦ false | some t ↦ ran_before row.last_run t ]
  ]

  unfoldable pub due_effects : ℕ → List ScheduledEffect → List ScheduledEffect
  due_effects now rows = filter (is_effect_due now) rows
