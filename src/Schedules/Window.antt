-- ===== src/Schedules/Window.antt =====
-- schedules.py: no occurrence within the sweep window is missed.
use nixbot.Prelude.{
  lt→ltb, ℕ, zero, suc, ◌+◌, ◌-◌, ◌≤◌, ◌<◌, String, ◌≡◌, refl, ap, ◌≢◌, ◌↔◌, inl, inr, Bool, true,
  false, Option, none, some, arith, string_eq, nat_eq, Bool-cases, Option-cases,
}
use nixbot.Schedules.{
  ScheduleWhen, minute_of, is_due, fields_due, resolved, occurrence_from, due_occurrence,
  due_window_minutes, ScheduledEffect, is_effect_due, ran_before,
}

module _ (seed : String → ℕ) (day_of : ℕ → ℕ) (w : ScheduleWhen) (name : String) where
  found : {t u : ℕ} → ◌≡◌ {A = Option (Option ℕ)} (some (some t)) (some (some u)) → t ≡ u
  found h = cc

  abbrev Due : ℕ → Type 0
  Due t = is_due seed day_of w name t ≡ some true

  not_now : (t u : ℕ) → Due t → is_due seed day_of w name u ≡ some false → t ≢ u
  not_now t u h k e = cc

  sound :
      (now offset n : ℕ) (t : ℕ)
      → offset + n ≤ now
      → occurrence_from seed day_of w name now offset n ≡ some (some t)
      → Due t × (t + offset ≤ now) × (now < t + offset + n)
  unfolding occurrence_from
  sound now offset zero t before h = cc
  sound now offset (suc n) t before h =
      elim (Option-cases (is_due seed day_of w name (now - offset))) [
        | inl e ↦ cc (rw (e, occurrence_from) at h)
        | inr (due, e) ↦ elim (Bool-cases due) [
          | inl d ↦
              let same = found (rw (e, occurrence_from, d) at h) in
              (rw (← same) (rw d at e), omega (arith, same), omega (arith, same))
          | inr d ↦
              let (due', after, within) =
                sound now (offset + 1) n t (omega arith) (rw (e, occurrence_from, d) at h) in
              (due', omega arith, omega arith)
        ]
      ]

  -- What is due at two times is due at the same minute of the hour.
  same_minute : (t u : ℕ) → Due t → Due u → minute_of t ≡ minute_of u
  unfolding is_due fields_due
  same_minute t u h k = elim (Option-cases (resolved seed day_of w name)) [
    | inl e ↦ cc (rw (e, is_due) at h)
    | inr (fields, e) ↦ ground (
      arith,
      rw (e, is_due) at h,
      rw (e, is_due) at k,
      nat_eq.beq_iff (minute_of t) fields.minute,
      nat_eq.beq_iff (minute_of u) fields.minute,
    )
  ]

  -- A spec that resolves once resolves at every time.
  decided : (t u : ℕ) → Due t → (b : Bool) × (is_due seed day_of w name u ≡ some b)
  unfolding is_due
  decided t u h = elim (Option-cases (resolved seed day_of w name)) [
    | inl e ↦ cc (rw (e, is_due) at h)
    | inr (fields, e) ↦ (fields_due seed day_of fields u, rw (e, is_due) refl)
  ]

  complete :
      (now offset n : ℕ) (t : ℕ)
      → n ≤ 60
      → Due t
      → t + offset ≤ now
      → now < t + offset + n
      → occurrence_from seed day_of w name now offset n ≡ some (some t)
  unfolding occurrence_from
  complete now offset zero t short due after within = absurd (omega (arith, after, within))
  complete now offset (suc n) t short due after within =
      let (b, e) = decided t (now - offset) due in
      elim (Bool-cases b) [
        | inl d ↦
            rw (e, occurrence_from, d)
              (ap (λ u. some (some u))
                (omega (arith, same_minute t (now - offset) due (rw d at e))))
        | inr d ↦
            rw (e, occurrence_from, d)
              (complete now (offset + 1) n t (omega arith) due
                (omega (arith, not_now t (now - offset) due (rw d at e)))
                (omega (arith, not_now t (now - offset) due (rw d at e))))
      ]

-- A sweep (after the first five minutes of the epoch) finds an occurrence exactly if the schedule
-- was due at it and it lies within the window: a delayed sweep misses none, and at most one is in
-- the window.
pub due_occurrence_iff :
    (seed : String → ℕ) (day_of : ℕ → ℕ) (w : ScheduleWhen) (name : String) (now t : ℕ)
    → due_window_minutes ≤ now
    → (due_occurrence seed day_of w name now ≡ some (some t))
      ↔ ((is_due seed day_of w name t ≡ some true) × (t ≤ now) × (now < t + due_window_minutes))
unfolding due_occurrence
due_occurrence_iff seed day_of w name now t h = (
  λ e.
      let (due, after, within) = sound seed day_of w name now 0 5 t (omega arith) e in
      (due, omega arith, omega arith),
  λ e.
      complete seed day_of w name now 0 5 t (omega arith) e.0 (omega (arith, e.1))
        (omega (arith, e.2)),
)

-- The effect of a schedule that was due within the window is due exactly if its last run is before
-- that occurrence.
pub is_effect_due_iff :
    (seed : String → ℕ) (day_of : ℕ → ℕ) (row : ScheduledEffect) (now t : ℕ)
    → due_window_minutes ≤ now
    → is_due seed day_of row.when row.schedule_name t ≡ some true
    → t ≤ now
    → now < t + due_window_minutes
    → (is_effect_due seed day_of now row ≡ true)
      ↔ ((last : ℕ) → row.last_run ≡ some last → last < t)
unfolding is_effect_due
is_effect_due_iff seed day_of row now t h due after within =
    rw
      (
        (due_occurrence_iff seed day_of row.when row.schedule_name now t h).1 (due, after, within),
        is_effect_due,
      )
      (before_iff row.last_run t)
  where
    before_iff :
        (last_run : Option ℕ) (t : ℕ)
        → (ran_before last_run t ≡ true) ↔ ((last : ℕ) → last_run ≡ some last → last < t)
    before_iff none t = (λ _. λ last e. cc, λ _. refl)
    before_iff (some last) t =
        (λ e. λ l same. ground (arith, same), λ f. lt→ltb last t (f last refl))
