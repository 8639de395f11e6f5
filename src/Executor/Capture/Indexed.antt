-- ===== src/Executor/Capture/Indexed.antt =====
-- executor.py, `StructuredCapture`: an index that a viewer is told is the position in the container.
use nixbot.Prelude.{
  ℕ, ◌≡◌, refl, subst, sym, ◌∙◌, Bool, true, false, not, ◌&&◌, none, some, List, [], ◌∷◌, Dict, get,
  put, get-put, length, is_nil, ◌==◌, string_eq, nat_eq, String, Bool-cases, Option-cases, inl, inr,
  arith,
}
use nixbot.Prelude.Prefixes.{is_infix}
use nixbot.Logstore.{Drv, get_drv, failing}
use nixbot.Executor.Capture.{
  StructuredCapture, Scraper, Call, started, result_line, result_phase, stop, message, status,
  failed, viewer, leave_viewer, end, setup, new_capture, register_drv, start_build, take_line,
  drv_of, set_phase, stop_build, set_status, fail_known, fail_all, log_line, scrape_reason,
  scrape_failure, scrape_all, setup_line, mark_failed, call, call_all, drv_display_name,
}
use nixbot.Executor.Capture.Positions.{
  position, position-put_known, position-put_new, length-put_new,
}

abbrev has_index : Dict String ℕ → String → Bool
has_index idx drv = elim (get idx drv) [ none ↦ false | some _ ↦ true ]

-- The indices are the positions, the root has one, and so has the derivation of each activity.
record IsIndexed (drvs : Dict String Drv) (idx : Dict String ℕ) (act : Dict ℕ String) : Type 0 where
  numbered : (drv : String) → get idx drv ≡ position drv drvs
  sized : length idx ≡ length drvs
  active : (id : ℕ) (drv : String) → get act id ≡ some drv → has_index idx drv ≡ true
  rooted : has_index idx setup ≡ true

abbrev IsInOrder : StructuredCapture → Type 0
IsInOrder c = IsIndexed c.w.drvs c.idx c.act

-- A derivation that is known changes in its place.
module _ (drvs : Dict String Drv) (idx : Dict String ℕ) (act : Dict ℕ String)
    (c : IsIndexed drvs idx act) where
  touch-IsIndexed :
      (drv : String) (d : Drv) → has_index idx drv ≡ true → IsIndexed (put drv d drvs) idx act
  touch-IsIndexed drv d known = elim (Option-cases (position drv drvs)) [
    | inl n ↦ absurd (ground (arith, c.numbered drv, n, known))
    | inr (i, p) ↦ record {
      numbered = λ other. c.numbered other ∙ sym (position-put_known drv other d drvs i p).0;
      sized = c.sized ∙ sym (position-put_known drv drv d drvs i p).1;
      active = c.active;
      rooted = c.rooted;
    }
  ]

  -- A new one is put behind the others, with the next index.
  add-IsIndexed :
      (drv : String) (d : Drv)
      → has_index idx drv ≡ false
      → IsIndexed (put drv d drvs) (put drv (length idx) idx) act
  add-IsIndexed drv d new =
      let free : get idx drv ≡ none = ground (arith, new) in
      let absent : position drv drvs ≡ none = sym (c.numbered drv) ∙ free in
      record {
        numbered = λ other. ground (
          arith,
          get-put idx drv other (length idx),
          (position-put_new drv other d drvs absent).0,
          c.numbered other,
          c.sized,
        );
        sized = omega (
          arith,
          length-put_new drv (length idx) idx free,
          (position-put_new drv drv d drvs absent).1,
          c.sized,
        );
        active = λ id other h. ground (
          arith,
          get-put idx drv other (length idx),
          c.active id other h,
          string_eq.beq_iff drv other,
        );
        rooted =
            ground
              (arith, get-put idx drv setup (length idx), c.rooted, string_eq.beq_iff drv setup);
      }

  act-IsIndexed :
      (id : ℕ) (drv : String) → has_index idx drv ≡ true → IsIndexed drvs idx (put id drv act)
  act-IsIndexed id drv known = record {
    numbered = c.numbered;
    sized = c.sized;
    active = λ other drv' h.
        ground
          (arith, get-put act id other drv, c.active other drv', h, known, nat_eq.beq_iff id other);
    rooted = c.rooted;
  }

  owner_known : (id : ℕ) → has_index idx (drv_of (get act id)) ≡ true
  owner_known id = elim (Option-cases (get act id)) [
    | inl n ↦ rw n c.rooted
    | inr (drv, e) ↦ rw e (c.active id drv e)
  ]

register_drv-IsInOrder :
    (drv : String) (c : StructuredCapture)
    → IsInOrder c
    → IsInOrder (register_drv drv c)
      × (has_index (register_drv drv c).idx drv ≡ true)
      × ((register_drv drv c).act ≡ c.act)
unfolding register_drv
register_drv-IsInOrder drv c h =
    let d = get_drv drv (some (drv_display_name drv)) c.w in
    elim (Bool-cases (has_index c.idx drv)) [
      | inl known ↦
          rw (known, register_drv) (touch-IsIndexed c.w.drvs c.idx c.act h drv d known, known, refl)
      | inr new ↦
          rw (new, register_drv)
            (
              add-IsIndexed c.w.drvs c.idx c.act h drv d new,
              ground (arith, get-put c.idx drv drv (length c.idx), string_eq.beq_iff drv drv),
              refl,
            )
    ]

-- The activities play no part in it.
register_drv-act :
    (drv : String) (act : Dict ℕ String) (c : StructuredCapture)
    → register_drv drv (record c { act = act }) ≡ record (register_drv drv c) { act = act }
unfolding register_drv
register_drv-act drv act c = elim (Bool-cases (has_index c.idx drv)) [
  | inl known ↦ rw (known, register_drv) refl
  | inr new ↦ rw (new, register_drv) refl
]

started-IsInOrder :
    (id : ℕ) (drv : String) (c : StructuredCapture) → IsInOrder c → IsInOrder (start_build id drv c)
unfolding start_build
started-IsInOrder id drv c h =
    let (kept, known, same) = register_drv-IsInOrder drv c h in
    let r = register_drv drv c in
    subst IsInOrder (sym (register_drv-act drv (put id drv c.act) c)) (
      subst (λ a. IsIndexed r.w.drvs r.idx (put id drv a)) same
        (act-IsIndexed r.w.drvs r.idx r.act kept id drv known))

take_line-IsInOrder :
    (drv text : String) (ts : ℕ) (c : StructuredCapture)
    → IsInOrder c
    → has_index c.idx drv ≡ true
    → IsInOrder (take_line drv text ts c)
unfolding take_line
take_line-IsInOrder drv text ts c h known = touch-IsIndexed c.w.drvs c.idx c.act h drv _ known

phase-IsInOrder :
    (id : ℕ) (name : String) (ts : ℕ) (c : StructuredCapture)
    → IsInOrder c
    → IsInOrder (set_phase id name ts c)
unfolding set_phase
phase-IsInOrder id name ts c h =
    touch-IsIndexed c.w.drvs c.idx c.act h (drv_of (get c.act id)) _
      (owner_known c.w.drvs c.idx c.act h id)

stop-IsInOrder : (id ts : ℕ) (c : StructuredCapture) → IsInOrder c → IsInOrder (stop_build id ts c)
unfolding stop_build
stop-IsInOrder id ts c h = elim (Option-cases (get c.act id)) [
  | inl n ↦ rw (n, stop_build) h
  | inr (drv, e) ↦
      rw (e, stop_build) (touch-IsIndexed c.w.drvs c.idx c.act h drv _ (h.active id drv e))
]

status-IsInOrder :
    (drv value : String) (c : StructuredCapture) → IsInOrder c → IsInOrder (set_status drv value c)
unfolding set_status
status-IsInOrder drv value c h = elim (Bool-cases (has_index c.idx drv)) [
  | inl known ↦ rw (known, set_status) (touch-IsIndexed c.w.drvs c.idx c.act h drv _ known)
  | inr new ↦
      let (kept, known, same) = register_drv-IsInOrder drv c h in
      let r = register_drv drv c in
      rw (new, set_status) (touch-IsIndexed r.w.drvs r.idx r.act kept drv _ known)
]

fail_known-IsInOrder :
    (drv : String) (c : StructuredCapture) → IsInOrder c → IsInOrder (fail_known drv c)
fail_known-IsInOrder drv c h = elim (Bool-cases (has_index c.idx drv)) [
  | inl known ↦ rw (known, fail_known) (status-IsInOrder drv "failed" c h)
  | inr new ↦ rw (new, fail_known) h
]

fail_all-IsInOrder :
    (drvs : List String) (c : StructuredCapture) → IsInOrder c → IsInOrder (fail_all drvs c)
unfolding fail_all
fail_all-IsInOrder [] c h = h
fail_all-IsInOrder (drv ∷ drvs) c h =
    fail_all-IsInOrder drvs (fail_known drv c) (fail_known-IsInOrder drv c h)

module _ (scraper : Scraper) where
  reason-IsInOrder :
      (line : String) (c : StructuredCapture)
      → IsInOrder c
      → IsInOrder (scrape_reason scraper line c)
  unfolding scrape_reason
  reason-IsInOrder line c h = elim (Option-cases c.pending_cannot) [
    | inl n ↦ rw (n, scrape_reason) h
    | inr (drv, e) ↦ elim (Bool-cases (not (drv == "") && is_infix "Reason:" line)) [
      | inr other ↦ rw (e, scrape_reason, other) h
      | inl reason ↦ elim (Bool-cases (is_infix "builder failed" line)) [
        | inl b ↦
            rw (e, scrape_reason, reason, b)
              (fail_known-IsInOrder drv (record c { pending_cannot = none }) h)
        | inr b ↦ rw (e, scrape_reason, reason, b) h
      ]
    ]
  ]

  scrape-IsInOrder :
      (line : String) (c : StructuredCapture)
      → IsInOrder c
      → IsInOrder (scrape_failure scraper line c)
  unfolding scrape_failure
  scrape-IsInOrder line c h =
      let kept = fail_all-IsInOrder (scraper.failed_drvs line) c h in
      elim (Option-cases (scraper.cannot_build line)) [
        | inl n ↦
            rw (n, scrape_failure)
              (reason-IsInOrder line (fail_all (scraper.failed_drvs line) c) kept)
        | inr (drv, e) ↦ rw (e, scrape_failure) kept
      ]

  scrape_all-IsInOrder :
      (lines : List String) (c : StructuredCapture)
      → IsInOrder c
      → IsInOrder (scrape_all scraper lines c)
  unfolding scrape_all
  scrape_all-IsInOrder [] c h = h
  scrape_all-IsInOrder (line ∷ lines) c h =
      scrape_all-IsInOrder lines (scrape_failure scraper line c) (scrape-IsInOrder line c h)

  log_line-IsInOrder :
      (id : ℕ) (text : String) (ts : ℕ) (c : StructuredCapture)
      → IsInOrder c
      → IsInOrder (log_line scraper id text ts c)
  unfolding log_line
  log_line-IsInOrder id text ts c h = elim (Bool-cases (scraper.is_phase_echo text)) [
    | inl e ↦ rw (e, log_line) h
    | inr e ↦
        rw (e, log_line)
          (take_line-IsInOrder (drv_of (get c.act id)) text ts c h
            (owner_known c.w.drvs c.idx c.act h id))
  ]

  mark_failed-IsInOrder :
      (drv : String) (c : StructuredCapture) → IsInOrder c → IsInOrder (mark_failed scraper drv c)
  unfolding mark_failed
  mark_failed-IsInOrder drv c h = elim (Bool-cases (has_index c.idx drv)) [
    | inl known ↦ rw (known, mark_failed) (status-IsInOrder drv "failed" c h)
    | inr new ↦ elim (Bool-cases (is_nil (failing scraper.elided c.w))) [
      | inl e ↦ rw (new, mark_failed, e) (touch-IsIndexed c.w.drvs c.idx c.act h setup _ h.rooted)
      | inr e ↦ rw (new, mark_failed, e) h
    ]
  ]

  call-IsInOrder : (x : Call) (c : StructuredCapture) → IsInOrder c → IsInOrder (call scraper x c)
  unfolding call setup_line
  call-IsInOrder (started id drv) c h = started-IsInOrder id drv c h
  call-IsInOrder (result_line id text ts) c h = log_line-IsInOrder id text ts c h
  call-IsInOrder (result_phase id name ts) c h = phase-IsInOrder id name ts c h
  call-IsInOrder (stop id ts) c h = stop-IsInOrder id ts c h
  call-IsInOrder (message text ts) c h =
      scrape_all-IsInOrder (scraper.plain_lines text) (take_line setup text ts c)
        (take_line-IsInOrder setup text ts c h h.rooted)
  call-IsInOrder (status drv value) c h = status-IsInOrder drv value c h
  call-IsInOrder (failed drv) c h = mark_failed-IsInOrder drv c h
  call-IsInOrder viewer c h = h
  call-IsInOrder (leave_viewer queue) c h = h
  call-IsInOrder end c h = elim (Bool-cases c.closed) [ inl e ↦ rw e h | inr e ↦ rw e h ]

  call_all-IsInOrder :
      (calls : List Call) (c : StructuredCapture)
      → IsInOrder c
      → IsInOrder (call_all scraper calls c)
  unfolding call_all
  call_all-IsInOrder [] c h = h
  call_all-IsInOrder (x ∷ calls) c h =
      call_all-IsInOrder calls (call scraper x c) (call-IsInOrder x c h)

  -- Whatever the executor and the viewers call, in whatever order, and whatever the regular
  -- expressions find, the index kept for a derivation, from which what viewers are told is
  -- numbered, is its position in the container of the log, and a derivation without a position has
  -- none.
  pub call_all-position :
      (max_lines : ℕ) (calls : List Call) (drv : String)
      → get (call_all scraper calls (new_capture max_lines)).idx drv
        ≡ position drv (call_all scraper calls (new_capture max_lines)).w.drvs
  unfolding get put position get_drv
  call_all-position max_lines calls drv =
      (call_all-IsInOrder calls (new_capture max_lines) (record {
        numbered = λ other. refl;
        sized = refl;
        active = λ id other h. absurd (ground (arith, h));
        rooted = refl;
      })).numbered
        drv
