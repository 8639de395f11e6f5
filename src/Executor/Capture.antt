-- ===== src/Executor/Capture.antt =====
-- executor.py: `StructuredCapture`, which sorts the log of a build by derivation.
pub mod Positions
pub mod Indexed
pub mod Tests
use nixbot.Prelude.{
  ℕ, zero, suc, ◌+◌, Bool, true, false, not, ◌&&◌, Option, none, some, List, [], ◌∷◌, ◌++◌, Dict,
  get, put, filter, discard, elem, length, is_nil, ltb, ◌==◌, string_eq, nat_eq, if◌then◌else◌,
  String,
}
use nixbot.Prelude.Texts.{rpartition}
use nixbot.Prelude.Prefixes.{is_infix, remove_suffix, behind_char}
use nixbot.Logstore.{
  LogContainerWriter, new_container, register_name, add_line, add_phase, put_status, stop_drv,
  failing,
}

abbrev pub setup : String
setup = "<setup>"

abbrev pub last_part : String → Option (String × String) → String
last_part drv_path none = drv_path
last_part drv_path (some (front, back)) = back

-- `_drv_display_name`: the name behind the hash of the store path
unfoldable pub drv_display_name : String → String
drv_display_name drv_path =
    let name =
      behind_char 45 (remove_suffix ".drv" (last_part drv_path (rpartition 47 drv_path))) in
    if name == "" then drv_path else name

-- What a viewer is told; each delta names the derivation by its index.
pub data Delta : Type 0 where
  drv_delta : ℕ → String → String → Delta
  line_delta : ℕ → ℕ → String → Delta
  phase_delta : ℕ → String → ℕ → Delta
  status_delta : ℕ → String → Delta

abbrev pub DeltaQueue : Type 0
DeltaQueue = List (Option Delta)

-- The regular expressions, on a line, and the text of elided lines.
pub record Scraper : Type 0 where
  pub is_phase_echo : String → Bool
  pub plain_lines : String → List String
  pub failed_drvs : String → List String
  pub cannot_build : String → Option String
  pub elided : ℕ → String

-- `built` has the calls of `on_built`.
pub record StructuredCapture : Type 0 where
  pub w : LogContainerWriter
  pub act : Dict ℕ String
  pub idx : Dict String ℕ
  pub seen : Dict String ℕ
  pub running : List String
  pub pending_cannot : Option String
  pub subs : List ℕ
  pub queues : Dict ℕ DeltaQueue
  pub next_queue : ℕ
  pub closed : Bool
  pub built : List String

abbrev pub new_capture : ℕ → StructuredCapture
new_capture max_lines = record {
  w = register_name setup (some "setup") (new_container max_lines);
  act = [];
  idx = (setup, 0) ∷ [];
  seen = [];
  running = [];
  pending_cannot = none;
  subs = [];
  queues = [];
  next_queue = 0;
  closed = false;
  built = [];
}

abbrev pub structured_queue_maxsize : ℕ
structured_queue_maxsize = 4096

-- `_put`: while the queue is full, its oldest delta goes.
unfoldable pub put_delta : Option Delta → DeltaQueue → DeltaQueue
put_delta item [] = item ∷ []
put_delta item (delta ∷ queue) =
    let rest = put_delta item queue in
    if ltb (length (delta ∷ queue)) structured_queue_maxsize
    then (delta ∷ queue) ++ item ∷ []
    else rest

unfoldable pub put_all : Option Delta → List ℕ → Dict ℕ DeltaQueue → Dict ℕ DeltaQueue
put_all item [] queues = queues
put_all item (sub ∷ subs) queues =
    put_all item subs
      (elim (get queues sub) [ none ↦ queues | some q ↦ put sub (put_delta item q) queues ])

abbrev pub emit : Delta → StructuredCapture → StructuredCapture
emit delta c = record c { queues = put_all (some delta) c.subs c.queues }

abbrev pub subscribe_deltas : StructuredCapture → ℕ × StructuredCapture
subscribe_deltas c = (
  c.next_queue,
  record c {
    subs = if c.closed then c.subs else c.subs ++ c.next_queue ∷ [];
    queues = put c.next_queue (if c.closed then none ∷ [] else []) c.queues;
    next_queue = c.next_queue + 1;
  },
)

abbrev pub unsubscribe_deltas : ℕ → StructuredCapture → StructuredCapture
unsubscribe_deltas queue c = record c { subs = filter (λ other. not (queue == other)) c.subs }

abbrev pub close_capture : StructuredCapture → StructuredCapture
close_capture c =
    if c.closed
    then c
    else record c { closed = true; queues = put_all none c.subs c.queues; subs = [] }

abbrev pub index_or : Option ℕ → ℕ
index_or none = 0
index_or (some i) = i

abbrev pub is_known : String → StructuredCapture → Bool
is_known drv c = elim (get c.idx drv) [ none ↦ false | some _ ↦ true ]

-- An index is given once, and is the number of those given before.
abbrev pub add_index : String → StructuredCapture → StructuredCapture
add_index drv c = if is_known drv c then c else record c { idx = put drv (length c.idx) c.idx }

abbrev pub add_running : String → List String → List String
add_running drv drvs = if elem drv drvs then drvs else drv ∷ drvs

-- a derivation in the container and among the indices, and the delta that tells so
unfoldable pub register_drv : String → StructuredCapture → StructuredCapture
register_drv drv c =
    add_index drv (record c { w = register_name drv (some (drv_display_name drv)) c.w })

abbrev pub announce_drv : String → StructuredCapture → StructuredCapture
announce_drv drv c = emit (drv_delta (index_or (get c.idx drv)) drv (drv_display_name drv)) c

unfoldable pub start_build : ℕ → String → StructuredCapture → StructuredCapture
start_build act_id drv c =
    let r = register_drv drv (record c { act = put act_id drv c.act }) in
    announce_drv drv (record r { running = add_running drv r.running })

abbrev pub seen_of : String → StructuredCapture → ℕ
seen_of drv c = index_or (get c.seen drv)

abbrev pub drv_of : Option String → String
drv_of none = setup
drv_of (some drv) = drv

-- a line of a derivation, with the delta that carries its number
unfoldable pub take_line : String → String → ℕ → StructuredCapture → StructuredCapture
take_line drv text ts c =
    let n = seen_of drv c + 1 in
    emit (line_delta (index_or (get c.idx drv)) n text)
      (record c { w = add_line drv text ts c.w; seen = put drv n c.seen })

unfoldable pub set_phase : ℕ → String → ℕ → StructuredCapture → StructuredCapture
set_phase act_id name ts c =
    let drv = drv_of (get c.act act_id) in
    emit (phase_delta (index_or (get c.idx drv)) name (seen_of drv c))
      (record c { w = add_phase drv name ts c.w })

unfoldable pub stop_build : ℕ → ℕ → StructuredCapture → StructuredCapture
stop_build act_id ts c = elim (get c.act act_id) [
  | none ↦ c
  | some drv ↦ emit (status_delta (index_or (get c.idx drv)) "built") (record c {
    w = stop_drv drv ts c.w;
    running = discard drv c.running;
    built = c.built ++ drv ∷ [];
  })
]

unfoldable pub set_status : String → String → StructuredCapture → StructuredCapture
set_status drv status c =
    let r = if is_known drv c then c else announce_drv drv (register_drv drv c) in
    emit (status_delta (index_or (get r.idx drv)) status)
      (record r { w = put_status drv status r.w; running = discard drv r.running })

abbrev pub fail_known : String → StructuredCapture → StructuredCapture
fail_known drv c = if is_known drv c then set_status drv "failed" c else c

unfoldable pub fail_all : List String → StructuredCapture → StructuredCapture
fail_all [] c = c
fail_all (drv ∷ drvs) c = fail_all drvs (fail_known drv c)

module _ (scraper : Scraper) where
  unfoldable pub log_line : ℕ → String → ℕ → StructuredCapture → StructuredCapture
  log_line act_id text ts c =
      if scraper.is_phase_echo text then c else take_line (drv_of (get c.act act_id)) text ts c

  -- the second line of the two-line form
  unfoldable pub scrape_reason : String → StructuredCapture → StructuredCapture
  scrape_reason line c = elim c.pending_cannot [
    | none ↦ c
    | some drv ↦
        if not (drv == "") && is_infix "Reason:" line
        then (if is_infix "builder failed" line
            then fail_known drv (record c { pending_cannot = none })
            else record c { pending_cannot = none })
        else c
  ]

  unfoldable pub scrape_failure : String → StructuredCapture → StructuredCapture
  scrape_failure line c =
      let failed = fail_all (scraper.failed_drvs line) c in
      elim (scraper.cannot_build line) [
        | some drv ↦ record failed { pending_cannot = some drv }
        | none ↦ scrape_reason line failed
      ]

  unfoldable pub scrape_all : List String → StructuredCapture → StructuredCapture
  scrape_all [] c = c
  scrape_all (line ∷ lines) c = scrape_all lines (scrape_failure line c)

  unfoldable pub setup_line : String → ℕ → StructuredCapture → StructuredCapture
  setup_line text ts c = scrape_all (scraper.plain_lines text) (take_line setup text ts c)

  unfoldable pub mark_failed : String → StructuredCapture → StructuredCapture
  mark_failed drv c =
      if is_known drv c
      then set_status drv "failed" c
      else if is_nil (failing scraper.elided c.w)
      then emit (status_delta 0 "failed") (record c { w = put_status setup "failed" c.w })
      else c

-- What the executor calls, with the time where one is taken.
pub data Call : Type 0 where
  started : ℕ → String → Call
  result_line : ℕ → String → ℕ → Call
  result_phase : ℕ → String → ℕ → Call
  stop : ℕ → ℕ → Call
  message : String → ℕ → Call
  status : String → String → Call
  failed : String → Call
  viewer : Call
  leave_viewer : ℕ → Call
  end : Call

unfoldable pub call : Scraper → Call → StructuredCapture → StructuredCapture
call scraper (started act_id drv) c = start_build act_id drv c
call scraper (result_line act_id text ts) c = log_line scraper act_id text ts c
call scraper (result_phase act_id name ts) c = set_phase act_id name ts c
call scraper (stop act_id ts) c = stop_build act_id ts c
call scraper (message text ts) c = setup_line scraper text ts c
call scraper (status drv value) c = set_status drv value c
call scraper (failed drv) c = mark_failed scraper drv c
call scraper viewer c = (subscribe_deltas c).1
call scraper (leave_viewer queue) c = unsubscribe_deltas queue c
call scraper end c = close_capture c

unfoldable pub call_all : Scraper → List Call → StructuredCapture → StructuredCapture
call_all scraper [] c = c
call_all scraper (x ∷ calls) c = call_all scraper calls (call scraper x c)
