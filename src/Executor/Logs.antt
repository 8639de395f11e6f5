-- ===== src/Executor/Logs.antt =====
-- executor.py: `LogWriter` and `read_log`, and `iter_lines`, which splits the output of a process.
pub mod Tail
pub mod Retention
pub mod Closing
pub mod Frames
pub mod Lines
pub mod Subscribers
pub mod Tests
use nixbot.Prelude.{
  ℕ, zero, suc, ◌+◌, ◌-◌, ◌*◌, ◌/◌, Bool, true, false, not, ◌&&◌, Option, none, some, List, [], ◌∷◌,
  ◌++◌, Dict, get, put, filter, length, take, drop, is_nil, ltb, nat_eq, ◌==◌, if◌then◌else◌,
  String, Bytes, concat,
}

-- Compression, and the encoding of texts and numbers, which the standard library has.
pub record Codec : Type 0 where
  pub compress : Bytes → Bytes
  pub decompress : Bytes → Bytes
  pub encode : String → Bytes
  pub decimal : ℕ → String

-- The queue of a subscriber: chunks, and `none` for the end. A queue is shared with its reader,
-- so that the writer has the numbers of its subscribers, and `queues` what they hold.
abbrev pub Queue : Type 0
Queue = List (Option Bytes)

pub record LogWriter : Type 0 where
  pub size_limit : ℕ
  pub bytes_seen : ℕ
  pub truncated : Bool
  pub closed : Bool
  pub head_budget : ℕ
  pub tail : List Bytes
  pub tail_size : ℕ
  pub recent : List Bytes
  pub recent_size : ℕ
  pub dropped : ℕ
  pub subscribers : List ℕ
  pub queues : Dict ℕ Queue
  pub next_queue : ℕ
  pub frame_buffer : Bytes
  pub file : Bytes

abbrev pub new_log : ℕ → LogWriter
new_log size_limit = record {
  size_limit = size_limit;
  bytes_seen = 0;
  truncated = false;
  closed = false;
  head_budget = size_limit / 2;
  tail = [];
  tail_size = 0;
  recent = [];
  recent_size = 0;
  dropped = 0;
  subscribers = [];
  queues = [];
  next_queue = 0;
  frame_buffer = [];
  file = [];
}

abbrev pub subscriber_queue_maxsize : ℕ
subscriber_queue_maxsize = 256

abbrev pub recent_buffer_size : ℕ
recent_buffer_size = 4096

abbrev pub frame_flush_threshold : ℕ
frame_flush_threshold = 64 * 1024

abbrev pub subscribe : LogWriter → ℕ × LogWriter
subscribe w = (
  w.next_queue,
  record w {
    subscribers = w.subscribers ++ w.next_queue ∷ [];
    queues = put w.next_queue [] w.queues;
    next_queue = w.next_queue + 1;
  },
)

abbrev pub unsubscribe : ℕ → LogWriter → LogWriter
unsubscribe queue w = record w {
  subscribers = filter (λ other. not (queue == other)) w.subscribers;
}

-- `_offer`: while the queue is full, its oldest chunk goes.
unfoldable pub offer : Option Bytes → Queue → Queue
offer item [] = item ∷ []
offer item (chunk ∷ queue) =
    let rest = offer item queue in
    if ltb (length (chunk ∷ queue)) subscriber_queue_maxsize
    then (chunk ∷ queue) ++ item ∷ []
    else rest

abbrev pub offer_to : Option Bytes → ℕ → Dict ℕ Queue → Dict ℕ Queue
offer_to item queue queues = elim (get queues queue) [
  | none ↦ queues
  | some q ↦ put queue (offer item q) queues
]

unfoldable pub offer_all : Option Bytes → List ℕ → Dict ℕ Queue → Dict ℕ Queue
offer_all item [] queues = queues
offer_all item (queue ∷ subscribers) queues =
    offer_all item subscribers (offer_to item queue queues)

-- The chunks that stay for failure excerpts, and their size: the last one always does.
unfoldable pub trim_recent : ℕ → List Bytes → ℕ × List Bytes
trim_recent size [] = (size, [])
trim_recent size (chunk ∷ []) = (size, chunk ∷ [])
trim_recent size (chunk ∷ next ∷ recent) =
    let rest = trim_recent (size - length chunk) (next ∷ recent) in
    if ltb recent_buffer_size size then rest else (size, chunk ∷ next ∷ recent)

-- the first part of `write`, up to the subscribers
abbrev pub announce : Bytes → LogWriter → LogWriter
announce bytes w =
    let (size, recent) = trim_recent (w.recent_size + length bytes) (w.recent ++ bytes ∷ []) in
    record w {
      bytes_seen = w.bytes_seen + length bytes;
      recent = recent;
      recent_size = size;
      queues = offer_all (some bytes) w.subscribers w.queues;
    }

-- The oldest chunks of the tail go while it is too large.
unfoldable pub shed : ℕ → List Bytes → LogWriter → LogWriter
shed tail_limit [] w = record w { tail = [] }
shed tail_limit (chunk ∷ tail) w =
    let rest = shed tail_limit tail (record w {
      tail_size = w.tail_size - length chunk;
      dropped = w.dropped + length chunk;
      truncated = true;
    }) in
    if ltb tail_limit w.tail_size then rest else record w { tail = chunk ∷ tail }

-- the last part of `write`, for what is past the head budget
unfoldable pub keep_tail : Bytes → LogWriter → LogWriter
keep_tail bytes w =
    if is_nil bytes
    then w
    else shed (w.size_limit - w.size_limit / 2) (w.tail ++ bytes ∷ [])
        (record w { tail_size = w.tail_size + length bytes })

module _ (codec : Codec) where
  unfoldable pub flush_frame : LogWriter → LogWriter
  flush_frame w =
      if is_nil w.frame_buffer
      then w
      else record w { frame_buffer = []; file = w.file ++ codec.compress w.frame_buffer }

  abbrev pub buffer : Bytes → LogWriter → LogWriter
  buffer bytes w = record w { frame_buffer = w.frame_buffer ++ bytes }

  unfoldable pub append_frame : Bytes → LogWriter → LogWriter
  append_frame bytes w =
      if ltb (length (w.frame_buffer ++ bytes)) frame_flush_threshold
      then buffer bytes w
      else flush_frame (buffer bytes w)

  -- the middle part of `write`: the head budget, and what of the data is past it
  unfoldable pub write_head : Bytes → LogWriter → Bytes × LogWriter
  write_head bytes w =
      if ltb 0 w.head_budget
      then (
        drop (length (take w.head_budget bytes)) bytes,
        append_frame (take w.head_budget bytes)
            (record w { head_budget = w.head_budget - length (take w.head_budget bytes) }),
      )
      else (bytes, w)

  unfoldable pub write : Bytes → LogWriter → LogWriter
  write bytes w =
      if is_nil bytes
      then w
      else let (rest, w') = write_head bytes (announce bytes w) in keep_tail rest w'

  abbrev pub marker : ℕ → Bytes
  marker n =
      codec.encode "\n\n... log truncated ("
      ++ codec.encode (codec.decimal n)
      ++ codec.encode " bytes omitted) ...\n\n"

  unfoldable pub append_all : List Bytes → LogWriter → LogWriter
  append_all [] w = w
  append_all (chunk ∷ chunks) w = append_all chunks (append_frame chunk w)

  unfoldable pub append_marker : LogWriter → LogWriter
  append_marker w = if ltb 0 w.dropped then append_frame (marker w.dropped) w else w

  unfoldable pub close : LogWriter → LogWriter
  close w =
      let w' =
        flush_frame (record (append_all w.tail (append_marker (record w { closed = true }))) {
          tail = [];
          tail_size = 0;
        }) in
      record w' { queues = offer_all none w'.subscribers w'.queues; subscribers = [] }

  abbrev pub read_log : LogWriter → Bytes
  read_log w = codec.decompress w.file

  -- `snapshot`, at a moment
  unfoldable pub snapshot : LogWriter → Bytes
  snapshot w = read_log w ++ w.frame_buffer ++ concat w.tail

-- The chunks that were written while the history was read leave the queue, by their size. The end
-- of the log is taken off as well, and offered again.
unfoldable pub skip_overlap : ℕ → Queue → Queue
skip_overlap overlap [] = []
skip_overlap overlap (none ∷ queue) = if ltb 0 overlap then queue else none ∷ queue
skip_overlap overlap (some chunk ∷ queue) =
    let rest = skip_overlap (overlap - length chunk) queue in
    if ltb 0 overlap then rest else some chunk ∷ queue

abbrev pub queue_in : ℕ → LogWriter → Queue
queue_in queue w = elim (get w.queues queue) [ none ↦ [] | some q ↦ q ]

-- `subscribe_with_history`: `during` is what others do to the log while the file is read.
module _ (codec : Codec) where
  abbrev pub history_of : (LogWriter → LogWriter) → LogWriter → Bytes
  history_of during w = let w' = during w in read_log codec w ++ w'.frame_buffer ++ concat w'.tail

  abbrev pub catch_up : ℕ → ℕ → LogWriter → LogWriter
  catch_up queue overlap w =
      let rest = skip_overlap overlap (queue_in queue w) in
      record w { queues = put queue (if w.closed then offer none rest else rest) w.queues }

  unfoldable pub subscribe_with_history :
      (LogWriter → LogWriter) → LogWriter → Bytes × ℕ × LogWriter
  subscribe_with_history during w =
      let (queue, subscribed) = subscribe w in
      let w' = during subscribed in
      (
        history_of during subscribed,
        queue,
        catch_up queue (w'.bytes_seen - subscribed.bytes_seen) w',
      )
