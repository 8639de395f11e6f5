-- ===== src/Executor/Logs/Subscribers.antt =====
-- executor.py, `LogWriter.subscribe_with_history`: the chunks that are written while the history
-- of a log is read.
use nixbot.Prelude.{
  ℕ, ◌+◌, ◌-◌, ◌≤◌, ◌<◌, ◌≡◌, refl, ap, sym, ◌∙◌, true, false, Option, none, some, List, [], ◌∷◌,
  ◌++◌, Dict, get, get-put, some_length, length, length-append, is_nil, lt→ltb, ◌/◌, ◌==◌, nat_eq,
  elem, if◌then◌else◌, Bytes, concat, append_assoc, append-nil, All, Option-cases, inl, inr, arith,
}
use nixbot.Executor.Logs.{
  Codec, LogWriter, Queue, subscribe, offer, offer_to, offer_all, announce, shed, keep_tail,
  append_frame, flush_frame, write_head, write, snapshot, subscribe_with_history, skip_overlap,
  queue_in, catch_up, subscriber_queue_maxsize,
}
use nixbot.Executor.Logs.Closing.{write_all}

-- A queue that is not full takes the item behind the others.
offer-append :
    (item : Option Bytes) (queue : Queue)
    → length queue < subscriber_queue_maxsize
    → offer item queue ≡ queue ++ item ∷ []
unfolding offer
offer-append item [] h = refl
offer-append item (chunk ∷ queue) h =
    rw (lt→ltb (length (chunk ∷ queue)) subscriber_queue_maxsize h) refl

offer_to-other :
    (item : Option Bytes) (queue other : ℕ) (queues : Dict ℕ Queue)
    → (other == queue) ≡ false
    → get (offer_to item other queues) queue ≡ get queues queue
offer_to-other item queue other queues h = elim (Option-cases (get queues other)) [
  | inl e ↦ rw (e, offer_to) refl
  | inr (q, e) ↦ rw (e, offer_to) (ground (arith, get-put queues other queue (offer item q), h))
]

offer_to-same :
    (item : Option Bytes) (queue : ℕ) (queues : Dict ℕ Queue) (q : Queue)
    → get queues queue ≡ some q
    → get (offer_to item queue queues) queue ≡ some (offer item q)
offer_to-same item queue queues q e =
    rw (e, offer_to)
      (ground (arith, get-put queues queue queue (offer item q), nat_eq.beq_iff queue queue))

-- The last subscriber is offered the item once.
offer_all-last :
    (item : Option Bytes) (queue : ℕ) (subscribers : List ℕ) (queues : Dict ℕ Queue) (q : Queue)
    → elem queue subscribers ≡ false
    → get queues queue ≡ some q
    → get (offer_all item (subscribers ++ queue ∷ []) queues) queue ≡ some (offer item q)
unfolding offer_all elem
offer_all-last item queue [] queues q h e = offer_to-same item queue queues q e
offer_all-last item queue (other ∷ subscribers) queues q h e =
    offer_all-last item queue subscribers (offer_to item other queues) q (ground (arith, h)) (
      offer_to-other item queue other queues
        (ground (arith, h, nat_eq.beq_iff other queue, nat_eq.beq_iff queue other))
      ∙ e)

-- What a write does to the queues and the counter, it does before the head and the tail.
write_head_queues :
    (codec : Codec) (bytes : Bytes) (w : LogWriter)
    → ((write_head codec bytes w).1.queues ≡ w.queues)
      × ((write_head codec bytes w).1.subscribers ≡ w.subscribers)
      × ((write_head codec bytes w).1.bytes_seen ≡ w.bytes_seen)
      × ((write_head codec bytes w).1.closed ≡ w.closed)
unfolding write_head append_frame flush_frame
write_head_queues codec bytes w = ground arith

shed_queues :
    (limit : ℕ) (tail : List Bytes) (w : LogWriter)
    → ((shed limit tail w).queues ≡ w.queues)
      × ((shed limit tail w).subscribers ≡ w.subscribers)
      × ((shed limit tail w).bytes_seen ≡ w.bytes_seen)
      × ((shed limit tail w).closed ≡ w.closed)
unfolding shed
shed_queues limit [] w = (refl, refl, refl, refl)
shed_queues limit (chunk ∷ tail) w = ground (
  arith,
  shed_queues limit tail (record w {
    tail_size = w.tail_size - length chunk;
    dropped = w.dropped + length chunk;
    truncated = true;
  }),
)

keep_tail_queues :
    (bytes : Bytes) (w : LogWriter)
    → ((keep_tail bytes w).queues ≡ w.queues)
      × ((keep_tail bytes w).subscribers ≡ w.subscribers)
      × ((keep_tail bytes w).bytes_seen ≡ w.bytes_seen)
      × ((keep_tail bytes w).closed ≡ w.closed)
unfolding keep_tail
keep_tail_queues bytes w = ground (
  arith,
  shed_queues (w.size_limit - w.size_limit / 2) (w.tail ++ bytes ∷ [])
      (record w { tail_size = w.tail_size + length bytes }),
)

write_queues :
    (codec : Codec) (bytes : Bytes) (w : LogWriter)
    → is_nil bytes ≡ false
    → ((write codec bytes w).queues ≡ offer_all (some bytes) w.subscribers w.queues)
      × ((write codec bytes w).subscribers ≡ w.subscribers)
      × ((write codec bytes w).bytes_seen ≡ w.bytes_seen + length bytes)
      × ((write codec bytes w).closed ≡ w.closed)
unfolding write
write_queues codec bytes w e =
    let (rest, w') = write_head codec bytes (announce bytes w) in
    let (queues, subscribers, seen, closed) = write_head_queues codec bytes (announce bytes w) in
    let (queues', subscribers', seen', closed') = keep_tail_queues rest w' in
    rw (e, write) (queues' ∙ queues, subscribers' ∙ subscribers, seen' ∙ seen, closed' ∙ closed)

abbrev some_chunks : List Bytes → Queue
some_chunks [] = []
some_chunks (chunk ∷ chunks) = some chunk ∷ some_chunks chunks

skip_overlap-concat :
    (chunks : List Bytes)
    → All (λ chunk. is_nil chunk ≡ false) chunks
    → skip_overlap (length (concat chunks)) (some_chunks chunks) ≡ []
unfolding skip_overlap
skip_overlap-concat [] h = refl
skip_overlap-concat (chunk ∷ chunks) (some_byte, h) =
    let total = length-append chunk (concat chunks) in
    let left : length (chunk ++ concat chunks) - length chunk ≡ length (concat chunks) =
      omega (arith, total) in
    rw
      (
        lt→ltb 0 (length (chunk ++ concat chunks))
            (omega (arith, total, some_length chunk some_byte)),
        left,
      )
      (skip_overlap-concat chunks h)

write_all_queue :
    (codec : Codec) (chunks : List Bytes) (w : LogWriter) (queue : ℕ) (others : List ℕ) (q : Queue)
    → All (λ chunk. is_nil chunk ≡ false) chunks
    → w.subscribers ≡ others ++ queue ∷ []
    → elem queue others ≡ false
    → get w.queues queue ≡ some q
    → length q + length chunks ≤ subscriber_queue_maxsize
    → (get (write_all codec chunks w).queues queue ≡ some (q ++ some_chunks chunks))
      × ((write_all codec chunks w).bytes_seen ≡ w.bytes_seen + length (concat chunks))
      × ((write_all codec chunks w).closed ≡ w.closed)
unfolding write_all
write_all_queue codec [] w queue others q h s new e room = (rw (append-nil q) e, omega arith, refl)
write_all_queue codec (chunk ∷ chunks) w queue others q (some_byte, h) s new e room =
    let (queues, subscribers, seen, closed) = write_queues codec chunk w some_byte in
    let offered : get (write codec chunk w).queues queue ≡ some (q ++ some chunk ∷ []) =
      ap (λ d. get d queue) (queues ∙ ap (λ l. offer_all (some chunk) l w.queues) s)
      ∙ offer_all-last (some chunk) queue others w.queues q new e
      ∙ ap some (offer-append (some chunk) q (omega arith)) in
    let (queue_then, seen_then, closed_then) =
      write_all_queue codec chunks (write codec chunk w) queue others (q ++ some chunk ∷ []) h
        (subscribers ∙ s) new offered (omega (arith, length-append q (some chunk ∷ []), room)) in
    (
      queue_then ∙ ap some (append_assoc q (some chunk ∷ []) (some_chunks chunks)),
      omega (arith, seen_then, seen, length-append chunk (concat chunks)),
      closed_then ∙ closed,
    )

-- The queue that is left, where all of it was overlap and the log is open.
catch_up-queue :
    (codec : Codec) (queue overlap : ℕ) (w : LogWriter) (q : Queue)
    → get w.queues queue ≡ some q
    → w.closed ≡ false
    → skip_overlap overlap q ≡ []
    → queue_in queue (catch_up codec queue overlap w) ≡ []
catch_up-queue codec queue overlap w q e opened h =
    let held : queue_in queue w ≡ q = rw (e, queue_in) refl in
    let rest : skip_overlap overlap (queue_in queue w) ≡ [] = ap (skip_overlap overlap) held ∙ h in
    let put_back = get-put w.queues queue queue (
      if w.closed
      then offer none (skip_overlap overlap (queue_in queue w))
      else skip_overlap overlap (queue_in queue w)) in
    ground (arith, put_back, opened, rest, nat_eq.beq_iff queue queue)

-- A subscriber of an open log, with a queue of a new number, while whose history is read up to 256
-- chunks are written that are not empty and lead to no flush, gets as history the snapshot after
-- these writes, and a queue without any of them.
pub subscribe_with_history-snapshot :
    (codec : Codec) (chunks : List Bytes) (w : LogWriter)
    → All (λ chunk. is_nil chunk ≡ false) chunks
    → length chunks ≤ subscriber_queue_maxsize
    → elem w.next_queue w.subscribers ≡ false
    → w.closed ≡ false
    → (write_all codec chunks (subscribe w).1).file ≡ w.file
    → ((subscribe_with_history codec (write_all codec chunks) w).0
        ≡ snapshot codec (write_all codec chunks (subscribe w).1))
      × (queue_in
            (subscribe_with_history codec (write_all codec chunks) w).1
            (subscribe_with_history codec (write_all codec chunks) w).2
          ≡ [])
unfolding subscribe_with_history snapshot
subscribe_with_history-snapshot codec chunks w h room new opened file =
    let s = (subscribe w).1 in
    let w' = write_all codec chunks s in
    let queue = w.next_queue in
    let (queued, seen, closed) =
      write_all_queue codec chunks s queue w.subscribers [] h refl new
        (ground (arith, get-put w.queues queue queue [], nat_eq.beq_iff queue queue))
        (omega (arith, room)) in
    let overlap : w'.bytes_seen - w.bytes_seen ≡ length (concat chunks) = omega (arith, seen) in
    (
      ap (λ bytes. codec.decompress bytes ++ w'.frame_buffer ++ concat w'.tail) (sym file),
      catch_up-queue codec queue (w'.bytes_seen - w.bytes_seen) w' (some_chunks chunks) queued
          (closed ∙ opened)
          (ap (λ n. skip_overlap n (some_chunks chunks)) overlap ∙ skip_overlap-concat chunks h),
    )
