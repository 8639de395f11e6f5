-- ===== src/Executor/Logs/Closing.antt =====
-- executor.py, `LogWriter.close` and `read_log`: what a log that was written and closed reads as.
use nixbot.Prelude.{
  ◌⊎◌, ◌<◌, nil_eq, some_length, ℕ, ◌+◌, ◌-◌, ◌/◌, ◌≤◌, ◌≡◌, refl, ap, subst, sym, ◌∙◌, true, List,
  [], ◌∷◌, ◌++◌, length, length-append, is_nil, ltb, ltb→lt, lt→ltb, min, if◌then◌else◌, Bytes,
  concat, append_assoc, append-nil, Bool-cases, inl, inr, arith,
}
use nixbot.Executor.Logs.{
  Codec, LogWriter, new_log, announce, keep_tail, append_frame, write_head, write, close,
  append_all, append_marker, flush_frame, marker, read_log, snapshot,
}
use nixbot.Executor.Logs.Frames.{
  CodecLaws, IsFramed, append_frame-IsFramed, append_all-IsFramed, flush_frame-IsFramed,
}
use nixbot.Executor.Logs.Retention.{write-IsKept}
use nixbot.Executor.Logs.Tail.{IsKept, shed-IsBeside}

unfoldable pub write_all : Codec → List Bytes → LogWriter → LogWriter
write_all codec [] w = w
write_all codec (bytes ∷ chunks) w = write_all codec chunks (write codec bytes w)

-- The line that stands for what is left out, if anything is.
abbrev pub omission : Codec → Bytes → Bytes
omission codec lost = if is_nil lost then [] else marker codec (length lost)

module _ (codec : Codec) where
  new_log-IsKept : (size_limit : ℕ) → IsKept codec (new_log size_limit) []
  new_log-IsKept size_limit = record {
    head = [];
    lost = [];
    framed = ([], refl, refl);
    whole = refl;
    counted = refl;
    sized = refl;
    small = omega arith;
    budget = omega arith;
    first = λ _. (refl, refl);
    over = λ loss. absurd (omega (arith, loss));
  }

  write_all-IsKept :
      (chunks : List Bytes) (w : LogWriter) (all : Bytes)
      → IsKept codec w all
      → IsKept codec (write_all codec chunks w) (all ++ concat chunks)
  unfolding write_all
  write_all-IsKept [] w all c = rw (append-nil all) c
  write_all-IsKept (bytes ∷ chunks) w all c =
      subst (λ l. IsKept codec (write_all codec chunks (write codec bytes w)) l)
        (append_assoc all bytes (concat chunks))
        (write_all-IsKept chunks (write codec bytes w) (all ++ bytes)
          (write-IsKept codec bytes w all c))

  keep_tail_limit : (bytes : Bytes) (w : LogWriter) → (keep_tail bytes w).size_limit ≡ w.size_limit
  unfolding keep_tail
  keep_tail_limit bytes w = ground (
    arith,
    shed-IsBeside (w.size_limit - w.size_limit / 2) (w.tail ++ bytes ∷ [])
        (record w { tail_size = w.tail_size + length bytes }),
  )

  write_head_limit :
      (bytes : Bytes) (w : LogWriter) → (write_head codec bytes w).1.size_limit ≡ w.size_limit
  unfolding write_head append_frame flush_frame
  write_head_limit bytes w = ground arith

  write_limit : (bytes : Bytes) (w : LogWriter) → (write codec bytes w).size_limit ≡ w.size_limit
  unfolding write
  write_limit bytes w = elim (Bool-cases (is_nil bytes)) [
    | inl e ↦ rw (e, write) refl
    | inr e ↦
        let (rest, w') = write_head codec bytes (announce bytes w) in
        rw (e, write) (keep_tail_limit rest w' ∙ write_head_limit bytes (announce bytes w))
  ]

  write_all_limit :
      (chunks : List Bytes) (w : LogWriter) → (write_all codec chunks w).size_limit ≡ w.size_limit
  unfolding write_all
  write_all_limit [] w = refl
  write_all_limit (bytes ∷ chunks) w =
      write_all_limit chunks (write codec bytes w) ∙ write_limit bytes w

  marker-IsFramed :
      (w : LogWriter) (head lost : Bytes)
      → IsFramed codec w head
      → length lost ≡ w.dropped
      → IsFramed codec (append_marker codec w) (head ++ omission codec lost)
  unfolding append_marker
  marker-IsFramed w head [] c counted = rw (append-nil head) (ground (arith, c, counted))
  marker-IsFramed w head (x ∷ lost) c counted =
      rw (lt→ltb 0 w.dropped (omega (arith, counted)), append_marker)
        (subst
          (λ n.
            IsFramed codec (append_frame codec (marker codec w.dropped) w) (head ++ marker codec n))
          (sym counted) (append_frame-IsFramed codec (marker codec w.dropped) w head c))

  append_marker_tail : (w : LogWriter) → (append_marker codec w).tail ≡ w.tail
  unfolding append_marker append_frame flush_frame
  append_marker_tail w = ground arith

  framed-read :
      CodecLaws codec
      → (w : LogWriter) (content : Bytes) → IsFramed codec w content
      → w.frame_buffer ≡ []
      → read_log codec w ≡ content
  framed-read laws w content (frames, file, held) empty =
      ap codec.decompress file
      ∙ laws.across_frames frames
      ∙ sym (append-nil (concat frames))
      ∙ ap (λ l. concat frames ++ l) (sym empty)
      ∙ held

  close-read :
      CodecLaws codec
      → (w : LogWriter) (all : Bytes) (c : IsKept codec w all)
      → read_log codec (close codec w) ≡ c.head ++ (omission codec c.lost ++ concat w.tail)
  unfolding close
  close-read laws w all c =
      let w1 = append_marker codec (record w { closed = true }) in
      let marked = marker-IsFramed (record w { closed = true }) c.head c.lost c.framed c.counted in
      let drained : IsFramed codec (append_all codec w.tail w1)
          ((c.head ++ omission codec c.lost) ++ concat w.tail) =
        append_all-IsFramed codec w.tail w1 (c.head ++ omission codec c.lost) marked in
      let w2 =
        flush_frame codec (record (append_all codec w.tail w1) { tail = []; tail_size = 0 }) in
      let (flushed, empty) =
        flush_frame-IsFramed codec
          (record (append_all codec w.tail w1) { tail = []; tail_size = 0 })
          ((c.head ++ omission codec c.lost) ++ concat w.tail) drained in
      framed-read laws w2 ((c.head ++ omission codec c.lost) ++ concat w.tail) flushed empty
      ∙ append_assoc c.head (omission codec c.lost) (concat w.tail)

  snapshot-read :
      CodecLaws codec
      → (w : LogWriter) (all : Bytes) (c : IsKept codec w all)
      → snapshot codec w ≡ c.head ++ concat w.tail
  unfolding snapshot
  snapshot-read laws w all c =
      let (frames, file, held) = c.framed in
      ap (λ l. l ++ concat w.tail)
        (ap (λ l. l ++ w.frame_buffer) (ap codec.decompress file ∙ laws.across_frames frames)
          ∙ held)

  head_length :
      (w : LogWriter) (all : Bytes) (c : IsKept codec w all)
      → length c.head ≡ min (w.size_limit / 2) (length all)
  head_length w all c = elim (Bool-cases (ltb 0 w.head_budget)) [
    | inl e ↦
        let (none_lost, no_tail) = c.first (ltb→lt 0 w.head_budget e) in
        omega (
          arith,
          c.budget,
          ap length c.whole,
          length-append c.head (c.lost ++ concat w.tail),
          length-append c.lost (concat w.tail),
          ap length none_lost,
          ap (λ l. length (concat l)) no_tail,
        )
    | inr e ↦
        let full : w.head_budget ≡ 0 = ground (arith, e) in
        omega
          (arith, full, c.budget, ap length c.whole, length-append c.head (c.lost ++ concat w.tail))
  ]

  not_lost :
      (w : LogWriter) (all : Bytes) (c : IsKept codec w all)
      → (c.lost ≡ []) ⊎ (w.size_limit < length all)
  not_lost w all c = elim (Bool-cases (is_nil c.lost)) [
    | inl e ↦ inl (nil_eq c.lost e)
    | inr e ↦ inr (c.over (omega (arith, c.counted, some_length c.lost e)))
  ]

  -- If frames that are compressed one behind the other decompress to what they hold: whatever is
  -- written to a log of a size limit, in whatever chunks, the data is a head, a lost middle and a
  -- tail; the log reads, when it is closed, as the head, the line that tells how much is left out
  -- if anything is, and the tail, and its snapshot before as the head and the tail. The head is
  -- half the limit long, or all of the data if that is shorter; the tail is no longer than the
  -- other half; and nothing is lost, or the data is longer than the limit.
  pub write-close-read :
      CodecLaws codec
      → (size_limit : ℕ) (chunks : List Bytes)
      → (head lost tail : Bytes) × (concat chunks ≡ head ++ (lost ++ tail))
        × (read_log codec (close codec (write_all codec chunks (new_log size_limit)))
            ≡ head ++ (omission codec lost ++ tail))
        × (snapshot codec (write_all codec chunks (new_log size_limit)) ≡ head ++ tail)
        × (length head ≡ min (size_limit / 2) (length (concat chunks)))
        × (length tail ≤ size_limit - size_limit / 2)
        × ((lost ≡ []) ⊎ (size_limit < length (concat chunks)))
  write-close-read laws size_limit chunks =
      let w = write_all codec chunks (new_log size_limit) in
      let c = write_all-IsKept chunks (new_log size_limit) [] (new_log-IsKept size_limit) in
      let limit = write_all_limit chunks (new_log size_limit) in
      (
        c.head,
        c.lost,
        concat w.tail,
        c.whole,
        close-read laws w (concat chunks) c,
        snapshot-read laws w (concat chunks) c,
        head_length w (concat chunks) c ∙ ap (λ n. min (n / 2) (length (concat chunks))) limit,
        omega (arith, c.sized, c.small, limit),
        subst (λ n. (c.lost ≡ []) ⊎ (n < length (concat chunks))) limit
            (not_lost w (concat chunks) c),
      )
