-- ===== src/Executor/Logs/Retention.antt =====
-- executor.py, `LogWriter.write`: what of the data stays, at the head and at the tail.
use nixbot.Prelude.{
  nil_eq, ℕ, zero, suc, ◌-◌, ◌<◌, ◌≡◌, refl, ap, subst, sym, ◌∙◌, false, List, [], ◌∷◌, ◌++◌,
  length, length-append, is_nil, ltb, Bytes, concat, take, drop, take-drop, append_assoc,
  append-nil, Bool-cases, inl, inr, arith, ltb→lt, length-take,
}
use nixbot.Executor.Logs.{Codec, LogWriter, announce, keep_tail, append_frame, write_head, write}
use nixbot.Executor.Logs.Frames.{append_frame-IsFramed, append_frame_rest}
use nixbot.Executor.Logs.Tail.{IsKept, keep_tail-IsKept, announce-IsKept}

-- Before the head is full nothing stands behind it.
head_only :
    (all head chunk lost : Bytes) (tail tail' : List Bytes)
    → all ≡ head ++ (lost ++ concat tail)
    → lost ≡ []
    → tail ≡ []
    → tail' ≡ []
    → all ++ chunk ≡ (head ++ chunk) ++ (lost ++ concat tail')
head_only all head chunk lost tail tail' whole none_lost no_tail no_tail' =
    ap (λ l. l ++ chunk)
      (whole
        ∙ ap (λ l. head ++ (l ++ concat tail)) none_lost
        ∙ ap (λ l. head ++ concat l) no_tail
        ∙ append-nil head)
    ∙ sym (
        ap (λ l. (head ++ chunk) ++ (l ++ concat tail')) none_lost
        ∙ ap (λ l. (head ++ chunk) ++ concat l) no_tail'
        ∙ append-nil (head ++ chunk))

rest_left : (n : ℕ) (bytes : Bytes) → is_nil (drop n bytes) ≡ false → n < length bytes
rest_left zero [] h = ground (arith, h)
rest_left zero (x ∷ bytes) h = omega arith
rest_left (suc n) [] h = ground (arith, h)
rest_left (suc n) (x ∷ bytes) h = omega (arith, rest_left n bytes h)

-- The part of the data that fits goes to the head; if any is left, the head is full.
write_head-IsKept :
    (codec : Codec) (bytes : Bytes) (w : LogWriter) (all : Bytes)
    → IsKept codec w all
    → (chunk : Bytes) × (chunk ++ (write_head codec bytes w).0 ≡ bytes)
      × IsKept codec (write_head codec bytes w).1 (all ++ chunk)
      × (is_nil (write_head codec bytes w).0 ≡ false → (write_head codec bytes w).1.head_budget ≡ 0)
unfolding write_head
write_head-IsKept codec bytes w all c = elim (Bool-cases (ltb 0 w.head_budget)) [
  | inr e ↦ rw (e, write_head) ([], refl, rw (append-nil all) c, λ h. ground (arith, e))
  | inl e ↦
      let chunk = take w.head_budget bytes in
      let w' = record w { head_budget = w.head_budget - length chunk } in
      let (frames, framed, held) = append_frame-IsFramed codec chunk w' c.head c.framed in
      let (tail, tail_size, dropped, size_limit, head_budget, bytes_seen) =
        append_frame_rest codec chunk w' in
      let (none_lost, no_tail) = c.first (ltb→lt 0 w.head_budget e) in
      rw (e, write_head)
        (
          chunk,
          take-drop w.head_budget bytes,
          record {
            head = c.head ++ chunk;
            lost = c.lost;
            framed = (frames, framed, held);
            whole =
                head_only all c.head chunk c.lost w.tail (append_frame codec chunk w').tail c.whole
                  none_lost no_tail (tail ∙ no_tail);
            counted = c.counted ∙ sym dropped;
            sized = tail_size ∙ c.sized ∙ ap (λ l. length (concat l)) (sym tail);
            small = omega (arith, c.small, tail_size, size_limit);
            budget = omega (
              arith,
              c.budget,
              head_budget,
              size_limit,
              length-append c.head chunk,
              length-take w.head_budget bytes,
            );
            first = λ _. (none_lost, tail ∙ no_tail);
            over = λ loss. omega (arith, loss, dropped, c.counted, ap length none_lost);
          },
          λ more. omega (
            arith,
            rest_left (length chunk) bytes more,
            length-take w.head_budget bytes,
            head_budget,
          ),
        )
]

pub write-IsKept :
    (codec : Codec) (bytes : Bytes) (w : LogWriter) (all : Bytes)
    → IsKept codec w all
    → IsKept codec (write codec bytes w) (all ++ bytes)
unfolding write
write-IsKept codec bytes w all c = elim (Bool-cases (is_nil bytes)) [
  | inl e ↦ rw (e, write) (rw (nil_eq bytes e, append-nil all) c)
  | inr e ↦
      let (chunk, joined, kept, full) =
        write_head-IsKept codec bytes (announce bytes w) all
          (announce-IsKept codec bytes w all c) in
      let (rest, w') = write_head codec bytes (announce bytes w) in
      rw (e, write)
        (subst (λ l. IsKept codec (keep_tail rest w') l)
          (append_assoc all chunk rest ∙ ap (λ l. all ++ l) joined)
          (keep_tail-IsKept codec rest w' (all ++ chunk) kept full))
]
