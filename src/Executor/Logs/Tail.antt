-- ===== src/Executor/Logs/Tail.antt =====
-- executor.py, `LogWriter.write`: what stays of the data past the head budget.
use nixbot.Prelude.{
  nil_eq, ℕ, ◌+◌, ◌-◌, ◌/◌, ◌≤◌, ◌<◌, ◌≡◌, refl, ap, sym, ◌∙◌, true, false, List, [], ◌∷◌, ◌++◌,
  length, length-append, is_nil, ltb, Bytes, concat, append_assoc, append-nil, concat-append,
  Bool-cases, inl, inr, arith, ltb→lt,
}
use nixbot.Executor.Logs.{Codec, LogWriter, announce, shed, keep_tail}
use nixbot.Executor.Logs.Frames.{IsFramed}

-- A log has its head in frames, its tail in memory, and counts what it lost in between.
pub record IsKept (codec : Codec) (w : LogWriter) (all : Bytes) : Type 0 where
  pub head : Bytes
  pub lost : Bytes
  pub framed : IsFramed codec w head
  pub whole : all ≡ head ++ (lost ++ concat w.tail)
  pub counted : length lost ≡ w.dropped
  pub sized : w.tail_size ≡ length (concat w.tail)
  pub small : w.tail_size ≤ w.size_limit - w.size_limit / 2
  pub budget : w.head_budget + length head ≡ w.size_limit / 2
  pub first : 0 < w.head_budget → (lost ≡ []) × (w.tail ≡ [])
  pub over : 0 < w.dropped → w.size_limit < length all

-- The fields that neither the tail nor its loss touches.
abbrev pub IsBeside : LogWriter → LogWriter → Type 0
IsBeside w w' =
    (w'.file ≡ w.file)
    × (w'.frame_buffer ≡ w.frame_buffer)
    × (w'.size_limit ≡ w.size_limit)
    × (w'.head_budget ≡ w.head_budget)
    × (w'.bytes_seen ≡ w.bytes_seen)

pub shed-IsBeside : (limit : ℕ) (tail : List Bytes) (w : LogWriter) → IsBeside w (shed limit tail w)
unfolding shed
shed-IsBeside limit [] w = (refl, refl, refl, refl, refl)
shed-IsBeside limit (chunk ∷ tail) w = ground (
  arith,
  shed-IsBeside limit tail (record w {
    tail_size = w.tail_size - length chunk;
    dropped = w.dropped + length chunk;
    truncated = true;
  }),
)

shed-lost :
    (limit : ℕ) (tail : List Bytes) (w : LogWriter) (lost : Bytes)
    → length lost ≡ w.dropped
    → w.tail_size ≡ length (concat tail)
    → (more : Bytes) × (lost ++ concat tail ≡ more ++ concat (shed limit tail w).tail)
      × (length more ≡ (shed limit tail w).dropped)
      × ((shed limit tail w).tail_size ≡ length (concat (shed limit tail w).tail))
      × ((shed limit tail w).tail_size ≤ limit)
      × ((w.dropped < (shed limit tail w).dropped) → limit < w.tail_size)
unfolding shed
shed-lost limit [] w lost counted sized =
    (lost, refl, counted, sized, omega (arith, sized), λ h. omega arith)
shed-lost limit (chunk ∷ tail) w lost counted sized = elim (Bool-cases (ltb limit w.tail_size)) [
  | inl e ↦
      let (more, whole, count, size, small, over) =
        shed-lost limit tail
          (record w {
            tail_size = w.tail_size - length chunk;
            dropped = w.dropped + length chunk;
            truncated = true;
          })
          (lost ++ chunk) (omega (arith, counted, length-append lost chunk))
          (omega (arith, sized, length-append chunk (concat tail))) in
      rw (e, shed)
        (
          more,
          sym (append_assoc lost chunk (concat tail)) ∙ whole,
          count,
          size,
          small,
          λ h. ground (arith, e),
        )
  | inr e ↦ rw (e, shed) (lost, refl, counted, sized, ground (arith, e), λ h. omega arith)
]

past_half : (n : ℕ) → (n - n / 2) + n / 2 ≡ n
past_half n = omega arith

pub keep_tail-IsKept :
    (codec : Codec) (bytes : Bytes) (w : LogWriter) (all : Bytes)
    → IsKept codec w all
    → (is_nil bytes ≡ false → w.head_budget ≡ 0)
    → IsKept codec (keep_tail bytes w) (all ++ bytes)
unfolding keep_tail
keep_tail-IsKept codec bytes w all c full = elim (Bool-cases (is_nil bytes)) [
  | inl e ↦ rw (e, keep_tail) (rw (nil_eq bytes e, append-nil all) c)
  | inr e ↦
      let limit = w.size_limit - w.size_limit / 2 in
      let w' = record w { tail_size = w.tail_size + length bytes } in
      let tail = w.tail ++ bytes ∷ [] in
      let joined : concat tail ≡ concat w.tail ++ bytes =
        concat-append w.tail (bytes ∷ []) ∙ ap (λ l. concat w.tail ++ l) (append-nil bytes) in
      let (more, whole, count, size, small, over) =
        shed-lost limit tail w' c.lost c.counted
          (omega (arith, c.sized, ap length joined, length-append (concat w.tail) bytes)) in
      let (file, frame_buffer, size_limit, head_budget, bytes_seen) = shed-IsBeside limit tail w' in
      let (frames, framed, held) = c.framed in
      let rest : all ++ bytes ≡ c.head ++ (more ++ concat (shed limit tail w').tail) =
        ap (λ l. l ++ bytes) c.whole
        ∙ append_assoc c.head (c.lost ++ concat w.tail) bytes
        ∙ ap (λ l. c.head ++ l)
            (append_assoc c.lost (concat w.tail) bytes
              ∙ ap (λ l. c.lost ++ l) (sym joined)
              ∙ whole) in
      rw (e, keep_tail)
        (record {
          head = c.head;
          lost = more;
          framed = (frames, file ∙ framed, ap (λ l. concat frames ++ l) frame_buffer ∙ held);
          whole = rest;
          counted = count;
          sized = size;
          small = omega (arith, small, size_limit);
          budget = omega (arith, c.budget, size_limit, head_budget);
          first = λ room. absurd (omega (arith, room, full e, head_budget));
          over = λ loss. elim (Bool-cases (ltb w.dropped (shed limit tail w').dropped)) [
            | inl more_lost ↦
                let large = over (ltb→lt w.dropped (shed limit tail w').dropped more_lost) in
                omega (
                  arith,
                  large,
                  size_limit,
                  full e,
                  c.budget,
                  past_half w.size_limit,
                  c.sized,
                  ap length c.whole,
                  length-append all bytes,
                  length-append c.head (c.lost ++ concat w.tail),
                  length-append c.lost (concat w.tail),
                )
            | inr same ↦
                let room : 0 < w.dropped = ground (arith, same, loss) in
                omega (arith, c.over room, size_limit, length-append all bytes)
          ];
        })
]

pub announce-IsKept :
    (codec : Codec) (bytes : Bytes) (w : LogWriter) (all : Bytes)
    → IsKept codec w all
    → IsKept codec (announce bytes w) all
announce-IsKept codec bytes w all c = record {
  head = c.head;
  lost = c.lost;
  framed = c.framed;
  whole = c.whole;
  counted = c.counted;
  sized = c.sized;
  small = c.small;
  budget = c.budget;
  first = c.first;
  over = c.over;
}
