-- ===== src/Executor/Logs/Lines.antt =====
-- executor.py, `iter_lines`: the lines of a stream that is read in chunks.
use nixbot.Prelude.{
  nil_eq, some_length, ℕ, zero, suc, ◌+◌, ◌≤◌, ◌<◌, ◌≡◌, refl, ap, sym, ◌∙◌, ◌⊎◌, Bool, true, false,
  Option, none, some, List, [], ◌∷◌, ◌++◌, length, length-append, is_nil, ltb, ◌==◌, nat_eq,
  if◌then◌else◌, Bytes, concat, append_assoc, append-nil, concat-append, All, All-append,
  Bool-cases, Option-cases, inl, inr, arith,
}

-- `buffer.find(b"\n")`, and the buffer cut behind it
unfoldable pub cut_line : Bytes → Option (Bytes × Bytes)
cut_line [] = none
cut_line (b ∷ buffer) =
    if b == 10
    then some (b ∷ [], buffer)
    else elim (cut_line buffer) [ none ↦ none | some (line, rest) ↦ some (b ∷ line, rest) ]

-- The lines of a buffer, and what is behind the last one; each takes at least a byte.
unfoldable pub take_lines : ℕ → Bytes → List Bytes × Bytes
take_lines zero buffer = ([], buffer)
take_lines (suc fuel) buffer = elim (cut_line buffer) [
  | none ↦ ([], buffer)
  | some (line, rest) ↦ let (lines, last) = take_lines fuel rest in (line ∷ lines, last)
]

abbrev pub flush_long : ℕ → Bytes → List Bytes × Bytes
flush_long max_line buffer =
    if ltb max_line (length buffer) then (buffer ∷ [], []) else ([], buffer)

-- a turn of the outer loop, for the buffer with the chunk that was read
unfoldable pub feed : ℕ → Bytes → List Bytes × Bytes
feed max_line buffer =
    let (lines, rest) = take_lines (length buffer) buffer in
    let (long, kept) = flush_long max_line rest in (lines ++ long, kept)

-- `iter_lines` on the chunks of a stream, each not empty
unfoldable pub iter_lines : ℕ → Bytes → List Bytes → List Bytes
iter_lines max_line buffer [] = if is_nil buffer then [] else buffer ∷ []
iter_lines max_line buffer (chunk ∷ chunks) =
    let (lines, kept) = feed max_line (buffer ++ chunk) in lines ++ iter_lines max_line kept chunks

-- Whether a piece is a line with its newline, or a part of one without.
unfoldable pub has_newline : Bytes → Bool
has_newline [] = false
has_newline (b ∷ bytes) = if b == 10 then true else has_newline bytes

unfoldable pub is_line : Bytes → Bool
is_line [] = false
is_line (b ∷ bytes) = if b == 10 then is_nil bytes else is_line bytes

cut_line-append :
    (buffer line rest : Bytes)
    → cut_line buffer ≡ some (line, rest)
    → (line ++ rest ≡ buffer) × (is_line line ≡ true)
unfolding cut_line is_line
cut_line-append [] line rest h = ground (arith, h)
cut_line-append (b ∷ buffer) line rest h = elim (Bool-cases (b == 10)) [
  | inl e ↦
      let same : some (b ∷ [], buffer) ≡ some (line, rest) = rw (e, cut_line) at h in
      let l : line ≡ b ∷ [] = ground (arith, same) in
      let r : rest ≡ buffer = ground (arith, same) in rw (l, r) (refl, rw e refl)
  | inr e ↦ elim (Option-cases (cut_line buffer)) [
    | inl n ↦ absurd (ground (arith, rw (e, cut_line, n) at h))
    | inr ((front, back), s) ↦
        let same : some (b ∷ front, back) ≡ some (line, rest) = rw (e, cut_line, s) at h in
        let l : line ≡ b ∷ front = ground (arith, same) in
        let r : rest ≡ back = ground (arith, same) in
        let (joined, ends) = cut_line-append buffer front back s in
        rw (l, r) (ap (λ m. b ∷ m) joined, rw e ends)
  ]
]

cut_line-none : (buffer : Bytes) → cut_line buffer ≡ none → has_newline buffer ≡ false
unfolding cut_line has_newline
cut_line-none [] h = refl
cut_line-none (b ∷ buffer) h = ground (arith, cut_line-none buffer, h)

-- What is yielded: a line, or a part of one that has no newline.
abbrev pub IsPiece : ℕ → Bytes → Type 0
IsPiece limit piece =
    ((is_line piece ≡ true) ⊎ (has_newline piece ≡ false))
    × (0 < length piece)
    × (length piece ≤ limit)

line_length : (line : Bytes) → is_line line ≡ true → 0 < length line
unfolding is_line
line_length [] h = ground (arith, h)
line_length (b ∷ line) h = omega arith

module _ (limit : ℕ) where
  take_lines-pieces :
      (fuel : ℕ) (buffer : Bytes)
      → length buffer ≤ fuel
      → length buffer ≤ limit
      → (concat (take_lines fuel buffer).0 ++ (take_lines fuel buffer).1 ≡ buffer)
        × All (IsPiece limit) (take_lines fuel buffer).0
        × (has_newline (take_lines fuel buffer).1 ≡ false)
        × (length (take_lines fuel buffer).1 ≤ limit)
  unfolding take_lines has_newline
  take_lines-pieces zero [] enough small = (refl, tt, refl, small)
  take_lines-pieces zero (b ∷ buffer) enough small = absurd (omega (arith, enough))
  take_lines-pieces (suc fuel) buffer enough small = elim (Option-cases (cut_line buffer)) [
    | inl e ↦ rw (e, take_lines) (refl, tt, cut_line-none buffer e, small)
    | inr ((line, rest), e) ↦
        let (joined, ends) = cut_line-append buffer line rest e in
        let some_bytes = line_length line ends in
        let total = ap length joined in
        let (whole, pieces, none_left, kept) =
          take_lines-pieces fuel rest
            (omega (arith, enough, total, length-append line rest, some_bytes))
            (omega (arith, small, total, length-append line rest)) in
        rw (e, take_lines)
          (
            append_assoc line (concat (take_lines fuel rest).0) (take_lines fuel rest).1
                ∙ ap (λ l. line ++ l) whole
                ∙ joined,
            ((inl ends, some_bytes, omega (arith, small, total, length-append line rest)), pieces),
            none_left,
            kept,
          )
  ]

  -- A part that is too long is a piece; what is kept is no longer than a line may be.
  flush_long-pieces :
      (max_line : ℕ) (buffer : Bytes)
      → has_newline buffer ≡ false
      → length buffer ≤ limit
      → (concat (flush_long max_line buffer).0 ++ (flush_long max_line buffer).1 ≡ buffer)
        × All (IsPiece limit) (flush_long max_line buffer).0
        × (has_newline (flush_long max_line buffer).1 ≡ false)
        × (length (flush_long max_line buffer).1 ≤ max_line)
  unfolding has_newline
  flush_long-pieces max_line buffer part small = elim (Bool-cases (ltb max_line (length buffer))) [
    | inl e ↦ rw e (
      append-nil (buffer ++ []) ∙ append-nil buffer,
      ((inr part, ground (arith, e), small), tt),
      refl,
      omega arith,
    )
    | inr e ↦ rw e (refl, tt, part, ground (arith, e))
  ]

  feed-pieces :
      (max_line : ℕ) (buffer : Bytes)
      → length buffer ≤ limit
      → (concat (feed max_line buffer).0 ++ (feed max_line buffer).1 ≡ buffer)
        × All (IsPiece limit) (feed max_line buffer).0
        × (has_newline (feed max_line buffer).1 ≡ false)
        × (length (feed max_line buffer).1 ≤ max_line)
  unfolding feed
  feed-pieces max_line buffer small =
      let (lines, rest) = take_lines (length buffer) buffer in
      let (whole, pieces, part, left) =
        take_lines-pieces (length buffer) buffer (omega arith) small in
      let (long, kept) = flush_long max_line rest in
      let (whole', pieces', part', left') = flush_long-pieces max_line rest part left in
      (
        ap (λ l. l ++ kept) (concat-append lines long)
            ∙ append_assoc (concat lines) (concat long) kept
            ∙ ap (λ l. concat lines ++ l) whole'
            ∙ whole,
        All-append (IsPiece limit) lines long pieces pieces',
        part',
        left',
      )

  iter_lines-rest :
      (max_line chunk_size : ℕ) (buffer : Bytes) (chunks : List Bytes)
      → max_line + chunk_size ≤ limit
      → has_newline buffer ≡ false
      → length buffer ≤ max_line
      → All (λ chunk. length chunk ≤ chunk_size) chunks
      → (concat (iter_lines max_line buffer chunks) ≡ buffer ++ concat chunks)
        × All (IsPiece limit) (iter_lines max_line buffer chunks)
  unfolding iter_lines
  iter_lines-rest max_line chunk_size buffer [] room part small sizes =
      elim (Bool-cases (is_nil buffer)) [
        | inl e ↦ rw (e, iter_lines) (ap (λ l. l ++ []) (sym (nil_eq buffer e)), tt)
        | inr e ↦
            rw (e, iter_lines)
              (refl, ((inr part, some_length buffer e, omega (arith, small, room)), tt))
      ]
  iter_lines-rest max_line chunk_size buffer (chunk ∷ chunks) room part small (size, sizes) =
      let (lines, kept) = feed max_line (buffer ++ chunk) in
      let (whole, pieces, part', small') =
        feed-pieces max_line (buffer ++ chunk)
          (omega (arith, length-append buffer chunk, small, size, room)) in
      let (whole', pieces') =
        iter_lines-rest max_line chunk_size kept chunks room part' small' sizes in
      (
        concat-append lines (iter_lines max_line kept chunks)
            ∙ ap (λ l. concat lines ++ l) whole'
            ∙ sym (append_assoc (concat lines) kept (concat chunks))
            ∙ ap (λ l. l ++ concat chunks) whole
            ∙ append_assoc buffer chunk (concat chunks),
        All-append (IsPiece limit) lines (iter_lines max_line kept chunks) pieces pieces',
      )

-- For chunks of at most a given size, the pieces that iter_lines yields are together the stream,
-- and each is not empty, is a line that ends with its only newline or a part without one, and is no
-- longer than the longest line and a chunk.
pub iter_lines-pieces :
    (max_line chunk_size : ℕ) (chunks : List Bytes)
    → All (λ chunk. length chunk ≤ chunk_size) chunks
    → (concat (iter_lines max_line [] chunks) ≡ concat chunks)
      × All (IsPiece (max_line + chunk_size)) (iter_lines max_line [] chunks)
unfolding has_newline
iter_lines-pieces max_line chunk_size chunks sizes =
    iter_lines-rest (max_line + chunk_size) max_line chunk_size [] chunks (omega arith) refl
      (omega arith) sizes
