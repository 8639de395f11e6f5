-- ===== src/Executor/Logs/Frames.antt =====
-- executor.py: what the frames of a log and the buffer behind them hold.
use nixbot.Prelude.{
  nil_eq, ◌≡◌, refl, ap, sym, ◌∙◌, List, [], ◌∷◌, ◌++◌, length, is_nil, ltb, Bytes, concat,
  flat_map, append_assoc, append-nil, concat-append, Bool-cases, inl, inr, arith,
}
use nixbot.Executor.Logs.{
  Codec, LogWriter, flush_frame, append_frame, append_all, buffer, frame_flush_threshold,
}

-- What is compressed in frames, one behind the other, is read in full.
pub record CodecLaws (codec : Codec) : Type 0 where
  pub across_frames :
      (frames : List Bytes) → codec.decompress (flat_map codec.compress frames) ≡ concat frames

-- The file is a sequence of frames; with the buffer they hold the content.
abbrev pub IsFramed : Codec → LogWriter → Bytes → Type 0
IsFramed codec w content =
    (frames : List Bytes) × (w.file ≡ flat_map codec.compress frames)
    × (concat frames ++ w.frame_buffer ≡ content)

flat_map-append :
    (f : Bytes → Bytes) (xs : List Bytes) (x : Bytes)
    → flat_map f (xs ++ x ∷ []) ≡ flat_map f xs ++ f x
flat_map-append f [] x = append-nil (f x)
flat_map-append f (y ∷ xs) x =
    ap (λ l. f y ++ l) (flat_map-append f xs x) ∙ sym (append_assoc (f y) (flat_map f xs) (f x))

module _ (codec : Codec) where
  pub flush_frame-IsFramed :
      (w : LogWriter) (content : Bytes)
      → IsFramed codec w content
      → IsFramed codec (flush_frame codec w) content × ((flush_frame codec w).frame_buffer ≡ [])
  unfolding flush_frame
  flush_frame-IsFramed w content (frames, file, held) = elim (Bool-cases (is_nil w.frame_buffer)) [
    | inl e ↦ rw (e, flush_frame) ((frames, file, held), nil_eq w.frame_buffer e)
    | inr e ↦
        rw (e, flush_frame)
          (
            (
              frames ++ w.frame_buffer ∷ [],
              ap (λ l. l ++ codec.compress w.frame_buffer) file
                  ∙ sym (flat_map-append codec.compress frames w.frame_buffer),
              append-nil (concat (frames ++ w.frame_buffer ∷ []))
                  ∙ concat-append frames (w.frame_buffer ∷ [])
                  ∙ ap (λ l. concat frames ++ l) (append-nil w.frame_buffer)
                  ∙ held,
            ),
            refl,
          )
  ]

  buffer-IsFramed :
      (bytes : Bytes) (w : LogWriter) (content : Bytes)
      → IsFramed codec w content
      → IsFramed codec (buffer codec bytes w) (content ++ bytes)
  buffer-IsFramed bytes w content (frames, file, held) = (
    frames,
    file,
    sym (append_assoc (concat frames) w.frame_buffer bytes) ∙ ap (λ l. l ++ bytes) held,
  )

  pub append_frame-IsFramed :
      (bytes : Bytes) (w : LogWriter) (content : Bytes)
      → IsFramed codec w content
      → IsFramed codec (append_frame codec bytes w) (content ++ bytes)
  unfolding append_frame
  append_frame-IsFramed bytes w content c =
      elim (Bool-cases (ltb (length (w.frame_buffer ++ bytes)) frame_flush_threshold)) [
        | inl e ↦ rw (e, append_frame) (buffer-IsFramed bytes w content c)
        | inr e ↦
            rw (e, append_frame)
              (flush_frame-IsFramed (buffer codec bytes w) (content ++ bytes)
                (buffer-IsFramed bytes w content c)).0
      ]

  pub append_all-IsFramed :
      (chunks : List Bytes) (w : LogWriter) (content : Bytes)
      → IsFramed codec w content
      → IsFramed codec (append_all codec chunks w) (content ++ concat chunks)
  unfolding append_all
  append_all-IsFramed [] w content (frames, file, held) =
      (frames, file, held ∙ sym (append-nil content))
  append_all-IsFramed (chunk ∷ chunks) w content c =
      let (frames, file, held) =
        append_all-IsFramed chunks (append_frame codec chunk w) (content ++ chunk)
          (append_frame-IsFramed chunk w content c) in
      (frames, file, held ∙ append_assoc content chunk (concat chunks))

  -- Writing frames touches only the file and the buffer.
  pub append_frame_rest :
      (bytes : Bytes) (w : LogWriter)
      → ((append_frame codec bytes w).tail ≡ w.tail)
        × ((append_frame codec bytes w).tail_size ≡ w.tail_size)
        × ((append_frame codec bytes w).dropped ≡ w.dropped)
        × ((append_frame codec bytes w).size_limit ≡ w.size_limit)
        × ((append_frame codec bytes w).head_budget ≡ w.head_budget)
        × ((append_frame codec bytes w).bytes_seen ≡ w.bytes_seen)
  unfolding append_frame flush_frame
  append_frame_rest bytes w = ground arith
