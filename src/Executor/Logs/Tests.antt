-- ===== src/Executor/Logs/Tests.antt =====
-- executor.py: a log of four bytes, of which the middle is lost, and a stream of two chunks.
use nixbot.Prelude.{
  ◌<◌, ◌⊎◌, ◌+◌, ◌-◌, ◌/◌, ◌≤◌, ◌≡◌, refl, ap, List, [], ◌∷◌, ◌++◌, length, min, Bytes, concat,
  elem, flat_map, All, arith,
}
use nixbot.Executor.Logs.{
  Codec, new_log, close, read_log, snapshot, write, write_head, keep_tail, append_frame, subscribe,
  subscribe_with_history, queue_in,
}
use nixbot.Executor.Logs.Frames.{CodecLaws}
use nixbot.Executor.Logs.Closing.{write_all, omission, write-close-read}
use nixbot.Executor.Logs.Subscribers.{subscribe_with_history-snapshot}
use nixbot.Executor.Logs.Lines.{iter_lines, IsPiece, iter_lines-pieces}

-- A codec that stores its frames as they are.
abbrev plain : Codec
plain = record {
  compress = λ bytes. bytes;
  decompress = λ bytes. bytes;
  encode = λ text. 46 ∷ [];
  decimal = λ n. "4";
}

flat_map-plain : (frames : List Bytes) → flat_map (λ bytes. bytes) frames ≡ concat frames
flat_map-plain [] = refl
flat_map-plain (frame ∷ frames) = ap (λ l. frame ++ l) (flat_map-plain frames)

plain-CodecLaws : CodecLaws plain
plain-CodecLaws = record { across_frames = flat_map-plain }

abbrev chunks : List Bytes
chunks = (1 ∷ 2 ∷ 3 ∷ []) ∷ (4 ∷ 5 ∷ []) ∷ (6 ∷ 7 ∷ []) ∷ []

write-close-read_example :
    (head lost tail : Bytes) × (concat chunks ≡ head ++ (lost ++ tail))
    × (read_log plain (close plain (write_all plain chunks (new_log 4)))
        ≡ head ++ (omission plain lost ++ tail))
    × (snapshot plain (write_all plain chunks (new_log 4)) ≡ head ++ tail)
    × (length head ≡ min (4 / 2) (length (concat chunks)))
    × (length tail ≤ 4 - 4 / 2)
    × ((lost ≡ []) ⊎ (4 < length (concat chunks)))
write-close-read_example = write-close-read plain plain-CodecLaws 4 chunks

abbrev stream : List Bytes
stream = (97 ∷ 10 ∷ 98 ∷ []) ∷ (99 ∷ 10 ∷ 100 ∷ []) ∷ []

iter_lines-pieces_example :
    (concat (iter_lines 2 [] stream) ≡ concat stream)
    × All (IsPiece (2 + 3)) (iter_lines 2 [] stream)
iter_lines-pieces_example = iter_lines-pieces 2 3 stream (omega arith, (omega arith, tt))

abbrev during : List Bytes
during = (1 ∷ []) ∷ (2 ∷ 3 ∷ []) ∷ []

nothing_flushed : (write_all plain during (subscribe (new_log 10)).1).file ≡ (new_log 10).file
unfolding write_all write write_head keep_tail append_frame
nothing_flushed = refl

subscribe_with_history-snapshot_example :
    ((subscribe_with_history plain (write_all plain during) (new_log 10)).0
      ≡ snapshot plain (write_all plain during (subscribe (new_log 10)).1))
    × (queue_in
          (subscribe_with_history plain (write_all plain during) (new_log 10)).1
          (subscribe_with_history plain (write_all plain during) (new_log 10)).2
        ≡ [])
unfolding elem
subscribe_with_history-snapshot_example =
    subscribe_with_history-snapshot plain during (new_log 10) (refl, (refl, tt)) (omega arith) refl
      refl nothing_flushed
