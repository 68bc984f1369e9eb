-- ===== src/Protocol/BufferQueue.antt =====
-- utils/bufferQueue.ts: received chunks, read as one sequence of bytes.
pub mod Contents
mod Tests
use sepigs.Base.{
  ℕ, ◌+◌, ◌-◌, min, List, [], ◌∷◌, ◌++◌, ltb, leb, ◌==◌, if◌then◌else◌, nat_eq, string_eq, length,
  take, drop,
}
use sepigs.Base.Result.{Result, ok, err, ◌>>=◌, ◌>>◌}

pub record BufferQueue : Type 0 where
  pub chunks : List (List ℕ)
  pub head_offset : ℕ
  pub total_length : ℕ

pub data QueueError : Type 0 where
  exceeds_available queue_empty : QueueError

abbrev pub empty : BufferQueue
empty = record { chunks = []; head_offset = 0; total_length = 0 }

unfoldable pub push : List ℕ → BufferQueue → BufferQueue
push [] q = q
push (b ∷ bs) q = record q {
  chunks = q.chunks ++ (b ∷ bs) ∷ [];
  total_length = q.total_length + length (b ∷ bs);
}

-- The loop of `read` over the chunks: `need` is `length - written`. A chunk that is not read to its end
-- gave all that was needed, so the loop's test then ends it.
read_loop : List (List ℕ) → ℕ → ℕ → ℕ → Result QueueError (List ℕ × BufferQueue)
read_loop [] offset total need =
    if need == 0
    then ok ([], record { chunks = []; head_offset = offset; total_length = total })
    else err queue_empty
read_loop (chunk ∷ rest) offset total need =
    let available = length chunk - offset in
    let count = min available need in
    let bytes = take count (drop offset chunk) in
    let later = read_loop rest 0 (total - count) (need - count) in
    if need == 0
    then ok ([], record { chunks = chunk ∷ rest; head_offset = offset; total_length = total })
    else if offset + count == length chunk
    then (do (more, q) ← later; ok (bytes ++ more, q))
    else ok (
      bytes,
      record { chunks = chunk ∷ rest; head_offset = offset + count; total_length = total - count },
    )

-- The first chunk alone holds the bytes.
read_first : ℕ → List ℕ → List (List ℕ) → BufferQueue → List ℕ × BufferQueue
read_first n first rest q =
    let offset = q.head_offset + n in
    (
      take n (drop q.head_offset first),
      if offset == length first
          then record { chunks = rest; head_offset = 0; total_length = q.total_length - n }
          else record q { head_offset = offset; total_length = q.total_length - n },
    )

abbrev read_chunks : ℕ → List (List ℕ) → BufferQueue → Result QueueError (List ℕ × BufferQueue)
read_chunks n [] q = read_loop [] q.head_offset q.total_length n
read_chunks n (first ∷ rest) q =
    if leb n (length first - q.head_offset)
    then ok (read_first n first rest q)
    else read_loop (first ∷ rest) q.head_offset q.total_length n

unfoldable pub read : ℕ → BufferQueue → Result QueueError (List ℕ × BufferQueue)
unfolding read_loop read_first
read n q =
    if ltb q.total_length n
    then err exceeds_available
    else if n == 0
    then ok ([], q)
    else read_chunks n q.chunks q
