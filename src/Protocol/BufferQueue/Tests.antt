-- ===== src/Protocol/BufferQueue/Tests.antt =====
-- The queue on a concrete input, read across two chunks.
use sepigs.Base.{ℕ, ◌≤◌, ◌<◌, ◌≡◌, List, [], ◌∷◌, ◌++◌, nat_eq, string_eq, length}
use sepigs.Base.Result.{err}
use sepigs.Protocol.BufferQueue.{BufferQueue, QueueError, exceeds_available, push, read}
use sepigs.Protocol.BufferQueue
use sepigs.Protocol.BufferQueue.Contents.{
  contents, IsQueue, AfterRead, read_refines, contents-push, push-IsQueue, empty-IsQueue,
}

abbrev first_chunk : List ℕ
first_chunk = 1 ∷ 2 ∷ 3 ∷ []

abbrev queue : BufferQueue
queue = push (4 ∷ 5 ∷ []) (push first_chunk BufferQueue.empty)

queue-IsQueue : IsQueue queue
queue-IsQueue =
    push-IsQueue (4 ∷ 5 ∷ []) (push first_chunk BufferQueue.empty)
      (push-IsQueue first_chunk BufferQueue.empty empty-IsQueue)

read_refines_example :
    (4 ≤ length (contents queue) → AfterRead 4 (contents queue) (read 4 queue))
    × (length (contents queue) < 4 → read 4 queue ≡ err exceeds_available)
read_refines_example = read_refines 4 queue queue-IsQueue

contents-push_example : contents (push (6 ∷ []) queue) ≡ contents queue ++ 6 ∷ []
contents-push_example = contents-push (6 ∷ []) queue queue-IsQueue
