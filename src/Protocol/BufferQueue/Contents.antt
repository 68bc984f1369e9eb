-- ===== src/Protocol/BufferQueue/Contents.antt =====
-- utils/bufferQueue.ts: the queue against a plain sequence of bytes.
use sepigs.Base.{
  ℕ, zero, suc, ◌+◌, ◌-◌, ◌≤◌, ◌<◌, min, ◌≡◌, refl, sym, ap, ◌∙◌, inl, inr, List, [], ◌∷◌, ◌++◌,
  append_assoc, append-nil, arith, leb, ◌==◌, nat_eq, string_eq, Bool-cases, length, take, drop,
  All, length-append, length-drop,
}
use sepigs.Base.Result.{Result, ok, err}
use sepigs.Base.Buffers.{
  drop-append_lt, take-append_lt, drop-nil, drop-drop, take_all, take-append_ge, drop-append_ge,
}
use sepigs.Protocol.BufferQueue.{
  BufferQueue, QueueError, exceeds_available, empty, push, read, read_chunks, read_loop, read_first,
}

unfoldable pub flat : List (List ℕ) → List ℕ
flat [] = []
flat (c ∷ cs) = c ++ flat cs

-- The bytes that are still to be read.
unfoldable pub contents : BufferQueue → List ℕ
contents q = drop q.head_offset (flat q.chunks)

-- The offset lies inside the first chunk.
abbrev InFirst : ℕ → List (List ℕ) → Type 0
InFirst offset [] = offset ≡ 0
InFirst offset (c ∷ cs) = offset < length c

pub record IsQueue (q : BufferQueue) : Type 0 where
  pub filled : All (λ c. 0 < length c) q.chunks
  pub inside : InFirst q.head_offset q.chunks
  pub counted : q.total_length ≡ length (contents q)

flat-append : (cs : List (List ℕ)) (c : List ℕ) → flat (cs ++ c ∷ []) ≡ flat cs ++ c
unfolding flat
flat-append [] c = append-nil c
flat-append (d ∷ cs) c = rw (flat-append cs c) (sym (append_assoc d (flat cs) c))

-- A read of `need` bytes from `xs` that gives a queue.
pub record Reads (need : ℕ) (xs bytes : List ℕ) (q : BufferQueue) : Type 0 where
  pub front : bytes ≡ take need xs
  pub queue : IsQueue q
  pub rest : contents q ≡ drop need xs

abbrev pub AfterRead : ℕ → List ℕ → Result QueueError (List ℕ × BufferQueue) → Type 0
AfterRead need xs r =
    (bytes : List ℕ) × (q : BufferQueue) × (r ≡ ok (bytes, q)) × Reads need xs bytes q

inside_start : (cs : List (List ℕ)) → All (λ c. 0 < length c) cs → InFirst 0 cs
inside_start [] h = refl
inside_start (c ∷ cs) (p, h) = p

read_loop-Reads :
    (chunks : List (List ℕ)) (offset total need : ℕ)
    → All (λ c. 0 < length c) chunks
    → InFirst offset chunks
    → total ≡ length (drop offset (flat chunks))
    → need ≤ total
    → AfterRead need (drop offset (flat chunks)) (read_loop chunks offset total need)
unfolding read_loop flat contents
read_loop-Reads [] offset total zero f i t h = (
  [],
  _,
  refl,
  record { front = refl; queue = record { filled = tt; inside = i; counted = t }; rest = refl },
)
read_loop-Reads [] offset total (suc need) f i t h =
    absurd (omega (arith, t, ap length (drop-nil offset)))
read_loop-Reads (chunk ∷ rest) offset total zero f i t h = (
  [],
  _,
  refl,
  record { front = refl; queue = record { filled = f; inside = i; counted = t }; rest = refl },
)
read_loop-Reads (chunk ∷ rest) offset total (suc need) f i t h =
    let all = drop-append_lt chunk (flat rest) offset (omega arith) in
    let size = length-drop offset chunk in
    let count = min (length chunk - offset) (suc need) in
    elim (Bool-cases (leb (length chunk - offset) (suc need))) [
      | inl whole ↦
          let (more, q, r, k) =
            read_loop-Reads rest 0 (total - count) (suc need - count) f.1 (inside_start rest f.1)
              (ground (arith, all, length-append (drop offset chunk) (flat rest))) (omega arith) in
          (
            take count (drop offset chunk) ++ more,
            q,
            ground arith,
            record {
              front = ground (
                arith,
                all,
                size,
                k.front,
                take_all count (drop offset chunk),
                take-append_ge (drop offset chunk) (flat rest) (suc need),
              );
              queue = k.queue;
              rest = ground (
                arith,
                all,
                size,
                k.rest,
                drop-append_ge (drop offset chunk) (flat rest) (suc need),
              );
            },
          )
      | inr part ↦ (
        take count (drop offset chunk),
        record {
          chunks = chunk ∷ rest;
          head_offset = offset + count;
          total_length = total - count;
        },
        ground arith,
        record {
          front =
              ground (arith, all, size, take-append_lt (drop offset chunk) (flat rest) (suc need));
          queue = record {
            filled = f;
            inside = ground arith;
            counted = ground (
              arith,
              t,
              drop-drop offset count (chunk ++ flat rest),
              length-drop count (drop offset (chunk ++ flat rest)),
            );
          };
          rest = ground (arith, drop-drop offset count (chunk ++ flat rest));
        },
      )
    ]

read_first-Reads :
    (first : List ℕ) (rest : List (List ℕ)) (offset total n : ℕ)
    → All (λ c. 0 < length c) (first ∷ rest)
    → offset < length first
    → total ≡ length (drop offset (flat (first ∷ rest)))
    → n ≤ length first - offset
    → AfterRead n (drop offset (flat (first ∷ rest))) (
        ok (
          read_first n first rest
            (record { chunks = first ∷ rest; head_offset = offset; total_length = total })))
unfolding read_first flat contents
read_first-Reads first rest offset total n f i t h =
    let all = drop-append_lt first (flat rest) offset (omega arith) in
    let size = length-drop offset first in
    let left = length-drop n (drop offset (first ++ flat rest)) in
    let front = take-append_lt (drop offset first) (flat rest) n (omega (arith, size)) in
    elim (Bool-cases (offset + n == length first)) [
      | inl whole ↦ (
        take n (drop offset first),
        record { chunks = rest; head_offset = 0; total_length = total - n },
        rw whole,
        record {
          front = ground (arith, all, front);
          queue = record {
            filled = f.1;
            inside = inside_start rest f.1;
            counted =
                ground
                  (arith, all, size, left, t, drop-append_ge (drop offset first) (flat rest) n);
          };
          rest = ground (arith, all, size, drop-append_ge (drop offset first) (flat rest) n);
        },
      )
      | inr part ↦ (
        take n (drop offset first),
        record { chunks = first ∷ rest; head_offset = offset + n; total_length = total - n },
        rw part,
        record {
          front = ground (arith, all, front);
          queue = record {
            filled = f;
            inside = ground arith;
            counted = ground (arith, t, left, drop-drop offset n (first ++ flat rest));
          };
          rest = ground (arith, drop-drop offset n (first ++ flat rest));
        },
      )
    ]

flat-size : (cs : List (List ℕ)) (o : ℕ) → InFirst o cs → o ≤ length (flat cs)
unfolding flat
flat-size [] o h = omega arith
flat-size (c ∷ cs) o h = omega (arith, length-append c (flat cs))

read_chunks-Reads :
    (chunks : List (List ℕ)) (offset total n : ℕ)
    → All (λ c. 0 < length c) chunks
    → InFirst offset chunks
    → total ≡ length (drop offset (flat chunks))
    → n ≤ total
    → AfterRead n (drop offset (flat chunks)) (
        read_chunks n chunks
          (record { chunks = chunks; head_offset = offset; total_length = total }))
read_chunks-Reads [] offset total n f i t h = read_loop-Reads [] offset total n f i t h
read_chunks-Reads (first ∷ rest) offset total n f i t h =
    elim (Bool-cases (leb n (length first - offset))) [
      | inr more ↦ rw more (read_loop-Reads (first ∷ rest) offset total n f i t h)
      | inl fits ↦ rw fits (read_first-Reads first rest offset total n f i t (ground arith))
    ]

read_enough :
    (n : ℕ) (q : BufferQueue)
    → IsQueue q
    → suc n ≤ length (contents q)
    → read (suc n) q ≡ read_chunks (suc n) q.chunks q
unfolding read
read_enough n q v h = ground (arith, v.counted)

-- Reading `n` bytes gives the first `n` bytes that were pushed and not yet read, and leaves the others
-- in order; asking for more than there are is an error.
pub read_refines :
    (n : ℕ) (q : BufferQueue)
    → IsQueue q
    → (n ≤ length (contents q) → AfterRead n (contents q) (read n q))
      × (length (contents q) < n → read n q ≡ err exceeds_available)
unfolding read contents
read_refines zero q v = (
  λ h. ([], q, ground (arith, v.counted), record { front = refl; queue = v; rest = refl }),
  λ h. absurd (omega arith),
)
read_refines (suc n) q v = (
  λ h. rw (read_enough n q v h) (
      read_chunks-Reads q.chunks q.head_offset q.total_length (suc n) v.filled v.inside v.counted
        (omega (arith, v.counted))),
  λ h. ground (arith, v.counted),
)

filled-append :
    (cs : List (List ℕ)) (c : List ℕ)
    → All (λ d. 0 < length d) cs
    → 0 < length c
    → All (λ d. 0 < length d) (cs ++ c ∷ [])
filled-append [] c h k = (k, tt)
filled-append (d ∷ cs) c (p, h) k = (p, filled-append cs c h k)

inside-append :
    (cs : List (List ℕ)) (c : List ℕ) (o : ℕ)
    → InFirst o cs
    → 0 < length c
    → InFirst o (cs ++ c ∷ [])
inside-append [] c o h k = omega arith
inside-append (d ∷ cs) c o h k = h

-- Pushed bytes come last.
pub contents-push :
    (bytes : List ℕ) (q : BufferQueue) → IsQueue q → contents (push bytes q) ≡ contents q ++ bytes
unfolding push contents
contents-push [] q v = sym (append-nil _)
contents-push (b ∷ bs) q v =
    ap (drop q.head_offset) (flat-append q.chunks (b ∷ bs))
    ∙ drop-append_lt (flat q.chunks) (b ∷ bs) q.head_offset
        (flat-size q.chunks q.head_offset v.inside)

pub push-IsQueue : (bytes : List ℕ) (q : BufferQueue) → IsQueue q → IsQueue (push bytes q)
unfolding push
push-IsQueue [] q v = v
push-IsQueue (b ∷ bs) q v = record {
  filled = filled-append q.chunks (b ∷ bs) v.filled (omega arith);
  inside = inside-append q.chunks (b ∷ bs) q.head_offset v.inside (omega arith);
  counted = omega (
    arith,
    v.counted,
    ap length (contents-push (b ∷ bs) q v),
    length-append (contents q) (b ∷ bs),
  );
}

pub empty-IsQueue : IsQueue empty
unfolding contents flat
empty-IsQueue = record { filled = tt; inside = refl; counted = refl }
