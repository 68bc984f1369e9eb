-- ===== src/Protocol/Shadowsocks/Receive.antt =====
-- protocol/shadowsocks.ts: one stage of the reader on a well-formed wire.
use sepigs.Base.{
  ℕ, ◌+◌, ◌≤◌, ◌<◌, ◌≡◌, refl, ap, subst, ◌⊎◌, inl, inr, none, some, List, [], ◌++◌, append-nil,
  arith, ltb, nat_eq, string_eq, Bool-cases, length, length-append,
}
use sepigs.Protocol.BufferQueue.Contents.{contents, IsQueue}
use sepigs.Protocol.Shadowsocks.{
  Crypto, IsCrypto, Context, spec, increment_nonce, aead_encrypt, uint16_bytes,
}
use sepigs.Protocol.Shadowsocks.Stream.{
  Reader, Stage, goes, waits, length_stage, payload_stage, pushed,
}
use sepigs.Protocol.Shadowsocks.Frames.{
  Frames, done, frame, Wire, unkeyed, between, inside, read_front, length-aead_encrypt,
  aead_decrypt-encrypt,
}

module _ (c : Crypto) (x : Context) (w : IsCrypto c) where
  -- The reader's buffer and the bytes to come are a wire that carries `plain`.
  pub record Expects (r : Reader) (future plain : List ℕ) : Type 0 where
    pub queue : IsQueue r.decrypt_buffer
    pub wire :
        Wire c x r.decrypt_key r.decrypt_nonce r.pending_payload_length
          (contents r.decrypt_buffer ++ future)
          plain

  -- The reader has not enough bytes for its next step.
  abbrev pub Starved : Reader → Type 0
  Starved r =
      let size = length (contents r.decrypt_buffer) in
      (r.decrypt_key ≡ none → size < (spec x).salt_length)
      × ((k : List ℕ)
          → r.decrypt_key ≡ some k
          → r.pending_payload_length ≡ none
          → size < 2 + (spec x).auth_tag_length)
      × ((k : List ℕ) (n : ℕ)
          → r.decrypt_key ≡ some k
          → r.pending_payload_length ≡ some n
          → size < n + (spec x).auth_tag_length)

  -- The reader's own bytes are all that is left: nothing is to come.
  pub Starved-end : (r : Reader) (plain : List ℕ) → Expects r [] plain → Starved r → plain ≡ []
  Starved-end r plain v (s0, s1, s2) = go v.wire
    where
      size : length (contents r.decrypt_buffer ++ []) ≡ length (contents r.decrypt_buffer)
      size = ap length (append-nil (contents r.decrypt_buffer))

      in_frames :
          {nonce : List ℕ} (k : List ℕ)
          → r.decrypt_key ≡ some k
          → r.pending_payload_length ≡ none
          → Frames c x k nonce (contents r.decrypt_buffer ++ []) plain
          → plain ≡ []
      in_frames k e p (done _ q) = q
      in_frames {nonce} k e p (frame part more rest z m wire _ _) = absurd (
          omega (
            arith,
            s1 k e p,
            size,
            ap length wire,
            length-append (aead_encrypt c x k nonce (uint16_bytes (length part)))
                (aead_encrypt c x k (increment_nonce nonce) part ++ more),
            length-aead_encrypt c x w k nonce (uint16_bytes (length part)),
          ))

      go :
          Wire c x r.decrypt_key r.decrypt_nonce r.pending_payload_length
            (contents r.decrypt_buffer ++ [])
            plain
          → plain ≡ []
      go (unkeyed salt more e p n wire _) =
          absurd (omega (arith, s0 e, size, ap length wire, length-append salt more))
      go (between k e p f) = in_frames k e p f
      go (inside k part more rest e p z wire _ _) = absurd (
          omega (
            arith,
            s2 k (length part) e p,
            size,
            ap length wire,
            length-append (aead_encrypt c x k r.decrypt_nonce part) more,
            length-aead_encrypt c x w k r.decrypt_nonce part,
          ))

  size_of : Reader → ℕ
  size_of r = length (contents r.decrypt_buffer)

  Starved-between :
      (r : Reader) (k : List ℕ)
      → r.decrypt_key ≡ some k
      → r.pending_payload_length ≡ none
      → length (contents r.decrypt_buffer) < 2 + (spec x).auth_tag_length
      → Starved r
  Starved-between r k e p h = (λ n. cc, λ k' e' p'. h, λ k' n e' p'. cc)

  Starved-inside :
      (r : Reader) (k : List ℕ) (size : ℕ)
      → r.decrypt_key ≡ some k
      → r.pending_payload_length ≡ some size
      → length (contents r.decrypt_buffer) < size + (spec x).auth_tag_length
      → Starved r
  Starved-inside r k size e p h = (λ n. cc, λ k' e' p'. cc, λ k' n e' p'. ground arith)

  -- The outcomes of the stage that reads a length.
  abbrev pub LengthRead : List ℕ → Reader → List ℕ → List ℕ → Stage → Type 0
  LengthRead k r future plain s =
      ((s ≡ waits r) × Starved r)
      ⊎ ((r' : Reader) × (s ≡ goes r' [])
          × Expects r' future plain
          × (r'.decrypt_key ≡ some k)
          × ((n : ℕ) × (r'.pending_payload_length ≡ some n))
          × (length (contents r'.decrypt_buffer) ≤ length (contents r.decrypt_buffer)))

  length_stage_frame :
      (r : Reader) (future plain k : List ℕ)
      → r.decrypt_key ≡ some k
      → r.pending_payload_length ≡ none
      → IsQueue r.decrypt_buffer
      → Frames c x k r.decrypt_nonce (contents r.decrypt_buffer ++ future) plain
      → 2 + (spec x).auth_tag_length ≤ length (contents r.decrypt_buffer)
      → LengthRead k r future plain (length_stage c x k r)
  unfolding length_stage
  length_stage_frame r future plain k e p v (done we pe) h =
      absurd (omega (arith, ap length we, length-append (contents r.decrypt_buffer) future))
  length_stage_frame r future plain k e p v (frame part more rest z m we pe f) h =
      let sealed = aead_encrypt c x k r.decrypt_nonce (uint16_bytes (length part)) in
      let size = length-aead_encrypt c x w k r.decrypt_nonce (uint16_bytes (length part)) in
      let (q', got, v', left, shorter) =
        read_front r.decrypt_buffer future sealed
          (aead_encrypt c x k (increment_nonce r.decrypt_nonce) part ++ more) v we
          (omega (arith, size)) in
      inr (
        record r {
          decrypt_buffer = q';
          decrypt_nonce = increment_nonce r.decrypt_nonce;
          pending_payload_length = some (length part);
        },
        ground (
          arith,
          p,
          got,
          size,
          aead_decrypt-encrypt c x w k r.decrypt_nonce (uint16_bytes (length part)),
        ),
        record { queue = v'; wire = inside k part more rest e refl z left pe f },
        e,
        (length part, refl),
        omega (arith, shorter),
      )

  pub length_stage-Wire :
      (r : Reader) (future plain k : List ℕ)
      → r.decrypt_key ≡ some k
      → IsQueue r.decrypt_buffer
      → Wire c x r.decrypt_key r.decrypt_nonce r.pending_payload_length
          (contents r.decrypt_buffer ++ future)
          plain
      → LengthRead k r future plain (length_stage c x k r)
  unfolding length_stage
  length_stage-Wire r future plain k e v (unkeyed salt more e' p n we f) = cc
  length_stage-Wire r future plain k e v (between k' e' p f) =
      elim (Bool-cases (ltb r.decrypt_buffer.total_length (2 + (spec x).auth_tag_length))) [
        | inl short ↦ inl (ground (arith, p), Starved-between r k e p (ground (arith, v.counted)))
        | inr enough ↦
            length_stage_frame r future plain k e p v
              (subst (λ j. Frames c x j r.decrypt_nonce (contents r.decrypt_buffer ++ future) plain)
                (ground arith) f)
              (ground (arith, v.counted))
      ]
  length_stage-Wire r future plain k e v (inside k' part more rest e' p z we pe f) = inr (
    r,
    ground (arith, p),
    record { queue = v; wire = inside k' part more rest e' p z we pe f },
    e,
    (length part, p),
    omega arith,
  )

  -- The outcomes of the stage that reads a payload.
  abbrev pub PayloadRead : List ℕ → Reader → List ℕ → List ℕ → Stage → Type 0
  PayloadRead k r future plain s =
      ((s ≡ waits r) × Starved r)
      ⊎ ((r' : Reader) × (part : List ℕ) × (rest : List ℕ) × (s ≡ goes r' (pushed part))
          × (plain ≡ part ++ rest)
          × Expects r' future rest
          × (r'.decrypt_key ≡ some k)
          × (length (contents r'.decrypt_buffer) < length (contents r.decrypt_buffer)))

  pub payload_stage-Wire :
      (r : Reader) (future plain k : List ℕ) (size : ℕ)
      → r.decrypt_key ≡ some k
      → r.pending_payload_length ≡ some size
      → IsQueue r.decrypt_buffer
      → Wire c x r.decrypt_key r.decrypt_nonce r.pending_payload_length
          (contents r.decrypt_buffer ++ future)
          plain
      → PayloadRead k r future plain (payload_stage c x k r)
  unfolding payload_stage
  payload_stage-Wire r future plain k size e p v (unkeyed salt more e' p' n we f) = cc
  payload_stage-Wire r future plain k size e p v (between k' e' p' f) = cc
  payload_stage-Wire r future plain k size e p v (inside k' part more rest e' p' z we pe f) =
      let keys : k' ≡ k = ground arith in
      let sealed = aead_encrypt c x k r.decrypt_nonce part in
      let long = length-aead_encrypt c x w k r.decrypt_nonce part in
      let opened = aead_decrypt-encrypt c x w k r.decrypt_nonce part in
      elim (Bool-cases (ltb r.decrypt_buffer.total_length (size + (spec x).auth_tag_length))) [
        | inl short ↦
            inl (ground (arith, p), Starved-inside r k size e p (ground (arith, v.counted)))
        | inr enough ↦
            let (q', got, v', left, shorter) =
              read_front r.decrypt_buffer future sealed more v (rw (← keys) we)
                (ground (arith, long, v.counted)) in
            inr (
              record r {
                decrypt_buffer = q';
                decrypt_nonce = increment_nonce r.decrypt_nonce;
                pending_payload_length = none;
              },
              part,
              rest,
              ground (arith, p, p', got, long, opened),
              pe,
              record { queue = v'; wire = between k e refl (rw (← keys) (rw left f)) },
              e,
              omega (arith, shorter, long),
            )
      ]
