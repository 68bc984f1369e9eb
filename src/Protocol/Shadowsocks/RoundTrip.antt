-- ===== src/Protocol/Shadowsocks/RoundTrip.antt =====
-- protocol/shadowsocks.ts: the wire that `_write` produces, from one end of a stream to the other.
use sepigs.Base.{
  ℕ, zero, suc, ◌≤◌, ◌<◌, ◌≡◌, refl, sym, ap, ◌∙◌, subst, true, some, List, [], ◌∷◌, ◌++◌,
  append_assoc, arith, if◌then◌else◌, nat_eq, string_eq, length, take, drop, take-append-drop,
  length-take, length-drop,
}
use sepigs.Protocol.BufferQueue.Contents.{contents, flat, empty-IsQueue}
use sepigs.Protocol.Shadowsocks.{
  ShadowsocksCipher, aes_128_gcm, aes_256_gcm, chacha20_ietf_poly1305, Crypto, IsCrypto, Context,
  spec, ciphers, derive_subkey, encrypt_parts, encrypt_tcp_payload, increment_nonce, max_part,
  aead_encrypt, uint16_bytes,
}
use sepigs.Protocol.Shadowsocks.Stream.{
  Writer, Reader, received, new_writer, new_reader, send_salt, write, handle_all,
}
use sepigs.Protocol.Shadowsocks.Frames.{Frames, done, frame, unkeyed}
use sepigs.Protocol.Shadowsocks.Receive.{Starved}
use sepigs.Protocol.Shadowsocks.Handle.{handle_all-Delivers}

salt_pos : (m : ShadowsocksCipher) → 0 < (ciphers m).salt_length
salt_pos aes_128_gcm = omega arith
salt_pos aes_256_gcm = omega arith
salt_pos chacha20_ietf_poly1305 = omega arith

-- What these writes are to deliver: the prefix once, and the chunks.
abbrev pub payload_of : List (List ℕ) → Writer → List ℕ
payload_of [] w = []
payload_of (chunk ∷ chunks) w = (if w.prefix_sent then chunk else w.prefix ++ chunk) ++ flat chunks

module _ (c : Crypto) (x : Context) where
  encrypt_parts-Frames :
      (rounds : ℕ) (key payload nonce more rest : List ℕ)
      → length payload ≤ rounds
      → Frames c x key (encrypt_parts c x rounds key payload nonce).1 more rest
      → Frames c x key nonce
          ((encrypt_parts c x rounds key payload nonce).0 ++ more)
          (payload ++ rest)
  unfolding encrypt_parts
  encrypt_parts-Frames zero key [] nonce more rest h f = f
  encrypt_parts-Frames zero key (b ∷ bs) nonce more rest h f = absurd (omega arith)
  encrypt_parts-Frames (suc rounds) key [] nonce more rest h f = f
  encrypt_parts-Frames (suc rounds) key (b ∷ bs) nonce more rest h f =
      let part = take max_part (b ∷ bs) in
      let left = drop max_part (b ∷ bs) in
      let next = increment_nonce (increment_nonce nonce) in
      let later = encrypt_parts c x rounds key left next in
      let size = length-take max_part (b ∷ bs) in
      let head = aead_encrypt c x key nonce (uint16_bytes (length part)) in
      let body = aead_encrypt c x key (increment_nonce nonce) part in
      frame part (later.0 ++ more) (left ++ rest) (omega (arith, size)) (omega (arith, size))
        (append_assoc head (body ++ later.0) more
          ∙ ap (◌++◌ head) (append_assoc body (later.0) more))
        (ap (λ l. l ++ rest) (sym (take-append-drop max_part (b ∷ bs)))
          ∙ append_assoc part left rest)
        (encrypt_parts-Frames rounds key left next more rest
          (omega (arith, length-drop max_part (b ∷ bs))) f)

  -- The bytes that the writes of some chunks put on the raw socket. Only a write that finds no key
  -- uses the salt.
  unfoldable pub write_all : List ℕ → List (List ℕ) → Writer → List ℕ
  write_all salt [] w = []
  write_all salt (chunk ∷ chunks) w =
      let (w', bytes) = write c x salt chunk w in bytes ++ write_all salt chunks w'

  write_all-Frames :
      (salt key : List ℕ) (chunks : List (List ℕ)) (w : Writer)
      → w.encrypt_key ≡ some key
      → Frames c x key w.encrypt_nonce (write_all salt chunks w) (payload_of chunks w)
  unfolding write_all write encrypt_tcp_payload flat
  write_all-Frames salt key [] w e = done refl refl
  write_all-Frames salt key (chunk ∷ chunks) w e =
      let payload = if w.prefix_sent then chunk else w.prefix ++ chunk in
      let coded = encrypt_parts c x (length payload) key payload w.encrypt_nonce in
      let w' = record w { prefix_sent = true; encrypt_nonce = coded.1 } in
      let written : write c x salt chunk w ≡ (w', coded.0) = ground (arith, e) in
      let wire : write_all salt (chunk ∷ chunks) w ≡ coded.0 ++ write_all salt chunks w' =
        ap (λ (p : Writer × List ℕ). p.1 ++ write_all salt chunks (p.0)) written in
      subst (λ b. Frames c x key w.encrypt_nonce b (payload ++ flat chunks)) (sym wire)
        (encrypt_parts-Frames (length payload) key payload w.encrypt_nonce
          (write_all salt chunks w') (flat chunks) (omega arith)
          (subst (λ b. Frames c x key (coded.1) (write_all salt chunks w') b)
            (later chunks (coded.1)) (write_all-Frames salt key chunks w' e)))
    where
      later :
          (chunks : List (List ℕ)) (nonce : List ℕ)
          → payload_of chunks (record w { prefix_sent = true; encrypt_nonce = nonce }) ≡ flat chunks
      later [] nonce = refl
      later (d ∷ ds) nonce = refl

-- Both directions of a stream, whose salt has the cipher's length.
module _ (c : Crypto) (x : Context) (w : IsCrypto c) (salt : List ℕ)
    (fits : length salt ≡ (spec x).salt_length) where
  new_reader-Starved : Starved c x w new_reader
  unfolding contents flat
  new_reader-Starved = (λ e. salt_pos x.method, λ k e p. cc, λ k n e p. cc)

  -- Every byte that one end writes, in any chunks, arrives at the other end in order, in whatever pieces
  -- the network delivers the wire: the reader meets no error and pushes the prefix and the chunks.
  pub stream_roundtrip :
      (prefix : List ℕ) (chunks pieces : List (List ℕ))
      → flat pieces ≡ salt ++ write_all c x salt chunks ((send_salt c x salt (new_writer prefix)).0)
      → (r : Reader) × (out : List (List ℕ)) × (handle_all c x pieces new_reader []
          ≡ received r out)
        × (flat out ≡ payload_of chunks (new_writer prefix))
  unfolding contents flat send_salt write_all
  stream_roundtrip prefix [] pieces e =
      handle_all-Delivers c x w pieces new_reader [] [] new_reader-Starved (record {
        queue = empty-IsQueue;
        wire = unkeyed salt [] refl refl fits (e ∙ refl) (done refl refl);
      })
  stream_roundtrip prefix (chunk ∷ chunks) pieces e =
      let w1 = (send_salt c x salt (new_writer prefix)).0 in
      handle_all-Delivers c x w pieces new_reader [] (payload_of (chunk ∷ chunks) w1)
        new_reader-Starved
        (record {
          queue = empty-IsQueue;
          wire =
              unkeyed salt (write_all c x salt (chunk ∷ chunks) w1) refl refl fits e
                (write_all-Frames c x salt (derive_subkey c x salt) (chunk ∷ chunks) w1 refl);
        })

  -- The same without a salt sent at creation, as on a server: the first write finds no key and puts the
  -- salt before its bytes, and the reader of the other end gets the prefix and the chunks.
  pub server_stream_roundtrip :
      (prefix chunk : List ℕ) (chunks pieces : List (List ℕ))
      → flat pieces ≡ write_all c x salt (chunk ∷ chunks) (new_writer prefix)
      → (r : Reader) × (out : List (List ℕ)) × (handle_all c x pieces new_reader []
          ≡ received r out)
        × (flat out ≡ prefix ++ chunk ++ flat chunks)
  unfolding send_salt write_all write
  server_stream_roundtrip prefix chunk chunks pieces e =
      let w1 = (send_salt c x salt (new_writer prefix)).0 in
      let (w', bytes) = write c x salt chunk w1 in
      stream_roundtrip prefix (chunk ∷ chunks) pieces
        (e ∙ append_assoc salt bytes (write_all c x salt chunks w'))
