-- ===== src/Protocol/Shadowsocks/Frames.antt =====
-- protocol/shadowsocks.ts: the frames of a stream, sealed and opened.
use sepigs.Base.{
  ℕ, ◌+◌, ◌≤◌, ◌<◌, ◌≡◌, refl, sym, ap, ◌∙◌, Option, none, some, List, [], ◌++◌, arith, nat_eq,
  string_eq, length, take, drop, length-append, take-append, drop-append, length-drop,
}
use sepigs.Base.Result.{ok}
use sepigs.Base.Buffers.{take-append_lt, drop-append_lt}
use sepigs.Protocol.BufferQueue.{BufferQueue, read}
use sepigs.Protocol.BufferQueue.Contents.{contents, IsQueue, read_refines}
use sepigs.Protocol.Shadowsocks.{
  ShadowsocksCipher, aes_128_gcm, aes_256_gcm, chacha20_ietf_poly1305, Crypto, IsCrypto, Context,
  spec, increment_nonce, derive_subkey, aead_encrypt, aead_decrypt, uint16_bytes, ciphers,
}

pub tag_length : (m : ShadowsocksCipher) → (ciphers m).auth_tag_length ≡ 16
tag_length aes_128_gcm = refl
tag_length aes_256_gcm = refl
tag_length chacha20_ietf_poly1305 = refl

module _ (c : Crypto) (x : Context) (w : IsCrypto c) where
  pub length-aead_encrypt :
      (key nonce plain : List ℕ)
      → length (aead_encrypt c x key nonce plain) ≡ length plain + (spec x).auth_tag_length
  unfolding aead_encrypt
  length-aead_encrypt key nonce plain = omega (
    arith,
    w.length-encrypt x.method key nonce plain,
    w.length-tag x.method key nonce plain,
    length-append ((c.encrypt x.method key nonce plain).0) ((c.encrypt x.method key nonce plain).1),
  )

  -- Opening what was sealed under the same key and nonce gives the plain bytes.
  pub aead_decrypt-encrypt :
      (key nonce plain : List ℕ)
      → aead_decrypt c x key nonce (aead_encrypt c x key nonce plain) ≡ ok plain
  unfolding aead_decrypt aead_encrypt
  aead_decrypt-encrypt key nonce plain =
      let sealed = c.encrypt x.method key nonce plain in
      ground (
        arith,
        w.length-encrypt x.method key nonce plain,
        w.length-tag x.method key nonce plain,
        length-append (sealed.0) (sealed.1),
        take-append (sealed.0) (sealed.1),
        drop-append (sealed.0) (sealed.1),
        w.decrypt-encrypt x.method key nonce plain,
      )

module _ (c : Crypto) (x : Context) where
  -- The frames of a stream from a nonce on, and the bytes that they carry.
  pub data Frames (key : List ℕ) : List ℕ → List ℕ → List ℕ → Type 0 where
    done : {nonce wire plain : List ℕ} → wire ≡ [] → plain ≡ [] → Frames key nonce wire plain
    frame :
        {nonce wire plain : List ℕ} (part more rest : List ℕ)
        → 0 < length part
        → length part < 65536
        → wire
          ≡ aead_encrypt c x key nonce (uint16_bytes (length part))
            ++ (aead_encrypt c x key (increment_nonce nonce) part ++ more)
        → plain ≡ part ++ rest
        → Frames key (increment_nonce (increment_nonce nonce)) more rest
        → Frames key nonce wire plain

  -- What a reader that holds this key, nonce and pending length can still expect on the wire.
  pub data Wire : Option (List ℕ) → List ℕ → Option ℕ → List ℕ → List ℕ → Type 0 where
    unkeyed :
        {key : Option (List ℕ)} {nonce : List ℕ} {pending : Option ℕ} {wire plain : List ℕ}
        (salt more : List ℕ)
        → key ≡ none
        → pending ≡ none
        → length salt ≡ (spec x).salt_length
        → wire ≡ salt ++ more
        → Frames (derive_subkey c x salt) nonce more plain
        → Wire key nonce pending wire plain
    between :
        {key : Option (List ℕ)} {nonce : List ℕ} {pending : Option ℕ} {wire plain : List ℕ}
        (k : List ℕ)
        → key ≡ some k
        → pending ≡ none
        → Frames k nonce wire plain
        → Wire key nonce pending wire plain
    inside :
        {key : Option (List ℕ)} {nonce : List ℕ} {pending : Option ℕ} {wire plain : List ℕ}
        (k part more rest : List ℕ)
        → key ≡ some k
        → pending ≡ some (length part)
        → 0 < length part
        → wire ≡ aead_encrypt c x k nonce part ++ more
        → plain ≡ part ++ rest
        → Frames k (increment_nonce nonce) more rest
        → Wire key nonce pending wire plain

-- A read of what the wire begins with, once it is in the buffer.
pub read_front :
    (q : BufferQueue) (future front more : List ℕ)
    → IsQueue q
    → contents q ++ future ≡ front ++ more
    → length front ≤ length (contents q)
    → (q' : BufferQueue) × (read (length front) q ≡ ok (front, q'))
      × IsQueue q'
      × (contents q' ++ future ≡ more)
      × (length (contents q') + length front ≡ length (contents q))
read_front q future front more v e h =
    let (bytes, q', r, k) = (read_refines (length front) q v).0 h in
    let same : take (length front) (contents q) ≡ front =
      sym (take-append_lt (contents q) future (length front) h)
      ∙ ap (take (length front)) e
      ∙ take-append front more in
    let left : drop (length front) (contents q) ++ future ≡ more =
      sym (drop-append_lt (contents q) future (length front) h)
      ∙ ap (drop (length front)) e
      ∙ drop-append front more in
    (
      q',
      ground (arith, r, k.front, same),
      k.queue,
      rw k.rest left,
      omega (arith, ap length (k.rest), length-drop (length front) (contents q)),
    )
