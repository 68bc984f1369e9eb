-- ===== src/Protocol/Shadowsocks.antt =====
-- protocol/shadowsocks.ts: AEAD framing of a TCP stream, and UDP packets. Node's ciphers, hashes and
-- random bytes are parameters; events of the raw socket are calls. A stream that met an error is destroyed.
pub mod Stream
pub mod Frames
pub mod Receive
pub mod Handle
pub mod RoundTrip
pub mod Packet
pub mod Nonce
mod Tests
use sepigs.Base.{
  ℕ, zero, suc, ◌+◌, ◌-◌, ◌*◌, ◌/◌, ◌%◌, ◌≡◌, Option, none, some, List, [], ◌∷◌, ◌++◌, ltb, ◌==◌,
  if◌then◌else◌, nat_eq, string_eq, length, take, drop, replicate,
}
use sepigs.Base.Result.{Result, ok, err}
use sepigs.Protocol.BufferQueue.{BufferQueue}
use sepigs.Protocol.BufferQueue

pub data ShadowsocksCipher : Type 0 where
  aes_128_gcm aes_256_gcm chacha20_ietf_poly1305 : ShadowsocksCipher

pub record CipherSpec : Type 0 where
  pub key_length : ℕ
  pub salt_length : ℕ
  pub nonce_length : ℕ
  pub auth_tag_length : ℕ

abbrev pub ciphers : ShadowsocksCipher → CipherSpec
ciphers aes_128_gcm = record {
  key_length = 16;
  salt_length = 16;
  nonce_length = 12;
  auth_tag_length = 16;
}
ciphers aes_256_gcm = record {
  key_length = 32;
  salt_length = 32;
  nonce_length = 12;
  auth_tag_length = 16;
}
ciphers chacha20_ietf_poly1305 = record {
  key_length = 32;
  salt_length = 32;
  nonce_length = 12;
  auth_tag_length = 16;
}

-- Node's `crypto`, by cipher: `encrypt` gives the ciphertext and the tag, `decrypt` fails on a wrong tag.
pub record Crypto : Type 0 where
  pub md5 : List ℕ → List ℕ
  pub hkdf : List ℕ → List ℕ → ℕ → List ℕ
  pub encrypt : ShadowsocksCipher → List ℕ → List ℕ → List ℕ → List ℕ × List ℕ
  pub decrypt : ShadowsocksCipher → List ℕ → List ℕ → List ℕ → List ℕ → Option (List ℕ)

-- The documented behaviour that the framing relies on.
pub record IsCrypto (c : Crypto) : Type 0 where
  pub length-md5 : (bytes : List ℕ) → length (c.md5 bytes) ≡ 16
  pub length-encrypt :
      (m : ShadowsocksCipher) (key nonce plain : List ℕ)
      → length ((c.encrypt m key nonce plain).0) ≡ length plain
  pub length-tag :
      (m : ShadowsocksCipher) (key nonce plain : List ℕ)
      → length ((c.encrypt m key nonce plain).1) ≡ (ciphers m).auth_tag_length
  pub decrypt-encrypt :
      (m : ShadowsocksCipher) (key nonce plain : List ℕ)
      → let sealed = c.encrypt m key nonce plain in
        c.decrypt m key nonce (sealed.0) (sealed.1) ≡ some plain

pub record Context : Type 0 where
  pub method : ShadowsocksCipher
  pub master_key : List ℕ

abbrev pub spec : Context → CipherSpec
spec x = ciphers x.method

pub data StreamError : Type 0 where
  ciphertext_too_short bad_tag short_length udp_too_short unread out_of_fuel : StreamError

-- The least significant byte comes first.
unfoldable pub increment_nonce : List ℕ → List ℕ
increment_nonce [] = []
increment_nonce (b ∷ bs) =
    let carried = 0 ∷ increment_nonce bs in
    let b' = (b + 1) % 256 in if b' == 0 then carried else b' ∷ bs

abbrev pub zero_nonce : List ℕ
zero_nonce = replicate 12 0

abbrev pub max_part : ℕ
max_part = 0x3fff

abbrev pub uint16_bytes : ℕ → List ℕ
uint16_bytes n = (n / 256) ∷ (n % 256) ∷ []

-- `readUInt16BE(0)`, which throws on fewer than two bytes.
abbrev pub read_uint16 : List ℕ → Result StreamError ℕ
read_uint16 [] = err short_length
read_uint16 (high ∷ []) = err short_length
read_uint16 (high ∷ low ∷ _) = ok (high * 256 + low)

module _ (c : Crypto) (x : Context) where
  unfoldable pub derive_subkey : List ℕ → List ℕ
  derive_subkey salt = c.hkdf x.master_key salt (spec x).key_length

  unfoldable pub aead_encrypt : List ℕ → List ℕ → List ℕ → List ℕ
  aead_encrypt key nonce plain =
      let (encrypted, tag) = c.encrypt x.method key nonce plain in encrypted ++ tag

  unfoldable pub aead_decrypt : List ℕ → List ℕ → List ℕ → Result StreamError (List ℕ)
  aead_decrypt key nonce bytes =
      let size = length bytes - (spec x).auth_tag_length in
      if ltb (length bytes) (spec x).auth_tag_length
      then err ciphertext_too_short
      else (elim (c.decrypt x.method key nonce (take size bytes) (drop size bytes)) [
        | none ↦ err bad_tag
        | some plain ↦ ok plain
      ])

  -- The loop over parts of at most `max_part` bytes; one round for each byte is enough.
  unfoldable pub encrypt_parts : ℕ → List ℕ → List ℕ → List ℕ → List ℕ × List ℕ
  encrypt_parts zero key payload nonce = ([], nonce)
  encrypt_parts (suc rounds) key [] nonce = ([], nonce)
  encrypt_parts (suc rounds) key (b ∷ bs) nonce =
      let part = take max_part (b ∷ bs) in
      let next = increment_nonce nonce in
      let (more, last) = encrypt_parts rounds key (drop max_part (b ∷ bs)) (increment_nonce next) in
      (
        aead_encrypt key nonce (uint16_bytes (length part)) ++ (aead_encrypt key next part ++ more),
        last,
      )

  unfoldable pub encrypt_tcp_payload : List ℕ → List ℕ → List ℕ → List ℕ × List ℕ
  encrypt_tcp_payload key payload nonce = encrypt_parts (length payload) key payload nonce

  unfoldable pub encrypt_udp_packet : List ℕ → List ℕ → List ℕ
  encrypt_udp_packet salt payload =
      salt ++ aead_encrypt (derive_subkey salt) (replicate (spec x).nonce_length 0) payload

  unfoldable pub decrypt_udp_packet : List ℕ → Result StreamError (List ℕ)
  decrypt_udp_packet packet =
      if ltb (length packet) ((spec x).salt_length + (spec x).auth_tag_length)
      then err udp_too_short
      else aead_decrypt (derive_subkey (take (spec x).salt_length packet))
          (replicate (spec x).nonce_length 0) (drop (spec x).salt_length packet)

-- `evpBytesToKey`: digests are appended until there are enough bytes.
unfoldable pub evp_chunks : Crypto → ℕ → List ℕ → List ℕ → ℕ → List ℕ → List ℕ
evp_chunks c zero password previous wanted bytes = bytes
evp_chunks c (suc rounds) password previous wanted bytes =
    let digest = c.md5 (previous ++ password) in
    let later = evp_chunks c rounds password digest wanted (bytes ++ digest) in
    if ltb (length bytes) wanted then later else bytes

unfoldable pub evp_bytes_to_key : Crypto → List ℕ → ℕ → List ℕ
unfolding evp_chunks
evp_bytes_to_key c password wanted = take wanted (evp_chunks c wanted password [] wanted [])

unfoldable pub create_context : Crypto → ShadowsocksCipher → List ℕ → Context
create_context c method password = record {
  method = method;
  master_key = evp_bytes_to_key c password (ciphers method).key_length;
}
