-- ===== src/Protocol/Shadowsocks/Packet.antt =====
-- protocol/shadowsocks.ts: UDP packets, which carry their salt, and keys from passwords.
use sepigs.Base.{
  ℕ, zero, suc, ◌+◌, ◌≤◌, ◌≡◌, List, [], ◌++◌, arith, nat_eq, string_eq, length, replicate,
  length-append, take-append, drop-append, length-take,
}
use sepigs.Base.Result.{ok}
use sepigs.Protocol.Shadowsocks.{
  ShadowsocksCipher, Crypto, IsCrypto, Context, spec, ciphers, derive_subkey, aead_encrypt,
  encrypt_udp_packet, decrypt_udp_packet, evp_chunks, evp_bytes_to_key, create_context,
}
use sepigs.Protocol.Shadowsocks.Frames.{length-aead_encrypt, aead_decrypt-encrypt}

module _ (c : Crypto) (x : Context) (w : IsCrypto c) where
  -- A UDP packet that was sealed with a salt of the cipher's length opens to its payload.
  pub udp_roundtrip :
      (salt payload : List ℕ)
      → length salt ≡ (spec x).salt_length
      → decrypt_udp_packet c x (encrypt_udp_packet c x salt payload) ≡ ok payload
  unfolding decrypt_udp_packet encrypt_udp_packet
  udp_roundtrip salt payload fits =
      let key = derive_subkey c x salt in
      let nonce = replicate (spec x).nonce_length 0 in
      let sealed = aead_encrypt c x key nonce payload in
      ground (
        arith,
        fits,
        length-append salt sealed,
        length-aead_encrypt c x w key nonce payload,
        take-append salt sealed,
        drop-append salt sealed,
        aead_decrypt-encrypt c x w key nonce payload,
      )

-- Enough digests are appended for any length that is asked for.
evp_chunks-length :
    (c : Crypto)
    → IsCrypto c
    → (rounds : ℕ) (password previous bytes : List ℕ) (wanted : ℕ) → wanted ≤ rounds + length bytes
    → wanted ≤ length (evp_chunks c rounds password previous wanted bytes)
unfolding evp_chunks
evp_chunks-length c w zero password previous bytes wanted h = omega arith
evp_chunks-length c w (suc rounds) password previous bytes wanted h =
    let digest = c.md5 (previous ++ password) in
    let size = length-append bytes digest in
    let digests = w.length-md5 (previous ++ password) in
    let later =
      evp_chunks-length c w rounds password digest (bytes ++ digest) wanted
        (omega (arith, size, digests)) in
    ground (arith, later)

-- The master key that `createContext` derives has the cipher's key length, whatever the password.
pub length-create_context :
    (c : Crypto)
    → IsCrypto c
    → (m : ShadowsocksCipher) (password : List ℕ)
    → length ((create_context c m password).master_key) ≡ (ciphers m).key_length
unfolding create_context evp_bytes_to_key
length-create_context c w m password =
    let wanted = (ciphers m).key_length in
    omega (
      arith,
      length-take wanted (evp_chunks c wanted password [] wanted []),
      evp_chunks-length c w wanted password [] [] wanted (omega arith),
    )
