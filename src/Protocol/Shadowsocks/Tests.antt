-- ===== src/Protocol/Shadowsocks/Tests.antt =====
-- A stand-in for the crypto library, and the theorems on concrete streams.
use sepigs.Base.{
  ℕ, zero, suc, ◌+◌, ◌-◌, ◌≡◌, refl, ◌≢◌, none, some, List, [], ◌∷◌, ◌++◌, append-nil, arith,
  if◌then◌else◌, nat_eq, string_eq, length, take, drop, replicate,
}
use sepigs.Base.Text.{codes, text_eq, text_eq_refl}
use sepigs.Base.Result.{ok}
use sepigs.Protocol.BufferQueue.Contents.{flat}
use sepigs.Protocol.Shadowsocks.{
  ShadowsocksCipher, aes_128_gcm, chacha20_ietf_poly1305, Crypto, IsCrypto, Context, ciphers,
  create_context, derive_subkey, encrypt_parts, encrypt_tcp_payload, aead_encrypt,
  encrypt_udp_packet, decrypt_udp_packet, increment_nonce,
}
use sepigs.Protocol.Shadowsocks.Stream.{
  Reader, received, new_writer, new_reader, send_salt, write, handle_all,
}
use sepigs.Protocol.Shadowsocks.RoundTrip.{
  write_all, payload_of, stream_roundtrip, server_stream_roundtrip,
}
use sepigs.Protocol.Shadowsocks.Packet.{udp_roundtrip, length-create_context}
use sepigs.Protocol.Shadowsocks.Nonce.{advance, advance_injective}

abbrev shifted : List ℕ → List ℕ
shifted [] = []
shifted (b ∷ bs) = (b + 1) ∷ shifted bs

abbrev unshifted : List ℕ → List ℕ
unshifted [] = []
unshifted (b ∷ bs) = (b - 1) ∷ unshifted bs

length-shifted : (bs : List ℕ) → length (shifted bs) ≡ length bs
length-shifted [] = refl
length-shifted (b ∷ bs) = omega (arith, length-shifted bs)

unshifted-shifted : (bs : List ℕ) → unshifted (shifted bs) ≡ bs
unshifted-shifted [] = refl
unshifted-shifted (b ∷ bs) = ground (arith, unshifted-shifted bs)

length-replicate : (n b : ℕ) → length (replicate n b) ≡ n
length-replicate zero b = refl
length-replicate (suc n) b = omega (arith, length-replicate n b)

-- It shifts the bytes, and its tag is the key's first byte.
abbrev tag_of : ShadowsocksCipher → List ℕ → List ℕ
tag_of m [] = replicate (ciphers m).auth_tag_length 7
tag_of m (b ∷ bs) = replicate (ciphers m).auth_tag_length b

length-tag_of :
    (m : ShadowsocksCipher) (key : List ℕ) → length (tag_of m key) ≡ (ciphers m).auth_tag_length
length-tag_of m [] = length-replicate (ciphers m).auth_tag_length 7
length-tag_of m (b ∷ bs) = length-replicate (ciphers m).auth_tag_length b

abbrev shift : Crypto
shift = record {
  md5 = λ bytes. replicate 16 (length bytes);
  hkdf = λ key salt n. replicate n (length salt);
  encrypt = λ m key nonce plain. (shifted plain, tag_of m key);
  decrypt =
      λ m key nonce body tag. if text_eq tag (tag_of m key) then some (unshifted body) else none;
}

shift-IsCrypto : IsCrypto shift
shift-IsCrypto = record {
  length-md5 = λ bytes. length-replicate 16 (length bytes);
  length-encrypt = λ m key nonce plain. length-shifted plain;
  length-tag = λ m key nonce plain. length-tag_of m key;
  decrypt-encrypt =
      λ m key nonce plain. ground (arith, text_eq_refl (tag_of m key), unshifted-shifted plain);
}

abbrev context : Context
context = record { method = aes_128_gcm; master_key = 1 ∷ 2 ∷ 3 ∷ [] }

abbrev salt : List ℕ
salt = replicate 16 9

abbrev chunks : List (List ℕ)
chunks = (104 ∷ 105 ∷ []) ∷ (33 ∷ []) ∷ []

abbrev prefix : List ℕ
prefix = 1 ∷ 127 ∷ []

abbrev wire : List ℕ
wire =
    salt
    ++ write_all shift context salt chunks ((send_salt shift context salt (new_writer prefix)).0)

abbrev pieces : List (List ℕ)
pieces = take 30 wire ∷ take 3 (drop 30 wire) ∷ drop 33 wire ∷ []

pieces-flat : flat pieces ≡ wire
unfolding flat write_all send_salt write encrypt_tcp_payload encrypt_parts aead_encrypt
    derive_subkey increment_nonce
pieces-flat = refl

stream_roundtrip_example :
    (r : Reader) × (out : List (List ℕ)) × (handle_all shift context pieces new_reader []
      ≡ received r out)
    × (flat out ≡ payload_of chunks (new_writer prefix))
stream_roundtrip_example =
    stream_roundtrip shift context shift-IsCrypto salt refl prefix chunks pieces pieces-flat

abbrev server_wire : List ℕ
server_wire = write_all shift context salt chunks (new_writer [])

server_pieces-flat : flat (server_wire ∷ []) ≡ server_wire
unfolding flat
server_pieces-flat = append-nil server_wire

server_stream_roundtrip_example :
    (r : Reader) × (out : List (List ℕ)) × (handle_all shift context
        (server_wire ∷ [])
        new_reader
        []
      ≡ received r out)
    × (flat out ≡ 104 ∷ 105 ∷ 33 ∷ [])
unfolding flat
server_stream_roundtrip_example =
    server_stream_roundtrip shift context shift-IsCrypto salt refl [] (104 ∷ 105 ∷ [])
      ((33 ∷ []) ∷ []) (server_wire ∷ []) server_pieces-flat

udp_roundtrip_example :
    decrypt_udp_packet shift context (encrypt_udp_packet shift context salt (5 ∷ 6 ∷ []))
    ≡ ok (5 ∷ 6 ∷ [])
udp_roundtrip_example = udp_roundtrip shift context shift-IsCrypto salt (5 ∷ 6 ∷ []) refl

length-create_context_example :
    length ((create_context shift chacha20_ietf_poly1305 (codes "secret")).master_key) ≡ 32
length-create_context_example =
    length-create_context shift shift-IsCrypto chacha20_ietf_poly1305 (codes "secret")

advance_injective_example : advance 2 (255 ∷ 0 ∷ []) ≢ advance 3 (255 ∷ 0 ∷ [])
advance_injective_example =
    advance_injective (255 ∷ 0 ∷ []) 2 3 (omega arith, (omega arith, tt)) (omega arith)
      (omega arith) (omega arith)
