-- ===== src/Inbound/SocksUdp/Datagrams.antt =====
-- The datagrams of inbound/socks5Udp.ts and the addresses of protocol/address.ts.
use sepigs.Base.{
  ℕ, ◌+◌, ◌≡◌, ap, ◌∙◌, inl, inr, List, [], ◌∷◌, ◌++◌, arith, ◌==◌, nat_eq, string_eq, Bool-cases,
  length, drop, drop-append,
}
use sepigs.Base.Text.{text_key}
use sepigs.Base.Result.{ok, ◌>>=◌}
use sepigs.Protocol.Destination.{Destination, Platform, IsPlatform}
use sepigs.Protocol.Address.{
  decode_socks_address, decode_ipv4, decode_domain, decode_ipv6, read_port,
}
use sepigs.Protocol.Address.DecodeEncode.{IsSendable, decode-encode}
use sepigs.Base.Buffers.{drop-skip}
use sepigs.Inbound.SocksUdp.{
  SocksUdpPacket, read_address, parse_address, parse_socks_udp_packet, encode_socks_udp_packet,
}

module _ (p : Platform) (t : ℕ) (rest : List ℕ) (d : Destination) (offset : ℕ) where
  abbrev message : List ℕ
  message = 0 ∷ 0 ∷ 0 ∷ t ∷ rest

  abbrev packet : SocksUdpPacket
  packet = record { destination = d; payload = drop offset message }

  parse_ipv4 :
      decode_ipv4 p message 3 ≡ ok (d, offset)
      → t ≡ 1
      → parse_socks_udp_packet p message ≡ ok packet
  unfolding decode_ipv4 read_port parse_socks_udp_packet parse_address read_address
  parse_ipv4 h e = ground arith

  parse_domain :
      decode_domain p message 3 ≡ ok (d, offset)
      → t ≡ 3
      → parse_socks_udp_packet p message ≡ ok packet
  unfolding decode_domain read_port parse_socks_udp_packet parse_address read_address
  parse_domain h e = ground arith

  parse_ipv6 :
      decode_ipv6 p message 3 ≡ ok (d, offset)
      → t ≡ 4
      → parse_socks_udp_packet p message ≡ ok packet
  unfolding decode_ipv6 read_port parse_socks_udp_packet parse_address read_address
  parse_ipv6 h e = ground arith

  parse-decoded :
      decode_socks_address p message 3 ≡ ok (d, offset)
      → parse_socks_udp_packet p message ≡ ok packet
  unfolding decode_socks_address
  parse-decoded h = elim (Bool-cases (t == 1)) [
    | inl one ↦ parse_ipv4 (ground arith) (ground arith)
    | inr not_one ↦ elim (Bool-cases (t == 3)) [
      | inl three ↦ parse_domain (ground arith) (ground arith)
      | inr not_three ↦ elim (Bool-cases (t == 4)) [
        | inl four ↦ parse_ipv6 (ground arith) (ground arith)
        | inr not_four ↦ absurd (ground arith)
      ]
    ]
  ]

-- A datagram of three zeros and bytes that decode_socks_address reads as an address is parsed to that
-- address and the bytes behind it.
pub parse-decode :
    (p : Platform) (body : List ℕ) (d : Destination) (offset : ℕ)
    → decode_socks_address p (0 ∷ 0 ∷ 0 ∷ body) 3 ≡ ok (d, offset)
    → parse_socks_udp_packet p (0 ∷ 0 ∷ 0 ∷ body)
      ≡ ok (record { destination = d; payload = drop offset (0 ∷ 0 ∷ 0 ∷ body) })
unfolding decode_socks_address
parse-decode p [] d offset h = absurd (cc h)
parse-decode p (t ∷ rest) d offset h = parse-decoded p t rest d offset h

-- A sendable source and any payload have a datagram, and parsing it gives the two back.
pub parse-encode :
    (p : Platform) (d : Destination) (payload : List ℕ)
    → IsPlatform p
    → IsSendable p d
    → (message : List ℕ) × (encode_socks_udp_packet p d payload ≡ ok message)
      × (parse_socks_udp_packet p message ≡ ok (record { destination = d; payload = payload }))
unfolding encode_socks_udp_packet
parse-encode p d payload w s =
    let (bytes, encodes, decodes) = decode-encode p d w s in
    (
      0 ∷ 0 ∷ 0 ∷ (bytes ++ payload),
      ap (λ r. r >>= λ a. ok (0 ∷ 0 ∷ 0 ∷ (a ++ payload))) encodes,
      parse-decode p (bytes ++ payload) d (3 + length bytes) (decodes (0 ∷ 0 ∷ 0 ∷ []) payload)
          ∙ ap (λ l. ok (record { destination = d; payload = l }))
              (drop-skip (0 ∷ 0 ∷ 0 ∷ []) (bytes ++ payload) (length bytes)
                ∙ drop-append bytes payload),
    )
