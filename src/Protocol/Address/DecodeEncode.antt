-- ===== src/Protocol/Address/DecodeEncode.antt =====
-- protocol/address.ts: decoding what was encoded, behind and before other bytes.
use sepigs.Base.{
  ℕ, ◌+◌, ◌*◌, ◌≤◌, ◌<◌, ◌≡◌, refl, ap, ◌∙◌, List, [], ◌∷◌, ◌++◌, append_assoc, arith, nat_eq,
  string_eq, length, take, drop, All, length-append,
}
use sepigs.Base.Text.{Text}
use sepigs.Base.Result.{ok}
use sepigs.Base.{take-append, drop-append}
use sepigs.Base.Buffers.{get_elem?-skip}
use sepigs.Protocol.Destination.{
  domain, ipv4, ipv6, Destination, Platform, IsPlatform, IsWellFormed, make_destination, dotted,
  colons,
}
use sepigs.Protocol.Address.{
  encode_socks_address, decode_socks_address, decode_ipv4, decode_ipv6, decode_domain, subarray,
  read_port, byte_groups, group_bytes, encode_host, port_bytes,
}
use sepigs.Protocol.Address.RoundTrip.{
  read_port-skip, decode-skip, ipv4_bytes-dotted, ipv6_to_bytes-colons,
}

-- A destination as `makeDestination` builds it: a name that is no address literal, has no surrogate
-- alone and 1 to 255 bytes, a dotted quad, or eight groups in lower-case hexadecimal without leading zeros.
pub data IsSendable (p : Platform) (d : Destination) : Type 0 where
  named :
      d.address_type ≡ domain
      → p.is_ip d.host ≡ 0
      → IsWellFormed d.host
      → 1 ≤ length (p.utf8_encode d.host)
      → length (p.utf8_encode d.host) ≤ 255
      → d.port < 65536
      → IsSendable p d
  quad :
      (a b c e : ℕ)
      → a < 256
      → b < 256
      → c < 256
      → e < 256
      → d.host ≡ dotted (a ∷ b ∷ c ∷ e ∷ [])
      → d.address_type ≡ ipv4
      → d.port < 65536
      → IsSendable p d
  grouped :
      (gs : List ℕ)
      → length gs ≡ 8
      → All (λ g. g < 65536) gs
      → d.host ≡ colons gs
      → d.address_type ≡ ipv6
      → d.port < 65536
      → IsSendable p d

byte_groups-group_bytes :
    (gs : List ℕ) → All (λ g. g < 65536) gs → byte_groups (group_bytes gs) ≡ gs
unfolding byte_groups group_bytes
byte_groups-group_bytes [] h = refl
byte_groups-group_bytes (g ∷ gs) (p, h) = ground (arith, byte_groups-group_bytes gs h)

length-group_bytes : (gs : List ℕ) → length (group_bytes gs) ≡ 2 * length gs
unfolding group_bytes
length-group_bytes [] = refl
length-group_bytes (g ∷ gs) = omega (arith, length-group_bytes gs)

-- A host field behind a head, followed by the port.
module _ (p : Platform) (head host post : List ℕ) (port : ℕ) where
  abbrev buffer : List ℕ
  buffer = head ++ (host ++ (port_bytes port ++ post))

  host_field : subarray buffer (length head) (length head + length host) ≡ host
  host_field =
      ap (λ n. take n (drop (length head) buffer)) (omega arith)
      ∙ ap (take (length host)) (drop-append head (host ++ (port_bytes port ++ post)))
      ∙ take-append host (port_bytes port ++ post)

  port_field : port < 65536 → read_port buffer (length head + length host) ≡ ok port
  unfolding read_port
  port_field h = rw (read_port-skip p head (host ++ (port_bytes port ++ post)) (length host)) (
      ground (
        arith,
        get_elem?-skip host (port_bytes port ++ post) 0,
        get_elem?-skip host (port_bytes port ++ post) 1,
      ))

  length-buffer : length head + length host + 2 ≤ length buffer
  length-buffer = ground (
    arith,
    length-append head (host ++ (port_bytes port ++ post)),
    length-append host (port_bytes port ++ post),
  )

module _ (p : Platform) (ok_platform : IsPlatform p) (post : List ℕ) where
  open ok_platform use {is_ip-dotted, is_ip-colons, utf8_decode-encode}

  decode_ipv4-encoded :
      (a b c e port : ℕ)
      → a < 256
      → b < 256
      → c < 256
      → e < 256
      → port < 65536
      → decode_ipv4 p (1 ∷ a ∷ b ∷ c ∷ e ∷ (port_bytes port ++ post)) 0
        ≡ ok (record { host = dotted (a ∷ b ∷ c ∷ e ∷ []); port = port; address_type = ipv4 }, 7)
  unfolding decode_ipv4 make_destination read_port
  decode_ipv4-encoded a b c e port ha hb hc he h = ground (arith, is_ip-dotted a b c e ha hb hc he)

  decode_ipv6-encoded :
      (gs : List ℕ) (port : ℕ)
      → length gs ≡ 8
      → All (λ g. g < 65536) gs
      → port < 65536
      → decode_ipv6 p (4 ∷ (group_bytes gs ++ (port_bytes port ++ post))) 0
        ≡ ok (record { host = colons gs; port = port; address_type = ipv6 }, 19)
  unfolding decode_ipv6 make_destination
  decode_ipv6-encoded gs port n h hp = ground (
    arith,
    is_ip-colons gs n h,
    host_field p (4 ∷ []) (group_bytes gs) post port,
    port_field p (4 ∷ []) (group_bytes gs) post port hp,
    length-buffer p (4 ∷ []) (group_bytes gs) post port,
    length-group_bytes gs,
    byte_groups-group_bytes gs h,
  )

  decode_domain-encoded :
      (host : Text) (port : ℕ)
      → p.is_ip host ≡ 0
      → IsWellFormed host
      → 1 ≤ length (p.utf8_encode host)
      → port < 65536
      → let bytes = p.utf8_encode host in
        decode_domain p (3 ∷ length bytes ∷ (bytes ++ (port_bytes port ++ post))) 0
        ≡ ok (record { host = host; port = port; address_type = domain }, 2 + length bytes + 2)
  unfolding decode_domain make_destination
  decode_domain-encoded host port t whole n hp =
      let bytes = p.utf8_encode host in
      let head = 3 ∷ length bytes ∷ [] in
      ground (
        arith,
        utf8_decode-encode host whole,
        host_field p head bytes post port,
        port_field p head bytes post port hp,
        length-buffer p head bytes post port,
      )

-- At the start of a buffer.
RoundTrips : Platform → Destination → List ℕ → Type 0
RoundTrips p d bytes =
    (encode_socks_address p d ≡ ok bytes)
    × ((post : List ℕ) → decode_socks_address p (bytes ++ post) 0 ≡ ok (d, length bytes))

encoded :
    (p : Platform) (d : Destination)
    → IsPlatform p
    → IsSendable p d
    → (bytes : List ℕ) × RoundTrips p d bytes
unfolding RoundTrips encode_socks_address encode_host decode_socks_address
encoded p d w (named t z whole one most h) =
    let bytes = p.utf8_encode d.host in
    (
      3 ∷ length bytes ∷ (bytes ++ port_bytes d.port),
      (
        ground arith,
        λ post. ground (
          arith,
          decode_domain-encoded p w post d.host d.port z whole one h,
          append_assoc bytes (port_bytes d.port) post,
          length-append bytes (port_bytes d.port),
        ),
      ),
    )
encoded p d w (quad a b c e ha hb hc he host t h) = (
  1 ∷ a ∷ b ∷ c ∷ e ∷ port_bytes d.port,
  (
    ground (arith, ipv4_bytes-dotted (a ∷ b ∷ c ∷ e ∷ []) refl (ha, (hb, (hc, (he, tt))))),
    λ post. ground (arith, decode_ipv4-encoded p w post a b c e d.port ha hb hc he h),
  ),
)
encoded p d w (grouped gs n hs host t h) = (
  4 ∷ (group_bytes gs ++ port_bytes d.port),
  (
    ground (arith, ipv6_to_bytes-colons gs n hs),
    λ post. ground (
      arith,
      decode_ipv6-encoded p w post gs d.port n hs h,
      append_assoc (group_bytes gs) (port_bytes d.port) post,
      length-append (group_bytes gs) (port_bytes d.port),
      length-group_bytes gs,
    ),
  ),
)

-- A sendable destination has an encoding, and decoding it, behind any bytes and before any others,
-- gives the destination back with the offset just behind the encoding.
pub decode-encode :
    (p : Platform) (d : Destination)
    → IsPlatform p
    → IsSendable p d
    → (bytes : List ℕ) × (encode_socks_address p d ≡ ok bytes)
      × ((pre post : List ℕ)
          → decode_socks_address p (pre ++ (bytes ++ post)) (length pre)
            ≡ ok (d, length pre + length bytes))
unfolding RoundTrips
decode-encode p d w s =
    let (bytes, (e, f)) = encoded p d w s in
    (bytes, e, λ pre post. ground (arith, decode-skip p pre (bytes ++ post), f post))
