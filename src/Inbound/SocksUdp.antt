-- ===== src/Inbound/SocksUdp.antt =====
-- inbound/socks5Udp.ts.
pub mod Datagrams
use sepigs.Base.{
  ℕ, ◌+◌, ◌*◌, Bool, false, not, ◌||◌, Option, none, some, List, ◌∷◌, ◌++◌, map, ltb, ◌==◌,
  if◌then◌else◌, nat_eq, string_eq, length, get_elem?, drop,
}
use sepigs.Base.Text.{Text, join, text_key}
use sepigs.Base.Digits.{decimal, to_hex}
use sepigs.Base.Result.{Result, ok, err, ◌>>=◌, ◌>>◌}
use sepigs.Protocol.Destination.{Destination, Platform, make_destination}
use sepigs.Protocol.Address.{AddressError, encode_socks_address, subarray, byte_groups}

pub data SocksUdpError : Type 0 where
  too_short reserved_bytes fragmented ipv4_truncated domain_truncated : SocksUdpError
  ipv6_truncated type_unsupported port_missing : SocksUdpError

pub record SocksUdpPacket : Type 0 where
  pub destination : Destination
  pub payload : List ℕ

abbrev pub or_zero : Option ℕ → ℕ
or_zero none = 0
or_zero (some n) = n

-- `readAddress`: the host and the offset behind it.
unfoldable pub read_address : Platform → List ℕ → ℕ → ℕ → Result SocksUdpError (Text × ℕ)
read_address p buffer offset type =
    if type == 1
    then (if ltb (length buffer) (offset + 4)
        then err ipv4_truncated
        else ok (join b'.' (map decimal (subarray buffer offset (offset + 4))), offset + 4))
    else if type == 3
    then (let n = or_zero (get_elem? buffer offset) in
        if n == 0 || ltb (length buffer) (offset + 1 + n)
        then err domain_truncated
        else ok (p.utf8_decode (subarray buffer (offset + 1) (offset + 1 + n)), offset + 1 + n))
    else if type == 4
    then (if ltb (length buffer) (offset + 16)
        then err ipv6_truncated
        else ok (
          join b':' (map to_hex (byte_groups (subarray buffer offset (offset + 16)))),
          offset + 16,
        ))
    else err type_unsupported

-- The two bytes of the port.
abbrev pub udp_port : List ℕ → ℕ → Result SocksUdpError ℕ
udp_port message offset = elim (get_elem? message offset) [
  | none ↦ err port_missing
  | some high ↦ elim (get_elem? message (offset + 1)) [
    | none ↦ err port_missing
    | some low ↦ ok (high * 256 + low)
  ]
]

abbrev pub is_byte : List ℕ → ℕ → ℕ → Bool
is_byte message i b = elim (get_elem? message i) [ none ↦ false | some c ↦ c == b ]

-- Behind the tests of the header.
unfoldable pub parse_address : Platform → List ℕ → Option ℕ → Result SocksUdpError SocksUdpPacket
parse_address p message none = err type_unsupported
parse_address p message (some type) = do
  (host, offset) ← read_address p message 4 type
  port ← udp_port message offset
  ok (record { destination = make_destination p host port; payload = drop (offset + 2) message })

unfoldable pub parse_socks_udp_packet : Platform → List ℕ → Result SocksUdpError SocksUdpPacket
parse_socks_udp_packet p message =
    if ltb (length message) 7
    then err too_short
    else if not (is_byte message 0 0) || not (is_byte message 1 0)
    then err reserved_bytes
    else if not (is_byte message 2 0)
    then err fragmented
    else parse_address p message (get_elem? message 3)

unfoldable pub encode_socks_udp_packet :
    Platform → Destination → List ℕ → Result AddressError (List ℕ)
encode_socks_udp_packet p source payload = do
  address ← encode_socks_address p source
  ok (0 ∷ 0 ∷ 0 ∷ (address ++ payload))
