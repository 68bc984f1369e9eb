-- ===== src/Protocol/Address.antt =====
-- protocol/address.ts: the address form that SOCKS5, Shadowsocks and Trojan share.
pub mod RoundTrip
pub mod Bounds
pub mod Tests
pub mod DecodeEncode
use sepigs.Base.{
  ℕ, ◌+◌, ◌-◌, ◌*◌, ◌/◌, ◌%◌, Bool, true, false, not, ◌||◌, Option, none, some, List, [], ◌∷◌, ◌++◌,
  map, ltb, ◌==◌, if◌then◌else◌, nat_eq, string_eq, length, get_elem?, take, drop, replicate,
}
use sepigs.Base.Text.{Text, split, split_pair, join}
use sepigs.Base.Digits.{decimal, parse_group, to_hex}
use sepigs.Base.Numbers.{number}
use sepigs.Base.Result.{Result, ok, err, ◌>>=◌, ◌>>◌}
use sepigs.Protocol.Destination.{
  AddressType, domain, ipv4, ipv6, Destination, Platform, make_destination,
}

-- One constructor for each message that is thrown.
pub data AddressError : Type 0 where
  invalid_ipv4 invalid_ipv6 invalid_group domain_too_long : AddressError
  missing_type truncated_ipv4 invalid_domain_length truncated_domain truncated_ipv6 : AddressError
  unsupported_type missing_port : AddressError

-- `Buffer.from([(port >> 8) & 0xff, port & 0xff])`
abbrev pub port_bytes : ℕ → List ℕ
port_bytes port = (port / 256 % 256) ∷ (port % 256) ∷ []

-- The parts as bytes, or `none` if one is no integer from 0 to 255.
unfoldable pub octets : List Text → Option (List ℕ)
octets [] = some []
octets (p ∷ ps) = elim (number p) [
  | none ↦ none
  | some v ↦ if ltb 255 v then none else elim (octets ps) [ none ↦ none | some vs ↦ some (v ∷ vs) ]
]

unfoldable pub ipv4_bytes : Text → Result AddressError (List ℕ)
ipv4_bytes host =
    let parts = split b'.' host in
    elim (octets parts) [
      | none ↦ err invalid_ipv4
      | some bytes ↦ if length parts == 4 then ok bytes else err invalid_ipv4
    ]

groups_of : List Text → Result AddressError (List ℕ)
groups_of [] = ok []
groups_of (p ∷ ps) = elim (parse_group p) [
  | none ↦ err invalid_group
  | some v ↦ elim (groups_of ps) [ ok vs ↦ ok (v ∷ vs) | err e ↦ err e ]
]

unfoldable pub parse_ipv6_groups : Text → Result AddressError (List ℕ)
unfolding groups_of
parse_ipv6_groups [] = ok []
parse_ipv6_groups (c ∷ t) = groups_of (split b':' (c ∷ t))

-- The bytes of each group, high byte first.
unfoldable pub group_bytes : List ℕ → List ℕ
group_bytes [] = []
group_bytes (g ∷ gs) = (g / 256 % 256) ∷ (g % 256) ∷ group_bytes gs

-- The list `groups` and the test after it; `missing < 0` is `8 < length head + length tail`.
eight_groups : Bool → List ℕ → List ℕ → Result AddressError (List ℕ)
eight_groups compressed head tail =
    let missing = 8 - length head - length tail in
    let groups = if compressed then head ++ replicate missing 0 ++ tail else head in
    if not (length groups == 8) || ltb 8 (length head + length tail)
    then err invalid_ipv6
    else ok groups

ipv6_parts : List Text → Result AddressError (List ℕ)
ipv6_parts [] = err invalid_ipv6
ipv6_parts (head ∷ []) = do h ← parse_ipv6_groups head; eight_groups false h []
ipv6_parts (head ∷ tail ∷ []) = do
  h ← parse_ipv6_groups head
  t ← parse_ipv6_groups tail
  eight_groups true h t
ipv6_parts (_ ∷ _ ∷ _ ∷ _) = err invalid_ipv6

unfoldable pub ipv6_to_bytes : Text → Result AddressError (List ℕ)
unfolding ipv6_parts eight_groups
ipv6_to_bytes host = do groups ← ipv6_parts (split_pair b':' host); ok (group_bytes groups)

encode_host : Platform → AddressType → Text → Result AddressError (List ℕ)
encode_host p ipv4 host = do bytes ← ipv4_bytes host; ok (1 ∷ bytes)
encode_host p ipv6 host = do bytes ← ipv6_to_bytes host; ok (4 ∷ bytes)
encode_host p domain host =
    let bytes = p.utf8_encode host in
    if ltb 255 (length bytes) then err domain_too_long else ok (3 ∷ length bytes ∷ bytes)

unfoldable pub encode_socks_address : Platform → Destination → Result AddressError (List ℕ)
unfolding encode_host
encode_socks_address p d = do
  bytes ← encode_host p d.address_type d.host
  ok (bytes ++ port_bytes d.port)

-- `buffer.subarray(from, to)`
abbrev pub subarray : List ℕ → ℕ → ℕ → List ℕ
subarray buffer from to = take (to - from) (drop from buffer)

unfoldable pub read_port : List ℕ → ℕ → Result AddressError ℕ
read_port buffer offset = elim (get_elem? buffer offset) [
  | none ↦ err missing_port
  | some high ↦ elim (get_elem? buffer (offset + 1)) [
    | none ↦ err missing_port
    | some low ↦ ok (high * 256 + low)
  ]
]

-- The groups of an address read two bytes at a time.
unfoldable pub byte_groups : List ℕ → List ℕ
byte_groups [] = []
byte_groups (high ∷ []) = (high * 256) ∷ []
byte_groups (high ∷ low ∷ rest) = (high * 256 + low) ∷ byte_groups rest

unfoldable pub decode_ipv4 : Platform → List ℕ → ℕ → Result AddressError (Destination × ℕ)
decode_ipv4 p buffer offset =
    let address_end = offset + 5 in
    let port_end = address_end + 2 in
    if ltb (length buffer) port_end then err truncated_ipv4 else do
      port ← read_port buffer address_end
      ok (
        make_destination p (join b'.' (map decimal (subarray buffer (offset + 1) address_end)))
            port,
        port_end,
      )

unfoldable pub decode_domain : Platform → List ℕ → ℕ → Result AddressError (Destination × ℕ)
decode_domain p buffer offset = elim (get_elem? buffer (offset + 1)) [
  | none ↦ err invalid_domain_length
  | some n ↦
      let host_start = offset + 2 in
      let host_end = host_start + n in
      let port_end = host_end + 2 in
      if n == 0
      then err invalid_domain_length
      else if ltb (length buffer) port_end
      then err truncated_domain
      else do
        port ← read_port buffer host_end
        ok (make_destination p (p.utf8_decode (subarray buffer host_start host_end)) port, port_end)
]

unfoldable pub decode_ipv6 : Platform → List ℕ → ℕ → Result AddressError (Destination × ℕ)
decode_ipv6 p buffer offset =
    let address_end = offset + 17 in
    let port_end = address_end + 2 in
    if ltb (length buffer) port_end then err truncated_ipv6 else do
      port ← read_port buffer address_end
      ok (
        make_destination p
            (join b':' (map to_hex (byte_groups (subarray buffer (offset + 1) address_end)))) port,
        port_end,
      )

unfoldable pub decode_socks_address : Platform → List ℕ → ℕ → Result AddressError (Destination × ℕ)
decode_socks_address p buffer offset = elim (get_elem? buffer offset) [
  | none ↦ err missing_type
  | some t ↦
      if t == 1
      then decode_ipv4 p buffer offset
      else if t == 3
      then decode_domain p buffer offset
      else if t == 4
      then decode_ipv6 p buffer offset
      else err unsupported_type
]
