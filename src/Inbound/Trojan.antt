-- ===== src/Inbound/Trojan.antt =====
-- inbound/trojan.ts: the handshake, and the request that outbound/trojan.ts sends. The hash of a password,
-- `createHash("sha224").update(password).digest("hex")`, is a parameter.
pub mod Accepting
use sepigs.Base.{
  ℕ, ◌+◌, Bool, true, false, not, ◌&&◌, ◌||◌, Option, none, some, List, [], ◌∷◌, ◌++◌, ltb, ◌==◌,
  if◌then◌else◌, nat_eq, string_eq, length, get_elem?, take, drop,
}
use sepigs.Base.Text.{Text, text_eq, text_key}
use sepigs.Base.Result.{Result, ok, err, ◌>>=◌, ◌>>◌}
use sepigs.Protocol.Destination.{Destination, Platform}
use sepigs.Protocol.Address.{
  AddressError, truncated_ipv4, truncated_domain, truncated_ipv6, encode_socks_address,
  decode_socks_address,
}

pub data TrojanError : Type 0 where
  header_too_long authentication_failed unsupported_command invalid_terminator : TrojanError
  timed_out socket_error : TrojanError
  bad_address : AddressError → TrojanError

-- The promise of `readTrojanHandshake`, and the bytes that were received.
pub data Handshake : Type 0 where
  waiting : List ℕ → Handshake
  failed : TrojanError → Handshake
  resolved : Destination → List ℕ → Handshake

-- `data.indexOf("\r\n")`
unfoldable pub line_end : List ℕ → Option ℕ
line_end [] = none
line_end (x ∷ []) = none
line_end (x ∷ y ∷ r) =
    let rest = line_end (y ∷ r) in
    if x == 13 && y == 10 then some 0 else (elim rest [ none ↦ none | some n ↦ some (n + 1) ])

-- `error.message.startsWith("truncated")`
abbrev pub is_truncated : AddressError → Bool
is_truncated truncated_ipv4 = true
is_truncated truncated_domain = true
is_truncated truncated_ipv6 = true
is_truncated _ = false

abbrev pub byte_at : List ℕ → ℕ → ℕ → Bool
byte_at data_ i b = elim (get_elem? data_ i) [ none ↦ false | some c ↦ c == b ]

-- The tests behind a decoded address.
abbrev pub terminated : List ℕ → Destination → ℕ → Handshake
terminated data_ d offset =
    if ltb (length data_) (offset + 2)
    then waiting data_
    else if not (byte_at data_ offset 13) || not (byte_at data_ (offset + 1) 10)
    then failed invalid_terminator
    else resolved d (drop (offset + 2) data_)

abbrev pub with_address : List ℕ → Result AddressError (Destination × ℕ) → Handshake
with_address data_ (ok (d, offset)) = terminated data_ d offset
with_address data_ (err e) = if is_truncated e then waiting data_ else failed (bad_address e)

abbrev pub with_command : Platform → List ℕ → ℕ → Option ℕ → Handshake
with_command p data_ offset none = waiting data_
with_command p data_ offset (some command) =
    if not (command == 1)
    then failed unsupported_command
    else with_address data_ (decode_socks_address p data_ (offset + 1))

abbrev pub with_line : Platform → List ℕ → List ℕ → Option ℕ → Handshake
with_line p expected data_ none = waiting data_
with_line p expected data_ (some n) =
    if not (text_eq (take n data_) expected)
    then failed authentication_failed
    else with_command p data_ (n + 2) (get_elem? data_ (n + 2))

unfoldable pub received : Platform → List ℕ → ℕ → List ℕ → Handshake
received p expected most data_ =
    if ltb most (length data_)
    then failed header_too_long
    else with_line p expected data_ (line_end data_)

-- `onData`. A promise that was settled stays as it is: its listeners are removed.
unfoldable pub on_data : Platform → List ℕ → ℕ → List ℕ → Handshake → Handshake
on_data p expected most chunk (waiting data_) = received p expected most (data_ ++ chunk)
on_data p expected most chunk (failed e) = failed e
on_data p expected most chunk (resolved d rest) = resolved d rest

-- The timer and `onError`.
unfoldable pub on_failure : TrojanError → Handshake → Handshake
on_failure e (waiting data_) = failed e
on_failure e (failed e') = failed e'
on_failure e (resolved d rest) = resolved d rest

-- The chunks that the socket delivers, in order.
unfoldable pub on_chunks : Platform → List ℕ → ℕ → List (List ℕ) → Handshake → Handshake
on_chunks p expected most [] h = h
on_chunks p expected most (c ∷ cs) h = on_chunks p expected most cs (on_data p expected most c h)

-- `createTrojanRequest`
unfoldable pub create_trojan_request :
    (Text → List ℕ) → Platform → Text → Destination → Result AddressError (List ℕ)
create_trojan_request hash p password d = do
  address ← encode_socks_address p d
  ok (hash password ++ 13 ∷ 10 ∷ 1 ∷ (address ++ 13 ∷ 10 ∷ []))
