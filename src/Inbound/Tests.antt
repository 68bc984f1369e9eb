-- ===== src/Inbound/Tests.antt =====
-- A host on port 443 through each inbound.
use sepigs.Base.{ℕ, ◌≡◌, refl, true, some, List, [], ◌∷◌, ◌++◌, arith, nat_eq, string_eq}
use sepigs.Base.Text.{Text, codes, split, text_key}
use sepigs.Base.Numbers.{number}
use sepigs.Base.Result.{err, ok}
use sepigs.Protocol.Destination.{make_destination}
use sepigs.Protocol.Address.{
  AddressError, missing_type, truncated_ipv4, truncated_domain, truncated_ipv6,
  encode_socks_address, decode_socks_address, decode_ipv4, decode_domain, decode_ipv6, read_port,
  subarray, byte_groups,
}
use sepigs.Inbound.Trojan.{
  bad_address, waiting, failed, resolved, line_end, received, on_data, on_chunks,
  create_trojan_request,
}
use sepigs.Inbound.SocksUdp.{parse_socks_udp_packet, encode_socks_udp_packet}
use sepigs.Inbound.SocksUdp.Datagrams.{parse-encode}
use sepigs.Inbound.Trojan.Accepting.{
  IsHash, create-accepted, resolved-authentic, cut_behind_command,
}
use sepigs.Inbound.Socks5.{
  Socks5Auth, Session, data_exceeded, authenticate_user_pass, choose_method, negotiate_auth,
  handshake,
}
use sepigs.Inbound.Socks5.Credentials.{
  Negotiates, negotiate_auth-Negotiates, greeting_bytes, credential_bytes,
}
use sepigs.Inbound.Socks5.Reader.{unread}
use sepigs.Inbound.Socks5.Accepting.{handshake-accepts}
use sepigs.Protocol.Address.Tests.{
  ascii, ascii-IsPlatform, host, host-IsSendable, wire, host_encoded,
}

-- A stand-in for the hash: its digits are the password's.
abbrev hash : Text → List ℕ
hash t = t

abbrev request : List ℕ
request = codes "ab" ++ 13 ∷ 10 ∷ 1 ∷ (wire ++ 13 ∷ 10 ∷ [])

request_created : create_trojan_request hash ascii (codes "ab") host ≡ ok request
unfolding create_trojan_request encode_socks_address
request_created = refl

ab-IsHash : IsHash (codes "ab")
ab-IsHash = ground arith

create-accepted_example :
    on_data ascii (codes "ab") 64 (request ++ codes "hi") (waiting []) ≡ resolved host (codes "hi")
create-accepted_example =
    create-accepted hash ascii (codes "ab") host request (codes "hi") 64 ascii-IsPlatform
      host-IsSendable ab-IsHash request_created (omega arith)

request_settles : on_data ascii (codes "ab") 64 request (waiting []) ≡ resolved host []
unfolding on_data received line_end decode_socks_address decode_domain read_port make_destination
    sepigs.Protocol.Address.ipv4_bytes sepigs.Protocol.Address.octets split number
request_settles = refl

resolved-authentic_example : (tail : List ℕ) × ([] ++ request ≡ codes "ab" ++ 13 ∷ 10 ∷ 1 ∷ tail)
resolved-authentic_example =
    resolved-authentic ascii (codes "ab") [] request [] 64 host request_settles

cut_behind_command_example :
    on_chunks ascii
      (codes "ab")
      64
      ((codes "ab" ++ 13 ∷ 10 ∷ 1 ∷ []) ∷ (wire ++ 13 ∷ 10 ∷ []) ∷ [])
      (waiting [])
    ≡ failed (bad_address missing_type)
cut_behind_command_example =
    cut_behind_command ascii (codes "ab") ((wire ++ 13 ∷ 10 ∷ []) ∷ []) 64 ab-IsHash (omega arith)

parse-encode_example :
    (message : List ℕ) × (encode_socks_udp_packet ascii host (codes "hi") ≡ ok message)
    × (parse_socks_udp_packet ascii message
        ≡ ok (record { destination = host; payload = codes "hi" }))
parse-encode_example = parse-encode ascii host (codes "hi") ascii-IsPlatform host-IsSendable

abbrev auth : Socks5Auth
auth = record { enabled = true; username = codes "me"; password = codes "pw" }

abbrev offered : List ℕ
offered = 0 ∷ 2 ∷ []

-- The client's bytes come in three chunks.
abbrev client : Session
client = record {
  buffer = [];
  arrivals = (5 ∷ 2 ∷ 0 ∷ []) ∷ (2 ∷ []) ∷ (credential_bytes ascii auth ++ codes "x") ∷ [];
  max_bytes = 64;
  written = [];
}

abbrev served : Session
served = record {
  buffer = codes "x";
  arrivals = [];
  max_bytes = 64;
  written = (5 ∷ 2 ∷ []) ∷ (1 ∷ 0 ∷ []) ∷ [];
}

client_negotiates : negotiate_auth ascii (some auth) client ≡ (ok tt, served)
unfolding negotiate_auth sepigs.Inbound.Socks5.read_from choose_method authenticate_user_pass
client_negotiates = refl

negotiate_auth-Negotiates_example : Negotiates ascii auth (unread client) (unread served)
negotiate_auth-Negotiates_example =
    negotiate_auth-Negotiates ascii auth client served refl client_negotiates

-- The greeting and the credentials in one chunk, the command in another.
abbrev caller : Session
caller = record {
  buffer = [];
  arrivals =
      (greeting_bytes offered ++ credential_bytes ascii auth)
      ∷ (5 ∷ 1 ∷ 0 ∷ (wire ++ codes "x"))
      ∷ [];
  max_bytes = 64;
  written = [];
}

-- A reader that takes fewer bytes refuses the same client.
caller_refused :
    (handshake ascii (some auth) (record caller { max_bytes = 10 })).0 ≡ err data_exceeded
unfolding handshake negotiate_auth sepigs.Inbound.Socks5.read_from choose_method
    authenticate_user_pass
caller_refused = refl

handshake-accepts_example :
    ((handshake ascii (some auth) caller).0 ≡ ok (record { command = 1; destination = host }))
    × (unread (handshake ascii (some auth) caller).1 ≡ codes "x")
    × ((handshake ascii (some auth) caller).1.written ≡ (5 ∷ 2 ∷ []) ∷ (1 ∷ 0 ∷ []) ∷ [])
unfolding sepigs.Inbound.Socks5.Reader.flat sepigs.Protocol.Destination.is_well_formed_behind
handshake-accepts_example =
    handshake-accepts ascii auth offered (codes "x") 1 host wire caller ascii-IsPlatform refl refl
      refl refl host-IsSendable host_encoded refl (omega arith)
