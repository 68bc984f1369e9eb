-- ===== src/Protocol/Address/Tests.antt =====
-- A platform that meets the assumptions, runs of the codec, and the theorems at concrete inputs.
use sepigs.Base.{
  ℕ, ◌+◌, ◌≤◌, ◌<◌, ◌≡◌, refl, Bool, true, false, ◌||◌, List, [], ◌∷◌, ◌++◌, arith, ◌==◌,
  if◌then◌else◌, nat_eq, string_eq, length, take, any, All,
}
use sepigs.Base.Text.{Text, codes, split, split_pair, join}
use sepigs.Base.Digits.{decimal, parse_group, to_hex}
use sepigs.Base.Numbers.{number}
use sepigs.Base.Result.{ok, err}
use sepigs.Protocol.Destination.{
  domain, ipv4, ipv6, Destination, Platform, IsPlatform, dotted, colons,
}
use sepigs.Protocol.Address.{
  encode_socks_address, decode_socks_address, ipv4_bytes, truncated_domain, AddressError,
}
use sepigs.Protocol.Address.RoundTrip.{ipv4_bytes-dotted}
use sepigs.Protocol.Address.DecodeEncode.{IsSendable, named, decode-encode}
use sepigs.Protocol.Address.Bounds.{decode_bounds, decode_truncated}

-- A text with a colon counts as an IPv6 address, four decimal bytes as an IPv4 address; text is ASCII.
abbrev pub ascii_is_ip : Text → ℕ
ascii_is_ip t = if any (λ c. c == b':') t then 6 else (elim (ipv4_bytes t) [ ok _ ↦ 4 | err _ ↦ 0 ])

abbrev pub ascii : Platform
ascii = record { is_ip = ascii_is_ip; utf8_encode = λ t. t; utf8_decode = λ bytes. bytes }

any-append : (f : ℕ → Bool) (xs ys : Text) → any f (xs ++ ys) ≡ (any f xs || any f ys)
any-append f [] ys = refl
any-append f (x ∷ xs) ys = ground (arith, any-append f xs ys)

decimal-colon : (n : ℕ) → n < 256 → any (λ c. c == b':') (decimal n) ≡ false
unfolding decimal
decimal-colon n h = ground arith

dotted-colon :
    (bytes : List ℕ) → All (λ b. b < 256) bytes → any (λ c. c == b':') (dotted bytes) ≡ false
unfolding join
dotted-colon [] h = refl
dotted-colon (b ∷ []) (p, h) = decimal-colon b p
dotted-colon (b ∷ c ∷ bs) (p, h) =
    rw (any-append (λ x. x == b':') (decimal b) (b'.' ∷ dotted (c ∷ bs)))
      (ground (arith, decimal-colon b p, dotted-colon (c ∷ bs) h))

colons-colon : (gs : List ℕ) → 2 ≤ length gs → any (λ c. c == b':') (colons gs) ≡ true
unfolding join
colons-colon [] h = absurd (omega arith)
colons-colon (g ∷ []) h = absurd (omega arith)
colons-colon (g ∷ k ∷ gs) h =
    rw (any-append (λ x. x == b':') (to_hex g) (b':' ∷ colons (k ∷ gs))) (ground arith)

pub ascii-IsPlatform : IsPlatform ascii
ascii-IsPlatform = record {
  is_ip-dotted = λ a b c d ha hb hc hd.
      let bytes : List ℕ = a ∷ b ∷ c ∷ d ∷ [] in
      ground (
        arith,
        dotted-colon bytes (ha, (hb, (hc, (hd, tt)))),
        ipv4_bytes-dotted bytes refl (ha, (hb, (hc, (hd, tt)))),
      );
  is_ip-colons = λ gs n h. ground (arith, colons-colon gs);
  utf8_decode-encode = λ t h. refl;
}

abbrev pub host : Destination
host = record { host = codes "a.io"; port = 443; address_type = domain }

abbrev pub wire : List ℕ
wire = 3 ∷ 4 ∷ 97 ∷ 46 ∷ 105 ∷ 111 ∷ 1 ∷ 187 ∷ []

pub host_encoded : encode_socks_address ascii host ≡ ok wire
unfolding encode_socks_address
host_encoded = refl

compressed_ipv6 :
    encode_socks_address ascii (record { host = codes "fe80::1"; port = 80; address_type = ipv6 })
    ≡ ok (4 ∷ 254 ∷ 128 ∷ 0 ∷ 0 ∷ 0 ∷ 0 ∷ 0 ∷ 0 ∷ 0 ∷ 0 ∷ 0 ∷ 0 ∷ 0 ∷ 0 ∷ 0 ∷ 1 ∷ 0 ∷ 80 ∷ [])
unfolding encode_socks_address sepigs.Protocol.Address.ipv6_to_bytes split_pair
    sepigs.Protocol.Address.parse_ipv6_groups split parse_group sepigs.Protocol.Address.group_bytes
compressed_ipv6 = refl

host_decoded : decode_socks_address ascii (9 ∷ wire) 1 ≡ ok (host, 9)
unfolding decode_socks_address sepigs.Protocol.Address.decode_domain
    sepigs.Protocol.Address.read_port sepigs.Protocol.Destination.make_destination ipv4_bytes
    sepigs.Protocol.Address.octets split number
host_decoded = refl

pub host-IsSendable : IsSendable ascii host
unfolding sepigs.Protocol.Destination.is_well_formed_behind ipv4_bytes
    sepigs.Protocol.Address.octets split number
host-IsSendable = named refl refl refl (omega arith) (omega arith) (omega arith)

decode-encode_example :
    (bytes : List ℕ) × (encode_socks_address ascii host ≡ ok bytes)
    × ((pre post : List ℕ)
        → decode_socks_address ascii (pre ++ (bytes ++ post)) (length pre)
          ≡ ok (host, length pre + length bytes))
decode-encode_example = decode-encode ascii host ascii-IsPlatform host-IsSendable

decode_bounds_example : (5 < 9) × (9 ≤ length (9 ∷ wire)) × (443 < 65536)
decode_bounds_example = decode_bounds ascii (9 ∷ wire) 1 (omega arith) host_decoded

decode_truncated_example :
    (e : AddressError) × (decode_socks_address ascii (take 8 (9 ∷ wire)) 1 ≡ err e)
decode_truncated_example = decode_truncated ascii (9 ∷ wire) 1 8 host 9 host_decoded (omega arith)
