-- ===== src/Protocol/Destination.antt =====
-- protocol/types.ts and the address part of utils/net.ts. What Node's `net.isIP` and the UTF-8 codec
-- of `Buffer` compute is a parameter; text is a list of code units, a buffer a list of bytes.
use sepigs.Base.{
  ℕ, ◌<◌, ◌≡◌, Bool, true, false, not, ◌&&◌, ltb, leb, List, [], ◌∷◌, map, ◌==◌, if◌then◌else◌,
  nat_eq, string_eq, length, All,
}
use sepigs.Base.Text.{Text, join}
use sepigs.Base.Digits.{decimal, to_hex}

pub data AddressType : Type 0 where
  domain ipv4 ipv6 : AddressType

pub record Destination : Type 0 where
  pub host : Text
  pub port : ℕ
  pub address_type : AddressType

pub record Platform : Type 0 where
  -- `net.isIP`: 4, 6, or 0.
  pub is_ip : Text → ℕ
  pub utf8_encode : Text → List ℕ
  pub utf8_decode : List ℕ → Text

unfoldable pub detect_address_type : Platform → Text → AddressType
detect_address_type p host =
    if p.is_ip host == 4 then ipv4 else if p.is_ip host == 6 then ipv6 else domain

unfoldable pub make_destination : Platform → Text → ℕ → Destination
unfolding detect_address_type
make_destination p host port = record {
  host = host;
  port = port;
  address_type = detect_address_type p host;
}

-- The dotted form of four bytes, and the colon form of eight groups without compression.
abbrev pub dotted : List ℕ → Text
dotted bytes = join b'.' (map decimal bytes)

abbrev pub colons : List ℕ → Text
colons groups = join b':' (map to_hex groups)

abbrev pub is_high_surrogate : ℕ → Bool
is_high_surrogate c = leb 55296 c && ltb c 56320

abbrev pub is_low_surrogate : ℕ → Bool
is_low_surrogate c = leb 56320 c && ltb c 57344

-- The code units behind a high surrogate or behind a whole character, without a surrogate alone.
unfoldable pub is_well_formed_behind : Bool → Text → Bool
is_well_formed_behind high [] = not high
is_well_formed_behind true (c ∷ t) =
    let rest = is_well_formed_behind false t in is_low_surrogate c && rest
is_well_formed_behind false (c ∷ t) =
    let paired = is_well_formed_behind true t in
    let rest = is_well_formed_behind false t in
    if is_high_surrogate c then paired else not (is_low_surrogate c) && ltb c 65536 && rest

-- Text that UTF-8 can encode: in any other, the codec replaces each surrogate that stands alone.
abbrev pub IsWellFormed : Text → Type 0
IsWellFormed t = is_well_formed_behind false t ≡ true

-- The documented behaviour of the platform that the codec relies on.
pub record IsPlatform (p : Platform) : Type 0 where
  pub is_ip-dotted :
      (a b c d : ℕ)
      → a < 256
      → b < 256
      → c < 256
      → d < 256
      → p.is_ip (dotted (a ∷ b ∷ c ∷ d ∷ [])) ≡ 4
  pub is_ip-colons :
      (groups : List ℕ)
      → length groups ≡ 8
      → All (λ g. g < 65536) groups
      → p.is_ip (colons groups) ≡ 6
  pub utf8_decode-encode : (t : Text) → IsWellFormed t → p.utf8_decode (p.utf8_encode t) ≡ t
