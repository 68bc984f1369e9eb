-- ===== src/Router/Matcher.antt =====
-- router/matcher.ts: domains and address ranges. Text is ASCII: `trim` and `toLowerCase` are written for
-- its white space and its capital letters. `net.isIP` is a parameter.
pub mod Addresses
pub mod Cidrs
pub mod Domains
mod Tests
use sepigs.Base.{
  ℕ, ◌+◌, ◌-◌, ◌*◌, ◌/◌, ◌%◌, ◌^◌, Bool, true, false, not, ◌&&◌, ◌||◌, Option, none, some, List, [],
  ◌∷◌, ◌++◌, map, ltb, leb, ◌==◌, if◌then◌else◌, nat_eq, string_eq, length, drop, replicate, any,
}
use sepigs.Base.Text.{Text, split, split_pair, text_eq, text_key}
use sepigs.Base.Digits.{parse_group, short_digits}
use sepigs.Base.Numbers.{number}
use sepigs.Base.Result.{Result, ok, err}
use sepigs.Base.Options.{◌>>=◌}
use sepigs.Protocol.Destination.{Platform}

abbrev is_space : ℕ → Bool
is_space c = (leb 9 c && leb c 13) || c == 32

abbrev lower_code : ℕ → ℕ
lower_code c = if leb 65 c && leb c 90 then c + 32 else c

unfoldable pub trim_start : Text → Text
trim_start [] = []
trim_start (c ∷ t) = let rest = trim_start t in if is_space c then rest else c ∷ t

-- A space is dropped if only spaces follow it.
unfoldable pub trim_end : Text → Text
trim_end [] = []
trim_end (c ∷ t) = trimmed_end c (trim_end t)
  where
    trimmed_end : ℕ → Text → Text
    trimmed_end c [] = if is_space c then [] else c ∷ []
    trimmed_end c (d ∷ r) = c ∷ d ∷ r

abbrev pub to_lower : Text → Text
to_lower t = map lower_code t

unfoldable pub normalize_domain : Text → Text
normalize_domain domain = to_lower (trim_end (trim_start domain))

abbrev pub includes : List Text → Text → Bool
includes ts t = any (λ u. text_eq u t) ts

unfoldable pub matches_exact_domain : Text → List Text → Bool
matches_exact_domain host domains = includes domains (normalize_domain host)

-- `t.endsWith(s)`
unfoldable pub ends_with : Text → Text → Bool
ends_with t s = leb (length s) (length t) && text_eq (drop (length t - length s) t) s

-- `replace(/^\./u, "")`
abbrev pub without_dot : Text → Text
without_dot [] = []
without_dot (c ∷ t) = if c == b'.' then t else c ∷ t

abbrev pub matches_suffix : Text → Text → Bool
matches_suffix normalized_host suffix =
    let normalized_suffix = without_dot (normalize_domain suffix) in
    text_eq normalized_host normalized_suffix
    || ends_with normalized_host (b'.' ∷ normalized_suffix)

unfoldable pub matches_domain_suffix : Text → List Text → Bool
matches_domain_suffix host suffixes = any (matches_suffix (normalize_domain host)) suffixes

-- The value of a part of an IPv4 address.
abbrev pub ipv4_part : Text → Option ℕ
ipv4_part part =
    if short_digits part
    then (elim (number part) [ none ↦ none | some v ↦ if ltb 255 v then none else some v ])
    else none

unfoldable pub ipv4_values : List Text → Option (List ℕ)
ipv4_values [] = some []
ipv4_values (p ∷ ps) = do v ← ipv4_part p; vs ← ipv4_values ps; some (v ∷ vs)

-- `(output << bits) + value` over the values, for `base` the power of two.
abbrev pub joined : ℕ → ℕ → List ℕ → ℕ
joined base output [] = output
joined base output (v ∷ vs) = joined base (output * base + v) vs

unfoldable pub parse_ipv4 : Text → Option ℕ
parse_ipv4 input =
    let parts = split b'.' input in
    if length parts == 4 then (do vs ← ipv4_values parts; some (joined 256 0 vs)) else none

-- One part between colons: the two groups of an IPv4 address, or a group.
abbrev pub ipv6_part : Text → Option (List ℕ)
ipv6_part part =
    if any (λ c. c == b'.') part
    then (do v ← parse_ipv4 part; some ((v / 65536 % 65536) ∷ (v % 65536) ∷ []))
    else (do g ← parse_group part; some (g ∷ []))

unfoldable pub ipv6_groups : List Text → Option (List ℕ)
ipv6_groups [] = some []
ipv6_groups (p ∷ ps) = do g ← ipv6_part p; gs ← ipv6_groups ps; some (g ++ gs)

unfoldable pub parse_groups : Text → Option (List ℕ)
parse_groups [] = some []
parse_groups (c ∷ t) = ipv6_groups (split b':' (c ∷ t))

-- The groups with the zeros that `::` stands for.
abbrev pub all_groups : List Text → Option (List ℕ)
all_groups (head ∷ []) = parse_groups head
all_groups (head ∷ tail ∷ []) = do
  h ← parse_groups head
  t ← parse_groups tail
  if ltb (8 - length h - length t) 1
      then none
      else some (h ++ (replicate (8 - length h - length t) 0 ++ t))
all_groups _ = none

unfoldable pub joined_groups : List ℕ → Option ℕ
joined_groups gs =
    if length gs == 8
    then (if any (λ g. ltb 65535 g) gs then none else some (joined 65536 0 gs))
    else none

unfoldable pub parse_ipv6 : Text → Option ℕ
parse_ipv6 input = do gs ← all_groups (split_pair b':' (to_lower input)); joined_groups gs

pub data IpVersion : Type 0 where
  version_4 version_6 : IpVersion

abbrev pub same_version : IpVersion → IpVersion → Bool
same_version version_4 version_4 = true
same_version version_6 version_6 = true
same_version _ _ = false

unfoldable pub parse_ip : Platform → Text → Option (IpVersion × ℕ)
parse_ip p input =
    if p.is_ip input == 4
    then (do v ← parse_ipv4 input; some (version_4, v))
    else if p.is_ip input == 6
    then (do v ← parse_ipv6 input; some (version_6, v))
    else none

pub record CidrMatcher : Type 0 where
  pub version : IpVersion
  pub network : ℕ
  pub prefix : ℕ
  pub bits : ℕ

pub data CidrError : Type 0 where
  invalid_cidr invalid_address invalid_prefix : CidrError

abbrev pub bits_of : IpVersion → ℕ
bits_of version_4 = 32
bits_of version_6 = 128

abbrev pub cidr_matcher : Option ℕ → IpVersion × ℕ → Result CidrError CidrMatcher
cidr_matcher none _ = err invalid_prefix
cidr_matcher (some prefix) (version, network) =
    if ltb (bits_of version) prefix
    then err invalid_prefix
    else ok
        (record { version = version; network = network; prefix = prefix; bits = bits_of version })

abbrev pub cidr_parts : Platform → List Text → Result CidrError CidrMatcher
cidr_parts p (address ∷ prefix ∷ []) = elim (parse_ip p address) [
  | none ↦ err invalid_address
  | some parsed ↦ cidr_matcher (number prefix) parsed
]
cidr_parts p _ = err invalid_cidr

unfoldable pub new_cidr_matcher : Platform → Text → Result CidrError CidrMatcher
new_cidr_matcher p cidr = cidr_parts p (split b'/' cidr)

abbrev pub matches_value : CidrMatcher → Option (IpVersion × ℕ) → Bool
matches_value m none = false
matches_value m (some (version, value)) =
    let shift = m.bits - m.prefix in
    if not (same_version version m.version)
    then false
    else if m.prefix == 0
    then true
    else value / 2 ^ shift == m.network / 2 ^ shift

unfoldable pub matches : Platform → CidrMatcher → Text → Bool
matches p m host = matches_value m (parse_ip p host)
