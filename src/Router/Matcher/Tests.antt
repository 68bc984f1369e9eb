-- ===== src/Router/Matcher/Tests.antt =====
-- Ranges and suffixes, with a stand-in for `net.isIP` that asks for a dot or a colon.
use sepigs.Base.{
  ℕ, ◌+◌, ◌*◌, ◌/◌, ◌≤◌, ◌<◌, ◌≡◌, refl, ◌↔◌, ◌⊎◌, true, some, List, [], ◌∷◌, ◌++◌, ◌==◌,
  if◌then◌else◌, nat_eq, string_eq, any,
}
use sepigs.Base.Text.{Text, codes, split, text_key}
use sepigs.Base.Numbers.{number}
use sepigs.Base.Result.{ok}
use sepigs.Protocol.Destination.{Platform}
use sepigs.Router.Matcher.{
  trim_start, trim_end, normalize_domain, ends_with, matches_domain_suffix, without_dot, version_4,
  parse_ip, parse_ipv4, ipv4_values, CidrMatcher, new_cidr_matcher, matches,
}
use sepigs.Router.Matcher.Cidrs.{matches_iff}
use sepigs.Router.Matcher.Domains.{Among, matches_domain_suffix_lem}

abbrev by_mark : Text → ℕ
by_mark t = if any (λ c. c == b':') t then 6 else if any (λ c. c == b'.') t then 4 else 0

abbrev platform : Platform
platform = record { is_ip = by_mark; utf8_encode = λ t. t; utf8_decode = λ t. t }

abbrev matcher : CidrMatcher
matcher = record { version = version_4; network = 0x0a010203; prefix = 16; bits = 32 }

matcher_made : new_cidr_matcher platform (codes "10.1.2.3/16") ≡ ok matcher
unfolding new_cidr_matcher parse_ip parse_ipv4 ipv4_values split number
matcher_made = refl

matches_iff_example : (matches platform matcher (codes "10.1.200.7") ≡ true) ↔ (
    (x : ℕ) × (parse_ip platform (codes "10.1.200.7") ≡ some (version_4, x))
    × (0x0a010203 / 65536 * 65536 ≤ x)
    × (x < 0x0a010203 / 65536 * 65536 + 65536))
matches_iff_example =
    matches_iff platform (codes "10.1.2.3/16") (codes "10.1.200.7") matcher matcher_made

inside_test : matches platform matcher (codes "10.1.200.7") ≡ true
unfolding matches parse_ip parse_ipv4 ipv4_values split number
inside_test = refl

-- An empty prefix is read as 0.
empty_prefix_test :
    new_cidr_matcher platform (codes "10.0.0.0/")
    ≡ ok (record { version = version_4; network = 0x0a000000; prefix = 0; bits = 32 })
unfolding new_cidr_matcher parse_ip parse_ipv4 ipv4_values split number
empty_prefix_test = refl

suffix_test : matches_domain_suffix (codes " WWW.Example.com") (codes ".example.COM" ∷ []) ≡ true
unfolding matches_domain_suffix normalize_domain trim_start trim_end ends_with
suffix_test = refl

abbrev suffixes : List Text
suffixes = codes ".example.com" ∷ []

matches_domain_suffix_lem_example :
    (matches_domain_suffix (codes "a.example.com") suffixes ≡ true) ↔ (
      (suffix : Text) × Among suffix suffixes
      × ((normalize_domain (codes "a.example.com") ≡ without_dot (normalize_domain suffix))
          ⊎ ((sub : Text) × (normalize_domain (codes "a.example.com")
                ≡ sub ++ b'.' ∷ without_dot (normalize_domain suffix)))))
matches_domain_suffix_lem_example = matches_domain_suffix_lem (codes "a.example.com") suffixes
