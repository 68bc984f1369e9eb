-- ===== src/Router/Rules.antt =====
-- router/rules.ts and router/router.ts.
pub mod First
mod Tests
use sepigs.Base.{
  ℕ, Bool, true, false, not, ◌||◌, Option, none, some, List, [], ◌∷◌, map, ltb, ◌==◌, if◌then◌else◌,
  nat_eq, string_eq, length, any,
}
use sepigs.Base.Text.{Text, text_key}
use sepigs.Base.Result.{Result, ok, ◌>>=◌, ◌>>◌}
use sepigs.Protocol.Destination.{Destination, Platform}
use sepigs.Router.Matcher.{
  CidrMatcher, CidrError, new_cidr_matcher, matches, normalize_domain, matches_exact_domain,
  matches_domain_suffix,
}

-- The fields of a rule's configuration that the router reads.
pub record RouteRuleConfig : Type 0 where
  pub tag : Option Text
  pub outbound_tag : Text
  pub domain : Option (List Text)
  pub domain_suffix : Option (List Text)
  pub ip_cidr : Option (List Text)
  pub port : Option (List ℕ)

pub record RouteMatch : Type 0 where
  pub rule_tag : Option Text
  pub outbound_tag : Text

pub record CompiledRouteRule : Type 0 where
  pub config : RouteRuleConfig
  pub exact_domains : Option (List Text)
  pub suffixes : List Text
  pub cidrs : List CidrMatcher
  pub ports : Option (List ℕ)

abbrev pub or_empty {ℓ} : {A : Type ℓ} → Option (List A) → List A
or_empty none = []
or_empty (some xs) = xs

abbrev pub mapped {ℓ κ} : {A : Type ℓ} {B : Type κ} → (A → B) → Option A → Option B
mapped f none = none
mapped f (some a) = some (f a)

module _ (p : Platform) where
  unfoldable pub cidr_matchers : List Text → Result CidrError (List CidrMatcher)
  cidr_matchers [] = ok []
  cidr_matchers (t ∷ ts) = do m ← new_cidr_matcher p t; ms ← cidr_matchers ts; ok (m ∷ ms)

  unfoldable pub compile_rule : RouteRuleConfig → Result CidrError CompiledRouteRule
  compile_rule config = do
    cidrs ← cidr_matchers (or_empty config.ip_cidr)
    ok (record {
      config = config;
      exact_domains = mapped (map normalize_domain) config.domain;
      suffixes = or_empty config.domain_suffix;
      cidrs = cidrs;
      ports = config.port;
    })

  -- The four conditions. A list that is not given, or an empty list of suffixes or ranges, is none.
  abbrev pub domain_allows : CompiledRouteRule → Destination → Bool
  domain_allows r d = elim r.exact_domains [
    | none ↦ true
    | some domains ↦ matches_exact_domain d.host domains
  ]

  abbrev pub suffix_allows : CompiledRouteRule → Destination → Bool
  suffix_allows r d = not (ltb 0 (length r.suffixes)) || matches_domain_suffix d.host r.suffixes

  abbrev pub cidr_allows : CompiledRouteRule → Destination → Bool
  cidr_allows r d = not (ltb 0 (length r.cidrs)) || any (λ m. matches p m d.host) r.cidrs

  abbrev pub port_allows : CompiledRouteRule → Destination → Bool
  port_allows r d = elim r.ports [ none ↦ true | some ports ↦ any (λ n. n == d.port) ports ]

  unfoldable pub match_rule : CompiledRouteRule → Destination → Option RouteMatch
  match_rule r d =
      if not (domain_allows r d)
      then none
      else if not (suffix_allows r d)
      then none
      else if not (cidr_allows r d)
      then none
      else if not (port_allows r d)
      then none
      else some (record { rule_tag = r.config.tag; outbound_tag = r.config.outbound_tag })

pub record RouterConfig : Type 0 where
  pub default_outbound : Text
  pub rules : List RouteRuleConfig

pub record RouteResult : Type 0 where
  pub outbound_tag : Text
  pub rule_tag : Option Text
  pub matched : Bool

pub record Router : Type 0 where
  pub default_outbound : Text
  pub rules : List CompiledRouteRule

module _ (p : Platform) where
  unfoldable pub compile_rules : List RouteRuleConfig → Result CidrError (List CompiledRouteRule)
  compile_rules [] = ok []
  compile_rules (c ∷ cs) = do r ← compile_rule p c; rs ← compile_rules cs; ok (r ∷ rs)

  unfoldable pub new_router : RouterConfig → Result CidrError Router
  new_router config = do
    rules ← compile_rules config.rules
    ok (record { default_outbound = config.default_outbound; rules = rules })

  unfoldable pub first_match : List CompiledRouteRule → Destination → Option RouteMatch
  first_match [] d = none
  first_match (r ∷ rs) d = elim (match_rule p r d) [
    | none ↦ first_match rs d
    | some found ↦ some found
  ]

  unfoldable pub match_route : Router → Destination → RouteResult
  match_route router d = elim (first_match router.rules d) [
    | none ↦ record { outbound_tag = router.default_outbound; rule_tag = none; matched = false }
    | some found ↦ record {
      outbound_tag = found.outbound_tag;
      rule_tag = found.rule_tag;
      matched = true;
    }
  ]
