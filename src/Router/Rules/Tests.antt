-- ===== src/Router/Rules/Tests.antt =====
-- A router with one rule on a port.
use sepigs.Base.{◌≡◌, refl, ◌⊎◌, true, false, none, some, [], ◌∷◌, nat_eq, string_eq, All}
use sepigs.Base.Text.{codes, text_key}
use sepigs.Protocol.Destination.{Destination, Platform, domain}
use sepigs.Router.Rules.{
  RouteRuleConfig, CompiledRouteRule, Router, match_rule, match_route, first_match,
}
use sepigs.Router.Rules.First.{Allows, Decides, match_route_lem}

abbrev platform : Platform
platform = record { is_ip = λ t. 0; utf8_encode = λ t. t; utf8_decode = λ t. t }

abbrev config : RouteRuleConfig
config = record {
  tag = some (codes "https");
  outbound_tag = codes "proxy";
  domain = none;
  domain_suffix = none;
  ip_cidr = none;
  port = some (443 ∷ []);
}

abbrev rule : CompiledRouteRule
rule = record {
  config = config;
  exact_domains = none;
  suffixes = [];
  cidrs = [];
  ports = some (443 ∷ []);
}

abbrev router : Router
router = record { default_outbound = codes "direct"; rules = rule ∷ [] }

abbrev destination : Destination
destination = record { host = codes "a.test"; port = 443; address_type = domain }

proxied_test :
    match_route platform router destination
    ≡ record { outbound_tag = codes "proxy"; rule_tag = some (codes "https"); matched = true }
unfolding match_route first_match match_rule
proxied_test = refl

match_route_lem_example :
    ((w : Decides platform destination router.rules) × (match_route platform router destination
        ≡ record {
          outbound_tag = w.rule.config.outbound_tag;
          rule_tag = w.rule.config.tag;
          matched = true;
        }))
    ⊎ (All (λ r. ¬ Allows platform destination r) router.rules
        × (match_route platform router destination
            ≡ record { outbound_tag = router.default_outbound; rule_tag = none; matched = false }))
match_route_lem_example = match_route_lem platform destination router
