-- ===== src/Config/Routes.antt =====
-- config/types.ts and config/schema.ts: the section `route`.
use sepigs.Base.{
  ℕ, ◌+◌, Bool, true, false, ◌||◌, Option, none, some, List, [], ◌∷◌, ◌++◌, ltb, if◌then◌else◌,
  nat_eq, string_eq, length,
}
use sepigs.Base.Table.{Table, get}
use sepigs.Base.Text.{Text, codes, text_eq, text_key}
use sepigs.Router.Matcher.{to_lower, new_cidr_matcher}
use sepigs.Protocol.Destination.{Platform}
use sepigs.Base.Result.{ok, err}
use sepigs.Config.Json.{Json, array, object, Object, elements, entries}
use sepigs.Config.Checked.{
  field, element, Place, not_array, not_object, not_supported, outbounds_empty, invalid_cidr,
  unknown_geo, Checked, pure, push, report, or_else, ◌>>=◌, ◌>>◌, require,
}
use sepigs.Config.Read.{
  read_string, read_optional_string, collect, read_string_array, read_port_array, number_or,
  parse_list,
}
use sepigs.Config.DnsSection.{GeoConfig, object_item, choice_value}

-- The type of a policy stays the text that was read: an unsupported one is an issue.
pub data LoadBalanceStrategy : Type 0 where
  round_robin least_latency random : LoadBalanceStrategy

pub record RoutingPolicyConfig : Type 0 where
  pub tag : Text
  pub type : Text
  pub outbounds : List Text
  pub strategy : LoadBalanceStrategy
  pub unhealthy_after_failures : ℕ
  pub recover_after_ms : ℕ

pub record RouteRuleConfig : Type 0 where
  pub tag : Option Text
  pub outbound_tag : Text
  pub domain : Option (List Text)
  pub domain_suffix : Option (List Text)
  pub ip_cidr : Option (List Text)
  pub geo_ip : Option (List Text)
  pub geo_site : Option (List Text)
  pub port : Option (List ℕ)

pub record RouteRuleSetFileConfig : Type 0 where
  pub tag : Text
  pub path : Text
  pub outbound_tag : Text

pub record RouterConfig : Type 0 where
  pub default_outbound : Text
  pub rules : List RouteRuleConfig
  pub rule_set_files : List RouteRuleSetFileConfig
  pub policies : List RoutingPolicyConfig

-- The loop over the tags of `expandGeoIp` and `expandGeoSite`.
unfoldable pub expand_tags : Place → Table Text (List Text) → List Text → Checked (List Text)
expand_tags place known [] = pure []
expand_tags place known (t ∷ ts) =
    let rest = expand_tags place known ts in
    elim (get (to_lower t) known) [
      | none ↦ push place (unknown_geo t) >> rest
      | some values ↦ (do more ← rest; pure (values ++ more))
    ]

abbrev pub expand_geo : Place → Table Text (List Text) → Option (List Text) → Checked (List Text)
expand_geo place known none = pure []
expand_geo place known (some tags) = expand_tags place known tags

-- `isValidCidr`
unfoldable pub is_valid_cidr : Platform → Text → Bool
is_valid_cidr p cidr = elim (new_cidr_matcher p cidr) [ ok _ ↦ true | err _ ↦ false ]

unfoldable pub check_cidrs : Platform → Place → ℕ → List Text → Checked (Unit {0})
check_cidrs p place i [] = pure tt
check_cidrs p place i (t ∷ ts) = do
  _ ← require (is_valid_cidr p t) (place ++ element i ∷ []) invalid_cidr
  check_cidrs p place (i + 1) ts

abbrev when_some {ℓ} : {A : Type ℓ} → List A → Option (List A)
when_some [] = none
when_some (x ∷ xs) = some (x ∷ xs)

-- The rest of `parseRouteRule`, when `outboundTag` was read.
unfoldable pub route_rule_with :
    Platform → GeoConfig → Option Text → Place → Object → Checked (Option RouteRuleConfig)
route_rule_with p geo none path raw = pure none
route_rule_with p geo (some outbound) path raw = do
  tag ← read_optional_string raw "tag" path
  domain ← read_string_array raw "domain" path
  suffix ← read_string_array raw "domainSuffix" path
  cidr ← read_string_array raw "ipCidr" path
  geo_ip ← read_string_array raw "geoIp" path
  geo_site ← read_string_array raw "geoSite" path
  port ← read_port_array raw "port" path
  expanded_ip ← expand_geo (path ++ field "geoIp" ∷ []) geo.geoip geo_ip
  expanded_site ← expand_geo (path ++ field "geoSite" ∷ []) geo.geosite geo_site
  _ ← check_cidrs p (path ++ field "ipCidr" ∷ []) 0 (or_else cidr [] ++ expanded_ip)
  pure (
      some (record {
        tag = tag;
        outbound_tag = outbound;
        domain = domain;
        domain_suffix = when_some (or_else suffix [] ++ expanded_site);
        ip_cidr = when_some (or_else cidr [] ++ expanded_ip);
        geo_ip = geo_ip;
        geo_site = geo_site;
        port = port;
      }))

abbrev pub route_rule_of : Platform → GeoConfig → Place → Object → Checked (Option RouteRuleConfig)
route_rule_of p geo path raw = do
  outbound ← read_string raw "outboundTag" path
  route_rule_with p geo outbound path raw

unfoldable pub parse_route_rule :
    Platform → GeoConfig → Place → Json → Checked (Option RouteRuleConfig)
parse_route_rule p geo = object_item (route_rule_of p geo)

abbrev rule_set_file : Option Text → Option Text → Option Text → Option RouteRuleSetFileConfig
rule_set_file (some tag) (some path) (some outbound) =
    some (record { tag = tag; path = path; outbound_tag = outbound })
rule_set_file _ _ _ = none

abbrev rule_set_file_of : Place → Object → Checked (Option RouteRuleSetFileConfig)
rule_set_file_of path raw = do
  tag ← read_string raw "tag" path
  file ← read_string raw "path" path
  outbound ← read_string raw "outboundTag" path
  pure (rule_set_file tag file outbound)

unfoldable pub parse_rule_set_file : Place → Json → Checked (Option RouteRuleSetFileConfig)
parse_rule_set_file = object_item rule_set_file_of

abbrev is_policy_type : Text → Bool
is_policy_type t = text_eq t (codes "loadBalance") || text_eq t (codes "failover")

abbrev policy_type_issue : Place → Option Text → Checked (Unit {0})
policy_type_issue place none = pure tt
policy_type_issue place (some t) = require (is_policy_type t) place not_supported

abbrev load_balance_strategy : Text → Option LoadBalanceStrategy
load_balance_strategy t =
    if text_eq t (codes "roundRobin")
    then some round_robin
    else if text_eq t (codes "leastLatency")
    then some least_latency
    else if text_eq t (codes "random")
    then some random
    else none

-- The rest of `parseRoutingPolicy`, when the required fields were read.
unfoldable pub policy_with :
    Option Text
    → Option Text
    → Option (List Text)
    → LoadBalanceStrategy
    → Place
    → Object
    → Checked (Option RoutingPolicyConfig)
policy_with (some tag) (some type) (some outbounds) strategy path raw = do
  _ ← require (ltb 0 (length outbounds)) (path ++ field "outbounds" ∷ []) outbounds_empty
  failures ← number_or raw "unhealthyAfterFailures" path 1 1000 3
  recover ← number_or raw "recoverAfterMs" path 1 3600000 30000
  pure (
      some (record {
        tag = tag;
        type = type;
        outbounds = outbounds;
        strategy = strategy;
        unhealthy_after_failures = failures;
        recover_after_ms = recover;
      }))
policy_with _ _ _ strategy path raw = pure none

abbrev pub policy_of : Place → Object → Checked (Option RoutingPolicyConfig)
policy_of path raw = do
  tag ← read_string raw "tag" path
  type ← read_string raw "type" path
  outbounds ← read_string_array raw "outbounds" path
  _ ← policy_type_issue (path ++ field "type" ∷ []) type
  strategy ←
      choice_value load_balance_strategy round_robin (path ++ field "strategy" ∷ [])
        (get "strategy" raw)
  policy_with tag type outbounds strategy path raw

unfoldable pub parse_routing_policy : Place → Json → Checked (Option RoutingPolicyConfig)
parse_routing_policy = object_item policy_of

abbrev pub router_config :
    Option Text
    → List RouteRuleConfig
    → List RouteRuleSetFileConfig
    → List RoutingPolicyConfig
    → Option RouterConfig
router_config none rules files policies = none
router_config (some outbound) rules files policies = some (record {
  default_outbound = outbound;
  rules = rules;
  rule_set_files = files;
  policies = policies;
})

-- `parseRouter` behind the test that `rules` is an array.
unfoldable pub router_rules :
    Platform
    → GeoConfig
    → Place
    → Option Text
    → Object
    → Option Json
    → Checked (Option RouterConfig)
router_rules p geo path outbound raw (some (array js)) = do
  rules ← collect (parse_route_rule p geo) (path ++ field "rules" ∷ []) 0 (elements js)
  files ←
      parse_list parse_rule_set_file (path ++ field "ruleSetFiles" ∷ []) (get "ruleSetFiles" raw)
  policies ← parse_list parse_routing_policy (path ++ field "policies" ∷ []) (get "policies" raw)
  pure (router_config outbound rules files policies)
router_rules p geo path outbound raw _ = report none (path ++ field "rules" ∷ []) not_array

unfoldable pub router_of :
    Platform → GeoConfig → Place → Option Json → Checked (Option RouterConfig)
router_of p geo path (some (object ms)) = do
  outbound ← read_string (entries ms) "defaultOutbound" path
  router_rules p geo path outbound (entries ms) (get "rules" (entries ms))
router_of p geo path _ = report none path not_object

unfoldable pub parse_router : Platform → Object → GeoConfig → Checked (Option RouterConfig)
parse_router p root geo = router_of p geo (field "route" ∷ []) (get "route" root)
