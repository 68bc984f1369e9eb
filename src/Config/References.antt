-- ===== src/Config/References.antt =====
-- config/schema.ts: the checks of tags and references.
pub mod Sound
use sepigs.Base.{ℕ, ◌+◌, not, List, [], ◌∷◌, ◌++◌, map, if◌then◌else◌, nat_eq, string_eq}
use sepigs.Base.Text.{Text, text_key}
use sepigs.Config.Checked.{
  field, element, Place, Reason, duplicate_tag, duplicates_outbound, unknown_outbound,
  unknown_server, Checked, pure, push, ◌>>=◌, ◌>>◌, require,
}
use sepigs.Config.DnsSection.{DnsUdpServerConfig, DnsRouteRuleConfig, DnsConfig}
use sepigs.Config.Routes.{
  RoutingPolicyConfig, RouteRuleConfig, RouteRuleSetFileConfig, RouterConfig,
}
use sepigs.Router.Matcher.{includes}

-- The loop of `checkUniqueTags`; `seen` is its set.
unfoldable pub check_unique_tags : Place → List Text → List Text → Checked (Unit {0})
check_unique_tags place seen [] = pure tt
check_unique_tags place seen (t ∷ ts) =
    let skipped = check_unique_tags place seen ts in
    let later = check_unique_tags place (seen ++ t ∷ []) ts in
    if includes seen t then push place (duplicate_tag t) >> skipped else later

-- An issue for each tag that is not known; `at` is the place of the tag with an index.
unfoldable pub check_known :
    (Text → Reason) → List Text → (ℕ → Place) → ℕ → List Text → Checked (Unit {0})
check_known reason known at i [] = pure tt
check_known reason known at i (t ∷ ts) = do
  _ ← require (includes known t) (at i) (reason t)
  check_known reason known at (i + 1) ts

-- The loop over the policies whose tags duplicate an outbound tag.
unfoldable pub check_policy_tags : List Text → List Text → Checked (Unit {0})
check_policy_tags outbound_tags [] = pure tt
check_policy_tags outbound_tags (t ∷ ts) = do
  _ ←
      require (not (includes outbound_tags t)) (field "route" ∷ field "policies" ∷ [])
        (duplicates_outbound t)
  check_policy_tags outbound_tags ts

-- The loop over the outbounds of each policy.
unfoldable pub check_policy_outbounds :
    List Text → ℕ → List RoutingPolicyConfig → Checked (Unit {0})
check_policy_outbounds outbound_tags i [] = pure tt
check_policy_outbounds outbound_tags i (policy ∷ ps) = do
  _ ←
      check_known unknown_outbound outbound_tags
        (λ j. field "route" ∷ field "policies" ∷ element i ∷ field "outbounds" ∷ element j ∷ []) 0
        policy.outbounds
  check_policy_outbounds outbound_tags (i + 1) ps

abbrev pub policy_tags : RouterConfig → List Text
policy_tags route = map (λ (x : RoutingPolicyConfig). x.tag) route.policies

abbrev pub rule_targets : RouterConfig → List Text
rule_targets route = map (λ (x : RouteRuleConfig). x.outbound_tag) route.rules

abbrev pub file_targets : RouterConfig → List Text
file_targets route = map (λ (x : RouteRuleSetFileConfig). x.outbound_tag) route.rule_set_files

unfoldable pub check_outbound_references : List Text → RouterConfig → Checked (Unit {0})
check_outbound_references outbound_tags route = do
  _ ← check_policy_tags outbound_tags (policy_tags route)
  _ ←
      require (includes (outbound_tags ++ policy_tags route) route.default_outbound)
        (field "route" ∷ field "defaultOutbound" ∷ []) (unknown_outbound route.default_outbound)
  _ ←
      check_known unknown_outbound (outbound_tags ++ policy_tags route)
        (λ i. field "route" ∷ field "rules" ∷ element i ∷ field "outboundTag" ∷ []) 0
        (rule_targets route)
  _ ←
      check_known unknown_outbound (outbound_tags ++ policy_tags route)
        (λ i. field "route" ∷ field "ruleSetFiles" ∷ element i ∷ field "outboundTag" ∷ []) 0
        (file_targets route)
  check_policy_outbounds outbound_tags 0 route.policies

abbrev pub server_tags : DnsConfig → List Text
server_tags dns = map (λ (x : DnsUdpServerConfig). x.tag) dns.udp_servers

abbrev pub dns_targets : DnsConfig → List Text
dns_targets dns = map (λ (x : DnsRouteRuleConfig). x.server_tag) dns.rules

unfoldable pub check_dns_references : DnsConfig → Checked (Unit {0})
check_dns_references dns =
    check_known unknown_server (server_tags dns)
      (λ i. field "dns" ∷ field "rules" ∷ element i ∷ field "serverTag" ∷ []) 0 (dns_targets dns)
