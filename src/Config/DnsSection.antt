-- ===== src/Config/DnsSection.antt =====
-- config/types.ts and config/schema.ts: the sections `dns` and `geo`.
use sepigs.Base.{
  ℕ, Bool, false, Option, none, some, List, [], ◌∷◌, ◌++◌, if◌then◌else◌, nat_eq, string_eq,
}
use sepigs.Base.Table.{Table, get}
use sepigs.Base.Text.{Text, codes, text_eq, text_key}
use sepigs.Config.Json.{Json, text, object, Object, entries}
use sepigs.Config.Checked.{
  field, Place, not_object, not_supported, Checked, pure, report, or_else, ◌>>=◌,
}
use sepigs.Config.Read.{
  read_string, read_optional_string, read_string_array, read_string_record,
  read_string_array_record, section, number_or, boolean_or, string_or, parse_list,
}

pub data DnsStrategy : Type 0 where
  system prefer_ipv4 prefer_ipv6 : DnsStrategy

pub record DnsUdpServerConfig : Type 0 where
  pub tag : Text
  pub address : Text
  pub port : ℕ
  pub timeout_ms : ℕ

pub record DnsRouteRuleConfig : Type 0 where
  pub domain_suffix : List Text
  pub server_tag : Text

pub record FakeIpConfig : Type 0 where
  pub enabled : Bool
  pub range : Text
  pub size : ℕ
  pub ttl_seconds : ℕ
  pub persist_path : Option Text

pub record DohConfig : Type 0 where
  pub enabled : Bool
  pub endpoints : List Text
  pub timeout_ms : ℕ

pub record DnsConfig : Type 0 where
  pub strategy : DnsStrategy
  pub cache_ttl_ms : ℕ
  pub cache_max_entries : ℕ
  pub negative_ttl_ms : ℕ
  pub hosts : Table Text Text
  pub udp_servers : List DnsUdpServerConfig
  pub rules : List DnsRouteRuleConfig
  pub fallback_hosts : Table Text Text
  pub fake_ip : FakeIpConfig
  pub doh : DohConfig

pub record GeoConfig : Type 0 where
  pub geoip : Table Text (List Text)
  pub geosite : Table Text (List Text)

abbrev pub default_dns : DnsConfig
default_dns = record {
  strategy = system;
  cache_ttl_ms = 60000;
  cache_max_entries = 4096;
  negative_ttl_ms = 5000;
  hosts = [];
  udp_servers = [];
  rules = [];
  fallback_hosts = [];
  fake_ip = record {
    enabled = false;
    range = codes "198.18.0.0/15";
    size = 65536;
    ttl_seconds = 600;
    persist_path = none;
  };
  doh = record { enabled = false; endpoints = []; timeout_ms = 1000 };
}

abbrev pub default_geo : GeoConfig
default_geo = record { geoip = []; geosite = [] }

-- A parser of one object of a list: an issue when it is no object.
unfoldable pub object_item {ℓ} :
    {A : Type ℓ} → (Place → Object → Checked (Option A)) → Place → Json → Checked (Option A)
object_item parse place (object ms) = parse place (entries ms)
object_item parse place _ = report none place not_object

-- The record, when its required fields were read.
abbrev pub udp_server : Option Text → Option Text → ℕ → ℕ → Option DnsUdpServerConfig
udp_server (some tag) (some address) port timeout =
    some (record { tag = tag; address = address; port = port; timeout_ms = timeout })
udp_server _ _ port timeout = none

abbrev pub udp_server_of : Place → Object → Checked (Option DnsUdpServerConfig)
udp_server_of path raw = do
  tag ← read_string raw "tag" path
  address ← read_string raw "address" path
  port ← number_or raw "port" path 1 65535 53
  timeout ← number_or raw "timeoutMs" path 1 30000 1000
  pure (udp_server tag address port timeout)

unfoldable pub parse_dns_udp_server : Place → Json → Checked (Option DnsUdpServerConfig)
parse_dns_udp_server = object_item udp_server_of

abbrev pub dns_rule : Option (List Text) → Option Text → Option DnsRouteRuleConfig
dns_rule (some suffix) (some server) = some (record { domain_suffix = suffix; server_tag = server })
dns_rule _ _ = none

abbrev pub dns_rule_of : Place → Object → Checked (Option DnsRouteRuleConfig)
dns_rule_of path raw = do
  suffix ← read_string_array raw "domainSuffix" path
  server ← read_string raw "serverTag" path
  pure (dns_rule suffix server)

unfoldable pub parse_dns_rule : Place → Json → Checked (Option DnsRouteRuleConfig)
parse_dns_rule = object_item dns_rule_of

-- `cidr` is read only when `range` gives nothing.
abbrev pub range_or_cidr : Option Text → Place → Object → Checked Text
range_or_cidr (some range) path raw = pure range
range_or_cidr none path raw = string_or raw "cidr" path default_dns.fake_ip.range

abbrev pub fake_ip_of : Place → Object → Checked FakeIpConfig
fake_ip_of path raw = do
  enabled ← boolean_or raw "enabled" path default_dns.fake_ip.enabled
  given ← read_optional_string raw "range" path
  range ← range_or_cidr given path raw
  size ← number_or raw "size" path 1 131070 default_dns.fake_ip.size
  ttl ← number_or raw "ttlSeconds" path 1 86400 default_dns.fake_ip.ttl_seconds
  persist ← read_optional_string raw "persistPath" path
  pure (record {
    enabled = enabled;
    range = range;
    size = size;
    ttl_seconds = ttl;
    persist_path = persist;
  })

unfoldable pub parse_fake_ip : Place → Object → Checked FakeIpConfig
parse_fake_ip path raw =
    section default_dns.fake_ip (fake_ip_of (path ++ field "fakeIp" ∷ []))
      (path ++ field "fakeIp" ∷ []) (get "fakeIp" raw)

abbrev pub doh_of : Place → Object → Checked DohConfig
doh_of path raw = do
  enabled ← boolean_or raw "enabled" path default_dns.doh.enabled
  endpoints ← read_string_array raw "endpoints" path
  timeout ← number_or raw "timeoutMs" path 1 30000 default_dns.doh.timeout_ms
  pure (record {
    enabled = enabled;
    endpoints = or_else endpoints default_dns.doh.endpoints;
    timeout_ms = timeout;
  })

unfoldable pub parse_doh : Place → Object → Checked DohConfig
parse_doh path raw =
    section default_dns.doh (doh_of (path ++ field "doh" ∷ [])) (path ++ field "doh" ∷ [])
      (get "doh" raw)

abbrev pub dns_strategy : Text → Option DnsStrategy
dns_strategy t =
    if text_eq t (codes "system")
    then some system
    else if text_eq t (codes "prefer-ipv4")
    then some prefer_ipv4
    else if text_eq t (codes "prefer-ipv6")
    then some prefer_ipv6
    else none

-- One of the texts that `choose` knows, or the default with an issue.
unfoldable pub choice_value {ℓ} :
    {A : Type ℓ} → (Text → Option A) → A → Place → Option Json → Checked A
choice_value choose default place none = pure default
choice_value choose default place (some (text t)) = elim (choose t) [
  | none ↦ report default place not_supported
  | some a ↦ pure a
]
choice_value choose default place (some _) = report default place not_supported

abbrev pub dns_of : Place → Object → Checked DnsConfig
dns_of path raw = do
  strategy ← choice_value dns_strategy system (path ++ field "strategy" ∷ []) (get "strategy" raw)
  servers ← parse_list parse_dns_udp_server (path ++ field "udpServers" ∷ []) (get "udpServers" raw)
  rules ← parse_list parse_dns_rule (path ++ field "rules" ∷ []) (get "rules" raw)
  ttl ← number_or raw "cacheTtlMs" path 1 3600000 default_dns.cache_ttl_ms
  most ← number_or raw "cacheMaxEntries" path 1 1000000 default_dns.cache_max_entries
  negative_ttl ← number_or raw "negativeTtlMs" path 0 300000 default_dns.negative_ttl_ms
  hosts ← read_string_record raw "hosts" path
  fallback ← read_string_record raw "fallbackHosts" path
  fake_ip ← parse_fake_ip path raw
  doh ← parse_doh path raw
  pure (record {
    strategy = strategy;
    cache_ttl_ms = ttl;
    cache_max_entries = most;
    negative_ttl_ms = negative_ttl;
    hosts = or_else hosts default_dns.hosts;
    udp_servers = servers;
    rules = rules;
    fallback_hosts = or_else fallback default_dns.fallback_hosts;
    fake_ip = fake_ip;
    doh = doh;
  })

unfoldable pub parse_dns : Object → Checked DnsConfig
parse_dns root = section default_dns (dns_of (field "dns" ∷ [])) (field "dns" ∷ []) (get "dns" root)

abbrev pub geo_of : Place → Object → Checked GeoConfig
geo_of path raw = do
  geoip ← read_string_array_record raw "geoip" path
  geosite ← read_string_array_record raw "geosite" path
  pure (record {
    geoip = or_else geoip default_geo.geoip;
    geosite = or_else geosite default_geo.geosite;
  })

unfoldable pub parse_geo : Object → Checked GeoConfig
parse_geo root = section default_geo (geo_of (field "geo" ∷ [])) (field "geo" ∷ []) (get "geo" root)
