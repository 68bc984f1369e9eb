-- ===== src/Config/Parse.antt =====
-- config/schema.ts: parseConfig and checkPublicExposure.
pub mod Outcome
pub mod Valid
pub mod Bounds
use sepigs.Base.{
  ◌+◌, ◌-◌, Bool, false, not, ◌&&◌, ◌||◌, Option, none, some, List, [], ◌∷◌, ◌++◌, map, ltb, ◌==◌,
  if◌then◌else◌, nat_eq, string_eq, length,
}
use sepigs.Base.Table.{get}
use sepigs.Base.Text.{Text, codes, text_eq, text_key}
use sepigs.Protocol.Destination.{Platform}
use sepigs.Config.Json.{natural, Json, numeral, array, object, Object, elements, entries}
use sepigs.Config.Checked.{
  field, Place, not_supported, list_empty, public_listener, public_metrics, public_dashboard,
  weak_token, Issue, Checked, pure, push, report, or_else, ◌>>=◌, ◌>>◌, require,
}
use sepigs.Config.Read.{collect}
use sepigs.Config.Settings.{
  LogLevel, LimitConfig, WorkerConfig, TransportConfig, ConnectionPoolConfig, HotReloadConfig,
  ProbingConfig, MetricsServerConfig, DashboardConfig, TunConfig,
}
use sepigs.Config.DnsSection.{DnsConfig, GeoConfig, parse_dns, parse_geo}
use sepigs.Config.Extensions.{
  PluginModuleConfig, WasmExtensionConfig, PluginConfig, ReloadConfig, parse_plugins, parse_reload,
}
use sepigs.Config.Sections.{
  parse_log, parse_limits, parse_workers, parse_transport, parse_connection_pool, parse_hot_reload,
  parse_probing, parse_observability, parse_dashboard, parse_tun,
}
use sepigs.Config.Inbounds.{AuthConfig, InboundConfig, parse_inbound}
use sepigs.Config.Outbounds.{OutboundConfig, parse_outbound}
use sepigs.Config.Routes.{RouterConfig, parse_router}
use sepigs.Config.Inbounds.{base}
use sepigs.Config.Outbounds.{base as outbound_base}
use sepigs.Config.References.{
  check_unique_tags, policy_tags, check_outbound_references, server_tags, check_dns_references,
}
use sepigs.Base.Result.{Result, ok, err}

pub record SepigsConfig : Type 0 where
  pub log : LogLevel
  pub limits : LimitConfig
  pub dns : DnsConfig
  pub geo : GeoConfig
  pub plugins : PluginConfig
  pub workers : WorkerConfig
  pub transport : TransportConfig
  pub connection_pool : ConnectionPoolConfig
  pub hot_reload : HotReloadConfig
  pub reload : ReloadConfig
  pub probing : ProbingConfig
  pub observability : MetricsServerConfig
  pub dashboard : DashboardConfig
  pub tun : TunConfig
  pub inbounds : List InboundConfig
  pub outbounds : List OutboundConfig
  pub route : RouterConfig

pub data ConfigError : Type 0 where
  root_not_object : ConfigError
  invalid : List Issue → ConfigError

-- The version is 1 in every configuration, so it is not kept.
unfoldable pub parse_config_version : Place → Option Json → Checked (Unit {0})
parse_config_version place none = pure tt
parse_config_version place (some (numeral (natural n))) = require (n == 1) place not_supported
parse_config_version place (some _) = push place not_supported

-- `inbounds` and `outbounds`: an empty array is an issue, and is read all the same.
unfoldable pub parse_entries {ℓ} :
    {A : Type ℓ} → (Place → Json → Checked (Option A)) → Place → Option Json → Checked (List A)
parse_entries parse place (some (array js)) = do
  _ ← require (ltb 0 (length (elements js))) place list_empty
  collect parse place 0 (elements js)
parse_entries parse place _ = report [] place list_empty

abbrev pub is_public : Text → Bool
is_public listen =
    text_eq listen (codes "0.0.0.0") || text_eq listen (codes "::") || text_eq listen (codes "[::]")

abbrev auth_enabled : Option AuthConfig → Bool
auth_enabled none = false
auth_enabled (some auth) = auth.enabled

abbrev pub is_authenticated : InboundConfig → Bool
is_authenticated (InboundConfig.http b auth) = auth_enabled auth
is_authenticated (InboundConfig.socks5 b udp auth) = auth_enabled auth
is_authenticated _ = false

unfoldable pub check_inbounds : List InboundConfig → Checked (Unit {0})
check_inbounds [] = pure tt
check_inbounds (i ∷ is) = do
  _ ← require (not (is_public (base i).listen) || is_authenticated i) [] public_listener
  check_inbounds is

unfoldable pub check_public_exposure : SepigsConfig → Checked (Unit {0})
check_public_exposure c = do
  _ ← check_inbounds c.inbounds
  _ ←
      require (not (c.observability.enabled && is_public c.observability.listen))
        (field "observability" ∷ field "metrics" ∷ field "listen" ∷ []) public_metrics
  _ ←
      require (not c.dashboard.enabled || not (is_public c.dashboard.listen))
        (field "dashboard" ∷ field "listen" ∷ []) public_dashboard
  require
      (not c.dashboard.enabled
        || not (text_eq c.dashboard.token (codes "change-me") || ltb (length c.dashboard.token) 16))
      (field "dashboard" ∷ field "token" ∷ []) weak_token

abbrev pub inbound_tags : SepigsConfig → List Text
inbound_tags c = map (λ i. (base i).tag) c.inbounds

abbrev pub outbound_tags : SepigsConfig → List Text
outbound_tags c = map (λ o. (outbound_base o).tag) c.outbounds

abbrev pub module_tags : SepigsConfig → List Text
module_tags c = map (λ (x : PluginModuleConfig). x.tag) c.plugins.modules

abbrev pub wasm_tags : SepigsConfig → List Text
wasm_tags c = map (λ (x : WasmExtensionConfig). x.tag) c.plugins.wasm

-- The checks on references run when the section `route` was read.
abbrev pub route_references : Option RouterConfig → SepigsConfig → Checked (Unit {0})
route_references none c = pure tt
route_references (some _) c = check_outbound_references (outbound_tags c) c.route

unfoldable pub check_config : Option RouterConfig → SepigsConfig → Checked (Unit {0})
check_config route c = do
  _ ← check_unique_tags (field "inbounds" ∷ []) [] (inbound_tags c)
  _ ← check_unique_tags (field "outbounds" ∷ []) [] (outbound_tags c)
  _ ← check_unique_tags (field "plugins" ∷ field "modules" ∷ []) [] (module_tags c)
  _ ← check_unique_tags (field "plugins" ∷ field "wasm" ∷ []) [] (wasm_tags c)
  _ ← check_unique_tags (field "dns" ∷ field "udpServers" ∷ []) [] (server_tags c.dns)
  _ ← check_unique_tags (field "route" ∷ field "policies" ∷ []) [] (policy_tags c.route)
  _ ← check_dns_references c.dns
  _ ← check_public_exposure c
  route_references route c

abbrev pub no_route : RouterConfig
no_route = record { default_outbound = []; rules = []; rule_set_files = []; policies = [] }

-- The sections, of which the rest of the configuration follows.
pub record Sections : Type 0 where
  pub log : LogLevel
  pub limits : LimitConfig
  pub dns : DnsConfig
  pub geo : GeoConfig
  pub plugins : PluginConfig
  pub workers : WorkerConfig
  pub transport : TransportConfig
  pub connection_pool : ConnectionPoolConfig
  pub hot_reload : HotReloadConfig
  pub reload : ReloadConfig
  pub probing : ProbingConfig
  pub observability : MetricsServerConfig
  pub dashboard : DashboardConfig
  pub tun : TunConfig

unfoldable pub read_sections : Object → Checked Sections
read_sections input = do
  _ ← parse_config_version (field "configVersion" ∷ []) (get "configVersion" input)
  log ← parse_log input
  limits ← parse_limits input
  dns ← parse_dns input
  geo ← parse_geo input
  plugins ← parse_plugins input
  workers ← parse_workers input
  transport ← parse_transport input
  pool ← parse_connection_pool input
  hot_reload ← parse_hot_reload input
  reload ← parse_reload input
  probing ← parse_probing input
  observability ← parse_observability input
  dashboard ← parse_dashboard input
  tun ← parse_tun input
  pure (record {
    log = log;
    limits = limits;
    dns = dns;
    geo = geo;
    plugins = plugins;
    workers = workers;
    transport = transport;
    connection_pool = pool;
    hot_reload = hot_reload;
    reload = reload;
    probing = probing;
    observability = observability;
    dashboard = dashboard;
    tun = tun;
  })

abbrev pub assemble :
    Sections → List InboundConfig → List OutboundConfig → Option RouterConfig → SepigsConfig
assemble s inbounds outbounds route = record {
  log = s.log;
  limits = s.limits;
  dns = s.dns;
  geo = s.geo;
  plugins = s.plugins;
  workers = s.workers;
  transport = s.transport;
  connection_pool = s.connection_pool;
  hot_reload = s.hot_reload;
  reload = s.reload;
  probing = s.probing;
  observability = s.observability;
  dashboard = s.dashboard;
  tun = s.tun;
  inbounds = inbounds;
  outbounds = outbounds;
  route = or_else route no_route;
}

-- The configuration that is assembled, and the section `route` if it was read.
unfoldable pub read_config : Platform → Object → Checked (Option RouterConfig × SepigsConfig)
read_config p input = do
  s ← read_sections input
  inbounds ← parse_entries parse_inbound (field "inbounds" ∷ []) (get "inbounds" input)
  outbounds ← parse_entries parse_outbound (field "outbounds" ∷ []) (get "outbounds" input)
  route ← parse_router p input s.geo
  pure (route, assemble s inbounds outbounds route)

-- `errors.length > 0` throws.
abbrev pub outcome : List Issue → SepigsConfig → Result ConfigError SepigsConfig
outcome [] c = ok c
outcome (e ∷ es) c = err (invalid (e ∷ es))

unfoldable pub parse_config : Platform → Json → Result ConfigError SepigsConfig
parse_config p (object ms) =
    let read = read_config p (entries ms) in
    let checked = check_config read.value.0 read.value.1 in
    outcome (read.issues ++ checked.issues) read.value.1
parse_config p _ = err root_not_object
