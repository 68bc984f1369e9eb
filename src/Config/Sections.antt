-- ===== src/Config/Sections.antt =====
-- config/schema.ts: the parsers of the sections with limits, timeouts, ports and switches. A section that
-- only holds another, such as `observability`, gives what it holds.
pub mod Ranges
use sepigs.Base.{
  ◌+◌, ◌/◌, Bool, false, Option, none, some, [], ◌∷◌, ◌++◌, ◌==◌, if◌then◌else◌, nat_eq, string_eq,
}
use sepigs.Base.Table.{get}
use sepigs.Base.Text.{Text, codes, text_eq, text_key}
use sepigs.Config.Json.{Json, text, Object}
use sepigs.Config.Checked.{
  field, Place, not_supported, not_slash_first, Checked, pure, report, ◌>>=◌, ◌>>◌, require,
}
use sepigs.Config.Read.{section, number_or, boolean_or, string_or}
use sepigs.Config.Settings.{
  LogLevel, debug, info, warn, error, silent, LimitConfig, WorkerConfig, TransportConfig,
  ConnectionPoolConfig, HotReloadConfig, ProbingConfig, MetricsServerConfig, DashboardConfig,
  TunConfig, default_limits, default_workers, default_transport, default_connection_pool,
  default_hot_reload, default_probing, default_metrics, default_dashboard, default_tun,
}

abbrev pub log_level : Text → Option LogLevel
log_level t =
    if text_eq t (codes "debug")
    then some debug
    else if text_eq t (codes "info")
    then some info
    else if text_eq t (codes "warn")
    then some warn
    else if text_eq t (codes "error")
    then some error
    else if text_eq t (codes "silent")
    then some silent
    else none

abbrev pub level_value : Place → Option Json → Checked LogLevel
level_value place none = pure info
level_value place (some (text t)) = elim (log_level t) [
  | none ↦ report info place not_supported
  | some level ↦ pure level
]
level_value place (some _) = report info place not_supported

unfoldable pub parse_log : Object → Checked LogLevel
parse_log root =
    section info (λ raw. level_value (field "log" ∷ field "level" ∷ []) (get "level" raw))
      (field "log" ∷ []) (get "log" root)

abbrev pub limits_of : Place → Object → Checked LimitConfig
limits_of path raw = do
  connect ← number_or raw "connectTimeoutMs" path 1 300000 default_limits.connect_timeout_ms
  handshake ← number_or raw "handshakeTimeoutMs" path 1 300000 default_limits.handshake_timeout_ms
  idle ← number_or raw "idleTimeoutMs" path 1 3600000 default_limits.idle_timeout_ms
  shutdown ← number_or raw "shutdownTimeoutMs" path 1 300000 default_limits.shutdown_timeout_ms
  header ← number_or raw "maxHeaderBytes" path 1024 1048576 default_limits.max_header_bytes
  connections ← number_or raw "maxConnections" path 1 1000000 default_limits.max_connections
  leak ←
      number_or raw "leakReportIntervalMs" path 1000 3600000 default_limits.leak_report_interval_ms
  sessions ← number_or raw "maxUdpSessions" path 1 1000000 default_limits.max_udp_sessions
  udp_idle ← number_or raw "udpIdleTimeoutMs" path 100 3600000 default_limits.udp_idle_timeout_ms
  pure (record {
    connect_timeout_ms = connect;
    handshake_timeout_ms = handshake;
    idle_timeout_ms = idle;
    shutdown_timeout_ms = shutdown;
    max_header_bytes = header;
    max_connections = connections;
    leak_report_interval_ms = leak;
    max_udp_sessions = sessions;
    udp_idle_timeout_ms = udp_idle;
  })

unfoldable pub parse_limits : Object → Checked LimitConfig
parse_limits root =
    section default_limits (limits_of (field "limits" ∷ [])) (field "limits" ∷ [])
      (get "limits" root)

abbrev pub workers_of : Place → Object → Checked WorkerConfig
workers_of path raw = do
  enabled ← boolean_or raw "enabled" path default_workers.enabled
  size ← number_or raw "size" path 1 128 default_workers.size
  timeout ← number_or raw "taskTimeoutMs" path 1 3600000 default_workers.task_timeout_ms
  pure (record { enabled = enabled; size = size; task_timeout_ms = timeout })

unfoldable pub parse_workers : Object → Checked WorkerConfig
parse_workers root =
    section default_workers (workers_of (field "workers" ∷ [])) (field "workers" ∷ [])
      (get "workers" root)

abbrev pub quic_of : Place → Object → Checked TransportConfig
quic_of path raw = do
  enabled ← boolean_or raw "enabled" path default_transport.quic_enabled
  timeout ←
      number_or raw "handshakeTimeoutMs" path 1 300000 default_transport.quic_handshake_timeout_ms
  pure (record { quic_enabled = enabled; quic_handshake_timeout_ms = timeout })

abbrev pub transport_of : Place → Object → Checked TransportConfig
transport_of path raw =
    section default_transport (quic_of (path ++ field "quic" ∷ [])) (path ++ field "quic" ∷ [])
      (get "quic" raw)

unfoldable pub parse_transport : Object → Checked TransportConfig
parse_transport root =
    section default_transport (transport_of (field "transport" ∷ [])) (field "transport" ∷ [])
      (get "transport" root)

abbrev pub connection_pool_of : Place → Object → Checked ConnectionPoolConfig
connection_pool_of path raw = do
  enabled ← boolean_or raw "enabled" path default_connection_pool.enabled
  idle ←
      number_or raw "maxIdlePerEndpoint" path 0 10000 default_connection_pool.max_idle_per_endpoint
  timeout ← number_or raw "idleTimeoutMs" path 1 3600000 default_connection_pool.idle_timeout_ms
  pure (record { enabled = enabled; max_idle_per_endpoint = idle; idle_timeout_ms = timeout })

unfoldable pub parse_connection_pool : Object → Checked ConnectionPoolConfig
parse_connection_pool root =
    section default_connection_pool (connection_pool_of (field "connectionPool" ∷ []))
      (field "connectionPool" ∷ []) (get "connectionPool" root)

abbrev pub hot_reload_of : Place → Object → Checked HotReloadConfig
hot_reload_of path raw = do
  enabled ← boolean_or raw "enabled" path default_hot_reload.enabled
  debounce ← number_or raw "debounceMs" path 10 60000 default_hot_reload.debounce_ms
  pure (record { enabled = enabled; debounce_ms = debounce })

unfoldable pub parse_hot_reload : Object → Checked HotReloadConfig
parse_hot_reload root =
    section default_hot_reload (hot_reload_of (field "hotReload" ∷ [])) (field "hotReload" ∷ [])
      (get "hotReload" root)

abbrev pub probing_of : Place → Object → Checked ProbingConfig
probing_of path raw = do
  enabled ← boolean_or raw "enabled" path default_probing.enabled
  interval ← number_or raw "intervalMs" path 100 3600000 default_probing.interval_ms
  timeout ← number_or raw "timeoutMs" path 1 300000 default_probing.timeout_ms
  concurrency ← number_or raw "maxConcurrency" path 1 1000 default_probing.max_concurrency
  budget ← number_or raw "budgetPerInterval" path 1 1000000 default_probing.budget_per_interval
  base ← number_or raw "backoffBaseMs" path 1 3600000 default_probing.backoff_base_ms
  most ← number_or raw "backoffMaxMs" path 1 86400000 default_probing.backoff_max_ms
  pure (record {
    enabled = enabled;
    interval_ms = interval;
    timeout_ms = timeout;
    max_concurrency = concurrency;
    budget_per_interval = budget;
    backoff_base_ms = base;
    backoff_max_ms = most;
  })

unfoldable pub parse_probing : Object → Checked ProbingConfig
parse_probing root =
    section default_probing (probing_of (field "probing" ∷ [])) (field "probing" ∷ [])
      (get "probing" root)

abbrev pub starts_with_slash : Text → Bool
starts_with_slash [] = false
starts_with_slash (c ∷ t) = c == b'/'

abbrev pub metrics_of : Place → Object → Checked MetricsServerConfig
metrics_of path raw = do
  metrics_path ← string_or raw "path" path default_metrics.path
  _ ← require (starts_with_slash metrics_path) (path ++ field "path" ∷ []) not_slash_first
  enabled ← boolean_or raw "enabled" path default_metrics.enabled
  listen ← string_or raw "listen" path default_metrics.listen
  port ← number_or raw "port" path 0 65535 default_metrics.port
  pure (record {
    enabled = enabled;
    listen = listen;
    port = port;
    path = if starts_with_slash metrics_path then metrics_path else default_metrics.path;
  })

abbrev pub observability_of : Place → Object → Checked MetricsServerConfig
observability_of path raw =
    section default_metrics (metrics_of (path ++ field "metrics" ∷ []))
      (path ++ field "metrics" ∷ []) (get "metrics" raw)

unfoldable pub parse_observability : Object → Checked MetricsServerConfig
parse_observability root =
    section default_metrics (observability_of (field "observability" ∷ []))
      (field "observability" ∷ []) (get "observability" root)

abbrev pub dashboard_of : Place → Object → Checked DashboardConfig
dashboard_of path raw = do
  enabled ← boolean_or raw "enabled" path default_dashboard.enabled
  listen ← string_or raw "listen" path default_dashboard.listen
  port ← number_or raw "port" path 0 65535 default_dashboard.port
  token ← string_or raw "token" path default_dashboard.token
  rate ← number_or raw "rateLimitPerMinute" path 1 100000 default_dashboard.rate_limit_per_minute
  cors ← boolean_or raw "cors" path default_dashboard.cors
  pure (record {
    enabled = enabled;
    listen = listen;
    port = port;
    token = token;
    rate_limit_per_minute = rate;
    cors = cors;
  })

unfoldable pub parse_dashboard : Object → Checked DashboardConfig
parse_dashboard root =
    section default_dashboard (dashboard_of (field "dashboard" ∷ [])) (field "dashboard" ∷ [])
      (get "dashboard" root)

abbrev pub tun_of : Place → Object → Checked TunConfig
tun_of path raw = do
  enabled ← boolean_or raw "enabled" path default_tun.enabled
  experimental ← boolean_or raw "experimental" path default_tun.experimental
  name ← string_or raw "name" path default_tun.name
  mtu ← number_or raw "mtu" path 576 65535 default_tun.mtu
  pure (record { enabled = enabled; experimental = experimental; name = name; mtu = mtu })

unfoldable pub parse_tun : Object → Checked TunConfig
parse_tun root = section default_tun (tun_of (field "tun" ∷ [])) (field "tun" ∷ []) (get "tun" root)
