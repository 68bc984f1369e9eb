-- ===== src/Config/Settings.antt =====
-- config/types.ts and config/schema.ts: the sections with limits, timeouts, ports and switches.
use sepigs.Base.{ℕ, Bool, true, false, nat_eq, string_eq}
use sepigs.Base.Text.{Text, codes, text_key}

pub data LogLevel : Type 0 where
  debug info warn error silent : LogLevel

pub record LimitConfig : Type 0 where
  pub connect_timeout_ms : ℕ
  pub handshake_timeout_ms : ℕ
  pub idle_timeout_ms : ℕ
  pub shutdown_timeout_ms : ℕ
  pub max_header_bytes : ℕ
  pub max_connections : ℕ
  pub leak_report_interval_ms : ℕ
  pub max_udp_sessions : ℕ
  pub udp_idle_timeout_ms : ℕ

pub record WorkerConfig : Type 0 where
  pub enabled : Bool
  pub size : ℕ
  pub task_timeout_ms : ℕ

pub record TransportConfig : Type 0 where
  pub quic_enabled : Bool
  pub quic_handshake_timeout_ms : ℕ

pub record ConnectionPoolConfig : Type 0 where
  pub enabled : Bool
  pub max_idle_per_endpoint : ℕ
  pub idle_timeout_ms : ℕ

pub record HotReloadConfig : Type 0 where
  pub enabled : Bool
  pub debounce_ms : ℕ

pub record ProbingConfig : Type 0 where
  pub enabled : Bool
  pub interval_ms : ℕ
  pub timeout_ms : ℕ
  pub max_concurrency : ℕ
  pub budget_per_interval : ℕ
  pub backoff_base_ms : ℕ
  pub backoff_max_ms : ℕ

pub record MetricsServerConfig : Type 0 where
  pub enabled : Bool
  pub listen : Text
  pub port : ℕ
  pub path : Text

pub record DashboardConfig : Type 0 where
  pub enabled : Bool
  pub listen : Text
  pub port : ℕ
  pub token : Text
  pub rate_limit_per_minute : ℕ
  pub cors : Bool

pub record TunConfig : Type 0 where
  pub enabled : Bool
  pub experimental : Bool
  pub name : Text
  pub mtu : ℕ

abbrev pub default_limits : LimitConfig
default_limits = record {
  connect_timeout_ms = 10000;
  handshake_timeout_ms = 10000;
  idle_timeout_ms = 120000;
  shutdown_timeout_ms = 5000;
  max_header_bytes = 65536;
  max_connections = 10000;
  leak_report_interval_ms = 60000;
  max_udp_sessions = 4096;
  udp_idle_timeout_ms = 60000;
}

abbrev pub default_workers : WorkerConfig
default_workers = record { enabled = false; size = 1; task_timeout_ms = 30000 }

abbrev pub default_transport : TransportConfig
default_transport = record { quic_enabled = false; quic_handshake_timeout_ms = 10000 }

abbrev pub default_connection_pool : ConnectionPoolConfig
default_connection_pool = record {
  enabled = false;
  max_idle_per_endpoint = 8;
  idle_timeout_ms = 30000;
}

abbrev pub default_hot_reload : HotReloadConfig
default_hot_reload = record { enabled = false; debounce_ms = 250 }

abbrev pub default_probing : ProbingConfig
default_probing = record {
  enabled = false;
  interval_ms = 30000;
  timeout_ms = 1000;
  max_concurrency = 4;
  budget_per_interval = 16;
  backoff_base_ms = 1000;
  backoff_max_ms = 60000;
}

abbrev pub default_metrics : MetricsServerConfig
default_metrics = record {
  enabled = false;
  listen = codes "127.0.0.1";
  port = 19090;
  path = codes "/metrics";
}

abbrev pub default_dashboard : DashboardConfig
default_dashboard = record {
  enabled = false;
  listen = codes "127.0.0.1";
  port = 19091;
  token = codes "change-me";
  rate_limit_per_minute = 120;
  cors = false;
}

abbrev pub default_tun : TunConfig
default_tun = record { enabled = false; experimental = true; name = codes "sepigs0"; mtu = 1500 }
