-- ===== src/Core/Stats.antt =====
-- core/stats.ts. Numbers do not overflow; a mean or a rate is kept as a numerator and a denominator.
use sepigs.Base.{ℕ, ◌+◌, ◌-◌, Bool, not, ltb, ◌==◌, if◌then◌else◌}

pub record Stats : Type 0 where
  pub active_connections : ℕ
  pub total_connections : ℕ
  pub failed_connections : ℕ
  pub closed_connections : ℕ
  pub rejected_connections : ℕ
  pub bytes_client_to_remote : ℕ
  pub bytes_remote_to_client : ℕ
  pub total_connection_duration_ms : ℕ
  pub udp_packets_client_to_remote : ℕ
  pub udp_packets_remote_to_client : ℕ
  pub udp_bytes_client_to_remote : ℕ
  pub udp_bytes_remote_to_client : ℕ
  pub udp_sessions_total : ℕ
  pub udp_sessions_active : ℕ
  pub udp_errors_total : ℕ
  pub route_matches_total : ℕ
  pub outbound_failures_total : ℕ
  pub dns_queries_total : ℕ
  pub dns_failures_total : ℕ
  pub hot_reload_total : ℕ
  pub hot_reload_failures_total : ℕ
  pub fake_ip_assignments_total : ℕ
  pub dashboard_requests_total : ℕ
  pub dashboard_errors_total : ℕ

abbrev pub init : Stats
init = record {
  active_connections = 0;
  total_connections = 0;
  failed_connections = 0;
  closed_connections = 0;
  rejected_connections = 0;
  bytes_client_to_remote = 0;
  bytes_remote_to_client = 0;
  total_connection_duration_ms = 0;
  udp_packets_client_to_remote = 0;
  udp_packets_remote_to_client = 0;
  udp_bytes_client_to_remote = 0;
  udp_bytes_remote_to_client = 0;
  udp_sessions_total = 0;
  udp_sessions_active = 0;
  udp_errors_total = 0;
  route_matches_total = 0;
  outbound_failures_total = 0;
  dns_queries_total = 0;
  dns_failures_total = 0;
  hot_reload_total = 0;
  hot_reload_failures_total = 0;
  fake_ip_assignments_total = 0;
  dashboard_requests_total = 0;
  dashboard_errors_total = 0;
}

unfoldable pub start_connection : Stats → Stats
start_connection s = record s {
  active_connections = s.active_connections + 1;
  total_connections = s.total_connections + 1;
}

-- A negative duration, from a clock set back, counts as 0.
unfoldable pub close_connection : Bool → ℕ → Stats → Stats
close_connection failed duration_ms s = record s {
  active_connections =
      if ltb 0 s.active_connections then s.active_connections - 1 else s.active_connections;
  closed_connections = s.closed_connections + 1;
  total_connection_duration_ms = s.total_connection_duration_ms + duration_ms;
  failed_connections = if failed then s.failed_connections + 1 else s.failed_connections;
}

unfoldable pub reject_connection : Stats → Stats
reject_connection s = record s { rejected_connections = s.rejected_connections + 1 }

unfoldable pub add_client_to_remote_bytes : ℕ → Stats → Stats
add_client_to_remote_bytes bytes s = record s {
  bytes_client_to_remote = s.bytes_client_to_remote + bytes;
}

unfoldable pub add_remote_to_client_bytes : ℕ → Stats → Stats
add_remote_to_client_bytes bytes s = record s {
  bytes_remote_to_client = s.bytes_remote_to_client + bytes;
}

unfoldable pub add_udp_client_to_remote_bytes : ℕ → Stats → Stats
add_udp_client_to_remote_bytes bytes s = record s {
  udp_packets_client_to_remote = s.udp_packets_client_to_remote + 1;
  udp_bytes_client_to_remote = s.udp_bytes_client_to_remote + bytes;
}

unfoldable pub add_udp_remote_to_client_bytes : ℕ → Stats → Stats
add_udp_remote_to_client_bytes bytes s = record s {
  udp_packets_remote_to_client = s.udp_packets_remote_to_client + 1;
  udp_bytes_remote_to_client = s.udp_bytes_remote_to_client + bytes;
}

unfoldable pub open_udp_session : Stats → Stats
open_udp_session s = record s {
  udp_sessions_total = s.udp_sessions_total + 1;
  udp_sessions_active = s.udp_sessions_active + 1;
}

unfoldable pub close_udp_session : Stats → Stats
close_udp_session s = record s { udp_sessions_active = s.udp_sessions_active - 1 }

unfoldable pub record_udp_error : Stats → Stats
record_udp_error s = record s { udp_errors_total = s.udp_errors_total + 1 }

unfoldable pub record_route_match : Stats → Stats
record_route_match s = record s { route_matches_total = s.route_matches_total + 1 }

unfoldable pub record_outbound_failure : Stats → Stats
record_outbound_failure s = record s { outbound_failures_total = s.outbound_failures_total + 1 }

unfoldable pub record_dns_query : Stats → Stats
record_dns_query s = record s { dns_queries_total = s.dns_queries_total + 1 }

unfoldable pub record_dns_failure : Stats → Stats
record_dns_failure s = record s { dns_failures_total = s.dns_failures_total + 1 }

unfoldable pub record_hot_reload : Bool → Stats → Stats
record_hot_reload done s = record s {
  hot_reload_total = s.hot_reload_total + 1;
  hot_reload_failures_total =
      if not done then s.hot_reload_failures_total + 1 else s.hot_reload_failures_total;
}

unfoldable pub record_fake_ip_assignment : Stats → Stats
record_fake_ip_assignment s = record s {
  fake_ip_assignments_total = s.fake_ip_assignments_total + 1;
}

unfoldable pub record_dashboard_request : Bool → Stats → Stats
record_dashboard_request done s = record s {
  dashboard_requests_total = s.dashboard_requests_total + 1;
  dashboard_errors_total =
      if not done then s.dashboard_errors_total + 1 else s.dashboard_errors_total;
}

-- The computed part of `snapshot`: the other entries are the fields themselves.
pub record Derived : Type 0 where
  pub total_bytes : ℕ
  pub average_connection_duration_ms : ℕ × ℕ
  pub failure_rate : ℕ × ℕ

unfoldable pub snapshot : Stats → Derived
snapshot s =
    let completed = if s.closed_connections == 0 then 1 else s.closed_connections in
    let failure_base = s.total_connections + s.rejected_connections in
    record {
      total_bytes =
          s.bytes_client_to_remote + s.bytes_remote_to_client + s.udp_bytes_client_to_remote
          + s.udp_bytes_remote_to_client;
      average_connection_duration_ms = (s.total_connection_duration_ms, completed);
      failure_rate =
          if failure_base == 0
          then (0, 1)
          else (s.failed_connections + s.rejected_connections, failure_base);
    }
