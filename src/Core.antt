-- ===== src/Core.antt =====
-- src/core: admission, counters and connections.
pub mod Limiter
pub mod Stats
pub mod Connections
pub mod UdpSessions
