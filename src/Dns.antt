-- ===== src/Dns.antt =====
-- src/dns: fake addresses, and the caches and generations of the resolver.
pub mod FakeIpPool
pub mod FakeIpStore
pub mod FakeIp
pub mod Cache
pub mod Carryover
pub mod Generations
