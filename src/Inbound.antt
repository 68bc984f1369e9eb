-- ===== src/Inbound.antt =====
-- src/inbound: what clients send.
pub mod Trojan
pub mod SocksUdp
pub mod Socks5
mod Tests
