-- ===== src/Protocol.antt =====
-- src/protocol: destinations, the SOCKS address codec and the stream framing of Shadowsocks.
pub mod Destination
pub mod Address
pub mod BufferQueue
pub mod Shadowsocks
