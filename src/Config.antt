-- ===== src/Config.antt =====
-- src/config: the parser of the configuration.
pub mod Json
pub mod Checked
pub mod Read
pub mod Settings
pub mod Sections
pub mod DnsSection
pub mod Extensions
pub mod Inbounds
pub mod Outbounds
pub mod Routes
pub mod References
pub mod Parse
pub mod Migrate
mod Tests
