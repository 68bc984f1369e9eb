-- ===== src/Router.antt =====
-- src/router: matching a destination against the rules of a route.
pub mod Matcher
pub mod Rules
pub mod Policy
pub mod Health
pub mod Prober
