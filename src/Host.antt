-- ===== src/Host.antt =====
-- The host's side: crates/ra-host.
pub mod Config
pub mod Endpoints
pub mod Names
pub mod Apollos
pub mod Agent
pub mod Calls
pub mod Checks
pub mod Requests
pub mod Running
