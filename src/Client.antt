-- ===== src/Client.antt =====
-- The client's side: crates/ra-client.
pub mod Remembered
pub mod Resolve
pub mod Best
pub mod Session
pub mod Exchange
pub mod Spacing
pub mod Flows
pub mod Moonlight
