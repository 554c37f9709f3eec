-- ===== src/Gamestream.antt =====
-- The GameStream protocol of crates/ra-gamestream: replies, pairing, server information, addresses.
pub mod External
pub mod Errors
pub mod Replies
pub mod Blocks
pub mod Ciphers
pub mod ServerInfos
pub mod Apps
pub mod Transport
pub mod Pairing
pub mod Simulated
pub mod Identities
