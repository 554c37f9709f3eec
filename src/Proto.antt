-- ===== src/Proto.antt =====
-- crates/ra-proto/src/lib.rs: the wire types and the password scheme.
pub mod External
pub mod Types
pub mod Hashes
pub mod Ids
pub mod Pins
