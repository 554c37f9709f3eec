-- ===== src/Rendezvous/Registry.antt =====
-- The host records of crates/ra-rendezvous/src/lib.rs over any history: who owns an ID, and what
-- every record satisfies.
pub mod FreeId
pub mod Records
pub mod History
pub mod Ownership
