-- ===== src/Rendezvous.antt =====
-- crates/ra-rendezvous/src/lib.rs: the ID server.
pub mod State
pub mod Auth
pub mod Register
pub mod Polling
pub mod Pairing
pub mod System
mod Cases
pub mod Runtime
pub mod Delivery
pub mod RateLimit
pub mod Registry
pub mod Challenges
pub mod Results
pub mod Deadlines
pub mod Persistence
