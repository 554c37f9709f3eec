-- ===== src/Examples.antt =====
-- The theorems at concrete inputs, and tests of the definitions.
mod Crypto
mod Parser
mod Libraries
mod Gamestream
mod Simulated
mod Identities
mod Host
mod Running
mod Window
mod Flows
mod Fakehost
mod Client
mod Moonlight
mod Proto
mod Rendezvous
mod Ownership
