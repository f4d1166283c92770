-- ===== src/Relay.antt =====
-- transport/relay: the Bloom filter, the relay and its client.
pub mod Bloom
pub mod Http
pub mod Server
pub mod Client
pub mod Remote
pub mod Pull
pub mod Push
pub mod Kept
pub mod Store
