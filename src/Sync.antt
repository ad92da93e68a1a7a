-- ===== src/Sync.antt =====
-- Synchronisation with peers (pkg/network/sync.go): the framing of messages, the side that serves events,
-- and the side that asks for them.
pub mod Framing
pub mod Server
pub mod Client
pub mod Delivery
pub mod Arrival
pub mod Peers
mod Tests
