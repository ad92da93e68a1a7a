-- ===== src/Genesis.antt =====
-- The genesis event (internal/genesis/genesis.go).
pub mod Text
pub mod Defs
pub mod Valid
pub mod Stake
pub mod Ids
mod Tests
