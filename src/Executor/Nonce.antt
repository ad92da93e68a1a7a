-- ===== src/Executor/Nonce.antt =====
-- The nonces of the stored accounts as transactions are executed (pkg/state/executor.go).
pub mod Saves
mod Methods
pub mod Replay
