-- ===== src/Consensus.antt =====
-- The consensus package (pkg/consensus/types.go): the event DAG and the engine over it.
pub mod Validators
pub mod Search
pub mod Dag
pub mod Engine
mod Tests
