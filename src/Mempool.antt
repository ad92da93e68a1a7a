-- ===== src/Mempool.antt =====
-- The mempool (pkg/mempool/mempool.go) and the part of Go's container/heap that it uses.
pub mod Priority
pub mod Heap
pub mod Pool
pub mod Runs
mod Tests
pub mod Entries
pub mod Ranks
pub mod Pending
