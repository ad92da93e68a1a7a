-- ===== src/Storage.antt =====
-- The storage layer (pkg/storage/storage.go). LevelDB is the parameter `db`, over an unknown type of
-- databases.
pub mod Engine
pub mod Keys
pub mod Tables
mod Tests
