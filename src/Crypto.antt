-- ===== src/Crypto.antt =====
-- Keys, hashes, addresses and signatures (pkg/crypto).
pub mod Address
pub mod Sign
pub mod Payloads
pub mod Events
pub mod Integers
pub mod Vrf
mod Tests
