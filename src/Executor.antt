-- ===== src/Executor.antt =====
-- `TransactionExecutor` (pkg/state/executor.go): transactions executed against accounts, tokens and
-- validators that are stored in the database.
pub mod Monad
pub mod Accounts
pub mod Methods
pub mod Laws
pub mod Cases
pub mod Keeps
pub mod Nonce
pub mod Transfer
pub mod Stake
pub mod Effects
pub mod Memory
mod Tests
