-- ===== src/State.antt =====
-- The in-memory state machine (pkg/state/state.go): `StateMachine` is `State`, and a method is an
-- `Action`, which returns its error or nil with the state that it leaves, after an error too. The
-- accounts, tokens and NFTs are pointers in Go maps, each under one key, so a write through such a
-- pointer is an update at its key.
pub mod Monad
pub mod Defs
pub mod Accounts
pub mod Wealth
pub mod Frame
pub mod Nonce
pub mod Overflow
pub mod Maps
pub mod Supply
pub mod Ownership
mod Tests
