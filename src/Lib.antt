-- ===== src/Lib.antt =====
-- A verification library for dagnet-crypto, a node of a directed-acyclic-graph ledger in Go.
--
-- The program. A node receives transactions into a mempool (pkg/mempool), packs pending ones into
-- events, and adds events to a DAG (pkg/consensus). The consensus engine votes on the fame of witness
-- events and marks events as final. The transactions of finality events run through the state machine
-- (pkg/state), which moves coins, tokens, NFTs and stakes; a second executor does so on accounts in a
-- LevelDB database (pkg/storage). Nodes ask each other for events that they miss (pkg/network). A genesis
-- event (internal/genesis) starts a network, and a configuration a node (internal/config). Transactions
-- carry signatures, and accounts have addresses (pkg/crypto).
--
-- The files.
--   Base           shared names: Boolean tests, byte strings, `Key`, lists, `uint64` arithmetic
--   Map            Go maps as association lists in any order, with the laws of reads and writes
--   Pb             the protobuf messages (proto/event.proto, proto/consensus.proto, proto/api.proto)
--   State          pkg/state/state.go: `State.Monad` is the state and the monad of its methods,
--                  `State.Defs` has one function for each method (`execute_transfer` is
--                  `executeTransfer`, and so on), and the others prove what each is named for
--   Consensus      pkg/consensus/types.go: `Dag` and `Search` are `DAG` and its walks, `Engine` is
--                  `ConsensusEngine`, `Validators` its registry
--   Mempool        pkg/mempool/mempool.go: `Priority` is the float64 priority, `Heap` the part of Go's
--                  container/heap in use, `Pool` the methods of `Mempool`
--   Genesis        internal/genesis/genesis.go: `Text` has the ids, `Defs` the two main functions
--   Text           the parts of Go's fmt and encoding/hex in use
--   Crypto         pkg/crypto/address.go, crypto.go and vrf.go: `Address`, `Sign`, `Events`,
--                  `Integers`, `Vrf`, and in `Payloads` what a signature covers
--   Storage        pkg/storage/storage.go: `Engine` is `LevelDBEngine` and its batch, `Keys` the stores of
--                  events, accounts and so on, `Tables` what they promise together
--   Executor       pkg/state/executor.go: `Monad` is what it works on, `Accounts` has its helpers and
--                  `Methods` its methods; `Laws` says what a read gives after a save, `Keeps` has the rules
--                  by which a method keeps an invariant, and `Memory` is an environment to run it in
--   Sync           pkg/network/sync.go: `Framing` of messages, `Server` for `handleSyncStream`, `Client` for
--                  the side that asks; `Delivery` and `Arrival` put the two together
--   Config         internal/config/config.go
--   Node           pkg/node/node_production.go: the ticks of a node; `Moves` is about `processMempool`,
--                  `Idle` about all that happens to a node, and `Rounds` about the loop over the rounds;
--                  `Older` has the node of pkg/node/node.go
--
-- How code becomes definitions. Numbers are native naturals; a `uint64` operation wraps around by
-- `% 2 ^ 64`, and an `int64` is its two's complement. A string is its bytes. A method on a mutable
-- object is a function from state to state; an error is a value. A pointer into a map is its key, and
-- an object that a map and a queue share is an index into a store, so a write through one is seen
-- through the other. Methods hold locks, so calls are steps one after another, in any order; the runs
-- that the theorems speak of are lists of such calls. `DetermineFame`, which lets the lock go between
-- two witnesses, is one step there. A panic is a result, or a flag after which nothing happens.
--
-- Fuel. The walks over the DAG have one round more than there are ids to mark, and each round marks
-- one: `Search.Total` proves that they end. `down` of the heap has as many rounds as the queue has
-- items, and its index grows in each; `take_pending` takes an item in each round. `bits` has more
-- rounds than its argument has digits, and `digits` as many as a `uint64` can have. `send_rounds` has a
-- round more than it sends, and `receive` one more than there are bytes: `rounds_end` and `receive_ends`
-- prove that this is enough for the bytes that have come, as `check_all-fuel` does for the rounds that a node goes through.
--
-- Parameters. The text that fmt gives for protobuf messages is the parameter `format` of Genesis. SHA-3
-- is `sum3`, BLAKE3 and Ed25519 are `Primitives` of Crypto. `IsSized` asks for their sizes, and
-- `IsSignatureScheme` that signatures with a generated key verify. LevelDB is `LevelDb` of Storage, and `IsKeyValue` says
-- that a read gives the last value written. Protobuf is a `Codec` for each message; `IsEnv` of Executor
-- asks that decoding gives back what was encoded, with nil for an empty map, and `IsFit` of Sync that
-- the events at hand can be encoded in short messages. The methods that the executor calls and no file
-- declares are fields of its `Env`, and `Sign` of an event is an argument, of which two theorems ask
-- that it keeps the event's transactions or its round, as `SignEvent` does. What a peer sends is the bytes of its stream.
--
-- Not modelled. Key files (pkg/crypto/keystore.go), connections of peers (pkg/network/p2p.go,
-- p2p_production.go), the start and stop of nodes, the node of main.go, and the services and tools
-- (pkg/api, cmd). In the modelled parts: the log texts and events of execution results, TOML files,
-- locks, contexts, log messages, times of finality events, random bytes, the float comparison of
-- the VRF, and fields that no code reads.
pub mod Base
pub mod Text
pub mod Map
pub mod Pb
pub mod Consensus
pub mod State
pub mod Mempool
pub mod Genesis
pub mod Crypto
pub mod Storage
pub mod Executor
pub mod Sync
pub mod Config
pub mod Node
