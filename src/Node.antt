-- ===== src/Node.antt =====
-- A production node (pkg/node/node_production.go): the transactions of the mempool become events of the
-- DAG, and the transactions of final events are executed. Start-up, goroutines, metrics and memory limits
-- are left out. `Sign` of an event, which no file declares, is the parameter `sign`, the time and an
-- event's id are arguments, and the network is told what the node did and does not change it.
pub mod Events
pub mod Moves
pub mod Idle
pub mod Rounds
mod Older
mod Tests
use dagnet_crypto.Base.{
  ℕ, zero, suc, ◌+◌, ◌-◌, ◌≡◌, Bool, true, false, Option, none, some, List, [], ◌∷◌, ◌++◌, Str,
  codes, str_key, nat_key, ◌==◌, ◌&&◌, not, if◌then◌else◌, ltb, leb, length, get_elem?, add_u64,
}
use dagnet_crypto.Pb.{Event, Transaction}
use dagnet_crypto.Config.{Config}
use dagnet_crypto.Consensus.Dag.{AddError, new_dag, add_event, get_witnesses}
use dagnet_crypto.Consensus.Engine.{Engine, new_consensus_engine, current_round, check_finality}
use dagnet_crypto.Mempool.Pool.{Mempool, new_mempool, get_pending, remove, size, clear}
use dagnet_crypto.Executor.Monad.{Env, World, Outcome, done, failed, panicked}
use dagnet_crypto.Executor.Methods.{execute}

-- The executor works on the database and on the registry of the engine.
pub record Node (D : Type 0) : Type 0 where
  pub config : Config
  pub db : D
  pub engine : Engine
  pub mempool : Mempool

-- `NewNodeProduction`, on an open database
unfoldable pub new_node : {D : Type 0} → Config → D → Node D
new_node config db = record {
  config = config;
  db = db;
  engine = new_consensus_engine new_dag;
  mempool = new_mempool config.consensus.max_gas_per_round;
}

-- `getNodeID`; a configuration always has its network
unfoldable pub get_node_id : Config → Str
get_node_id c =
    if c.validator.enabled && not (c.validator.address == [])
    then c.validator.address
    else codes "ndag-node-" ++ c.network.chain_id

-- the loop of `getLatestParents`, from an index to the end
unfoldable pub parents_from : ℕ → ℕ → List Event → List Str
parents_from zero i witnesses = []
parents_from (suc fuel) i witnesses = elim (get_elem? witnesses i) [
  | none ↦ []
  | some w ↦ w.id ∷ parents_from fuel (i + 1) witnesses
]

-- `getLatestParents`: with one witness the index starts at -1, and the loop ends at once. Otherwise it
-- has two rounds.
unfoldable pub get_latest_parents : Engine → List Str × Engine
get_latest_parents e =
    let (latest, e') = current_round e in
    let witnesses = get_witnesses latest e'.dag in
    if ltb (length witnesses) 2
    then ([], e')
    else (parents_from 2 (length witnesses - 2) witnesses, e')

-- the event of `processMempool`
unfoldable pub event_of : Config → Str → ℕ → List Transaction → Engine → Event × Engine
event_of config id now pending e =
    let (parents, e1) = get_latest_parents e in
    let (round, e2) = current_round e1 in
    (
      record {
        id = id;
        creator = get_node_id config;
        parents = parents;
        timestamp = now;
        round = round;
        signature = [];
        vrf_proof = [];
        transactions = pending;
        metadata = none;
      },
      e2,
    )

-- the loop over the processed transactions
unfoldable pub remove_all : List Transaction → Mempool → Mempool
remove_all [] m = m
remove_all (tx ∷ txs) m = remove_all txs (remove tx.id m)

module _ {D : Type 0} where
  -- `processMempool` from `AddEvent` on
  unfoldable pub publish : Event → List Transaction → Node D → Node D
  publish event pending n = elim (add_event (some event) n.engine.dag).0 [
    | some _ ↦ n
    | none ↦ record n {
      engine = record n.engine { dag = (add_event (some event) n.engine.dag).1 };
      mempool = remove_all pending n.mempool;
    }
  ]

  -- `processMempool`
  unfoldable pub process_mempool : (Event → Option Event) → Str → ℕ → Node D → Node D
  process_mempool sign id now n =
      let pending = get_pending 100 n.mempool in
      if length pending == 0
      then n
      else let (event, engine) = event_of n.config id now pending n.engine in
        elim (sign event) [
          | none ↦ record n { engine = engine }
          | some signed ↦ publish signed pending (record n { engine = engine })
        ]

  unfoldable pub world_of : Node D → World D
  world_of n = record { db = n.db; validators = n.engine.validators }

  unfoldable pub with_world : World D → Node D → Node D
  with_world w n = record n { db = w.db; engine = record n.engine { validators = w.validators } }

  -- the environment of the executor, at the round of the engine
  unfoldable pub env_at : Env D → ℕ → Node D → Env D
  env_at env now n = record env { now = now; round = (current_round n.engine).0 }

  -- `executeFinalizedEvent`, over the event's transactions; false is a panic
  unfoldable pub execute_finalized_event : Env D → ℕ → List Transaction → Node D → Bool × Node D
  execute_finalized_event env now [] n = (true, n)
  execute_finalized_event env now (tx ∷ txs) n =
      let (o, w) = execute (env_at env now n) (some tx) (world_of n) in
      elim o [
        | done _ ↦ execute_finalized_event env now txs (with_world w n)
        | failed _ ↦ execute_finalized_event env now txs (with_world w n)
        | panicked ↦ (false, with_world w n)
      ]

  -- the loop of `checkFinality` over the witnesses of a round
  unfoldable pub check_witnesses : Env D → ℕ → List Event → Node D → Bool × Node D
  check_witnesses env now [] n = (true, n)
  check_witnesses env now (w ∷ ws) n =
      let (final, dag) = check_finality w.id n.engine.dag in
      let n' = record n { engine = record n.engine { dag = dag } } in
      elim final [
        | false ↦ check_witnesses env now ws n'
        | true ↦
            let (fine, n'') = execute_finalized_event env now w.transactions n' in
            elim fine [ true ↦ check_witnesses env now ws n'' | false ↦ (false, n'') ]
      ]

  -- the loop over the rounds
  unfoldable pub check_rounds : Env D → ℕ → ℕ → ℕ → ℕ → Node D → Bool × Node D
  check_rounds env now latest zero round n = (true, n)
  check_rounds env now latest (suc fuel) round n = elim (leb round latest) [
    | false ↦ (true, n)
    | true ↦
        let (fine, n') = check_witnesses env now (get_witnesses round n.engine.dag) n in
        elim fine [
          | true ↦ check_rounds env now latest fuel (add_u64 round 1) n'
          | false ↦ (false, n')
        ]
  ]

  -- `checkFinality`: the rounds are those up to the latest, so there are one more than its number. (At
  -- the highest `uint64` the loop of the source does not end.)
  unfoldable pub check_all : Env D → ℕ → Node D → Bool × Node D
  check_all env now n =
      let (latest, engine) = current_round n.engine in
      check_rounds env now latest (suc latest) 0 (record n { engine = engine })

  -- `cleanup`
  unfoldable pub cleanup : Node D → Node D
  cleanup n = if ltb 10000 (size n.mempool) then record n { mempool = clear n.mempool } else n

  -- `processTick`; after a panic the event loop has ended
  unfoldable pub process_tick : Env D → (Event → Option Event) → Str → ℕ → Node D → Bool × Node D
  process_tick env sign id now n =
      let (fine, n') = check_all env now (process_mempool sign id now n) in
      elim fine [ true ↦ (true, cleanup n') | false ↦ (false, n') ]

  -- what `loadGenesis` does with the event of the file
  unfoldable pub add_genesis : Event → Node D → Node D
  add_genesis genesis n =
      let dag = (add_event (some genesis) n.engine.dag).1 in
      record n { engine = record n.engine { dag = (check_finality genesis.id dag).1 } }
