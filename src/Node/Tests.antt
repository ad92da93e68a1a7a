-- ===== src/Node/Tests.antt =====
-- A node (pkg/node/node_production.go) on concrete inputs, and the theorems about it at such inputs.
use dagnet_crypto.Base.{
  ◌≡◌, ◌⊎◌, arith, true, false, none, some, Option, List, [], ◌∷◌, Str, codes, str_key, nat_key,
}
use dagnet_crypto.Genesis.Text.{padded}
use dagnet_crypto.Crypto.Sign.{Keypair}
use dagnet_crypto.Crypto.Events.{sign_event, sign_event-keeps}
use dagnet_crypto.Pb.{Event, Transaction, Payload}
use dagnet_crypto.Config.{generate_network_config, devnet}
use dagnet_crypto.Consensus.Engine.{is_final, current_round}
use dagnet_crypto.Mempool.Pool.{add, get_pending}
use dagnet_crypto.Mempool.Runs.{add_tx}
use dagnet_crypto.Executor.Memory.{Memory, memory_env}
use dagnet_crypto.Node.{Node, new_node, process_mempool, add_genesis}
use dagnet_crypto.Node.Moves.{
  KeepsTransactions, KeepsRound, draft, Stays, Moves, process_mempool-Moves, process_mempool-round,
}
use dagnet_crypto.Node.Idle.{Step, run, run-executes_nothing}

abbrev tx : Str → Transaction
tx id = record {
  id = id;
  chain_id = [];
  network_id = [];
  nonce = 1;
  fee = 3;
  gas_limit = 1;
  timestamp = 7;
  payload = Payload.transfer (record { to = []; amount = 1 });
  signature = [];
  public_key = [];
}

abbrev genesis : Event
genesis = record {
  id = codes "genesis-event-1";
  creator = codes "genesis";
  parents = [];
  timestamp = 0;
  round = 0;
  signature = [];
  vrf_proof = [];
  transactions = [];
  metadata = none;
}

-- the signatures of the environment in memory, with which `SignEvent` signs and sets the id to the hash
abbrev key : Keypair
key = record { private = padded 64 []; public = padded 32 [] }

abbrev sign : Event → Option Event
sign e = elim (sign_event memory_env.crypto e key).0 [
  | true ↦ some (sign_event memory_env.crypto e key).1
  | false ↦ none
]

sign-KeepsTransactions : KeepsTransactions sign
unfolding KeepsTransactions
sign-KeepsTransactions e s h = ground (arith, sign_event-keeps memory_env.crypto e key, h)

sign-KeepsRound : KeepsRound sign
unfolding KeepsRound
sign-KeepsRound e s h = ground (arith, sign_event-keeps memory_env.crypto e key, h)

-- a node with the genesis event, to which two transactions were sent
abbrev start : Node Memory
start =
    let n = add_genesis genesis (new_node (generate_network_config devnet) []) in
    record n { mempool = (add (tx (codes "b")) (add (tx (codes "a")) n.mempool).1).1 }

process_mempool-Moves_example :
    Stays start (process_mempool sign (codes "event-1") 5 start)
    ⊎ ((s : Event) × (sign (draft sign (codes "event-1") 5 start) ≡ some s)
        × Moves s.id
            (get_pending 100 start.mempool)
            start
            (process_mempool sign (codes "event-1") 5 start))
process_mempool-Moves_example =
    process_mempool-Moves sign (codes "event-1") 5 start sign-KeepsTransactions

process_mempool-round_example :
    (current_round (process_mempool sign (codes "event-1") 5 start).engine).0
    ≡ (current_round start.engine).0
process_mempool-round_example = process_mempool-round sign (codes "event-1") 5 start sign-KeepsRound

abbrev steps : List Step
steps =
    Step.genesis genesis
    ∷ Step.pool (add_tx (tx (codes "a")))
    ∷ Step.tick (codes "event-1") 5
    ∷ Step.receive (some genesis)
    ∷ Step.take
    ∷ Step.tick (codes "event-2") 6
    ∷ []

run-executes_nothing_example :
    ((run memory_env sign steps (new_node (generate_network_config devnet) [])).db ≡ [])
    × ((x : Str)
        → is_final x
            (run memory_env sign steps (new_node (generate_network_config devnet) [])).engine.dag
          ≡ false)
run-executes_nothing_example =
    run-executes_nothing memory_env sign (generate_network_config devnet) [] steps
