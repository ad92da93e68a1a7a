-- ===== src/Node/Events.antt =====
-- The event that `processMempool` makes (pkg/node/node_production.go), and the engine after that.
use dagnet_crypto.Base.{ℕ, ◌≡◌, List, Str, arith}
use dagnet_crypto.Pb.{Transaction}
use dagnet_crypto.Config.{Config}
use dagnet_crypto.Consensus.Engine.{Engine, current_round}
use dagnet_crypto.Node.{event_of, get_latest_parents}

pub event_of-dag :
    (config : Config) (id : Str) (now : ℕ) (pending : List Transaction) (e : Engine)
    → (event_of config id now pending e).1.dag ≡ e.dag
unfolding event_of get_latest_parents current_round
event_of-dag config id now pending e = ground arith

-- the event has the round that the engine then is in
pub event_of-round :
    (config : Config) (id : Str) (now : ℕ) (pending : List Transaction) (e : Engine)
    → ((event_of config id now pending e).0.round ≡ (current_round e).0)
      × ((event_of config id now pending e).1.current_round ≡ (current_round e).0)
unfolding event_of get_latest_parents current_round
event_of-round config id now pending e = ground arith
