-- ===== src/Sync/Tests.antt =====
-- Runs of the synchronisation (pkg/network/sync.go) between two nodes in memory.
use dagnet_crypto.Base.{
  ℕ, ◌≡◌, refl, Bool, true, false, Option, none, some, List, [], ◌∷◌, ◌++◌, Str, codes, str_key,
  str_eq, nat_key, split, leb, length, ◌==◌, if◌then◌else◌, arith, All,
}
use dagnet_crypto.Map.{Map, insert, lookup, modify, contains}
use dagnet_crypto.Pb.{Codec, Event, SyncDagRequest, SyncDagResponse}
use dagnet_crypto.Consensus.Dag.{
  Dag, new_dag, get_events_by_round, with_round, add_event, add_fresh, link_parents, is_witness,
  mark_witness, witnesses_of,
}
use dagnet_crypto.Mempool.Pool.{new_mempool}
use dagnet_crypto.Storage.Engine.{LevelDb, absent, engine_put}
use dagnet_crypto.Storage.Keys.{put_event, event_key}
use dagnet_crypto.Crypto.Integers.{fill_bytes, big_endian}
use dagnet_crypto.Sync.Framing.{
  write_message, read_message, read_data, message, too_large, max_message_size,
  read_message-write_message,
}
use dagnet_crypto.Sync.Server.{Served, serve, send_rounds, send_events}
use dagnet_crypto.Sync.Client.{
  Node, Counts, finished, unfinished, receive, accept, shared_event, accept_event,
  accept_transactions, sync_with_peer,
}
use dagnet_crypto.Sync.Delivery.{reliable, IsFit, events_from}
use dagnet_crypto.Sync.Arrival.{sync_delivers}
use dagnet_crypto.Sync.Peers.{repeated, nothing_yet, empty_responses-unfinished, sync_once}

abbrev event : ℕ → ℕ → Event
event id round = record {
  id = id ∷ [];
  creator = [];
  parents = [];
  timestamp = 0;
  round = round;
  signature = [];
  vrf_proof = [];
  transactions = [];
  metadata = none;
}

-- one event in round 1 and two in round 2
abbrev served_dag : Dag
served_dag = record new_dag {
  events = (1 ∷ [], event 1 1) ∷ (2 ∷ [], event 2 2) ∷ (3 ∷ [], event 3 2) ∷ [];
}

abbrev flag : Bool → ℕ
flag true = 1
flag false = 0

abbrev event_codec : Codec Event
event_codec = record { marshal = λ e. some e.id; unmarshal = λ b. none }

-- an event stands for its id and its round
unfoldable decode_response : Str → Option SyncDagResponse
decode_response (more ∷ round ∷ id ∷ []) =
    some (record { event = some (event id round); transactions = []; has_more = more == 1 })
decode_response _ = none

abbrev response_codec : Codec SyncDagResponse
response_codec = record {
  marshal = λ r. some (elim r.event [ none ↦ [] | some e ↦ flag r.has_more ∷ e.round ∷ e.id ]);
  unmarshal = decode_response;
}

abbrev request_codec : Codec SyncDagRequest
request_codec = record { marshal = λ r. none; unmarshal = λ b. none }

abbrev no_db : LevelDb Unit
no_db = record {
  get = λ k d. absent;
  has = λ k d. none;
  put = λ k v d. (false, d);
  delete = λ k d. (false, d);
  write = λ ops d. (false, d);
  range = λ start end_key d. ([], true);
}

abbrev new_node : Node Unit
new_node = record { dag = new_dag; mempool = new_mempool 0; db = tt }

abbrev request : ℕ → SyncDagRequest
request end_round = record {
  start_round = 1;
  end_round = end_round;
  include_transactions = false;
  limit = 100;
}

abbrev no_counts : Counts
no_counts = record { events = 0; txs = 0 }

back :
    (more : Bool) {id round : ℕ}
    → decode_response (flag more ∷ round ∷ id ∷ [])
      ≡ some (record { event = some (event id round); transactions = []; has_more = more })
unfolding decode_response
back true = refl
back false = refl

event_fits : (id round : ℕ) → IsFit event_codec response_codec (event id round)
unfolding decode_response str_eq
event_fits id round = (
  λ more. (flag more ∷ round ∷ id ∷ [], refl, back more, omega arith),
  λ v. (id ∷ [], refl),
  refl,
)

read_message-write_message_example :
    read_message (write_message (7 ∷ 8 ∷ []) ++ (9 ∷ []))
    ≡ (if leb 2 max_message_size then message (7 ∷ 8 ∷ []) (9 ∷ []) else too_large)
read_message-write_message_example = read_message-write_message (7 ∷ 8 ∷ []) (9 ∷ []) (omega arith)

-- empty responses are the empty message
abbrev empty_codec : Codec SyncDagResponse
empty_codec = record { marshal = λ r. some []; unmarshal = λ b. some nothing_yet }

empty_responses-unfinished_example :
    receive no_db event_codec empty_codec 1000 true (repeated 1000 []) new_node no_counts
    ≡ (unfinished, new_node)
empty_responses-unfinished_example =
    empty_responses-unfinished no_db event_codec empty_codec [] true new_node no_counts refl
      (omega arith) (omega arith) (omega arith) 1000

abbrev nobody : Map Str Bool
nobody = []

nobody_known : lookup (codes "p") nobody ≡ none
unfolding lookup
nobody_known = refl

sync_once_example :
    let after =
      (sync_with_peer no_db event_codec response_codec 9
        (codes "p")
        (some [])
        nobody
        new_node).1.0 in
    sync_with_peer no_db event_codec response_codec 9 (codes "p") (some (0 ∷ [])) after new_node
    ≡ (finished, (after, new_node))
sync_once_example =
    sync_once no_db event_codec response_codec 9 9 (codes "p") (some []) (some (0 ∷ [])) nobody
      new_node new_node nobody_known

first_rounds : length (events_from 2 1 served_dag) ≡ 3
unfolding get_events_by_round with_round
first_rounds = refl

sync_delivers_example :
    (answer : Served × Str) × (serve request_codec response_codec reliable 5
        (request 3)
        served_dag
        []
      ≡ some answer)
    × All
        (λ e.
          contains e.id
            (receive no_db event_codec response_codec 9 false answer.1 new_node
              no_counts).1.dag.events
          ≡ true)
        (events_from 2 1 served_dag)
sync_delivers_example =
    sync_delivers no_db event_codec response_codec request_codec (request 3) served_dag new_node
      no_counts 9 5 (event_fits 1 1, (event_fits 2 2, (event_fits 3 2, tt))) (omega arith)
      (omega arith) (omega arith) (omega (arith, first_rounds)) (omega arith)
      (omega (arith, first_rounds))

abbrev map_ids : Map Str Event → List Str
map_ids [] = []
map_ids ((k, e) ∷ m) = k ∷ map_ids m

-- the last round of a request: the first of its two events ends the loop of the peer
abbrev answer_of : Option (Served × Str) → Str
answer_of none = []
answer_of (some a) = a.1

last_round_cut :
    map_ids
      (receive no_db event_codec response_codec 9 false
        (answer_of (serve request_codec response_codec reliable 5 (request 2) served_dag []))
        new_node
        no_counts).1.dag.events
    ≡ (1 ∷ []) ∷ (2 ∷ []) ∷ []
unfolding serve send_rounds send_events get_events_by_round with_round receive accept accept_event
    shared_event accept_transactions read_message read_data write_message fill_bytes big_endian
    split decode_response add_event add_fresh link_parents is_witness mark_witness witnesses_of
    contains lookup insert modify str_eq put_event event_key engine_put
last_round_cut = refl
