-- ===== src/Sync/Client.antt =====
-- The side of `SyncManager` that asks for events (pkg/network/sync.go). What a peer sends is the bytes of its
-- stream.
use dagnet_crypto.Base.{
  ℕ, zero, suc, ◌+◌, ◌%◌, Bool, true, false, Option, none, some, List, [], ◌∷◌, Str, str_key, ltb,
  not, length, get_elem?, ◌==◌, ◌&&◌, ◌||◌, if◌then◌else◌, add_u64,
}
use dagnet_crypto.Map.{Map, insert, lookup, modify}
use dagnet_crypto.Pb.{Codec, Event, Transaction, SyncDagRequest, SyncDagResponse}
use dagnet_crypto.Consensus.Dag.{Dag, add_event}
use dagnet_crypto.Mempool.Pool.{Mempool, added, refused, panicked, add, has}
use dagnet_crypto.Storage.Engine.{LevelDb}
use dagnet_crypto.Storage.Keys.{put_event}
use dagnet_crypto.Sync.Framing.{read_message, end_of_stream, broken, too_large, message}

-- what the node holds that a synchronisation changes
pub record Node (D : Type 0) : Type 0 where
  pub dag : Dag
  pub mempool : Mempool
  pub db : D

-- `eventsReceived` and `txsReceived`
pub record Counts : Type 0 where
  pub events : ℕ
  pub txs : ℕ

-- how a synchronisation ends
pub data Synced : Type 0 where
  finished : Synced
  failed : Synced
  crashed : Synced
  -- no end within the fuel
  unfinished : Synced

abbrev pub max_sync_batch_size : ℕ
max_sync_batch_size = 100

abbrev pub max_sync_rounds : ℕ
max_sync_rounds = 1000

-- the request of `syncWithPeer`
unfoldable pub next_request : ℕ → SyncDagRequest
next_request latest = record {
  start_round = add_u64 latest 1;
  end_round = add_u64 latest max_sync_rounds;
  include_transactions = false;
  limit = max_sync_batch_size;
}

-- the request of `SyncWithPeer`; none is an error
unfoldable pub range_request : Str → ℕ → ℕ → Option SyncDagRequest
range_request peer start end_round =
    if peer == []
    then none
    else if ltb end_round start
    then none
    else some (record {
      start_round = start;
      end_round = end_round;
      include_transactions = true;
      limit = max_sync_batch_size;
    })

-- The first part of `syncWithPeer`: none where the peer is known and not connected. The map tells which
-- peers are connected.
unfoldable pub begin_sync : Str → Map Str Bool → Option (Map Str Bool)
begin_sync peer peers = elim (lookup peer peers) [
  | none ↦ some (insert peer true peers)
  | some connected ↦ if not connected then none else some (insert peer true peers)
]

-- its deferred part
unfoldable pub end_sync : Str → Map Str Bool → Map Str Bool
end_sync peer peers = modify peer (λ _. false) peers

-- the event behind the pointer that was added
unfoldable pub shared_event : Event → Dag → Event
shared_event e d = elim (lookup e.id d.events) [ none ↦ e | some stored ↦ stored ]

module _ {D : Type 0} (db : LevelDb D) (events : Codec Event)
    (responses : Codec SyncDagResponse) where
  -- The event of a response; false is a panic of `mustMarshal`. The DAG and the handler share the event, so
  -- the stored bytes have the metadata that `AddEvent` wrote into it.
  unfoldable pub accept_event : Option Event → Node D → Counts → Bool × (Node D × Counts)
  accept_event none n c = (true, (n, c))
  accept_event (some e) n c =
      let (err, dag) = add_event (some e) n.dag in
      elim err [
        | some _ ↦ (true, (record n { dag = dag }, c))
        | none ↦
            let c1 = record c { events = c.events + 1 } in
            elim (events.marshal (shared_event e dag)) [
              | none ↦ (false, (record n { dag = dag }, c1))
              | some b ↦ (true, (record n { dag = dag; db = (put_event db e.id b n.db).1 }, c1))
            ]
      ]

  -- the transactions of a response; false is a panic of `Add`
  unfoldable pub accept_transactions : List Transaction → Node D → Counts → Bool × (Node D × Counts)
  accept_transactions [] n c = (true, (n, c))
  accept_transactions (tx ∷ txs) n c = elim (has tx.id n.mempool) [
    | true ↦ accept_transactions txs n c
    | false ↦
        let (result, pool) = add tx n.mempool in
        elim result [
          | added ↦
              accept_transactions txs (record n { mempool = pool }) (record c { txs = c.txs + 1 })
          | refused ↦ accept_transactions txs (record n { mempool = pool }) c
          | panicked ↦ (false, (record n { mempool = pool }, c))
        ]
  ]

  unfoldable pub accept : SyncDagResponse → Node D → Counts → Bool × (Node D × Counts)
  accept r n c =
      let (fine, (n1, c1)) = accept_event r.event n c in
      elim fine [ true ↦ accept_transactions r.transactions n1 c1 | false ↦ (false, (n1, c1)) ]

  -- the loop over the responses; `SyncWithPeer` has limits, and `syncWithPeer` none
  unfoldable pub receive : ℕ → Bool → Str → Node D → Counts → Synced × Node D
  receive zero limits input n c = (unfinished, n)
  receive (suc fuel) limits input n c = elim (read_message input) [
    | end_of_stream ↦ (finished, n)
    | broken ↦ (failed, n)
    | too_large ↦ (failed, n)
    | message b rest ↦ elim (responses.unmarshal b) [
      | none ↦ (failed, n)
      | some r ↦
          let (fine, (n1, c1)) = accept r n c in
          elim fine [
            | false ↦ (crashed, n1)
            | true ↦
                elim (not r.has_more || (limits && (ltb 10000 c1.events || ltb 50000 c1.txs))) [
                  | true ↦ (finished, n1)
                  | false ↦ receive fuel limits rest n1 c1
                ]
          ]
    ]
  ]

  -- the part of `requestSingleEvent` after the response is read
  unfoldable pub accept_single : Option Str → Node D → Bool × Node D
  accept_single none n = (false, n)
  accept_single (some input) n = elim (read_message input) [
    | end_of_stream ↦ (false, n)
    | broken ↦ (false, n)
    | too_large ↦ (false, n)
    | message b rest ↦ elim (events.unmarshal b) [
      | none ↦ (false, n)
      | some e ↦
          let (err, dag) = add_event (some e) n.dag in
          (elim err [ none ↦ true | some _ ↦ false ], record n { dag = dag })
    ]
  ]

  -- the loop of `RequestMissingEvents`, over what each peer answers; `i` counts the ids before
  unfoldable pub request_each : (Str → Str → Option Str) → List Str → ℕ → List Str → Node D → Node D
  request_each answers peers i [] n = n
  request_each answers peers i (id ∷ ids) n = elim (get_elem? peers (i % length peers)) [
    | none ↦ n
    | some peer ↦ request_each answers peers (i + 1) ids (accept_single (answers peer id) n).1
  ]

  -- `RequestMissingEvents`; false is an error
  unfoldable pub request_missing_events :
      (Str → Str → Option Str) → List Str → List Str → Node D → Bool × Node D
  request_missing_events answers peers [] n = (true, n)
  request_missing_events answers [] (id ∷ ids) n = (false, n)
  request_missing_events answers (peer ∷ peers) (id ∷ ids) n =
      (true, request_each answers (peer ∷ peers) 0 (id ∷ ids) n)

  -- `syncWithPeer`, where `answer` is what the peer sends, or none if the stream fails to open or the
  -- request to be sent
  unfoldable pub sync_with_peer :
      ℕ → Str → Option Str → Map Str Bool → Node D → Synced × (Map Str Bool × Node D)
  sync_with_peer fuel peer answer peers n = elim (begin_sync peer peers) [
    | none ↦ (finished, (peers, n))
    | some running ↦ elim answer [
      | none ↦ (failed, (end_sync peer running, n))
      | some input ↦
          let (result, n1) = receive fuel false input n (record { events = 0; txs = 0 }) in
          (result, (end_sync peer running, n1))
    ]
  ]
