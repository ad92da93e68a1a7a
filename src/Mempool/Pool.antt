-- ===== src/Mempool/Pool.antt =====
-- `Mempool` (pkg/mempool/mempool.go). The map and the queue share their `MempoolTx` objects: an object
-- stands in the store `objects`, and a reference is its index there. `Size` and `Index`, which no code
-- reads, are left out, and so are the lock, which each method holds, and the context.
use dagnet_crypto.Base.{
  ℕ, zero, suc, ◌-◌, ◌^◌, Bool, true, false, Option, none, some, List, [], ◌∷◌, ◌++◌, Str, str_key,
  nat_key, ◌==◌, ◌||◌, if◌then◌else◌, ltb, leb, length, get_elem?, set, add_u64, sub_u64, map,
}
use dagnet_crypto.Map.{Map, lookup, insert, contains}
use dagnet_crypto.Pb.{Transaction}
use dagnet_crypto.Mempool.Priority.{Float64, priority, greater, differs, negative}
use dagnet_crypto.Mempool.Heap.{init, push, pop}

pub record MempoolTx : Type 0 where
  pub tx : Transaction
  pub priority : Float64
  pub timestamp : ℕ

pub record Mempool : Type 0 where
  pub objects : List MempoolTx
  pub txs : Map Str ℕ
  pub queue : List ℕ
  pub max_size : ℕ
  pub max_gas : ℕ
  pub tx_channel : List Transaction
  pub closed : Bool

unfoldable pub new_mempool : ℕ → Mempool
new_mempool max_gas = record {
  objects = [];
  txs = [];
  queue = [];
  max_size = 10000;
  max_gas = max_gas;
  tx_channel = [];
  closed = false;
}

-- `a < b` on `int64`, in two's complement
abbrev pub less_i64 : ℕ → ℕ → Bool
less_i64 a b = ltb (add_u64 a (2 ^ 63)) (add_u64 b (2 ^ 63))

-- what stands behind a reference; one without an object does not occur
unfoldable pub priority_at : List MempoolTx → ℕ → Float64
priority_at objects r = elim (get_elem? objects r) [
  | none ↦ Float64.minus_one
  | some x ↦ x.priority
]

unfoldable pub timestamp_at : List MempoolTx → ℕ → ℕ
timestamp_at objects r = elim (get_elem? objects r) [ none ↦ 0 | some x ↦ x.timestamp ]

-- `Less`
unfoldable pub before : Float64 → ℕ → Float64 → ℕ → Bool
before p s q t = if differs p q then greater p q else less_i64 s t

unfoldable pub less : List MempoolTx → ℕ → ℕ → Bool
less objects a b =
    before (priority_at objects a) (timestamp_at objects a) (priority_at objects b)
      (timestamp_at objects b)

-- how `Add` ends: with true, with false, or with a panic
pub data AddResult : Type 0 where
  added refused panicked : AddResult

abbrev pub channel_capacity : ℕ
channel_capacity = 1000

-- the `select` of `Add`: a send on a closed channel panics
unfoldable pub notify : Transaction → Mempool → AddResult × Mempool
notify tx m =
    if m.closed
    then (panicked, m)
    else if ltb (length m.tx_channel) channel_capacity
    then (added, record m { tx_channel = m.tx_channel ++ (tx ∷ []) })
    else (added, m)

unfoldable pub mempool_tx : Transaction → MempoolTx
mempool_tx tx = record {
  tx = tx;
  priority = priority tx.fee tx.gas_limit;
  timestamp = tx.timestamp;
}

-- the writes to the map and the queue in `Add`
unfoldable pub store : Transaction → Mempool → Mempool
store tx m =
    let objects = m.objects ++ (mempool_tx tx ∷ []) in
    let r = length m.objects in
    record m {
      objects = objects;
      txs = insert tx.id r m.txs;
      queue = push (less objects) r m.queue;
    }

-- `Add`
unfoldable pub add : Transaction → Mempool → AddResult × Mempool
unfolding store notify
add tx m =
    if contains tx.id m.txs
    then (refused, m)
    else if leb m.max_size (length m.txs)
    then (refused, m)
    else notify tx (store tx m)

-- `Get`
unfoldable pub get : Str → Mempool → Option Transaction
get id m = elim (lookup id m.txs) [
  | none ↦ none
  | some r ↦ elim (get_elem? m.objects r) [ none ↦ none | some x ↦ some x.tx ]
]

-- `delete(m, id)`
unfoldable pub delete : Str → Map Str ℕ → Map Str ℕ
delete id [] = []
delete id (old ∷ m) = if old.0 == id then delete id m else old ∷ delete id m

-- `tx.Priority = -1`
unfoldable pub mark_removed : ℕ → List MempoolTx → List MempoolTx
mark_removed r objects = elim (get_elem? objects r) [
  | none ↦ objects
  | some x ↦ set objects r (record x { priority = Float64.minus_one })
]

-- `Remove`: the reference stays in the queue
unfoldable pub remove : Str → Mempool → Mempool
remove id m = elim (lookup id m.txs) [
  | none ↦ m
  | some r ↦ record m { objects = mark_removed r m.objects; txs = delete id m.txs }
]

-- the loop of `GetPending`, over the references of the transactions that it returns
unfoldable pub take_pending : List MempoolTx → ℕ → ℕ → ℕ → ℕ → List ℕ → List ℕ
take_pending objects max_gas zero room gas q = []
take_pending objects max_gas (suc fuel) room gas q =
    let (r, rest) = pop (less objects) q in
    elim (length q == 0 || room == 0) [
      | true ↦ []
      | false ↦ elim (get_elem? objects r) [
        | none ↦ []
        | some x ↦ elim (negative x.priority) [
          | true ↦ take_pending objects max_gas fuel room gas rest
          | false ↦ elim (ltb max_gas (add_u64 gas x.tx.gas_limit)) [
            | true ↦ []
            | false ↦
                r ∷ take_pending objects max_gas fuel (room - 1) (add_u64 gas x.tx.gas_limit) rest
          ]
        ]
      ]
    ]

-- The queue loses an item in each round, so its length is fuel enough.
unfoldable pub pending_refs : ℕ → Mempool → List ℕ
pending_refs max_txs m =
    take_pending m.objects m.max_gas (length m.queue) max_txs 0 (init (less m.objects) m.queue)

-- the transactions of references
unfoldable pub txs_of : List MempoolTx → List ℕ → List Transaction
txs_of objects [] = []
txs_of objects (r ∷ rs) = elim (get_elem? objects r) [
  | none ↦ txs_of objects rs
  | some x ↦ x.tx ∷ txs_of objects rs
]

-- `GetPending`
unfoldable pub get_pending : ℕ → Mempool → List Transaction
get_pending max_txs m = txs_of m.objects (pending_refs max_txs m)

-- `Size`, `Has`
unfoldable pub size : Mempool → ℕ
size m = length m.txs

unfoldable pub has : Str → Mempool → Bool
has id m = contains id m.txs

-- `Clear`
unfoldable pub clear : Mempool → Mempool
clear m = record m { txs = []; queue = [] }

-- `Stop`, with whether it panics: it empties the mempool first, and a second close panics
unfoldable pub stop : Mempool → Bool × Mempool
unfolding clear
stop m = (m.closed, record (clear m) { closed = true })

-- the entries that the loop of `cleanup` keeps, at the time `now`
unfoldable pub young : ℕ → List MempoolTx → Map Str ℕ → Map Str ℕ
young now objects [] = []
young now objects ((id, r) ∷ m) =
    let rest = young now objects m in
    elim (get_elem? objects r) [
      | none ↦ (id, r) ∷ rest
      | some x ↦ if less_i64 86400000000000 (sub_u64 now x.timestamp) then rest else (id, r) ∷ rest
    ]

-- `cleanup`
unfoldable pub cleanup : ℕ → Mempool → Mempool
cleanup now m =
    let kept = young now m.objects m.txs in
    if ltb (length kept) (length m.txs)
    then record m { txs = kept; queue = init (less m.objects) (map (λ e. e.1) kept) }
    else m

-- the loops of `GetTotalGas` and `GetTotalFees`
unfoldable pub total : (Transaction → ℕ) → List MempoolTx → Map Str ℕ → ℕ → ℕ
total f objects [] sum = sum
total f objects ((_, r) ∷ m) sum = elim (get_elem? objects r) [
  | none ↦ total f objects m sum
  | some x ↦ total f objects m (add_u64 sum (f x.tx))
]

unfoldable pub get_total_gas : Mempool → ℕ
get_total_gas m = total (λ tx. tx.gas_limit) m.objects m.txs 0

unfoldable pub get_total_fees : Mempool → ℕ
get_total_fees m = total (λ tx. tx.fee) m.objects m.txs 0
