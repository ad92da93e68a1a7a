-- ===== src/Mempool/Runs/Reads.antt =====
-- Reads of the mempool after `Add` and `Remove`, and the length of the queue (pkg/mempool/mempool.go).
use dagnet_crypto.Base.{
  ℕ, zero, suc, ◌+◌, ◌<◌, ◌≡◌, false, Option, none, some, List, [], ◌∷◌, ◌++◌, Str, str_key,
  str_eq_iff, nat_key, nat_eq_iff, ◌==◌, ◌&&◌, ◌||◌, if◌then◌else◌, inl, inr, arith, Option-cases,
  length, length-append, get_elem?, leb,
}
use dagnet_crypto.Map.{Map, lookup, insert, contains}
use dagnet_crypto.Pb.{Transaction}
use dagnet_crypto.Mempool.Priority.{Float64}
use dagnet_crypto.Mempool.Heap.Items.{push-SameItems}
use dagnet_crypto.Mempool.Pool.{
  Mempool, MempoolTx, less, mempool_tx, store, notify, add, delete, mark_removed, remove, clear,
  stop,
}
use dagnet_crypto.Mempool.Entries.{entry_in-lookup}
use dagnet_crypto.Mempool.Runs.{IsConsistent}
use dagnet_crypto.Mempool.Pool.{get, size}
use dagnet_crypto.Base.{length-append, not}
use dagnet_crypto.Map.{lookup-insert}
use dagnet_crypto.Mempool.Heap.Items.{push-SameItems}
use dagnet_crypto.Mempool.Pool.{panicked, delete, stop, notify}
use dagnet_crypto.Mempool.Runs.Objects.{get_elem?-append, get_elem?-set, get_elem?-past}

lookup-delete :
    (id k : Str) (m : Map Str ℕ) → lookup k (delete id m) ≡ (if id == k then none else lookup k m)
unfolding lookup delete
lookup-delete id k [] = ground arith
lookup-delete id k ((j, v) ∷ m) =
    ground (arith, lookup-delete id k m, str_eq_iff j id, str_eq_iff j k, str_eq_iff id k)

inside_of :
    (m : Mempool) (k : Str) (r : ℕ)
    → IsConsistent m
    → lookup k m.txs ≡ some r
    → r < length m.objects
inside_of m k r c e = (c.valid k r (entry_in-lookup k r m.txs e)).2

get-store :
    (tx : Transaction) (k : Str) (m : Mempool)
    → IsConsistent m
    → get k (store tx m) ≡ (if tx.id == k then some tx else get k m)
unfolding get store mempool_tx
get-store tx k m c =
    let n = length m.objects in
    let found = lookup-insert tx.id k n m.txs in
    let object = λ (r : ℕ). get_elem?-append m.objects (mempool_tx tx) r in
    elim (Option-cases (lookup k m.txs)) [
      | inl e ↦ ground (arith, found, object n, nat_eq_iff n n)
      | inr (r, e) ↦
          let r_in = inside_of m k r c e in
          ground (arith, found, object n, object r, nat_eq_iff n n, nat_eq_iff r n)
    ]

get-notify : (tx : Transaction) (k : Str) (m : Mempool) → get k (notify tx m).1 ≡ get k m
unfolding notify get
get-notify tx k m = ground arith

-- After `Add`, a read of an id gives the new transaction if it has that id and came in, and what it
-- gave before otherwise: `Add` refuses an id that is there, and any transaction in a full mempool.
pub get-add :
    (tx : Transaction) (k : Str) (m : Mempool)
    → IsConsistent m
    → get k (add tx m).1 ≡ (
        if tx.id == k && not (contains tx.id m.txs || leb m.max_size (size m))
        then some tx
        else get k m)
unfolding add size
get-add tx k m c = ground (arith, get-notify tx k (store tx m), get-store tx k m c)

abbrev tx_at : List MempoolTx → ℕ → Option Transaction
tx_at objects r = elim (get_elem? objects r) [ none ↦ none | some x ↦ some x.tx ]

tx_at-mark :
    (r s : ℕ) (objects : List MempoolTx) → tx_at (mark_removed r objects) s ≡ tx_at objects s
unfolding mark_removed
tx_at-mark r s objects = elim (Option-cases (get_elem? objects r)) [
  | inl e ↦ ground arith
  | inr (x, e) ↦ ground (
    arith,
    nat_eq_iff s r,
    get_elem?-set objects r s (record x { priority = Float64.minus_one }),
    get_elem?-past objects r,
  )
]

-- After `Remove` an id is gone, and every other one reads as before.
pub get-remove :
    (id k : Str) (m : Mempool) → get k (remove id m) ≡ (if id == k then none else get k m)
unfolding get remove
get-remove id k m = elim (Option-cases (lookup id m.txs)) [
  | inl e ↦ ground (arith, str_eq_iff id k)
  | inr (r, e) ↦ elim (Option-cases (lookup k m.txs)) [
    | inl e' ↦ ground (arith, lookup-delete id k m.txs)
    | inr (s, e') ↦ ground (arith, lookup-delete id k m.txs, tx_at-mark r s m.objects)
  ]
]

-- one round in which a transaction comes and goes
unfoldable churn : ℕ → Transaction → Mempool → Mempool
churn zero tx m = m
churn (suc n) tx m = churn n tx (remove tx.id (add tx m).1)

delete-insert :
    (id : Str) (r : ℕ) (m : Map Str ℕ) → contains id m ≡ false → delete id (insert id r m) ≡ m
unfolding delete insert contains lookup
delete-insert id r [] h = ground (arith, str_eq_iff id id)
delete-insert id r ((j, v) ∷ m) h = ground (arith, delete-insert id r m, str_eq_iff id id)

churn_round :
    (tx : Transaction) (m : Mempool)
    → contains tx.id m.txs ≡ false
    → size m < m.max_size
    → let m' = remove tx.id (add tx m).1 in
      (m'.txs ≡ m.txs) × (m'.max_size ≡ m.max_size) × (length m'.queue ≡ suc (length m.queue))
unfolding size add notify store remove
churn_round tx m new room =
    let n = length m.objects in
    let objects = m.objects ++ (mempool_tx tx ∷ []) in
    ground (
      arith,
      delete-insert tx.id n m.txs,
      lookup-insert tx.id tx.id n m.txs,
      str_eq_iff tx.id tx.id,
      (push-SameItems (less objects) n m.queue).lengths,
      length-append m.queue (n ∷ []),
    )

-- `Remove` leaves the removed item in the queue, and the limit is on the map: a transaction that comes
-- and goes `n` times, in a mempool that has room for it, makes the queue longer by `n` and leaves the
-- size as it was.
churn-queue :
    (n : ℕ) (tx : Transaction) (m : Mempool)
    → contains tx.id m.txs ≡ false
    → size m < m.max_size
    → (length (churn n tx m).queue ≡ n + length m.queue) × (size (churn n tx m) ≡ size m)
unfolding churn size
churn-queue zero tx m new room = ground arith
churn-queue (suc n) tx m new room =
    let m' = remove tx.id (add tx m).1 in
    let (same, bound, longer) = churn_round tx m new room in
    let rest = churn-queue n tx m' (rw same new) (rw (same, bound) room) in
    ground (arith, same, longer, rest)

-- In a mempool of any size, an `Add` after `Stop` panics, also after a `Stop` that panicked, and by then
-- the transaction is in the map, which has nothing else.
pub add_after_stop :
    (tx : Transaction) (m : Mempool)
    → 0 < m.max_size
    → let (result, m') = add tx (stop m).1 in
      (result ≡ panicked) × (size m' ≡ 1) × (get tx.id m' ≡ some tx)
unfolding stop clear add notify store size contains lookup insert get mempool_tx
add_after_stop tx m pos =
    let n = length m.objects in
    ground
      (arith, get_elem?-append m.objects (mempool_tx tx) n, nat_eq_iff n n, str_eq_iff tx.id tx.id)
