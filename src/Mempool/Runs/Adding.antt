-- ===== src/Mempool/Runs/Adding.antt =====
-- `Add` (pkg/mempool/mempool.go) keeps the mempool consistent.
use dagnet_crypto.Base.{
  ℕ, ◌+◌, ◌<◌, ◌≡◌, false, [], ◌∷◌, ◌++◌, Str, str_key, str_eq_iff, nat_key, nat_eq_iff, ◌==◌,
  if◌then◌else◌, inl, inr, ◌⊎◌, arith, Bool-cases, length, length-append, leb,
}
use dagnet_crypto.Map.{contains}
use dagnet_crypto.Pb.{Transaction}
use dagnet_crypto.Mempool.Heap.{push}
use dagnet_crypto.Mempool.Heap.Items.{count, count-append, push-SameItems}
use dagnet_crypto.Mempool.Pool.{Mempool, less, mempool_tx, store, notify, add}
use dagnet_crypto.Mempool.Entries.{entries-missing, entries-insert, entry_in-insert}
use dagnet_crypto.Mempool.Runs.{id_at, IsConsistent}
use dagnet_crypto.Mempool.Runs.Objects.{
  length-insert, id_at-append, priority_at-append, priority-live,
}

store-IsConsistent :
    (tx : Transaction) (m : Mempool)
    → contains tx.id m.txs ≡ false
    → length m.txs < m.max_size
    → IsConsistent m
    → IsConsistent (store tx m)
unfolding store mempool_tx
store-IsConsistent tx m new room c =
    let x = mempool_tx tx in
    let objects = m.objects ++ (x ∷ []) in
    let n = length m.objects in
    let queued : (r : ℕ)
        → count r (push (less objects) n m.queue) ≡ count r m.queue + (if n == r then 1 else 0) =
      λ r.
        unfold count in
        ground (
          arith,
          (push-SameItems (less objects) n m.queue).counts r,
          count-append r m.queue (n ∷ []),
        ) in
    let told = id_at-append m.objects x in
    let ranked = priority_at-append m.objects x in
    let listed = λ (id : Str) (r : ℕ). entry_in-insert tx.id id n r m.txs new in
    let fresh : count n m.queue ≡ 0 = ground (arith, c.inside n) in
    record {
      unique = λ id. ground (
        arith,
        entries-insert tx.id id n m.txs,
        c.unique id,
        entries-missing tx.id m.txs,
        str_eq_iff tx.id id,
      );
      valid = λ id r e. ground (
        arith,
        listed id r,
        c.valid id r,
        told r,
        ranked r,
        queued r,
        priority-live tx.fee tx.gas_limit,
        length-append m.objects (x ∷ []),
        str_eq_iff tx.id id,
      );
      live = λ r k l. ground (
        arith,
        queued r,
        told r,
        ranked r,
        listed tx.id r,
        listed (id_at m.objects r) r,
        c.live r,
        c.inside r,
        str_eq_iff tx.id tx.id,
      );
      once = λ r. ground (arith, queued r, c.once r, fresh, nat_eq_iff n r);
      inside = λ r k. ground (arith, queued r, c.inside r, length-append m.objects (x ∷ []));
      bounded = omega (arith, length-insert tx.id n m.txs);
    }

notify_cases :
    (tx : Transaction) (m : Mempool)
    → ((notify tx m).1 ≡ m)
      ⊎ ((notify tx m).1 ≡ record m { tx_channel = m.tx_channel ++ (tx ∷ []) })
unfolding notify
notify_cases tx m = ground arith

notify-IsConsistent :
    (tx : Transaction) (m : Mempool) → IsConsistent m → IsConsistent (notify tx m).1
notify-IsConsistent tx m c = elim (notify_cases tx m) [
  | inl e ↦ rw e c
  | inr e ↦ rw e (record {
    unique = c.unique;
    valid = c.valid;
    live = c.live;
    once = c.once;
    inside = c.inside;
    bounded = c.bounded;
  })
]

pub add-IsConsistent : (tx : Transaction) (m : Mempool) → IsConsistent m → IsConsistent (add tx m).1
unfolding add
add-IsConsistent tx m c = elim (Bool-cases (contains tx.id m.txs)) [
  | inl old ↦ rw old c
  | inr new ↦ elim (Bool-cases (leb m.max_size (length m.txs))) [
    | inl full ↦ rw (new, full) c
    | inr room ↦
        rw (new, room)
          (notify-IsConsistent tx (store tx m) (store-IsConsistent tx m new (ground arith) c))
  ]
]
