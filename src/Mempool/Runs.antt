-- ===== src/Mempool/Runs.antt =====
-- Runs of the mempool's operations (pkg/mempool/mempool.go): the map, the queue and the objects that
-- they share stay in step.
pub mod Objects
pub mod Adding
pub mod Removing
pub mod Steps
pub mod Waiting
pub mod Reads
use dagnet_crypto.Base.{
  ℕ, zero, suc, ◌+◌, ◌≤◌, ◌<◌, ◌≡◌, ◌≢◌, refl, Bool, true, false, Option, none, some, List, [], ◌∷◌,
  ◌++◌, Str, str_key, str_eq_iff, nat_key, nat_eq_iff, ◌==◌, ◌&&◌, ◌||◌, if◌then◌else◌, inl, inr,
  ◌⊎◌, arith, Bool-cases, Option-cases, length, length-append, length-set, get_elem?, set, ltb, leb,
}
use dagnet_crypto.Map.{Map, lookup, insert, contains}
use dagnet_crypto.Pb.{Transaction}
use dagnet_crypto.Mempool.Priority.{Float64, minus_one, negative, priority}
use dagnet_crypto.Mempool.Heap.{init, push}
use dagnet_crypto.Mempool.Heap.Items.{count, count-append, init-SameItems, push-SameItems}
use dagnet_crypto.Mempool.Pool.{
  Mempool, MempoolTx, new_mempool, less, priority_at, mempool_tx, store, notify, add, delete,
  mark_removed, remove, clear, stop, young, cleanup,
}
use dagnet_crypto.Mempool.Entries.{
  entries, entry_in, refs, lookup-entry_in, entry_in-lookup, entries-missing, entries-insert,
  entry_in-insert, entries-delete, entry_in-delete, entries-young, entry_in-young, count-refs_in,
  id_of_count, count-refs_le,
}

-- the operations that change a mempool
pub data Op : Type 0 where
  add_tx : Transaction → Op
  remove_tx : Str → Op
  clean : ℕ → Op
  clear_all : Op
  shut : Op

unfoldable pub perform : Op → Mempool → Mempool
perform (add_tx tx) m = (add tx m).1
perform (remove_tx id) m = remove id m
perform (clean now) m = cleanup now m
perform clear_all m = clear m
perform shut m = (stop m).1

unfoldable pub run : List Op → Mempool → Mempool
run [] m = m
run (op ∷ ops) m = run ops (perform op m)

-- the id of the transaction behind a reference
unfoldable pub id_at : List MempoolTx → ℕ → Str
id_at objects r = elim (get_elem? objects r) [ none ↦ [] | some x ↦ x.tx.id ]

pub record IsConsistent (m : Mempool) : Type 0 where
  pub unique : (id : Str) → entries id m.txs ≤ 1
  pub valid :
      (id : Str) (r : ℕ)
      → entry_in id r m.txs ≡ true
      → (id_at m.objects r ≡ id)
        × (negative (priority_at m.objects r) ≡ false)
        × (r < length m.objects)
        × (0 < count r m.queue)
  pub live :
      (r : ℕ)
      → 0 < count r m.queue
      → negative (priority_at m.objects r) ≡ false
      → entry_in (id_at m.objects r) r m.txs ≡ true
  pub once : (r : ℕ) → count r m.queue ≤ 1
  pub inside : (r : ℕ) → 0 < count r m.queue → r < length m.objects
  pub bounded : length m.txs ≤ m.max_size
