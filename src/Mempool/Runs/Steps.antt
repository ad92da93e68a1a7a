-- ===== src/Mempool/Runs/Steps.antt =====
-- Each run of the mempool's operations (pkg/mempool/mempool.go) keeps it consistent.
use dagnet_crypto.Base.{ℕ, Bool, true, List, [], ◌∷◌, str_key, nat_key, arith}
use dagnet_crypto.Mempool.Heap.Items.{count}
use dagnet_crypto.Mempool.Pool.{Mempool, new_mempool, clear, stop}
use dagnet_crypto.Mempool.Entries.{entries, entry_in}
use dagnet_crypto.Mempool.Runs.{
  Op, add_tx, remove_tx, clean, clear_all, shut, perform, run, IsConsistent,
}
use dagnet_crypto.Mempool.Runs.Adding.{add-IsConsistent}
use dagnet_crypto.Mempool.Runs.Removing.{remove-IsConsistent, cleanup-IsConsistent}

emptied-IsConsistent :
    (m : Mempool) (b : Bool) → IsConsistent (record m { txs = []; queue = []; closed = b })
unfolding entries entry_in count
emptied-IsConsistent m b = record {
  unique = λ id. omega arith;
  valid = λ id r e. cc;
  live = λ r k l. absurd (omega arith);
  once = λ r. omega arith;
  inside = λ r k. absurd (omega arith);
  bounded = omega arith;
}

perform-IsConsistent : (op : Op) (m : Mempool) → IsConsistent m → IsConsistent (perform op m)
unfolding perform
perform-IsConsistent (add_tx tx) m c = add-IsConsistent tx m c
perform-IsConsistent (remove_tx id) m c = remove-IsConsistent id m c
perform-IsConsistent (clean now) m c = cleanup-IsConsistent now m c
perform-IsConsistent clear_all m c = unfold clear in emptied-IsConsistent m m.closed
perform-IsConsistent shut m c = unfold stop in unfold clear in emptied-IsConsistent m true

run-IsConsistent : (ops : List Op) (m : Mempool) → IsConsistent m → IsConsistent (run ops m)
unfolding run
run-IsConsistent [] m c = c
run-IsConsistent (op ∷ ops) m c = run-IsConsistent ops (perform op m) (perform-IsConsistent op m c)

-- After any operations from a new mempool, in any order, the map, the queue and the objects agree:
-- each entry stands for a live object of its id that waits in the queue once, each live object of the
-- queue has its entry, and the map has at most as many entries as the size allows.
pub run_new-IsConsistent :
    (ops : List Op) (max_gas : ℕ) → IsConsistent (run ops (new_mempool max_gas))
unfolding new_mempool entries entry_in count
run_new-IsConsistent ops max_gas = run-IsConsistent ops (new_mempool max_gas) (record {
  unique = λ id. omega arith;
  valid = λ id r e. cc;
  live = λ r k l. absurd (omega arith);
  once = λ r. omega arith;
  inside = λ r k. absurd (omega arith);
  bounded = omega arith;
})
