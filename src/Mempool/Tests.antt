-- ===== src/Mempool/Tests.antt =====
-- The mempool on concrete inputs, and the theorems about it at such inputs.
use dagnet_crypto.Base.{
  ℕ, zero, suc, ◌+◌, ◌*◌, ◌^◌, ◌≤◌, ◌<◌, ◌≡◌, refl, Option, none, some, List, [], ◌∷◌, Str, codes,
  str_key, str_eq, arith, All, length, get_elem?, map, u64_mod, ap,
}
use dagnet_crypto.Map.{lookup, insert, contains}
use dagnet_crypto.Pb.{Transaction, Payload}
use dagnet_crypto.Mempool.Priority.{
  Float64, bits, round_to, round_ratio, float64_of, priority, greater, differs, negative,
}
use dagnet_crypto.Mempool.Heap.{at, swap, up, child, down, init_below, init, push, pop}
use dagnet_crypto.Mempool.Pool.{
  Mempool, MempoolTx, new_mempool, priority_at, timestamp_at, before, less, panicked, notify,
  mempool_tx, store, add, get, delete, mark_removed, remove, take_pending, pending_refs, txs_of,
  get_pending, size, stop,
}
use dagnet_crypto.Mempool.Ranks.{IsOrdered}
use dagnet_crypto.Mempool.Pending.{
  gas_of, IsByPriority, pending_refs-IsByPriority, get_pending-limits,
}
use dagnet_crypto.Mempool.Runs.{Op, add_tx, remove_tx, perform, run, IsConsistent}
use dagnet_crypto.Mempool.Runs.Steps.{run_new-IsConsistent}
use dagnet_crypto.Mempool.Runs.Waiting.{count_id, get_pending-known}
use dagnet_crypto.Mempool.Runs.Reads.{add_after_stop}

abbrev tx : Str → ℕ → ℕ → Transaction
tx id fee gas = record {
  id = id;
  chain_id = [];
  network_id = [];
  nonce = 1;
  fee = fee;
  gas_limit = gas;
  timestamp = 7;
  payload = Payload.transfer (record { to = []; amount = 1 });
  signature = [];
  public_key = [];
}

abbrev cheap : Transaction
cheap = tx (codes "a") 1 2

abbrev dear : Transaction
dear = tx (codes "b") 9 2

abbrev fair : Transaction
fair = tx (codes "c") 5 2

thirds :
    (priority 1 2 ≡ Float64.finite (2 ^ 116))
    × (priority 0 0 ≡ Float64.nan)
    × (priority 1 0 ≡ Float64.infinite)
    × (priority 2 3 ≡ Float64.finite (6004799503160661 * 2 ^ 64))
unfolding priority float64_of round_ratio round_to bits
thirds = (refl, refl, refl, refl)

abbrev ops : List Op
ops = add_tx cheap ∷ add_tx dear ∷ add_tx fair ∷ add_tx dear ∷ remove_tx (codes "c") ∷ []

abbrev pool : Mempool
pool = run ops (new_mempool 4)

dear_first : (map (λ t. t.id) (get_pending 5 pool) ≡ codes "b" ∷ codes "a" ∷ []) × (size pool ≡ 2)
unfolding run perform new_mempool add notify store mempool_tx remove mark_removed delete get_pending
    pending_refs take_pending txs_of priority float64_of round_ratio round_to bits greater differs
    negative priority_at timestamp_at before less at swap up child down init_below init push pop
    size lookup insert contains str_eq
dear_first = (refl, refl)

-- the objects after two transactions
abbrev two : Mempool
two = run (add_tx cheap ∷ add_tx dear ∷ []) (new_mempool 4)

two-IsOrdered : IsOrdered two.objects
unfolding run perform new_mempool add notify store mempool_tx priority float64_of round_ratio
    round_to bits priority_at lookup insert contains str_eq
two-IsOrdered zero h = cc
two-IsOrdered (suc zero) h = cc
two-IsOrdered (suc (suc r)) h = cc

pending_refs-IsByPriority_example : IsByPriority two.objects (pending_refs 2 two)
pending_refs-IsByPriority_example = pending_refs-IsByPriority 2 two two-IsOrdered

gas_in : Option MempoolTx → ℕ
gas_in none = 0
gas_in (some y) = y.tx.gas_limit

two-small :
    (r : ℕ) (x : MempoolTx)
    → get_elem? two.objects r ≡ some x
    → two.max_gas + x.tx.gas_limit < u64_mod
unfolding run perform new_mempool add notify store mempool_tx priority float64_of round_ratio
    round_to bits gas_in priority_at lookup insert contains str_eq
two-small zero x h = let e : 2 ≡ x.tx.gas_limit = ap gas_in h in omega (arith, e)
two-small (suc zero) x h = let e : 2 ≡ x.tx.gas_limit = ap gas_in h in omega (arith, e)
two-small (suc (suc r)) x h = cc

get_pending-limits_example :
    (length (get_pending 2 two) ≤ 2) × (gas_of (get_pending 2 two) ≤ two.max_gas)
get_pending-limits_example = get_pending-limits 2 two two-small

run_new-IsConsistent_example : IsConsistent (run ops (new_mempool 4))
run_new-IsConsistent_example = run_new-IsConsistent ops 4

get_pending-known_example :
    All (λ t. get t.id pool ≡ some t) (get_pending 5 pool)
    × ((id : Str) → count_id id (get_pending 5 pool) ≤ 1)
get_pending-known_example = get_pending-known ops 4 5

add_after_stop_example :
    let (result, m') = add dear (stop two).1 in
    (result ≡ panicked) × (size m' ≡ 1) × (get dear.id m' ≡ some dear)
unfolding run perform add contains lookup new_mempool insert str_eq
add_after_stop_example = add_after_stop dear two (omega arith)
