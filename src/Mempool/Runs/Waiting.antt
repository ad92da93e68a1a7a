-- ===== src/Mempool/Runs/Waiting.antt =====
-- What waits in the queue, and what `GetPending` returns of it (pkg/mempool/mempool.go).
use dagnet_crypto.Base.{
  ℕ, ◌+◌, ◌≤◌, ◌<◌, ◌≡◌, Option, none, some, List, [], ◌∷◌, Str, str_key, str_eq_iff, nat_key,
  nat_eq_iff, ◌==◌, if◌then◌else◌, inl, inr, arith, Option-cases, length, get_elem?,
}
use dagnet_crypto.Map.{lookup}
use dagnet_crypto.Pb.{Transaction}
use dagnet_crypto.Mempool.Heap.{init}
use dagnet_crypto.Mempool.Heap.Items.{count, init-SameItems}
use dagnet_crypto.Mempool.Pool.{Mempool, MempoolTx, new_mempool, less}
use dagnet_crypto.Mempool.Entries.{lookup-entry_in}
use dagnet_crypto.Mempool.Runs.{Op, run, id_at, IsConsistent}
use dagnet_crypto.Base.{All}
use dagnet_crypto.Mempool.Heap.{init}
use dagnet_crypto.Mempool.Pool.{get, get_pending, pending_refs, txs_of}
use dagnet_crypto.Mempool.Pending.{take_pending-count, take_pending-live}
use dagnet_crypto.Mempool.Runs.Steps.{run_new-IsConsistent}

-- how many transactions have an id
abbrev pub count_id : Str → List Transaction → ℕ
count_id id [] = 0
count_id id (tx ∷ txs) = (if tx.id == id then 1 else 0) + count_id id txs

pending_refs-count : (s n : ℕ) (m : Mempool) → count s (pending_refs n m) ≤ count s m.queue
unfolding pending_refs
pending_refs-count s n m =
    let q = init (less m.objects) m.queue in
    omega (
      arith,
      (init-SameItems (less m.objects) m.queue).counts s,
      take_pending-count m.objects m.max_gas s (length m.queue) n 0 q,
    )

-- each reference that `GetPending` takes is the one that the map has for its id
Listed : Mempool → List ℕ → Type 0
Listed m rs = (s : ℕ) → 0 < count s rs → lookup (id_at m.objects s) m.txs ≡ some s

pending_refs-Listed : (n : ℕ) (m : Mempool) → IsConsistent m → Listed m (pending_refs n m)
unfolding Listed pending_refs
pending_refs-Listed n m c s h =
    let q = init (less m.objects) m.queue in
    let alive = take_pending-live m.objects m.max_gas (length m.queue) n 0 s q h in
    let waits = pending_refs-count s n m in
    lookup-entry_in (id_at m.objects s) s m.txs (c.unique (id_at m.objects s))
      (c.live s (unfold pending_refs in omega arith) alive)

get-listed :
    (m : Mempool) (r : ℕ) (x : MempoolTx)
    → get_elem? m.objects r ≡ some x
    → lookup (id_at m.objects r) m.txs ≡ some r
    → get x.tx.id m ≡ some x.tx
unfolding get id_at
get-listed m r x e own = ground arith

txs_of-known :
    (m : Mempool) (rs : List ℕ)
    → Listed m rs
    → All (λ tx. get tx.id m ≡ some tx) (txs_of m.objects rs)
unfolding Listed txs_of
txs_of-known m [] l = tt
txs_of-known m (r ∷ rs) l =
    let rest = txs_of-known m rs (λ s h. l s (unfold count in ground arith)) in
    let own = l r (unfold count in ground (arith, nat_eq_iff r r)) in
    elim (Option-cases (get_elem? m.objects r)) [
      | inl e ↦ rw (e, txs_of) rest
      | inr (x, e) ↦ rw (e, txs_of) (get-listed m r x e own, rest)
    ]

count_id-txs_of :
    (m : Mempool) (id : Str) (rs : List ℕ)
    → Listed m rs
    → count_id id (txs_of m.objects rs)
      ≤ (elim (lookup id m.txs) [ none ↦ 0 | some r ↦ count r rs ])
unfolding Listed txs_of count id_at
count_id-txs_of m id [] l = ground arith
count_id-txs_of m id (r ∷ rs) l =
    let rest = count_id-txs_of m id rs (λ s h. l s (ground arith)) in
    let own = l r (ground (arith, nat_eq_iff r r)) in
    elim (Option-cases (get_elem? m.objects r)) [
      | inl e ↦ ground (arith, rest)
      | inr (x, e) ↦ ground (arith, rest, own, str_eq_iff x.tx.id id, nat_eq_iff r r)
    ]

at_most_once :
    (m : Mempool)
    → IsConsistent m
    → (id : Str) (n : ℕ) (o : Option ℕ)
    → (elim o [ none ↦ 0 | some r ↦ count r (pending_refs n m) ]) ≤ 1
at_most_once m c id n none = omega arith
at_most_once m c id n (some r) = omega (arith, pending_refs-count r n m, c.once r)

-- After any operations from a new mempool, in any order, `GetPending` returns only transactions that
-- the mempool has under their id, and none twice: neither one that was removed nor one that was
-- cleaned up.
pub get_pending-known :
    (ops : List Op) (max_gas n : ℕ)
    → let m = run ops (new_mempool max_gas) in
      All (λ tx. get tx.id m ≡ some tx) (get_pending n m)
      × ((id : Str) → count_id id (get_pending n m) ≤ 1)
unfolding get_pending
get_pending-known ops max_gas n =
    let m = run ops (new_mempool max_gas) in
    let c = run_new-IsConsistent ops max_gas in
    let l = pending_refs-Listed n m c in
    (
      txs_of-known m (pending_refs n m) l,
      λ id. omega (
        arith,
        count_id-txs_of m id (pending_refs n m) l,
        at_most_once m c id n (lookup id m.txs),
      ),
    )
