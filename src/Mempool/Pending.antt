-- ===== src/Mempool/Pending.antt =====
-- `GetPending` (pkg/mempool/mempool.go): its limits and its order.
use dagnet_crypto.Base.{
  ℕ, zero, suc, ◌+◌, ◌-◌, ◌≤◌, ◌<◌, ◌≡◌, Bool, false, some, List, [], ◌∷◌, nat_key, nat_eq_iff,
  ◌==◌, ◌||◌, inl, inr, arith, Bool-cases, Option-cases, ltb, length, get_elem?, add_u64, u64_mod,
}
use dagnet_crypto.Pb.{Transaction}
use dagnet_crypto.Mempool.Priority.{negative}
use dagnet_crypto.Mempool.Heap.{init, pop}
use dagnet_crypto.Mempool.Heap.Items.{count, pop-items, init-SameItems}
use dagnet_crypto.Mempool.Heap.Order.{Order, IsHeap, init-IsHeap, pop-IsHeap}
use dagnet_crypto.Mempool.Pool.{
  Mempool, MempoolTx, less, take_pending, pending_refs, txs_of, get_pending, priority_at,
  timestamp_at,
}
use dagnet_crypto.Mempool.Ranks.{IsOrdered, MayGoFirst, less-MayGoFirst, less-Order}

abbrev pub gas_of : List Transaction → ℕ
gas_of [] = 0
gas_of (tx ∷ txs) = tx.gas_limit + gas_of txs

module _ (objects : List MempoolTx) (max_gas : ℕ) where
  take_pending-room :
      (fuel room gas : ℕ) (q : List ℕ)
      → length (take_pending objects max_gas fuel room gas q) ≤ room
  unfolding take_pending
  take_pending-room zero room gas q = omega arith
  take_pending-room (suc fuel) room gas q =
      let (r, rest) = pop (less objects) q in
      elim (Option-cases (get_elem? objects r)) [
        | inl e ↦ ground arith
        | inr (x, e) ↦
            let gas' = add_u64 gas x.tx.gas_limit in
            ground (
              arith,
              take_pending-room fuel room gas rest,
              take_pending-room fuel (room - 1) gas' rest,
            )
      ]

  take_pending-gas :
      ((r : ℕ) (x : MempoolTx) → get_elem? objects r ≡ some x → max_gas + x.tx.gas_limit < u64_mod)
      → (fuel room gas : ℕ) (q : List ℕ) → gas ≤ max_gas
      → gas + gas_of (txs_of objects (take_pending objects max_gas fuel room gas q)) ≤ max_gas
  unfolding take_pending txs_of
  take_pending-gas small zero room gas q le = ground arith
  take_pending-gas small (suc fuel) room gas q le =
      let (r, rest) = pop (less objects) q in
      elim (Option-cases (get_elem? objects r)) [
        | inl e ↦ ground arith
        | inr (x, e) ↦
            let gas' = add_u64 gas x.tx.gas_limit in
            let exact : gas' ≡ gas + x.tx.gas_limit = omega (arith, small r x e) in
            ground (
              arith,
              exact,
              take_pending-gas small fuel room gas rest,
              take_pending-gas small fuel (room - 1) gas' rest,
            )
      ]

  -- nothing is taken that does not wait, or more often
  pub take_pending-count :
      (s fuel room gas : ℕ) (q : List ℕ)
      → count s (take_pending objects max_gas fuel room gas q) ≤ count s q
  unfolding take_pending count
  take_pending-count s zero room gas q = omega arith
  take_pending-count s (suc fuel) room gas q =
      let (r, rest) = pop (less objects) q in
      elim (Bool-cases (length q == 0)) [
        | inl e ↦ ground arith
        | inr e ↦ elim (Option-cases (get_elem? objects r)) [
          | inl e' ↦ ground arith
          | inr (x, e') ↦ ground (
            arith,
            pop-items (less objects) q s (ground arith),
            take_pending-count s fuel room gas rest,
            take_pending-count s fuel (room - 1) (add_u64 gas x.tx.gas_limit) rest,
          )
        ]
      ]

  -- what is taken was not removed
  pub take_pending-live :
      (fuel room gas s : ℕ) (q : List ℕ)
      → 0 < count s (take_pending objects max_gas fuel room gas q)
      → negative (priority_at objects s) ≡ false
  unfolding take_pending count priority_at
  take_pending-live zero room gas s q h = ground arith
  take_pending-live (suc fuel) room gas s q h =
      let (r, rest) = pop (less objects) q in
      elim (Option-cases (get_elem? objects r)) [
        | inl e ↦ ground arith
        | inr (x, e) ↦ ground (
          arith,
          nat_eq_iff r s,
          take_pending-live fuel room gas s rest,
          take_pending-live fuel (room - 1) (add_u64 gas x.tx.gas_limit) s rest,
        )
      ]

-- no later reference comes before an earlier one
abbrev IsSorted : (ℕ → ℕ → Bool) → List ℕ → Type 0
IsSorted less [] = Unit
IsSorted less (r ∷ rs) = ((s : ℕ) → 0 < count s rs → less s r ≡ false) × IsSorted less rs

module _ (objects : List MempoolTx) (max_gas : ℕ) (order : Order (less objects)) where
  take_pending-IsSorted :
      (fuel room gas : ℕ) (q : List ℕ)
      → IsHeap (less objects) order 0 (length q) q
      → IsSorted (less objects) (take_pending objects max_gas fuel room gas q)
  unfolding take_pending
  take_pending-IsSorted zero room gas q h = tt
  take_pending-IsSorted (suc fuel) room gas q h =
      let (r, rest) = pop (less objects) q in
      elim (Bool-cases (length q == 0 || room == 0)) [
        | inl stop ↦ rw (stop, take_pending) tt
        | inr go ↦
            let (heap, least) = pop-IsHeap (less objects) order q (ground arith) h in
            elim (Option-cases (get_elem? objects r)) [
              | inl e ↦ rw (go, e, take_pending) tt
              | inr (x, e) ↦ elim (Bool-cases (negative x.priority)) [
                | inl gone ↦
                    rw (go, e, gone, take_pending) (take_pending-IsSorted fuel room gas rest heap)
                | inr live ↦
                    let gas' = add_u64 gas x.tx.gas_limit in
                    elim (Bool-cases (ltb max_gas gas')) [
                      | inl over ↦ rw (go, e, live, over, take_pending) tt
                      | inr under ↦
                          rw (go, e, live, under, take_pending)
                            (
                              λ s c. least s (
                                  ground (
                                    arith,
                                    take_pending-count objects max_gas s fuel (room - 1) gas' rest,
                                    pop-items (less objects) q s (ground arith),
                                  )),
                              take_pending-IsSorted fuel (room - 1) gas' rest heap,
                            )
                    ]
              ]
            ]
      ]

pending_refs-IsSorted :
    (max_txs : ℕ) (m : Mempool)
    → IsOrdered m.objects
    → IsSorted (less m.objects) (pending_refs max_txs m)
unfolding pending_refs
pending_refs-IsSorted max_txs m ok =
    let order = less-Order m.objects ok in
    let q = init (less m.objects) m.queue in
    let l = (init-SameItems (less m.objects) m.queue).lengths in
    take_pending-IsSorted m.objects m.max_gas order (length m.queue) max_txs 0 q
      (rw l (init-IsHeap (less m.objects) order m.queue))

-- each reference may go before all that follow it
abbrev pub IsByPriority : List MempoolTx → List ℕ → Type 0
IsByPriority objects [] = Unit
IsByPriority objects (r ∷ rs) =
    ((s : ℕ)
      → 0 < count s rs
      → MayGoFirst (priority_at objects r) (timestamp_at objects r) (priority_at objects s)
          (timestamp_at objects s))
    × IsByPriority objects rs

IsSorted-IsByPriority :
    (objects : List MempoolTx)
    → IsOrdered objects
    → (rs : List ℕ) → IsSorted (less objects) rs
    → IsByPriority objects rs
IsSorted-IsByPriority objects ok [] h = tt
IsSorted-IsByPriority objects ok (r ∷ rs) (first, rest) = (
  λ s waits. less-MayGoFirst objects ok r s (first s waits),
  IsSorted-IsByPriority objects ok rs rest,
)

-- If no priority is a NaN (which it is where the fee and the gas limit are both 0), `GetPending` returns
-- the transactions by priority: each has a priority that is a higher number than that of any later one,
-- or the same number and a time that is not later. The queue need not be in heap order.
pub pending_refs-IsByPriority :
    (max_txs : ℕ) (m : Mempool)
    → IsOrdered m.objects
    → IsByPriority m.objects (pending_refs max_txs m)
pending_refs-IsByPriority max_txs m ok =
    IsSorted-IsByPriority m.objects ok (pending_refs max_txs m) (pending_refs-IsSorted max_txs m ok)

length-txs_of : (objects : List MempoolTx) (rs : List ℕ) → length (txs_of objects rs) ≤ length rs
unfolding txs_of
length-txs_of objects [] = omega arith
length-txs_of objects (r ∷ rs) = ground (arith, length-txs_of objects rs)

-- `GetPending` returns at most as many transactions as it is asked for, and their gas limits add up
-- to at most `maxGas`, where no single sum of `maxGas` and a gas limit overflows.
pub get_pending-limits :
    (max_txs : ℕ) (m : Mempool)
    → ((r : ℕ) (x : MempoolTx)
        → get_elem? m.objects r ≡ some x
        → m.max_gas + x.tx.gas_limit < u64_mod)
    → (length (get_pending max_txs m) ≤ max_txs) × (gas_of (get_pending max_txs m) ≤ m.max_gas)
unfolding get_pending pending_refs
get_pending-limits max_txs m small =
    let q = init (less m.objects) m.queue in
    let f = length m.queue in
    (
      omega (
        arith,
        length-txs_of m.objects (take_pending m.objects m.max_gas f max_txs 0 q),
        take_pending-room m.objects m.max_gas f max_txs 0 q,
      ),
      omega (arith, take_pending-gas m.objects m.max_gas small f max_txs 0 q (omega arith)),
    )
