-- ===== src/Mempool/Heap.antt =====
-- Go's container/heap, as far as pkg/mempool/mempool.go uses it: `Init`, `Push` and `Pop` over the
-- methods of `txPriorityQueue`. An item is its reference, a number.
pub mod Items
pub mod Order
use dagnet_crypto.Base.{
  ℕ, zero, suc, ◌+◌, ◌-◌, ◌*◌, ◌/◌, Bool, true, false, Option, none, some, List, [], ◌∷◌, ◌++◌,
  nat_key, ◌==◌, ◌&&◌, ◌||◌, if◌then◌else◌, ltb, leb, not, length, get_elem?, set, take,
}

-- `pq[i]`, which is never out of range here
unfoldable pub at : List ℕ → ℕ → ℕ
at q i = elim (get_elem? q i) [ none ↦ 0 | some r ↦ r ]

-- `Swap`
unfoldable pub swap : ℕ → ℕ → List ℕ → List ℕ
swap i j q = set (set q i (at q j)) j (at q i)

module _ (less : ℕ → ℕ → Bool) where
  -- `up(h, j)`; the index shrinks, so as many rounds as its first value are enough
  unfoldable pub up : ℕ → ℕ → List ℕ → List ℕ
  up zero j q = q
  up (suc fuel) j q =
      let i = (j - 1) / 2 in
      let rest = up fuel i (swap i j q) in
      if i == j || not (less (at q j) (at q i)) then q else rest

  -- the child of `i` that goes up: the right one if it is there and less than the left
  unfoldable pub child : ℕ → ℕ → List ℕ → ℕ
  child i n q =
      let j = 2 * i + 1 in if ltb (j + 1) n && less (at q (j + 1)) (at q j) then j + 1 else j

  -- `down(h, i, n)`; the index grows, so as many rounds as are left up to `n` are enough
  unfoldable pub down : ℕ → ℕ → ℕ → List ℕ → List ℕ
  unfolding child
  down zero i n q = q
  down (suc fuel) i n q =
      let j = child i n q in
      let rest = down fuel j n (swap i j q) in
      if leb n (2 * i + 1) || not (less (at q j) (at q i)) then q else rest

  -- the loop of `Init`, over the indices below `k` from the highest
  unfoldable pub init_below : ℕ → List ℕ → List ℕ
  init_below zero q = q
  init_below (suc k) q = init_below k (down (length q) k (length q) q)

  unfoldable pub init : List ℕ → List ℕ
  init q = init_below (length q / 2) q

  -- `heap.Push`
  unfoldable pub push : ℕ → List ℕ → List ℕ
  push r q = up (length q) (length q) (q ++ (r ∷ []))

  -- `heap.Pop` on a queue that is not empty: the item, and the queue that is left
  unfoldable pub pop : List ℕ → ℕ × List ℕ
  pop q = let n = length q - 1 in let q' = down n 0 n (swap 0 n q) in (at q' n, take n q')
