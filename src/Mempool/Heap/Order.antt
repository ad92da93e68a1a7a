-- ===== src/Mempool/Heap/Order.antt =====
-- Heap order: `Init` makes it, and `Pop` takes an item that none of the rest comes before.
use dagnet_crypto.Base.{
  ℕ, zero, suc, ◌+◌, ◌-◌, ◌*◌, ◌/◌, ◌≤◌, ◌<◌, ◌≡◌, ◌≢◌, refl, Bool, true, false, List, [], ◌∷◌,
  nat_key, nat_eq_iff, ◌==◌, ◌||◌, inl, inr, arith, Bool-cases, leb, not, length, take,
}
use dagnet_crypto.Mempool.Heap.{at, swap, child, down, init_below, init, pop}
use dagnet_crypto.Mempool.Heap.Items.{
  pop-items, count, at-swap, length-swap, child-bounds, down-SameItems,
}

-- what the order of the items has to satisfy: `a` may stand above `b` where not `less b a`
pub record Order (less : ℕ → ℕ → Bool) : Type 0 where
  pub flips : (a b : ℕ) → less a b ≡ true → less b a ≡ false
  pub follows : (a b c : ℕ) → less b a ≡ false → less c b ≡ false → less c a ≡ false

module _ (less : ℕ → ℕ → Bool) (order : Order less) where
  -- heap order at the indices below `n` whose parent is at least `k`
  pub record IsHeap (k n : ℕ) (q : List ℕ) : Type 0 where
    pub above :
        (m : ℕ) → 0 < m → m < n → k ≤ (m - 1) / 2 → less (at q m) (at q ((m - 1) / 2)) ≡ false

  -- heap order but between `i` and its children, which the parent of `i` still stands above
  pub record IsHeapBut (i k n : ℕ) (q : List ℕ) : Type 0 where
    pub others :
        (m : ℕ)
        → 0 < m
        → m < n
        → k ≤ (m - 1) / 2
        → (m - 1) / 2 ≢ i
        → less (at q m) (at q ((m - 1) / 2)) ≡ false
    pub across :
        (m : ℕ)
        → 0 < m
        → m < n
        → (m - 1) / 2 ≡ i
        → 0 < i
        → k ≤ (i - 1) / 2
        → less (at q m) (at q ((i - 1) / 2)) ≡ false

  child_least :
      (i n m : ℕ) (q : List ℕ)
      → 0 < m
      → m < n
      → (m - 1) / 2 ≡ i
      → (2 * i + 1 < n)
        × ((child less i n q - 1) / 2 ≡ i)
        × (less (at q m) (at q (child less i n q)) ≡ false)
  unfolding child
  child_least i n m q pos inside parent =
      ground (
        arith,
        order.flips (at q (2 * i + 1 + 1)) (at q (2 * i + 1)),
        order.flips (at q m) (at q m),
      )

  -- the step of `down`: the disorder moves to the child
  swap-IsHeapBut :
      (i k n : ℕ) (q : List ℕ)
      → n ≤ length q
      → k ≤ i
      → 2 * i + 1 < n
      → less (at q (child less i n q)) (at q i) ≡ true
      → IsHeapBut i k n q
      → IsHeapBut (child less i n q) k n (swap i (child less i n q) q)
  swap-IsHeapBut i k n q fits low inside lt h =
      let j = child less i n q in
      let (below, top) = child-bounds less i n q inside in
      let (_, parent_j, _) = child_least i n (2 * i + 1) q (omega arith) inside (omega arith) in
      let moved = λ (m : ℕ). at-swap i j m q (omega arith) (omega arith) in
      record {
        others = λ m pos m_in up other. ground (
          arith,
          moved m,
          moved ((m - 1) / 2),
          parent_j,
          order.flips (at q j) (at q i),
          child_least i n m q,
          h.across j,
          h.others m,
        );
        across =
            λ m pos m_in parent j_pos up. ground (arith, moved m, moved i, parent_j, h.others m);
      }

  pub down-IsHeap :
      (fuel i k n : ℕ) (q : List ℕ)
      → n ≤ length q
      → k ≤ i
      → n ≤ fuel + i
      → IsHeapBut i k n q
      → IsHeap k n (down less fuel i n q)
  unfolding down
  down-IsHeap zero i k n q fits low fuel_fits h = record {
    above = λ m pos m_in up. h.others m pos m_in up (λ e. omega arith);
  }
  down-IsHeap (suc fuel) i k n q fits low fuel_fits h =
      let j = child less i n q in
      elim (Bool-cases (leb n (2 * i + 1) || not (less (at q j) (at q i)))) [
        | inl stop ↦ rw stop (record {
          above = λ m pos m_in up.
              ground
                (arith, child_least i n m q, order.follows (at q i) (at q j) (at q m), h.others m);
        })
        | inr go ↦
            let inside : 2 * i + 1 < n = ground arith in
            let lt : less (at q j) (at q i) ≡ true = ground arith in
            let (below, top) = child-bounds less i n q inside in
            rw go (
              down-IsHeap fuel j k n (swap i j q) (omega (arith, length-swap i j q)) (omega arith)
                (omega arith) (swap-IsHeapBut i k n q fits low inside lt h))
      ]

  start-IsHeapBut : (k n : ℕ) (q : List ℕ) → IsHeap (suc k) n q → IsHeapBut k k n q
  start-IsHeapBut k n q h = record {
    others = λ m pos m_in up other. ground (arith, h.above m);
    across = λ m pos m_in parent k_pos up. absurd (omega arith);
  }

  init_below-IsHeap :
      (k : ℕ) (q : List ℕ) → IsHeap k (length q) q → IsHeap 0 (length q) (init_below less k q)
  unfolding init_below
  init_below-IsHeap zero q h = h
  init_below-IsHeap (suc k) q h =
      let q' = down less (length q) k (length q) q in
      let same = (down-SameItems less (length q) k (length q) q (omega arith)).lengths in
      let h' : IsHeap k (length q) q' =
        down-IsHeap (length q) k k (length q) q (omega arith) (omega arith) (omega arith)
          (start-IsHeapBut k (length q) q h) in
      rw same at (init_below-IsHeap k q' (rw same h'))

  pub init-IsHeap : (q : List ℕ) → IsHeap 0 (length q) (init less q)
  unfolding init
  init-IsHeap q =
      init_below-IsHeap (length q / 2) q (record { above = λ m pos m_in up. absurd (omega arith) })

  -- the root comes before all
  root_least :
      (fuel m n : ℕ) (q : List ℕ) → IsHeap 0 n q → m < n → m ≤ fuel → less (at q m) (at q 0) ≡ false
  root_least zero m n q h m_in fits = ground (arith, order.flips (at q 0) (at q 0))
  root_least (suc fuel) m n q h m_in fits = elim (Bool-cases (m == 0)) [
    | inl e ↦ ground (arith, order.flips (at q 0) (at q 0))
    | inr e ↦
        let up = root_least fuel ((m - 1) / 2) n q h (ground arith) (ground arith) in
        ground (arith, h.above m, order.follows (at q 0) (at q ((m - 1) / 2)) (at q m))
  ]

  -- `down` keeps what lies from `n` on
  at-down :
      (fuel i n m : ℕ) (q : List ℕ) → n ≤ length q → n ≤ m → at (down less fuel i n q) m ≡ at q m
  unfolding down
  at-down zero i n m q fits past = refl
  at-down (suc fuel) i n m q fits past =
      let j = child less i n q in
      elim (Bool-cases (leb n (2 * i + 1) || not (less (at q j) (at q i)))) [
        | inl stop ↦ rw stop refl
        | inr go ↦
            let (below, top) = child-bounds less i n q (ground arith) in
            let l = length-swap i j q in
            let rest = at-down fuel j n m (swap i j q) (omega arith) past in
            let moved = at-swap i j m q (omega arith) (omega arith) in
            rw go (ground (arith, rest, moved))
      ]

  at-take : (q : List ℕ) (n m : ℕ) → m < n → at (take n q) m ≡ at q m
  unfolding at
  at-take q zero m h = elim h [ ]
  at-take [] (suc n) m h = refl
  at-take (x ∷ q) (suc n) zero h = refl
  at-take (x ∷ q) (suc n) (suc m) h = at-take q n m (omega arith)

  pub index_of : (r : ℕ) (q : List ℕ) → 0 < count r q → (m : ℕ) × (m < length q) × (at q m ≡ r)
  unfolding count at
  index_of r [] h = elim h [ ]
  index_of r (x ∷ q) h = elim (Bool-cases (x == r)) [
    | inl e ↦ (0, omega arith, (nat_eq_iff x r).0 e)
    | inr e ↦ let (m, m_in, found) = index_of r q (ground arith) in (suc m, omega arith, found)
  ]

  -- `Pop` on a heap takes an item that no item comes before, and leaves a heap.
  pub pop-IsHeap :
      (q : List ℕ)
      → 0 < length q
      → IsHeap 0 (length q) q
      → let (x, rest) = pop less q in
        IsHeap 0 (length rest) rest × ((r : ℕ) → 0 < count r q → less r x ≡ false)
  unfolding pop
  pop-IsHeap q pos h =
      let n = length q - 1 in
      let s = swap 0 n q in
      let l = length-swap 0 n q in
      let q' = down less n 0 n s in
      let moved = λ (m : ℕ). at-swap 0 n m q pos (omega arith) in
      let last : at q' n ≡ at q 0 =
        ground (arith, at-down n 0 n n s (omega arith) (omega arith), moved n) in
      let but : IsHeapBut 0 0 n s = record {
        others = λ m m_pos m_in up other. ground (arith, moved m, moved ((m - 1) / 2), h.above m);
        across = λ m m_pos m_in parent i_pos up. absurd (omega arith);
      } in
      let heap = down-IsHeap n 0 0 n s (omega arith) (omega arith) (omega arith) but in
      let size : suc (length (take n q')) ≡ length q = (pop-items less q 0 pos).1 in
      (
        record {
          above = λ m m_pos m_in up. ground (
            arith,
            at-take q' n m (omega arith),
            at-take q' n ((m - 1) / 2) (omega arith),
            heap.above m,
          );
        },
        λ r c.
            let (m, m_in, found) = index_of r q c in
            let least = root_least m m (length q) q h m_in (omega arith) in
            ground (arith, last, found, least),
      )
