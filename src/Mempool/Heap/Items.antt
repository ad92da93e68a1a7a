-- ===== src/Mempool/Heap/Items.antt =====
-- The heap routines move items and lose none: each keeps how often an item stands in the queue.
use dagnet_crypto.Base.{
  ℕ, zero, suc, ◌+◌, ◌-◌, ◌*◌, ◌/◌, ◌≤◌, ◌<◌, ◌≡◌, refl, Bool, List, [], ◌∷◌, ◌++◌, nat_key,
  nat_eq_iff, ◌==◌, ◌||◌, if◌then◌else◌, inl, inr, arith, Bool-cases, leb, not, length, set, take,
  length-set, length-append,
}
use dagnet_crypto.Mempool.Heap.{at, swap, up, child, down, init_below, init, push, pop}

unfoldable pub count : ℕ → List ℕ → ℕ
count r [] = 0
count r (x ∷ q) = (if x == r then 1 else 0) + count r q

pub count-append : (r : ℕ) (p q : List ℕ) → count r (p ++ q) ≡ count r p + count r q
unfolding count
count-append r [] q = ground arith
count-append r (x ∷ p) q = ground (arith, count-append r p q)

at-cons : (x : ℕ) (q : List ℕ) (i : ℕ) → at (x ∷ q) (suc i) ≡ at q i
unfolding at
at-cons x q i = refl

pub at-set :
    (q : List ℕ) (i j v : ℕ) → i < length q → at (set q i v) j ≡ (if i == j then v else at q j)
unfolding at
at-set [] i j v h = elim h [ ]
at-set (x ∷ q) zero zero v h = refl
at-set (x ∷ q) zero (suc j) v h = ground arith
at-set (x ∷ q) (suc i) zero v h = ground arith
at-set (x ∷ q) (suc i) (suc j) v h = ground (arith, at-set q i j v)

count-set :
    (r : ℕ) (q : List ℕ) (i v : ℕ)
    → i < length q
    → count r (set q i v) + (if at q i == r then 1 else 0) ≡ count r q + (if v == r then 1 else 0)
unfolding count at
count-set r [] i v h = elim h [ ]
count-set r (x ∷ q) zero v h = ground arith
count-set r (x ∷ q) (suc i) v h = ground (arith, count-set r q i v)

pub length-swap : (i j : ℕ) (q : List ℕ) → length (swap i j q) ≡ length q
unfolding swap
length-swap i j q =
    ground (arith, length-set q i (at q j), length-set (set q i (at q j)) j (at q i))

pub at-swap :
    (i j k : ℕ) (q : List ℕ)
    → i < length q
    → j < length q
    → at (swap i j q) k ≡ (if j == k then at q i else if i == k then at q j else at q k)
unfolding swap
at-swap i j k q hi hj =
    let q' = set q i (at q j) in
    let l = length-set q i (at q j) in ground (arith, at-set q i k (at q j), at-set q' j k (at q i))

pub count-swap :
    (r i j : ℕ) (q : List ℕ) → i < length q → j < length q → count r (swap i j q) ≡ count r q
unfolding swap
count-swap r i j q hi hj =
    let q' = set q i (at q j) in
    let l = length-set q i (at q j) in
    ground (
      arith,
      at-set q i j (at q j),
      count-set r q i (at q j),
      count-set r q' j (at q i),
      nat_eq_iff i j,
    )

-- the same items, in any order
pub record SameItems (p q : List ℕ) : Type 0 where
  pub counts : (r : ℕ) → count r p ≡ count r q
  pub lengths : length p ≡ length q

pub SameItems-refl : (q : List ℕ) → SameItems q q
SameItems-refl q = record { counts = λ r. refl; lengths = refl }

pub SameItems-trans : {p q s : List ℕ} → SameItems p q → SameItems q s → SameItems p s
SameItems-trans a b = record {
  counts = λ r. omega (arith, a.counts r, b.counts r);
  lengths = omega (arith, a.lengths, b.lengths);
}

pub swap-SameItems : (i j : ℕ) (q : List ℕ) → i < length q → j < length q → SameItems (swap i j q) q
swap-SameItems i j q hi hj = record {
  counts = λ r. count-swap r i j q hi hj;
  lengths = length-swap i j q;
}

module _ (less : ℕ → ℕ → Bool) where
  pub child-bounds :
      (i n : ℕ) (q : List ℕ) → 2 * i + 1 < n → (i < child less i n q) × (child less i n q < n)
  unfolding child
  child-bounds i n q h = ground arith

  pub up-SameItems : (fuel j : ℕ) (q : List ℕ) → j < length q → SameItems (up less fuel j q) q
  unfolding up
  up-SameItems zero j q h = SameItems-refl q
  up-SameItems (suc fuel) j q h =
      let i = (j - 1) / 2 in
      elim (Bool-cases (i == j || not (less (at q j) (at q i)))) [
        | inl stop ↦ rw stop (SameItems-refl q)
        | inr go ↦ rw go (
            SameItems-trans (up-SameItems fuel i (swap i j q) (omega (arith, length-swap i j q)))
              (swap-SameItems i j q (omega arith) h))
      ]

  pub down-SameItems :
      (fuel i n : ℕ) (q : List ℕ) → n ≤ length q → SameItems (down less fuel i n q) q
  unfolding down
  down-SameItems zero i n q h = SameItems-refl q
  down-SameItems (suc fuel) i n q h =
      let j = child less i n q in
      elim (Bool-cases (leb n (2 * i + 1) || not (less (at q j) (at q i)))) [
        | inl stop ↦ rw stop (SameItems-refl q)
        | inr go ↦
            let (below, inside) = child-bounds i n q (ground arith) in
            rw go (
              SameItems-trans
                (down-SameItems fuel j n (swap i j q) (omega (arith, length-swap i j q)))
                (swap-SameItems i j q (omega arith) (omega arith)))
      ]

  init_below-SameItems : (k : ℕ) (q : List ℕ) → SameItems (init_below less k q) q
  unfolding init_below
  init_below-SameItems zero q = SameItems-refl q
  init_below-SameItems (suc k) q =
      SameItems-trans (init_below-SameItems k (down less (length q) k (length q) q))
        (down-SameItems (length q) k (length q) q (omega arith))

  pub init-SameItems : (q : List ℕ) → SameItems (init less q) q
  unfolding init
  init-SameItems q = init_below-SameItems (length q / 2) q

  pub push-SameItems : (r : ℕ) (q : List ℕ) → SameItems (push less r q) (q ++ (r ∷ []))
  unfolding push
  push-SameItems r q =
      up-SameItems (length q) (length q) (q ++ (r ∷ [])) (omega (arith, length-append q (r ∷ [])))

  split_last :
      (q : List ℕ) (r n : ℕ)
      → length q ≡ suc n
      → (count r q ≡ count r (take n q) + (if at q n == r then 1 else 0)) × (length (take n q) ≡ n)
  unfolding count at
  split_last [] r n h = ground arith
  split_last (x ∷ []) r zero h = ground arith
  split_last (x ∷ (y ∷ q)) r zero h = ground arith
  split_last (x ∷ q) r (suc n) h = ground (arith, split_last q r n)

  -- The queue splits into the item popped and the rest.
  pub pop-items :
      (q : List ℕ) (r : ℕ)
      → 0 < length q
      → let (x, rest) = pop less q in
        (count r q ≡ count r rest + (if x == r then 1 else 0)) × (suc (length rest) ≡ length q)
  unfolding pop
  pop-items q r h =
      let n = length q - 1 in
      let q' = down less n 0 n (swap 0 n q) in
      let l = length-swap 0 n q in
      let same : SameItems q' q =
        SameItems-trans (down-SameItems n 0 n (swap 0 n q) (omega arith))
          (swap-SameItems 0 n q (omega arith) (omega arith)) in
      ground (arith, same.counts r, same.lengths, split_last q' r n)
