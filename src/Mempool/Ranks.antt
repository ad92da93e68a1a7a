-- ===== src/Mempool/Ranks.antt =====
-- The order of the queue (pkg/mempool/mempool.go): by priority, then by time stamp.
use dagnet_crypto.Base.{ℕ, ◌^◌, ◌%◌, ◌≤◌, false, ◌<◌, ◌≡◌, ◌≢◌, refl, true, List, ◌⊎◌, ◌↔◌, arith}
use dagnet_crypto.Mempool.Priority.{Float64, minus_one, finite, infinite, nan, greater, differs}
use dagnet_crypto.Mempool.Heap.Order.{Order}
use dagnet_crypto.Mempool.Pool.{MempoolTx, less_i64, before, less, priority_at, timestamp_at}

-- a number's place among the others: its kind, then its units
abbrev pub rank : Float64 → ℕ
rank minus_one = 0
rank (finite n) = 1
rank infinite = 2
rank nan = 3

abbrev pub units : Float64 → ℕ
units (finite n) = n
units _ = 0

Precedes : Float64 → ℕ → Float64 → ℕ → Type 0
Precedes p s q t =
    (rank q < rank p)
    ⊎ (rank q ≡ rank p) × ((units q < units p) ⊎ (units q ≡ units p) × (less_i64 s t ≡ true))

before_iff :
    (p : Float64) (s : ℕ) (q : Float64) (t : ℕ)
    → p ≢ nan
    → q ≢ nan
    → (before p s q t ≡ true) ↔ Precedes p s q t
unfolding before greater differs Precedes
before_iff nan s q t hp hq = absurd (hp refl)
before_iff minus_one s nan t hp hq = absurd (hq refl)
before_iff (finite m) s nan t hp hq = absurd (hq refl)
before_iff infinite s nan t hp hq = absurd (hq refl)
before_iff minus_one s minus_one t hp hq = ground arith
before_iff minus_one s (finite n) t hp hq = ground arith
before_iff minus_one s infinite t hp hq = ground arith
before_iff (finite m) s minus_one t hp hq = ground arith
before_iff (finite m) s (finite n) t hp hq = ground arith
before_iff (finite m) s infinite t hp hq = ground arith
before_iff infinite s minus_one t hp hq = ground arith
before_iff infinite s (finite n) t hp hq = ground arith
before_iff infinite s infinite t hp hq = ground arith

-- no priority is a NaN
abbrev pub IsOrdered : List MempoolTx → Type 0
IsOrdered objects = (r : ℕ) → priority_at objects r ≢ nan

pub less-Order : (objects : List MempoolTx) → IsOrdered objects → Order (less objects)
unfolding less Precedes
less-Order objects ok = record {
  flips = λ a b h. ground (
    arith,
    before_iff _ (timestamp_at objects a) _ (timestamp_at objects b) (ok a) (ok b),
    before_iff _ (timestamp_at objects b) _ (timestamp_at objects a) (ok b) (ok a),
  );
  follows = λ a b c h k. ground (
    arith,
    before_iff _ (timestamp_at objects b) _ (timestamp_at objects a) (ok b) (ok a),
    before_iff _ (timestamp_at objects c) _ (timestamp_at objects b) (ok c) (ok b),
    before_iff _ (timestamp_at objects c) _ (timestamp_at objects a) (ok c) (ok a),
  );
}

-- a time that is not later, as `int64`: a number from 2^63 on is negative
abbrev pub NotLater : ℕ → ℕ → Type 0
NotLater s t =
    (2 ^ 63 ≤ s % 2 ^ 64) × (t % 2 ^ 64 < 2 ^ 63)
    ⊎ (s % 2 ^ 64 ≤ t % 2 ^ 64) × ((t % 2 ^ 64 < 2 ^ 63) ⊎ (2 ^ 63 ≤ s % 2 ^ 64))

-- Where one transaction may be served before another: its priority is the higher number, or they are
-- the same and its time is not later.
abbrev pub MayGoFirst : Float64 → ℕ → Float64 → ℕ → Type 0
MayGoFirst p s q t =
    (rank q < rank p)
    ⊎ (rank q ≡ rank p) × ((units q < units p) ⊎ (units q ≡ units p) × NotLater s t)

not_sooner : (s t : ℕ) → less_i64 t s ≡ false → NotLater s t
not_sooner s t h = ground (arith, h)

pub less-MayGoFirst :
    (objects : List MempoolTx)
    → IsOrdered objects
    → (r s : ℕ) → less objects s r ≡ false
    → MayGoFirst
        (priority_at objects r)
        (timestamp_at objects r)
        (priority_at objects s)
        (timestamp_at objects s)
unfolding less Precedes
less-MayGoFirst objects ok r s h = ground (
  arith,
  h,
  before_iff _ (timestamp_at objects s) _ (timestamp_at objects r) (ok s) (ok r),
  not_sooner (timestamp_at objects r) (timestamp_at objects s),
)
