-- ===== src/Mempool/Priority.antt =====
-- `float64(tx.Fee) / float64(tx.GasLimit)` (pkg/mempool/mempool.go). A quotient of two `uint64` is 0
-- or at least 2^-64, and a float64 has 53 significant bits, so each finite one is a multiple of
-- 2^-117: the model counts these units.
use dagnet_crypto.Base.{
  ℕ, zero, suc, ◌-◌, ◌*◌, ◌/◌, ◌%◌, ◌^◌, Bool, true, false, nat_key, ◌==◌, if◌then◌else◌, ltb, not,
}

pub data Float64 : Type 0 where
  minus_one : Float64
  finite : ℕ → Float64
  infinite : Float64
  nan : Float64

-- the number of binary digits; as many rounds of fuel as the number has are enough
unfoldable pub bits : ℕ → ℕ → ℕ
bits zero n = 0
bits (suc fuel) n = let rest = bits fuel (n / 2) in if n == 0 then 0 else suc rest

-- `n / d` rounded to a multiple of `unit`, half-way cases to the even multiple
unfoldable pub round_to : ℕ → ℕ → ℕ → ℕ
round_to unit n d =
    let q = n / (d * unit) in
    let r = n % (d * unit) in
    let up =
      if ltb (d * unit) (2 * r) then true else if 2 * r == d * unit then q % 2 == 1 else false in
    (if up then suc q else q) * unit

-- `n / d` rounded to 53 significant bits, where it has that many before the point or is a whole number
unfoldable pub round_ratio : ℕ → ℕ → ℕ
unfolding bits round_to
round_ratio n d = round_to (2 ^ (bits 192 (n / d) - 53)) n d

-- the conversion `float64(x)` of a `uint64`, a whole number
unfoldable pub float64_of : ℕ → ℕ
unfolding round_ratio
float64_of n = round_ratio n 1

unfoldable pub priority : ℕ → ℕ → Float64
unfolding float64_of round_ratio
priority fee gas_limit =
    let a = float64_of fee in
    let b = float64_of gas_limit in
    if b == 0 then if a == 0 then nan else infinite else finite (round_ratio (a * 2 ^ 117) b)

-- `a > b`, `a != b` and `a < 0`: a NaN is greater than nothing, and differs from everything
unfoldable pub greater : Float64 → Float64 → Bool
greater (finite m) minus_one = true
greater (finite m) (finite n) = ltb n m
greater infinite minus_one = true
greater infinite (finite n) = true
greater _ _ = false

unfoldable pub differs : Float64 → Float64 → Bool
differs minus_one minus_one = false
differs (finite m) (finite n) = not (m == n)
differs infinite infinite = false
differs _ _ = true

unfoldable pub negative : Float64 → Bool
negative minus_one = true
negative _ = false
