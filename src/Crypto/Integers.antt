-- ===== src/Crypto/Integers.antt =====
-- `IntToBytes` (pkg/crypto/crypto.go).
use dagnet_crypto.Base.{
  ℕ, zero, suc, ◌+◌, ◌*◌, ◌/◌, ◌%◌, ◌^◌, ◌<◌, ◌≡◌, refl, [], ◌∷◌, Str, All, arith, length,
}

-- the loop, which fills the array from its end
unfoldable pub fill_bytes : ℕ → ℕ → Str → Str
fill_bytes zero n b = b
fill_bytes (suc i) n b = fill_bytes i (n / 256) ((n % 256) ∷ b)

unfoldable pub int_to_bytes : ℕ → Str
unfolding fill_bytes
int_to_bytes n = fill_bytes 8 n []

-- the number that bytes stand for, the first byte being the highest
unfoldable pub big_endian : ℕ → Str → ℕ
big_endian n [] = n
big_endian n (b ∷ bs) = big_endian (n * 256 + b) bs

-- `IntToBytes` gives 8 bytes, and read in big-endian order they are the `uint64` again.
pub big_endian-int_to_bytes :
    (n : ℕ)
    → n < 2 ^ 64
    → (big_endian 0 (int_to_bytes n) ≡ n)
      × (length (int_to_bytes n) ≡ 8)
      × All (λ b. b < 256) (int_to_bytes n)
unfolding int_to_bytes fill_bytes big_endian
big_endian-int_to_bytes n h = (
  omega arith,
  refl,
  (
    omega arith,
    (
      omega arith,
      (omega arith, (omega arith, (omega arith, (omega arith, (omega arith, (omega arith, tt)))))),
    ),
  ),
)
