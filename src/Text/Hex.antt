-- ===== src/Text/Hex.antt =====
-- Hexadecimal text (Go's encoding/hex): decoding undoes encoding.
use dagnet_crypto.Base.{
  ℕ, ◌+◌, ◌*◌, ◌/◌, ◌%◌, ◌<◌, ◌≡◌, refl, some, [], ◌∷◌, Str, arith, length, All, Option-cases, inl,
  inr,
}
use dagnet_crypto.Text.{hex_digit, hex, digit_value, unhex}

digit_value-hex_digit : (n : ℕ) → n < 16 → digit_value (hex_digit n) ≡ some n
unfolding digit_value hex_digit
digit_value-hex_digit n h = ground arith

pub unhex-hex : (s : Str) → All (λ x. x < 256) s → unhex (hex s) ≡ some s
unfolding hex unhex
unhex-hex [] h = refl
unhex-hex (x ∷ s) (hx, h) =
    let high = digit_value-hex_digit (x / 16) (omega arith) in
    let low = digit_value-hex_digit (x % 16) (omega arith) in
    let whole : x / 16 * 16 + x % 16 ≡ x = omega arith in
    ground (arith, high, low, unhex-hex s h, whole)

pub hex_injective :
    (a b : Str) → All (λ x. x < 256) a → All (λ x. x < 256) b → hex a ≡ hex b → a ≡ b
hex_injective a b ha hb h = let p = unhex-hex a ha in let q = unhex-hex b hb in cc

pub length-hex : (s : Str) → length (hex s) ≡ 2 * length s
unfolding hex
length-hex [] = refl
length-hex (x ∷ s) = omega (arith, length-hex s)

pub length-unhex : (s b : Str) → unhex s ≡ some b → length s ≡ 2 * length b
unfolding unhex
length-unhex [] b h = ground arith
length-unhex (x ∷ []) b h = cc
length-unhex (x ∷ (y ∷ s)) b h = elim (Option-cases (unhex s)) [
  | inl e ↦ ground arith
  | inr (r, e) ↦ let rest = length-unhex s r e in ground (arith, rest)
]
