-- ===== src/Text.antt =====
-- The parts of Go's fmt and encoding/hex that the program uses: decimal and hexadecimal text.
pub mod Hex
use dagnet_crypto.Base.{
  ℕ, zero, suc, ◌+◌, ◌-◌, ◌/◌, ◌%◌, ◌*◌, ◌^◌, Option, none, some, List, [], ◌∷◌, ◌++◌, Str, nat_key,
  ◌==◌, ◌&&◌, if◌then◌else◌, ltb, leb,
}

-- the decimal digits of a number; a `uint64` has at most 20
unfoldable pub digits : ℕ → ℕ → Str
digits zero n = []
digits (suc fuel) n =
    let rest = digits fuel (n / 10) in
    if n / 10 == 0 then (48 + n % 10) ∷ [] else rest ++ ((48 + n % 10) ∷ [])

-- `%d` on a `uint64`, or on an `int64` that is not negative
unfoldable pub decimal : ℕ → Str
unfolding digits
decimal n = digits 20 n

-- `hex.EncodeToString`
unfoldable pub hex_digit : ℕ → ℕ
hex_digit n = if ltb n 10 then 48 + n else 87 + n

unfoldable pub hex : Str → Str
unfolding hex_digit
hex [] = []
hex (b ∷ bs) = hex_digit (b / 16) ∷ (hex_digit (b % 16) ∷ hex bs)

-- `%d` on an `int64` in two's complement
unfoldable pub decimal_i64 : ℕ → Str
decimal_i64 n = if ltb n (2 ^ 63) then decimal n else 45 ∷ decimal (2 ^ 64 - n)

-- the value of a hexadecimal digit
unfoldable pub digit_value : ℕ → Option ℕ
digit_value c =
    if leb 48 c && leb c 57
    then some (c - 48)
    else if leb 97 c && leb c 102
    then some (c - 87)
    else if leb 65 c && leb c 70
    then some (c - 55)
    else none

-- `hex.DecodeString`
unfoldable pub unhex : Str → Option Str
unfolding digit_value
unhex [] = some []
unhex (x ∷ []) = none
unhex (x ∷ (y ∷ s)) = elim (digit_value x) [
  | none ↦ none
  | some high ↦ elim (digit_value y) [
    | none ↦ none
    | some low ↦ elim (unhex s) [ none ↦ none | some rest ↦ some ((high * 16 + low) ∷ rest) ]
  ]
]
