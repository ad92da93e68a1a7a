-- ===== src/Crypto/Address.antt =====
-- Addresses and printed hashes (pkg/crypto/address.go and pkg/crypto/crypto.go).
use dagnet_crypto.Base.{
  ℕ, zero, suc, ◌≤◌, ◌<◌, ◌≡◌, refl, ap, ◌∙◌, Option, none, some, [], ◌∷◌, ◌++◌, Str, codes,
  str_key, str_eq, str_eq_iff, nat_key, ◌==◌, not, inl, inr, ◌↔◌, arith, Bool-cases, Option-cases,
  All, length, take, if◌then◌else◌,
}
use dagnet_crypto.Text.{hex, unhex}
use dagnet_crypto.Text.Hex.{unhex-hex, length-hex, length-unhex}

abbrev pub address_prefix : Str
address_prefix = codes "ndag"

-- the suffix from an index on
unfoldable pub drop : ℕ → Str → Str
drop zero s = s
drop (suc n) [] = []
drop (suc n) (x ∷ s) = drop n s

-- the errors of `ValidateAddress`
pub data AddressError : Type 0 where
  empty bad_length bad_prefix bad_hex_length bad_hex bad_decoded_length : AddressError

-- `ValidateAddress`, with the length that the decoded part may have in the last check
unfoldable pub check_hex_part : Str → Option AddressError
check_hex_part part = if not (length part == 40) then some bad_hex_length else elim (unhex part) [
  | none ↦ some bad_hex
  | some decoded ↦ if not (length decoded == 20) then some bad_decoded_length else none
]

-- `ValidateAddress`; none is no error
unfoldable pub validate_address : Str → Option AddressError
validate_address address =
    if address == []
    then some empty
    else if not (length address == 44)
    then some bad_length
    else if not (take 4 address == address_prefix)
    then some bad_prefix
    else check_hex_part (drop 4 address)

-- `HashFromString`: none is an error
unfoldable pub hash_from_string : Str → Option Str
hash_from_string s = elim (unhex s) [
  | none ↦ none
  | some b ↦ if length b == 32 then some b else none
]

-- `Hash.String`
unfoldable pub hash_string : Str → Str
hash_string h = hex h

-- `HashFromString` undoes `String`, on each hash.
pub hash_from_string-hash_string :
    (h : Str) → length h ≡ 32 → All (λ x. x < 256) h → hash_from_string (hash_string h) ≡ some h
unfolding hash_from_string hash_string
hash_from_string-hash_string h size bytes = ground (arith, unhex-hex h bytes)

pub length-take : (n : ℕ) (s : Str) → n ≤ length s → length (take n s) ≡ n
length-take zero s h = refl
length-take (suc n) [] h = absurd (omega arith)
length-take (suc n) (x ∷ s) h = ap suc (length-take n s (omega arith))

split_4 : (s : Str) → 4 ≤ length s → s ≡ take 4 s ++ drop 4 s
unfolding drop
split_4 (a ∷ (b ∷ (c ∷ (d ∷ s)))) h = refl
split_4 [] h = absurd (omega arith)
split_4 (a ∷ []) h = absurd (omega arith)
split_4 (a ∷ (b ∷ [])) h = absurd (omega arith)
split_4 (a ∷ (b ∷ (c ∷ []))) h = absurd (omega arith)

check_hex_part_iff :
    (part : Str)
    → (check_hex_part part ≡ none)
      ↔ ((length part ≡ 40) × ((b : Str) × (unhex part ≡ some b) × (length b ≡ 20)))
unfolding check_hex_part
check_hex_part_iff part = (
  λ h. elim (Option-cases (unhex part)) [
    | inl e ↦ ground arith
    | inr (b, e) ↦ (ground arith, (b, e, ground arith))
  ],
  λ (size, (b, e, decoded)). ground (arith, size, e, decoded),
)

accepted_iff :
    (address : Str)
    → (validate_address address ≡ none) ↔ (
        (length address ≡ 44)
        × (take 4 address ≡ address_prefix)
        × (check_hex_part (drop 4 address) ≡ none))
unfolding validate_address
accepted_iff address =
    ground (arith, str_eq_iff address [], str_eq_iff (take 4 address) address_prefix)

-- `ValidateAddress` accepts exactly the prefix "ndag" with 20 bytes in hexadecimal after it.
pub validate_address_iff :
    (address : Str)
    → (validate_address address ≡ none) ↔ (
        (part : Str) × (address ≡ address_prefix ++ part)
        × ((b : Str) × (unhex part ≡ some b) × (length b ≡ 20)))
unfolding drop
validate_address_iff address =
    let part = drop 4 address in
    (
      λ h.
          let (size, front, rest) = (accepted_iff address).0 h in
          let (_, decoded) = (check_hex_part_iff part).0 rest in
          let whole = split_4 address (omega arith) in
          (part, whole ∙ ap (λ s. s ++ part) front, decoded),
      λ (rest, e, (b, decoded, size)).
          let long = length-unhex rest b decoded in
          let fine = (check_hex_part_iff rest).1 (omega (arith, long, size), (b, decoded, size)) in
          rw e ((accepted_iff (address_prefix ++ rest)).1 (omega (arith, long, size), refl, fine)),
    )

module _ (sum256 : Str → Str) where
  -- `GetAddressFromPublicKey`, over the hash `blake3.Sum256`
  unfoldable pub get_address_from_public_key : Str → Str
  get_address_from_public_key key =
      if key == [] then [] else address_prefix ++ hex (take 8 (sum256 key))

  -- `ValidateAddress` accepts no address that `GetAddressFromPublicKey` gives: these have 20
  -- characters, and it wants 44.
  pub generated_address_invalid :
      (key : Str)
      → ((s : Str) → length (sum256 s) ≡ 32)
      → (validate_address (get_address_from_public_key key)
          ≡ some (if key == [] then empty else bad_length))
  unfolding validate_address get_address_from_public_key str_eq
  generated_address_invalid key size = elim (Bool-cases (key == [])) [
    | inl e ↦ rw e refl
    | inr e ↦ let h = sum256 key in ground (arith, size key, length-hex (take 8 h), length-take 8 h)
  ]
