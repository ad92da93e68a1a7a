-- ===== src/Sync/Framing.antt =====
-- `writeMessageWithTimeout` and `readMessageWithTimeout` (pkg/network/sync.go). A stream that is read is the
-- bytes that will still come, up to its end; a deadline that passes cuts them short.
use dagnet_crypto.Base.{
  ◌≡◌, ◌⊎◌, inl, inr, refl, ap, ◌∙◌, ℕ, ◌%◌, ◌^◌, ◌<◌, none, some, [], ◌∷◌, ◌++◌, Str, ltb, leb,
  length, split, split-append, if◌then◌else◌, arith,
}
use dagnet_crypto.Crypto.Integers.{fill_bytes, big_endian}

-- `MaxMessageSize`
abbrev pub max_message_size : ℕ
max_message_size = 4194304

-- `binary.Write` of the length, as a `uint32`, and the data
unfoldable pub write_message : Str → Str
unfolding fill_bytes
write_message data_bytes = fill_bytes 4 (length data_bytes % 2 ^ 32) [] ++ data_bytes

-- what `readMessageWithTimeout` gives: `io.EOF`, another error, or a message and the bytes after it
pub data ReadResult : Type 0 where
  end_of_stream : ReadResult
  broken : ReadResult
  too_large : ReadResult
  message : Str → Str → ReadResult

pub ReadResult-cases :
    (r : ReadResult)
    → ((b : Str) × (rest : Str) × (r ≡ message b rest))
      ⊎ ((r ≡ end_of_stream) ⊎ ((r ≡ broken) ⊎ (r ≡ too_large)))
ReadResult-cases end_of_stream = inr (inl refl)
ReadResult-cases broken = inr (inr (inl refl))
ReadResult-cases too_large = inr (inr (inr refl))
ReadResult-cases (message b rest) = inl (b, rest, refl)

-- the part after the length
unfoldable pub read_data : ℕ → Str → ReadResult
read_data n s =
    if ltb max_message_size n
    then too_large
    else elim (split n s) [ none ↦ broken | some (data_bytes, rest) ↦ message data_bytes rest ]

unfoldable pub read_message : Str → ReadResult
unfolding read_data big_endian
read_message [] = end_of_stream
read_message (a ∷ b ∷ c ∷ d ∷ s) = read_data (big_endian 0 (a ∷ b ∷ c ∷ d ∷ [])) s
read_message _ = broken

length_back : (n : ℕ) → n < 2 ^ 32 → big_endian 0 (fill_bytes 4 (n % 2 ^ 32) []) ≡ n
unfolding fill_bytes big_endian
length_back n fits = omega (arith, fits)

read_data_back :
    (data_bytes rest : Str)
    → read_data (length data_bytes) (data_bytes ++ rest)
      ≡ (if leb (length data_bytes) max_message_size then message data_bytes rest else too_large)
unfolding read_data
read_data_back data_bytes rest = ground (arith, split-append data_bytes rest)

-- What is read back of a message that was written, whatever comes after it: the message if it has at most
-- 4 MB, and an error if it has more, up to what a `uint32` can count.
pub read_message-write_message :
    (data_bytes rest : Str)
    → length data_bytes < 2 ^ 32
    → read_message (write_message data_bytes ++ rest)
      ≡ (if leb (length data_bytes) max_message_size then message data_bytes rest else too_large)
unfolding read_message write_message fill_bytes big_endian
read_message-write_message data_bytes rest fits =
    ap (λ n. read_data n (data_bytes ++ rest)) (length_back (length data_bytes) fits)
    ∙ read_data_back data_bytes rest
