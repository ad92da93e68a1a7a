-- ===== src/Crypto/Sign.antt =====
-- Hashes and signatures of transactions (pkg/crypto/crypto.go). BLAKE3 and Ed25519 are parameters.
use dagnet_crypto.Base.{
  ◌≡◌, Bool, true, false, Option, none, some, [], ◌++◌, Str, nat_key, ◌==◌, ◌||◌, not,
  if◌then◌else◌, length,
}
use dagnet_crypto.Text.{decimal, decimal_i64}
use dagnet_crypto.Pb.{Transaction, Payload}
use dagnet_crypto.Crypto.Address.{hash_string}

-- `append(data, …)` for the payload in `transactionToBytesForHashing`
unfoldable pub payload_bytes : Payload → Str
payload_bytes (Payload.transfer p) = p.to ++ decimal p.amount
payload_bytes (Payload.create_validator p) = p.validator_address ++ p.public_key
payload_bytes _ = []

-- the bytes of the numbers in `transactionToBytesForHashing`
unfoldable pub number_bytes : Transaction → Str
number_bytes tx =
    decimal tx.nonce ++ (decimal tx.fee ++ (decimal tx.gas_limit ++ decimal_i64 tx.timestamp))

-- `transactionToBytesForHashing`
unfoldable pub transaction_bytes : Transaction → Str
transaction_bytes tx =
    tx.chain_id
    ++ (tx.network_id ++ (number_bytes tx ++ (tx.public_key ++ payload_bytes tx.payload)))

pub record Keypair : Type 0 where
  pub private : Str
  pub public : Str

-- The operations of `crypto/ed25519` and of `blake3` that are used. `generate_key` gives the public and
-- the private key that `GenerateKey` makes of random bytes.
pub record Primitives : Type 0 where
  pub generate_key : Str → Str × Str
  pub sign : Str → Str → Str
  pub verify : Str → Str → Str → Bool
  pub public_of : Str → Str
  pub sum : Str → Str

-- the sizes that their documentation gives
pub record IsSized (c : Primitives) : Type 0 where
  pub signature_size :
      (private data_bytes : Str) → length private ≡ 64 → length (c.sign private data_bytes) ≡ 64
  pub public_size : (private : Str) → length private ≡ 64 → length (c.public_of private) ≡ 32
  pub private_size : (random : Str) → length (c.generate_key random).1 ≡ 64

-- What the documentation says of generated keys. Of other private keys, whose second half need not be
-- the public key of the first, it does not say that their signatures verify.
pub record IsSignatureScheme (c : Primitives) : Type 0 where
  pub sized : IsSized c
  pub own_public :
      (random : Str) → c.public_of (c.generate_key random).1 ≡ (c.generate_key random).0
  pub verifies :
      (random data_bytes : Str)
      → let (public, private) = c.generate_key random in
        c.verify public data_bytes (c.sign private data_bytes) ≡ true

module _ (c : Primitives) where
  -- `GenerateKeypair`, on the bytes of the random source; none where it fails
  unfoldable pub generate_keypair : Option Str → Option Keypair
  generate_keypair none = none
  generate_keypair (some random) =
      let (public, private) = c.generate_key random in
      some (record { private = private; public = public })

  -- `KeypairFromPrivateKey`: none is an error
  unfoldable pub keypair_from_private_key : Str → Option Keypair
  keypair_from_private_key private =
      if not (length private == 64)
      then none
      else some (record { private = private; public = c.public_of private })

  -- `HashTransaction`
  unfoldable pub hash_transaction : Transaction → Str
  hash_transaction tx = c.sum (transaction_bytes tx)

  -- `Keypair.Sign`: none is an error
  unfoldable pub sign_data : Keypair → Str → Option Str
  sign_data k bytes = if not (length k.private == 64) then none else some (c.sign k.private bytes)

  -- `Verify`
  unfoldable pub verify_data : Str → Str → Str → Bool
  verify_data key bytes signature =
      if not (length key == 32) || not (length signature == 64)
      then false
      else c.verify key bytes signature

  -- `SignTransaction`, with whether it went through; the hash is taken before the key is set
  unfoldable pub sign_transaction : Transaction → Keypair → Bool × Transaction
  sign_transaction tx k =
      let bare = record tx { signature = [] } in
      let h = hash_transaction bare in
      elim (sign_data k h) [
        | none ↦ (false, bare)
        | some s ↦ (true, record bare { signature = s; id = hash_string h; public_key = k.public })
      ]

  -- `VerifyTransactionSignature`, which restores the signature
  unfoldable pub verify_transaction_signature : Transaction → Bool
  verify_transaction_signature tx =
      if not (length tx.signature == 64)
      then false
      else if not (length tx.public_key == 32)
      then false
      else verify_data tx.public_key (hash_transaction (record tx { signature = [] })) tx.signature
