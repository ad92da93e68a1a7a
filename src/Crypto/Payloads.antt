-- ===== src/Crypto/Payloads.antt =====
-- What a signature of a transaction covers (pkg/crypto/crypto.go).
use dagnet_crypto.Base.{
  ◌+◌, ◌≡◌, ◌≢◌, Bool, false, refl, ap, sym, ◌∙◌, true, some, [], ◌++◌, Str, nat_key, ◌==◌, arith,
  length, length-append, inl, inr, Bool-cases,
}
use dagnet_crypto.Pb.{Transaction, Payload}
use dagnet_crypto.Crypto.Address.{hash_string}
use dagnet_crypto.Crypto.Sign.{
  Primitives, IsSignatureScheme, Keypair, payload_bytes, number_bytes, transaction_bytes,
  hash_transaction, generate_keypair, keypair_from_private_key, sign_data, verify_data,
  sign_transaction, verify_transaction_signature,
}

-- the id and the signature are not hashed
bytes_of :
    (tx : Transaction) (s i : Str)
    → transaction_bytes (record tx { signature = s; id = i }) ≡ transaction_bytes tx
unfolding transaction_bytes number_bytes
bytes_of tx s i = refl

bytes-payload :
    (tx : Transaction) (p : Payload)
    → payload_bytes p ≡ payload_bytes tx.payload
    → transaction_bytes (record tx { payload = p }) ≡ transaction_bytes tx
unfolding transaction_bytes number_bytes
bytes-payload tx p h =
    ap (λ s. tx.chain_id ++ (tx.network_id ++ (number_bytes tx ++ (tx.public_key ++ s)))) h

length-bytes :
    (tx : Transaction)
    → length (transaction_bytes tx)
      ≡ length tx.chain_id
        + length tx.network_id
        + length (number_bytes tx)
        + length tx.public_key
        + length (payload_bytes tx.payload)
unfolding transaction_bytes
length-bytes tx =
    let b = payload_bytes tx.payload in
    let n = number_bytes tx in
    omega (
      arith,
      length-append tx.chain_id (tx.network_id ++ (n ++ (tx.public_key ++ b))),
      length-append tx.network_id (n ++ (tx.public_key ++ b)),
      length-append n (tx.public_key ++ b),
      length-append tx.public_key b,
    )

length-keyed :
    (tx : Transaction) (key s i : Str)
    → length (transaction_bytes (record tx { public_key = key; signature = s; id = i }))
        + length tx.public_key
      ≡ length (transaction_bytes tx) + length key
unfolding number_bytes
length-keyed tx key s i =
    omega
      (arith, length-bytes tx, length-bytes (record tx { public_key = key; signature = s; id = i }))

bytes_keyed :
    (tx : Transaction) (key s i : Str)
    → tx.public_key ≡ key
    → transaction_bytes (record tx { public_key = key; signature = s; id = i })
      ≡ transaction_bytes tx
unfolding transaction_bytes number_bytes
bytes_keyed tx key s i e = rw e refl

abbrev pub is_hashed : Payload → Bool
is_hashed (Payload.transfer p) = true
is_hashed (Payload.create_validator p) = true
is_hashed _ = false

not_hashed : (p : Payload) → is_hashed p ≡ false → payload_bytes p ≡ []
unfolding payload_bytes
not_hashed (Payload.transfer p) h = cc
not_hashed (Payload.create_validator p) h = cc
not_hashed _ h = refl

module _ (c : Primitives) where
  abbrev signed_form : Transaction → Keypair → Transaction
  signed_form tx k =
      let h = c.sum (transaction_bytes tx) in
      record tx { signature = c.sign k.private h; id = hash_string h; public_key = k.public }

  sign_transaction_form :
      (tx : Transaction) (k : Keypair)
      → length k.private ≡ 64
      → sign_transaction c tx k ≡ (true, signed_form tx k)
  unfolding sign_transaction sign_data hash_transaction transaction_bytes number_bytes
  sign_transaction_form tx k size =
      let test : (length k.private == 64) ≡ true = ground arith in
      rw (test, sign_transaction, sign_data) refl

  verify_form :
      (tx : Transaction)
      → verify_transaction_signature c tx
        ≡ verify_data c tx.public_key (c.sum (transaction_bytes tx)) tx.signature
  unfolding verify_transaction_signature verify_data hash_transaction transaction_bytes number_bytes
  verify_form tx = ground arith

  -- The check reads nothing of the payload, unless it is a transfer or a new validator: with another
  -- payload, which is neither, it answers the same.
  pub payload_not_signed :
      (tx : Transaction) (p : Payload)
      → is_hashed tx.payload ≡ false
      → is_hashed p ≡ false
      → verify_transaction_signature c (record tx { payload = p })
        ≡ verify_transaction_signature c tx
  payload_not_signed tx p h k =
      let same = not_hashed p k ∙ sym (not_hashed tx.payload h) in
      verify_form (record tx { payload = p })
      ∙ (ap (λ b. verify_data c tx.public_key (c.sum b) tx.signature) (bytes-payload tx p same)
          ∙ sym (verify_form tx))

  -- `SignTransaction` hashes a transaction without a key and sets the key afterwards; the check then
  -- hashes other bytes, with the key, than those that were signed.
  pub sign_transaction-other_bytes :
      (tx : Transaction) (k : Keypair)
      → tx.public_key ≡ []
      → length k.private ≡ 64
      → length k.public ≡ 32
      → let tx' = (sign_transaction c tx k).1 in
        (tx'.signature ≡ c.sign k.private (c.sum (transaction_bytes tx)))
        × (verify_transaction_signature c tx'
            ≡ verify_data c k.public (c.sum (transaction_bytes tx')) tx'.signature)
        × (transaction_bytes tx' ≢ transaction_bytes tx)
  sign_transaction-other_bytes tx k bare size public_size =
      let e = sign_transaction_form tx k size in
      let tx' = signed_form tx k in
      rw e (
        refl,
        verify_form tx',
        λ same.
            let longer = length-keyed tx k.public tx'.signature tx'.id in
            let none_yet : length tx.public_key ≡ 0 = rw bare refl in
            let as_long = ap length same in omega (arith, longer, none_yet, as_long, public_size),
      )

  pub keypair_form :
      (private : Str) (k : Keypair)
      → keypair_from_private_key c private ≡ some k
      → (length private ≡ 64) × (k ≡ record { private = private; public = c.public_of private })
  unfolding keypair_from_private_key
  keypair_form private k made = elim (Bool-cases (length private == 64)) [
    | inl e ↦
        let whole : some (record { private = private; public = c.public_of private }) ≡ some k =
          rw (e, keypair_from_private_key) at made in
        (ground arith, cc)
    | inr e ↦ ground arith
  ]

  generated_form :
      (random : Str) (k : Keypair)
      → generate_keypair c (some random) ≡ some k
      → k ≡ record { private = (c.generate_key random).1; public = (c.generate_key random).0 }
  unfolding generate_keypair
  generated_form random k made = cc

  verify-sign :
      (random h : Str)
      → IsSignatureScheme c
      → let (public, private) = c.generate_key random in
        verify_data c public h (c.sign private h) ≡ true
  unfolding verify_data
  verify-sign random h scheme =
      let private = (c.generate_key random).1 in
      let size = scheme.sized.private_size random in
      ground (
        arith,
        scheme.verifies random h,
        scheme.own_public random,
        scheme.sized.signature_size private h size,
        scheme.sized.public_size private size,
      )

  generated-again :
      (random : Str)
      → IsSignatureScheme c
      → let (public, private) = c.generate_key random in
        keypair_from_private_key c private ≡ some (record { private = private; public = public })
  unfolding keypair_from_private_key
  generated-again random scheme =
      ground (arith, scheme.sized.private_size random, scheme.own_public random)

  -- With a pair of `GenerateKeypair`, a transaction that names the signer's key verifies after
  -- `SignTransaction`, and its id is its hash. `KeypairFromPrivateKey` gives the same pair again.
  pub verify-sign_transaction :
      (tx : Transaction) (random : Str) (k : Keypair)
      → IsSignatureScheme c
      → generate_keypair c (some random) ≡ some k
      → tx.public_key ≡ k.public
      → let (signed, tx') = sign_transaction c tx k in
        (signed ≡ true)
        × (verify_transaction_signature c tx' ≡ true)
        × (tx'.id ≡ hash_string (hash_transaction c tx'))
        × (keypair_from_private_key c k.private ≡ some k)
  unfolding hash_transaction
  verify-sign_transaction tx random k scheme made named =
      let shape = generated_form random k made in
      let h = c.sum (transaction_bytes tx) in
      let tx' = signed_form tx k in
      let same = bytes_keyed tx k.public tx'.signature tx'.id named in
      let form = sign_transaction_form tx k (rw shape (scheme.sized.private_size random)) in
      let right : verify_data c k.public h (c.sign k.private h) ≡ true =
        rw shape (verify-sign random h scheme) in
      rw form (
        refl,
        verify_form tx' ∙ (rw same right),
        ap (λ b. hash_string (c.sum b)) (sym same),
        rw shape (generated-again random scheme),
      )
