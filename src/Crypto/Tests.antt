-- ===== src/Crypto/Tests.antt =====
-- Addresses and signatures on concrete inputs, and the theorems about them at such inputs. The toy
-- scheme signs with the public key and the data, cut to size.
use dagnet_crypto.Base.{
  ℕ, zero, suc, ◌<◌, ◌≡◌, refl, ap, true, none, some, [], ◌∷◌, ◌++◌, Str, codes, str_key, str_eq,
  str_eq_iff, ◌==◌, arith, length, take, ◌↔◌, All,
}
use dagnet_crypto.Text.{unhex}
use dagnet_crypto.Genesis.Text.{padded}
use dagnet_crypto.Pb.{Transaction, Payload, Event}
use dagnet_crypto.Crypto.Address.{
  bad_length, address_prefix, validate_address, hash_string, get_address_from_public_key,
  length-take, validate_address_iff, generated_address_invalid,
}
use dagnet_crypto.Crypto.Sign.{
  Primitives, IsSized, IsSignatureScheme, Keypair, generate_keypair, keypair_from_private_key,
  hash_transaction, sign_transaction, verify_transaction_signature,
}
use dagnet_crypto.Crypto.Vrf.{
  VrfOutcome, vrf_nonce, compute_vrf, verify_vrf, verify_vrf-compute_vrf,
}
use dagnet_crypto.Crypto.Payloads.{verify-sign_transaction, payload_not_signed}

abbrev zeros : ℕ → Str
zeros zero = []
zeros (suc n) = 0 ∷ zeros n

zeros-IsBytes : (n : ℕ) → All (λ x. x < 256) (zeros n)
zeros-IsBytes zero = tt
zeros-IsBytes (suc n) = (omega arith, zeros-IsBytes n)

length-padded : (n : ℕ) (s : Str) → length (padded n s) ≡ n
unfolding padded
length-padded zero s = refl
length-padded (suc n) [] = ap suc (length-padded n [])
length-padded (suc n) (x ∷ s) = ap suc (length-padded n s)

abbrev toy : Primitives
toy = record {
  generate_key = λ random. (take 32 (padded 64 random), padded 64 random);
  sign = λ private bytes. padded 64 (take 32 private ++ bytes);
  verify = λ key bytes s. s == padded 64 (key ++ bytes);
  public_of = λ private. take 32 private;
  sum = λ bytes. padded 32 bytes;
}

toy-IsSized : IsSized toy
toy-IsSized = record {
  signature_size = λ private bytes size. length-padded 64 (take 32 private ++ bytes);
  public_size = λ private size. length-take 32 private (omega (arith, size));
  private_size = λ random. length-padded 64 random;
}

toy-IsSignatureScheme : IsSignatureScheme toy
toy-IsSignatureScheme = record {
  sized = toy-IsSized;
  own_public = λ random. refl;
  verifies = λ random bytes.
      let s = padded 64 (take 32 (padded 64 random) ++ bytes) in (str_eq_iff s s).1 refl;
}

abbrev keypair : Keypair
keypair = record { private = zeros 64; public = zeros 32 }

abbrev tx : Str → Payload → Transaction
tx key payload = record {
  id = [];
  chain_id = codes "c";
  network_id = codes "n";
  nonce = 1;
  fee = 1000;
  gas_limit = 5;
  timestamp = 7;
  payload = payload;
  signature = [];
  public_key = key;
}

abbrev pay : Payload
pay = Payload.transfer (record { to = codes "bob"; amount = 3 })

abbrev tokens : ℕ → Payload
tokens n = Payload.transfer_token (record { token_id = codes "gold"; to = codes "bob"; amount = n })

validate_address_iff_example : (validate_address (codes "ndag0123456789abcdef") ≡ none) ↔ (
    (part : Str) × (codes "ndag0123456789abcdef" ≡ address_prefix ++ part)
    × ((b : Str) × (unhex part ≡ some b) × (length b ≡ 20)))
validate_address_iff_example = validate_address_iff (codes "ndag0123456789abcdef")

generated_address_invalid_example :
    validate_address (get_address_from_public_key (padded 32) (codes "key")) ≡ some bad_length
unfolding str_eq
generated_address_invalid_example =
    generated_address_invalid (padded 32) (codes "key") (length-padded 32)

verify-sign_transaction_example :
    let (signed, tx') = sign_transaction toy (tx (zeros 32) pay) keypair in
    (signed ≡ true)
    × (verify_transaction_signature toy tx' ≡ true)
    × (tx'.id ≡ hash_string (hash_transaction toy tx'))
    × (keypair_from_private_key toy keypair.private ≡ some keypair)
unfolding generate_keypair padded
verify-sign_transaction_example =
    verify-sign_transaction toy (tx (zeros 32) pay) [] keypair toy-IsSignatureScheme refl refl

payload_not_signed_example :
    verify_transaction_signature toy (record (tx (zeros 32) (tokens 1)) { payload = tokens 1000 })
    ≡ verify_transaction_signature toy (tx (zeros 32) (tokens 1))
payload_not_signed_example =
    payload_not_signed toy (tx (zeros 32) (tokens 1)) (tokens 1000) refl refl

abbrev an_event : Event
an_event = record {
  id = [];
  creator = codes "v";
  timestamp = 7;
  parents = codes "p" ∷ [];
  round = 3;
  signature = [];
  vrf_proof = [];
  transactions = tx [] pay ∷ [];
  metadata = none;
}

verify_vrf-compute_vrf_example :
    verify_vrf toy
      (padded 32)
      (zeros 32)
      (toy.sign (zeros 64) (padded 32 (codes "NDAG_VRF_NONCE:v1.0" ++ (zeros 64 ++ (1 ∷ [])))))
      (2 ∷ [])
    ≡ VrfOutcome.panicked
unfolding keypair_from_private_key compute_vrf vrf_nonce
verify_vrf-compute_vrf_example =
    verify_vrf-compute_vrf toy (padded 32) (zeros 64) (1 ∷ [])
      (toy.sign (zeros 64) (padded 32 (codes "NDAG_VRF_NONCE:v1.0" ++ (zeros 64 ++ (1 ∷ [])))))
      (toy.sum (
        toy.sign (zeros 64) (padded 32 (codes "NDAG_VRF_NONCE:v1.0" ++ (zeros 64 ++ (1 ∷ []))))
        ++ (1 ∷ [])))
      keypair toy-IsSized refl refl (2 ∷ [])
