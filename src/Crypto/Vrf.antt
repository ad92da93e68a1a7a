-- ===== src/Crypto/Vrf.antt =====
-- The verifiable random function (pkg/crypto/vrf.go). SHA-3 is the parameter `sum3`.
use dagnet_crypto.Base.{
  ℕ, ◌≡◌, sym, ap, Bool, true, false, some, [], ◌++◌, Str, codes, nat_key, ◌==◌, ◌||◌, not,
  if◌then◌else◌, length, arith, Bool-cases, inl, inr,
}
use dagnet_crypto.Crypto.Sign.{Primitives, IsSized, Keypair, keypair_from_private_key}
use dagnet_crypto.Crypto.Integers.{int_to_bytes}
use dagnet_crypto.Crypto.Payloads.{keypair_form}

-- what a call comes to
pub data VrfOutcome (A : Type 0) : Type 0 where
  returned : A → VrfOutcome A
  bad_key_size : VrfOutcome A
  panicked : VrfOutcome A

proof_of : VrfOutcome (Str × Str) → Str
proof_of (VrfOutcome.returned p) = p.0
proof_of _ = []

module _ (c : Primitives) (sum3 : Str → Str) where
  -- `generateVRFNonce`
  unfoldable pub vrf_nonce : Str → Str → VrfOutcome Str
  vrf_nonce private message =
      if length private == 0 || length message == 0
      then VrfOutcome.panicked
      else VrfOutcome.returned (sum3 (codes "NDAG_VRF_NONCE:v1.0" ++ (private ++ message)))

  -- `ComputeVRF`: the proof and the random output
  unfoldable pub compute_vrf : Keypair → Str → VrfOutcome (Str × Str)
  unfolding vrf_nonce
  compute_vrf k message =
      if not (length k.private == 64)
      then VrfOutcome.bad_key_size
      else elim (vrf_nonce k.private message) [
        | VrfOutcome.returned nonce ↦
            let proof = c.sign k.private nonce in
            VrfOutcome.returned (proof, c.sum (proof ++ message))
        | VrfOutcome.bad_key_size ↦ VrfOutcome.bad_key_size
        | VrfOutcome.panicked ↦ VrfOutcome.panicked
      ]

  -- `VerifyVRF`: the nonce is derived from an empty private key
  unfoldable pub verify_vrf : Str → Str → Str → VrfOutcome (Bool × Str)
  unfolding vrf_nonce
  verify_vrf key proof message =
      if not (length key == 32) || not (length proof == 64)
      then VrfOutcome.returned (false, [])
      else elim (vrf_nonce [] message) [
        | VrfOutcome.returned nonce ↦
            if not (c.verify key nonce proof)
            then VrfOutcome.returned (false, [])
            else VrfOutcome.returned (true, c.sum (proof ++ message))
        | VrfOutcome.bad_key_size ↦ VrfOutcome.bad_key_size
        | VrfOutcome.panicked ↦ VrfOutcome.panicked
      ]

  -- `GenerateEpochVRF` and `VerifyEpochVRF`
  unfoldable pub generate_epoch_vrf : Keypair → ℕ → VrfOutcome (Str × Str)
  generate_epoch_vrf k epoch = compute_vrf k (int_to_bytes epoch)

  unfoldable pub verify_epoch_vrf : Str → Str → ℕ → VrfOutcome (Bool × Str)
  verify_epoch_vrf key proof epoch = verify_vrf key proof (int_to_bytes epoch)

  verify_vrf-sized :
      (key proof message : Str)
      → length key ≡ 32
      → length proof ≡ 64
      → verify_vrf key proof message ≡ VrfOutcome.panicked
  unfolding verify_vrf vrf_nonce
  verify_vrf-sized key proof message hk hp = ground (arith, hk, hp)

  compute_vrf-sized :
      (k : Keypair) (message proof out : Str)
      → compute_vrf k message ≡ VrfOutcome.returned (proof, out)
      → (nonce : Str) × (proof ≡ c.sign k.private nonce)
  unfolding compute_vrf vrf_nonce proof_of
  compute_vrf-sized k message proof out h =
      let nonce = sum3 (codes "NDAG_VRF_NONCE:v1.0" ++ (k.private ++ message)) in
      elim (Bool-cases (length k.private == 64)) [
        | inr wrong ↦ let h' = rw (wrong, compute_vrf) at h in cc
        | inl fits ↦ elim (Bool-cases (length k.private == 0 || length message == 0)) [
          | inl bad ↦ let h' = rw (fits, bad, compute_vrf, vrf_nonce) at h in cc
          | inr good ↦
              let h' = rw (fits, good, compute_vrf, vrf_nonce) at h in (nonce, sym (ap proof_of h'))
        ]
      ]

  -- If signatures and keys have their documented sizes, `VerifyVRF` panics on each proof that `ComputeVRF`
  -- gives for a key pair, whatever the message.
  pub verify_vrf-compute_vrf :
      (private message proof out : Str) (k : Keypair)
      → IsSized c
      → keypair_from_private_key c private ≡ some k
      → compute_vrf k message ≡ VrfOutcome.returned (proof, out)
      → (other : Str) → verify_vrf k.public proof other ≡ VrfOutcome.panicked
  verify_vrf-compute_vrf private message proof out k scheme made computed other =
      let (size, shape) = keypair_form c private k made in
      let (nonce, signed) = compute_vrf-sized k message proof out computed in
      verify_vrf-sized k.public proof other (rw shape (scheme.public_size private size))
        (rw signed (scheme.signature_size k.private nonce (rw shape size)))
