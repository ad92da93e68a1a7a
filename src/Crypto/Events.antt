-- ===== src/Crypto/Events.antt =====
-- Hashes and signatures of events (pkg/crypto/crypto.go).
use dagnet_crypto.Base.{
  ◌≡◌, refl, Bool, true, false, none, some, List, [], ◌∷◌, ◌++◌, Str, nat_key, ◌==◌, not,
  if◌then◌else◌, length, Bool-cases, inl, inr, arith,
}
use dagnet_crypto.Text.{decimal, decimal_i64}
use dagnet_crypto.Pb.{Event, Transaction}
use dagnet_crypto.Crypto.Address.{hash_string}
use dagnet_crypto.Crypto.Sign.{Primitives, Keypair, sign_data}

-- the loop over the parents
unfoldable pub joined : List Str → Str
joined [] = []
joined (x ∷ xs) = x ++ joined xs

-- the loop over the transactions
unfoldable pub joined_ids : List Transaction → Str
joined_ids [] = []
joined_ids (tx ∷ txs) = tx.id ++ joined_ids txs

-- `eventToBytesForHashing`
unfoldable pub event_bytes : Event → Str
event_bytes e =
    e.creator
    ++ (decimal_i64 e.timestamp
        ++ (decimal e.round ++ (joined e.parents ++ (joined_ids e.transactions ++ e.vrf_proof))))

-- `VerifyEventSignature`
unfoldable pub verify_event_signature : Event → Bool
verify_event_signature e =
    if not (length e.signature == 64) then false else not (length e.creator == 0)

module _ (c : Primitives) where
  -- `HashEvent`
  unfoldable pub hash_event : Event → Str
  hash_event e = c.sum (event_bytes e)

  -- `SignEvent`, with whether it went through
  unfoldable pub sign_event : Event → Keypair → Bool × Event
  sign_event e k =
      let bare = record e { signature = [] } in
      let h = hash_event bare in
      elim (sign_data c k h) [
        | none ↦ (false, bare)
        | some s ↦ (true, record bare { signature = s; id = hash_string h })
      ]

  abbrev signed_event : Event → Keypair → Event
  signed_event e k =
      let h = hash_event e in record e { signature = c.sign k.private h; id = hash_string h }

  sign_event_form :
      (e : Event) (k : Keypair)
      → (length k.private == 64) ≡ true
      → sign_event e k ≡ (true, signed_event e k)
  unfolding sign_event sign_data hash_event event_bytes
  sign_event_form e k test = rw (test, sign_event, sign_data) refl

  unsigned_form :
      (e : Event) (k : Keypair)
      → (length k.private == 64) ≡ false
      → sign_event e k ≡ (false, record e { signature = [] })
  unfolding sign_event sign_data
  unsigned_form e k test = rw (test, sign_event, sign_data) refl

  -- `SignEvent` is idempotent: the id and the signature that it sets are no part of what it hashes. The
  -- hash of an event stays the same, and after a signature that went through the id is that hash.
  pub sign_event-twice :
      (e : Event) (k : Keypair)
      → let (signed, e') = sign_event e k in
        (sign_event e' k ≡ (signed, e'))
        × (hash_event e' ≡ hash_event e)
        × (signed ≡ true → e'.id ≡ hash_string (hash_event e'))
  unfolding hash_event event_bytes
  sign_event-twice e k = elim (Bool-cases (length k.private == 64)) [
    | inl fits ↦
        rw (sign_event_form e k fits)
          (sign_event_form (signed_event e k) k fits, refl, λ done. refl)
    | inr wrong ↦
        rw (unsigned_form e k wrong)
          (unsigned_form (record e { signature = [] }) k wrong, refl, λ done. cc)
  ]

  -- `SignEvent` changes the id and the signature only
  pub sign_event-keeps :
      (e : Event) (k : Keypair)
      → let e' = (sign_event e k).1 in
        (e'.transactions ≡ e.transactions) × (e'.round ≡ e.round) × (e'.parents ≡ e.parents)
  unfolding sign_event
  sign_event-keeps e k = ground arith
