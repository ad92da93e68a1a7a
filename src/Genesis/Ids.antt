-- ===== src/Genesis/Ids.antt =====
-- What the ids of the genesis event tell apart (internal/genesis/genesis.go).
use dagnet_crypto.Base.{
  ℕ, zero, suc, ◌+◌, ◌≤◌, ◌<◌, ◌≡◌, refl, ap, [], ◌∷◌, ◌++◌, Str, codes, arith, length,
  length-append, ◌↔◌, All, append_assoc,
}
use dagnet_crypto.Text.{hex, decimal}
use dagnet_crypto.Text.Hex.{hex_injective}
use dagnet_crypto.Genesis.Text.{padded, hash_data, genesis_event_id, genesis_tx_id}

padded-IsBytes : (n : ℕ) (a : Str) → All (λ x. x < 256) a → All (λ x. x < 256) (padded n a)
unfolding padded
padded-IsBytes zero a h = tt
padded-IsBytes (suc n) [] h = (omega arith, padded-IsBytes n [] tt)
padded-IsBytes (suc n) (x ∷ a) (hx, h) = (hx, padded-IsBytes n a h)

-- `hashData` tells byte strings apart just by their first 32 bytes, where missing ones count as zero.
pub hash_data_iff :
    (a b : Str)
    → All (λ x. x < 256) a
    → All (λ x. x < 256) b
    → (hash_data a ≡ hash_data b) ↔ (padded 32 a ≡ padded 32 b)
unfolding hash_data
hash_data_iff a b ha hb = (
  hex_injective (padded 32 a) (padded 32 b) (padded-IsBytes 32 a ha) (padded-IsBytes 32 b hb),
  ap hex,
)

padded-append : (n : ℕ) (a b c : Str) → n ≤ length a → padded n (a ++ b) ≡ padded n (a ++ c)
unfolding padded
padded-append zero a b c h = refl
padded-append (suc n) [] b c h = absurd (omega arith)
padded-append (suc n) (x ∷ a) b c h = ap (λ s. x ∷ s) (padded-append n a b c (omega arith))

prefix_ids :
    (prefix network_id a b : Str)
    → 32 ≤ length prefix + length network_id
    → hash_data (prefix ++ (network_id ++ a)) ≡ hash_data (prefix ++ (network_id ++ b))
unfolding hash_data
prefix_ids prefix network_id a b h =
    let e =
      padded-append 32 (prefix ++ network_id) a b
        (omega (arith, length-append prefix network_id)) in
    ap hex (rw (append_assoc prefix network_id a, append_assoc prefix network_id b) at e)

-- The ids are cut off before the time for long network names: with 18 bytes or more the event's id, and
-- with 21 or more the transaction's id, is the same at each time.
ids_ignore_time :
    (network_id : Str) (t u : ℕ)
    → (18 ≤ length network_id → genesis_event_id network_id t ≡ genesis_event_id network_id u)
      × (21 ≤ length network_id → genesis_tx_id network_id t ≡ genesis_tx_id network_id u)
unfolding genesis_event_id genesis_tx_id
ids_ignore_time network_id t u = (
  λ h.
      prefix_ids (codes "genesis-event-") network_id (codes "-" ++ decimal t)
        (codes "-" ++ decimal u) (omega arith),
  λ h.
      prefix_ids (codes "genesis-tx-") network_id (codes "-" ++ decimal t) (codes "-" ++ decimal u)
        (omega arith),
)
