-- ===== src/Genesis/Text.antt =====
-- Texts and ids of the genesis event (internal/genesis/genesis.go).
use dagnet_crypto.Base.{ℕ, zero, suc, [], ◌∷◌, ◌++◌, Str, codes}
use dagnet_crypto.Text.{decimal, hex}

-- the array of `n` bytes that the loop of `hashData` fills
unfoldable pub padded : ℕ → Str → Str
padded zero data_bytes = []
padded (suc n) [] = 0 ∷ padded n []
padded (suc n) (b ∷ bs) = b ∷ padded n bs

-- `hashData`
unfoldable pub hash_data : Str → Str
unfolding hex padded
hash_data bytes = hex (padded 32 bytes)

unfoldable pub genesis_tx_id : Str → ℕ → Str
genesis_tx_id network_id timestamp =
    hash_data (codes "genesis-tx-" ++ (network_id ++ (codes "-" ++ decimal timestamp)))

unfoldable pub genesis_event_id : Str → ℕ → Str
genesis_event_id network_id timestamp =
    hash_data (codes "genesis-event-" ++ (network_id ++ (codes "-" ++ decimal timestamp)))
