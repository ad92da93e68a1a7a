-- ===== src/Genesis/Tests.antt =====
-- The genesis event on concrete inputs, and the theorems about it at such inputs.
use dagnet_crypto.Base.{ℕ, ◌+◌, ◌*◌, ◌^◌, ◌<◌, ◌≡◌, refl, ◌↔◌, List, [], ◌∷◌, Str, codes, arith}
use dagnet_crypto.Map.{Map}
use dagnet_crypto.Pb.{Token}
use dagnet_crypto.Text.{digits, decimal, hex_digit, hex}
use dagnet_crypto.Genesis.Text.{padded, hash_data, genesis_event_id}
use dagnet_crypto.Genesis.Defs.{
  ValidatorInfo, Account, ValidatorSet, GenesisConfig, GenesisEvent, Outcome, mainnet_config,
  generate_genesis, validate_genesis, validator_set,
}
use dagnet_crypto.Genesis.Valid.{IsComplete, generate_genesis-IsComplete}
use dagnet_crypto.Genesis.Stake.{stake_sum, quorum_overflows}

abbrev validator : Str → ℕ → ValidatorInfo
validator address stake = record {
  address = address;
  public_key = [];
  stake = stake;
  commission_rate = 0;
  max_commission_rate = 0;
  commission_change_rate = 0;
  moniker = [];
  identity = [];
  website = [];
  details = [];
}

abbrev config : GenesisConfig
config = mainnet_config 1700000000000000000 (validator (codes "v") 10 ∷ [])

abbrev long_text : List Account → ValidatorSet → Map Str Token → Str
long_text _ _ _ = codes "accounts:{} validators:{} | tokens | map[]"

event_id :
    genesis_event_id (codes "n") 1700
    ≡ codes "67656e657369732d6576656e742d6e2d31373030000000000000000000000000"
unfolding genesis_event_id hash_data hex hex_digit padded decimal digits
event_id = refl

config-IsComplete : IsComplete config
unfolding mainnet_config
config-IsComplete = record {
  chain = λ h. cc;
  network = λ h. cc;
  supply = omega arith;
  treasury = λ h. cc;
  time = (omega arith, omega arith);
}

generate_genesis-IsComplete_example :
    ((g : GenesisEvent) × (generate_genesis long_text config ≡ Outcome.ok g)
      × (validate_genesis g ≡ Outcome.ok tt))
    ↔ IsComplete config
generate_genesis-IsComplete_example = generate_genesis-IsComplete long_text config (omega arith)

abbrev two : List ValidatorInfo
two = validator (codes "v") 10 ∷ validator (codes "w") 5 ∷ []

abbrev rich : List ValidatorInfo
rich = validator (codes "v") (2 ^ 62) ∷ validator (codes "w") (2 ^ 62 + 5) ∷ []

quorum_overflows_example : 3 * (validator_set rich).quorum_threshold < stake_sum rich
quorum_overflows_example = quorum_overflows rich (omega arith) (omega arith)
