-- ===== src/Genesis/Valid.antt =====
-- `GenerateGenesis` against `ValidateGenesis` (internal/genesis/genesis.go).
use dagnet_crypto.Base.{
  ℕ, ◌^◌, ◌≤◌, ◌<◌, ◌≡◌, ◌≢◌, none, List, [], ◌∷◌, Str, str_key, str_eq_iff, nat_key, inl, inr, ◌↔◌,
  arith, Option-cases, length, take,
}
use dagnet_crypto.Map.{Map}
use dagnet_crypto.Pb.{Token}
use dagnet_crypto.Text.{hex}
use dagnet_crypto.Genesis.Text.{genesis_event_id, hash_data, padded}
use dagnet_crypto.Genesis.Defs.{
  GenesisConfig, GenesisEvent, Account, ValidatorSet, Outcome, config_error, validator_set,
  accounts_of, first_32, genesis_event, generate_genesis, check_payload, check_transactions,
  validate_genesis,
}

-- what a configuration has to have
pub record IsComplete (c : GenesisConfig) : Type 0 where
  pub chain : c.chain_id ≢ []
  pub network : c.network_id ≢ []
  pub supply : 0 < c.initial_supply
  pub treasury : c.treasury_addr ≢ []
  pub time : (0 < c.genesis_time) × (c.genesis_time < 2 ^ 63)

hash_data_not_empty : (bytes : Str) → hash_data bytes ≢ []
unfolding hash_data padded hex
hash_data_not_empty [] h = cc
hash_data_not_empty (b ∷ bytes) h = cc

event_id_not_empty : (network_id : Str) (time : ℕ) → genesis_event_id network_id time ≢ []
unfolding genesis_event_id
event_id_not_empty network_id time = hash_data_not_empty _

config_error-IsComplete : (c : GenesisConfig) → (config_error c ≡ none) ↔ IsComplete c
unfolding config_error
config_error-IsComplete c =
    let chain = str_eq_iff c.chain_id [] in
    let network = str_eq_iff c.network_id [] in
    let treasury = str_eq_iff c.treasury_addr [] in
    (
      λ h. record {
        chain = λ e. ground (arith, chain);
        network = λ e. ground (arith, network);
        supply = ground arith;
        treasury = λ e. ground (arith, treasury);
        time = ground arith;
      },
      λ k. ground (arith, chain, network, treasury, k.chain, k.network, k.treasury),
    )

module _ (format : List Account → ValidatorSet → Map Str Token → Str) where
  event-valid :
      (c : GenesisConfig) (state_hash : Str)
      → IsComplete c
      → validate_genesis (genesis_event format c state_hash) ≡ Outcome.ok tt
  unfolding validate_genesis genesis_event check_transactions check_payload
  event-valid c state_hash k = ground (
    arith,
    k.supply,
    event_id_not_empty c.network_id c.genesis_time,
    str_eq_iff (genesis_event_id c.network_id c.genesis_time) [],
  )

  -- the text that the state hash is cut from
  abbrev pub state_text : GenesisConfig → Str
  state_text c = format (accounts_of c) (validator_set c.validators) c.token_registry

  -- Where the text of the state has 32 bytes, `GenerateGenesis` gives an event that `ValidateGenesis`
  -- accepts just if the configuration has a chain, a network, a supply, a treasury and a positive time.
  pub generate_genesis-IsComplete :
      (c : GenesisConfig)
      → 32 ≤ length (state_text c)
      → ((g : GenesisEvent) × (generate_genesis format c ≡ Outcome.ok g)
          × (validate_genesis g ≡ Outcome.ok tt))
        ↔ IsComplete c
  unfolding generate_genesis first_32
  generate_genesis-IsComplete c enough =
      let (complete, fine) = config_error-IsComplete c in
      (
        λ (g, made, _). elim (Option-cases (config_error c)) [
          | inl none_found ↦ complete none_found
          | inr (e, found) ↦ ground arith
        ],
        λ k.
            let state_hash = take 32 (state_text c) in
            (genesis_event format c state_hash, ground (arith, fine k), event-valid c state_hash k),
      )

  -- With a complete configuration and a text of less than 25 bytes, `GenerateGenesis` panics.
  pub generate_genesis-panics :
      (c : GenesisConfig)
      → IsComplete c
      → length (state_text c) < 25
      → generate_genesis format c ≡ Outcome.panicked
  unfolding generate_genesis first_32
  generate_genesis-panics c k short = ground (arith, (config_error-IsComplete c).1 k)
