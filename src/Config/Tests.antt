-- ===== src/Config/Tests.antt =====
-- Generated configurations (internal/config/config.go).
use dagnet_crypto.Base.{◌≡◌, false, none, str_key, ◌==◌, if◌then◌else◌}
use dagnet_crypto.Config.{
  validate, is_validator, get_network_type, generate_network_config, mainnet, testnet, devnet,
  get_network_type-generate,
}

get_network_type-generate_example :
    (validate (generate_network_config testnet) ≡ none)
    × (is_validator (generate_network_config testnet) ≡ false)
    × (get_network_type (generate_network_config testnet)
        ≡ (if testnet == mainnet then mainnet else if testnet == testnet then testnet else devnet))
get_network_type-generate_example = get_network_type-generate testnet
