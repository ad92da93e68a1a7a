-- ===== src/Config.antt =====
-- `Config` (internal/config/config.go). A duration is its nanoseconds, and a network type its name; the
-- genesis time, which no default sets, is left out. Files and TOML are not modelled.
mod Tests
use dagnet_crypto.Base.{
  ◌≡◌, refl, inl, inr, ℕ, ◌*◌, Bool, true, false, Bool-cases, not, ◌&&◌, Option, none, some, List,
  [], ◌∷◌, Str, codes, str_key, nat_key, str_eq, str_eq_iff, ◌==◌, if◌then◌else◌, arith,
}

pub record NetworkConfig : Type 0 where
  pub network_id : Str
  pub chain_id : Str
  pub data_dir : Str

pub record P2pConfig : Type 0 where
  pub enabled : Bool
  pub listen_address : Str
  pub bootstrap_peers : List Str
  pub max_peers : ℕ
  pub min_peers : ℕ
  pub connection_timeout : ℕ
  pub enable_nat_traversal : Bool
  pub enable_relay : Bool
  pub enable_metrics : Bool

pub record ConsensusConfig : Type 0 where
  pub enabled : Bool
  pub round_duration : ℕ
  pub epoch_duration : ℕ
  pub min_validator_stake : ℕ
  pub max_validator_stake : ℕ
  pub min_gas_price : ℕ
  pub max_gas_per_round : ℕ
  pub target_gas_per_round : ℕ
  pub slashing_enabled : Bool

pub record ApiConfig : Type 0 where
  pub enabled : Bool
  pub listen_address : Str
  pub enable_rest : Bool
  pub rest_listen_address : Str
  pub enable_grpc : Bool
  pub grpc_listen_address : Str
  pub cors_origins : List Str
  pub enable_metrics : Bool

pub record StorageConfig : Type 0 where
  pub backend : Str
  pub path : Str
  pub enable_pruning : Bool
  pub pruning_keep_recent : ℕ
  pub pruning_interval : ℕ
  pub compaction_interval : ℕ

pub record LoggingConfig : Type 0 where
  pub level : Str
  pub format : Str
  pub file : Str
  pub max_size : ℕ
  pub max_backups : ℕ
  pub max_age : ℕ
  pub compress : Bool

pub record ValidatorConfig : Type 0 where
  pub enabled : Bool
  pub address : Str
  pub commission_rate : ℕ
  pub key_file : Str
  pub min_self_stake : ℕ

pub record GenesisConfig : Type 0 where
  pub genesis_file : Str
  pub initial_supply : ℕ
  pub chain_id : Str

pub record Config : Type 0 where
  pub network : NetworkConfig
  pub p2p : P2pConfig
  pub consensus : ConsensusConfig
  pub api : ApiConfig
  pub storage : StorageConfig
  pub logging : LoggingConfig
  pub validator : ValidatorConfig
  pub genesis : GenesisConfig

abbrev second : ℕ
second = 1000000000

abbrev hour : ℕ
hour = 3600 * second

-- `DefaultConfig`
unfoldable pub default_config : Config
default_config = record {
  network = record {
    network_id = codes "ndag-devnet";
    chain_id = codes "ndag-devnet-v1";
    data_dir = codes ".ndag";
  };
  p2p = record {
    enabled = true;
    listen_address = codes "/ip4/0.0.0.0/tcp/9000";
    bootstrap_peers = [];
    max_peers = 100;
    min_peers = 5;
    connection_timeout = 30 * second;
    enable_nat_traversal = true;
    enable_relay = true;
    enable_metrics = true;
  };
  consensus = record {
    enabled = true;
    round_duration = second;
    epoch_duration = 24 * hour;
    min_validator_stake = 1000000;
    max_validator_stake = 1000000000;
    min_gas_price = 1000;
    max_gas_per_round = 10000000;
    target_gas_per_round = 8000000;
    slashing_enabled = true;
  };
  api = record {
    enabled = true;
    listen_address = codes ":9090";
    enable_rest = true;
    rest_listen_address = codes ":9091";
    enable_grpc = true;
    grpc_listen_address = codes ":9092";
    cors_origins = codes "*" ∷ [];
    enable_metrics = true;
  };
  storage = record {
    backend = codes "leveldb";
    path = codes "data";
    enable_pruning = true;
    pruning_keep_recent = 24 * hour;
    pruning_interval = hour;
    compaction_interval = 2 * hour;
  };
  logging = record {
    level = codes "info";
    format = codes "json";
    file = [];
    max_size = 100;
    max_backups = 5;
    max_age = 7;
    compress = true;
  };
  validator = record {
    enabled = false;
    address = [];
    commission_rate = 10000000;
    key_file = [];
    min_self_stake = 100000000;
  };
  genesis = record {
    genesis_file = codes "genesis.pb";
    initial_supply = 100000000000000;
    chain_id = codes "ndag-devnet-v1";
  };
}

-- the network types
abbrev pub mainnet : Str
mainnet = codes "mainnet"

abbrev pub testnet : Str
testnet = codes "testnet"

abbrev pub devnet : Str
devnet = codes "devnet"

-- the errors of `Validate`
pub data ConfigError : Type 0 where
  no_network_id no_chain_id no_gas_price no_round_gas no_storage_path : ConfigError

-- `Validate`; none is no error
unfoldable pub validate : Config → Option ConfigError
validate c =
    if c.network.network_id == []
    then some no_network_id
    else if c.network.chain_id == []
    then some no_chain_id
    else if c.consensus.min_gas_price == 0
    then some no_gas_price
    else if c.consensus.max_gas_per_round == 0
    then some no_round_gas
    else if c.storage.path == []
    then some no_storage_path
    else none

-- `GetNetworkType`
unfoldable pub get_network_type : Config → Str
get_network_type c =
    if c.network.chain_id == codes "ndag-mainnet-v1"
    then mainnet
    else if c.network.chain_id == codes "ndag-testnet-v1"
    then testnet
    else devnet

-- `IsValidator`
unfoldable pub is_validator : Config → Bool
is_validator c = c.validator.enabled && not (c.validator.address == [])

-- what the cases of `GenerateNetworkConfig` set
unfoldable pub set_network : Str → Str → Str → ℕ → ℕ → ℕ → List Str → Config → Config
set_network network_id chain_id data_dir epoch stake gas_price peers c = record c {
  network = record c.network { network_id = network_id; chain_id = chain_id; data_dir = data_dir };
  p2p = record c.p2p { bootstrap_peers = peers };
  consensus = record c.consensus {
    round_duration = second;
    epoch_duration = epoch;
    min_validator_stake = stake;
    min_gas_price = gas_price;
  };
}

-- `GenerateNetworkConfig`
unfoldable pub generate_network_config : Str → Config
unfolding default_config set_network
generate_network_config t =
    if t == mainnet
    then set_network (codes "ndag-mainnet") (codes "ndag-mainnet-v1") (codes ".ndag/mainnet")
        (168 * hour) 100000000000 10000
        (codes "/dns/bootstrap.ndag.network/tcp/9000/p2p/12D3KooW" ∷ []) default_config
    else if t == testnet
    then set_network (codes "ndag-testnet") (codes "ndag-testnet-v1") (codes ".ndag/testnet")
        (24 * hour) 10000000 1000
        (codes "/dns/bootstrap-test.ndag.network/tcp/9000/p2p/12D3KooW" ∷ []) default_config
    else if t == devnet
    then set_network (codes "ndag-devnet") (codes "ndag-devnet-v1") (codes ".ndag/devnet") hour
        1000000 100 [] default_config
    else default_config

-- Every generated configuration passes `Validate`, makes the node no validator, and is of the network it was
-- generated for, which is the devnet for a name that is unknown.
pub get_network_type-generate :
    (t : Str)
    → (validate (generate_network_config t) ≡ none)
      × (is_validator (generate_network_config t) ≡ false)
      × (get_network_type (generate_network_config t)
          ≡ (if t == mainnet then mainnet else if t == testnet then testnet else devnet))
unfolding validate is_validator get_network_type generate_network_config default_config set_network
    str_eq
get_network_type-generate t = elim (Bool-cases (t == mainnet)) [
  | inl a ↦ rw (a, generate_network_config) (refl, refl, refl)
  | inr a ↦ elim (Bool-cases (t == testnet)) [
    | inl b ↦ rw (a, b, generate_network_config) (refl, refl, refl)
    | inr b ↦ elim (Bool-cases (t == devnet)) [
      | inl c ↦ rw (a, b, c, generate_network_config) (refl, refl, refl)
      | inr c ↦ rw (a, b, c, generate_network_config) (refl, refl, refl)
    ]
  ]
]
