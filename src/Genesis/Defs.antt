-- ===== src/Genesis/Defs.antt =====
-- `GenerateGenesis` and `ValidateGenesis` (internal/genesis/genesis.go). `%v` of protobuf messages is
-- the parameter `format`. A map comes in the order of the model's map.
use dagnet_crypto.Base.{
  ℕ, true, ◌*◌, ◌/◌, ◌%◌, ◌^◌, Bool, false, Option, none, some, List, [], ◌∷◌, ◌++◌, Str, codes,
  str_key, nat_key, ◌==◌, ◌||◌, not, if◌then◌else◌, ltb, leb, length, take, add_u64, u64_mod,
}
use dagnet_crypto.Map.{Map}
use dagnet_crypto.Pb.{Token, EventMetadata}
use dagnet_crypto.Genesis.Text.{padded, genesis_tx_id, genesis_event_id}

pub record ValidatorInfo : Type 0 where
  pub address : Str
  pub public_key : Str
  pub stake : ℕ
  pub commission_rate : ℕ
  pub max_commission_rate : ℕ
  pub commission_change_rate : ℕ
  pub moniker : Str
  pub identity : Str
  pub website : Str
  pub details : Str

pub record AccountInfo : Type 0 where
  pub address : Str
  pub balance : ℕ
  pub nonce : ℕ
  pub public_key : Str

-- The field `Network`, which no code reads, is left out.
pub record GenesisConfig : Type 0 where
  pub chain_id : Str
  pub network_id : Str
  pub initial_supply : ℕ
  pub genesis_time : ℕ
  pub treasury_addr : Str
  pub validators : List ValidatorInfo
  pub token_registry : Map Str Token
  pub account_states : Map Str AccountInfo

-- `pb.Account` with the fields that are set here, which are those of `AccountInfo`
abbrev pub Account : Type 0
Account = AccountInfo

-- `pb.Validator`; `jailed` starts as false
pub record Validator : Type 0 where
  pub info : ValidatorInfo
  pub jailed : Bool
  pub voting_power : ℕ

pub record ValidatorSet : Type 0 where
  pub validators : List Validator
  pub total_stake : ℕ
  pub quorum_threshold : ℕ

pub record GenesisPayload : Type 0 where
  pub treasury : Str
  pub initial_supply : ℕ
  pub validator_set : Option ValidatorSet
  pub account_states : Option (List Account)
  pub token_registry : Map Str Token
  pub state_hash : Str

-- a payload: the genesis wrapper around a pointer, or a wrapper of another type
pub data TxPayload : Type 0 where
  genesis : Option GenesisPayload → TxPayload
  other : TxPayload

pub record GenesisTx : Type 0 where
  pub id : Str
  pub chain_id : Str
  pub network_id : Str
  pub nonce : ℕ
  pub fee : ℕ
  pub gas_limit : ℕ
  pub timestamp : ℕ
  pub payload : TxPayload

-- the event, without the signature and the proof, which are empty, and the constant reward claim
pub record GenesisEvent : Type 0 where
  pub id : Str
  pub creator : Str
  pub parents : List Str
  pub timestamp : ℕ
  pub round : ℕ
  pub transactions : List (Option GenesisTx)
  pub state_hash : Str
  pub metadata : EventMetadata

-- the errors of `validateGenesisConfig` and of `ValidateGenesis`
pub data ConfigError : Type 0 where
  empty_chain_id empty_network_id no_supply empty_treasury bad_time : ConfigError

pub data GenesisError : Type 0 where
  missing_id bad_round bad_count bad_payload zero_supply no_validators no_accounts : GenesisError

-- what a call comes to
pub data Outcome (E A : Type 0) : Type 0 where
  ok : A → Outcome E A
  failed : E → Outcome E A
  panicked : Outcome E A

-- `validateGenesisConfig`; the time is an `int64` in two's complement
unfoldable pub config_error : GenesisConfig → Option ConfigError
config_error c =
    if c.chain_id == []
    then some empty_chain_id
    else if c.network_id == []
    then some empty_network_id
    else if c.initial_supply == 0
    then some no_supply
    else if c.treasury_addr == []
    then some empty_treasury
    else if c.genesis_time == 0 || leb (2 ^ 63) c.genesis_time
    then some bad_time
    else none

-- the loop over `config.Validators`
unfoldable pub add_validators : List ValidatorInfo → ValidatorSet → ValidatorSet
add_validators [] vs = vs
add_validators (v ∷ rest) vs = add_validators rest (record vs {
  validators =
      vs.validators ++ ((record { info = v; jailed = false; voting_power = v.stake }) ∷ []);
  total_stake = add_u64 vs.total_stake v.stake;
})

unfoldable pub validator_set : List ValidatorInfo → ValidatorSet
validator_set infos =
    let vs =
      add_validators infos (record { validators = []; total_stake = 0; quorum_threshold = 0 }) in
    record vs { quorum_threshold = vs.total_stake * 2 % u64_mod / 3 }

-- the loop over `config.AccountStates`
unfoldable pub listed_accounts : Map Str AccountInfo → List Account
listed_accounts [] = []
listed_accounts ((_, a) ∷ m) = a ∷ listed_accounts m

unfoldable pub accounts_of : GenesisConfig → List Account
unfolding listed_accounts
accounts_of c =
    (record { address = c.treasury_addr; balance = c.initial_supply; nonce = 0; public_key = [] })
    ∷ listed_accounts c.account_states

-- `[]byte(data)[:32]`: the slice may reach into the capacity, which Go's runtime rounds up to a multiple
-- of 8 and clears. It panics where the capacity is below 32.
unfoldable pub first_32 : Str → Option Str
first_32 text =
    if ltb (length text) 25
    then none
    else if ltb (length text) 32
    then some (padded 32 text)
    else some (take 32 text)

module _ (format : List Account → ValidatorSet → Map Str Token → Str) where
  -- the event that `GenerateGenesis` builds, with the state hash given
  unfoldable pub genesis_event : GenesisConfig → Str → GenesisEvent
  unfolding validator_set accounts_of
  genesis_event c state_hash = record {
    id = genesis_event_id c.network_id c.genesis_time;
    creator = codes "genesis";
    parents = [];
    timestamp = c.genesis_time;
    round = 0;
    transactions =
        some (record {
          id = genesis_tx_id c.network_id c.genesis_time;
          chain_id = c.chain_id;
          network_id = c.network_id;
          nonce = 0;
          fee = 0;
          gas_limit = 10000000;
          timestamp = c.genesis_time;
          payload = TxPayload.genesis (
              some (record {
                treasury = c.treasury_addr;
                initial_supply = c.initial_supply;
                validator_set = some (validator_set c.validators);
                account_states = some (accounts_of c);
                token_registry = c.token_registry;
                state_hash = state_hash;
              }));
        })
        ∷ [];
    state_hash = state_hash;
    metadata = record { is_witness = true; is_famous = true; is_finalized = true };
  }

  -- `GenerateGenesis`
  unfoldable pub generate_genesis : GenesisConfig → Outcome ConfigError GenesisEvent
  generate_genesis c = elim (config_error c) [
    | some e ↦ Outcome.failed e
    | none ↦
        elim (first_32 (format (accounts_of c) (validator_set c.validators) c.token_registry)) [
          | none ↦ Outcome.panicked
          | some state_hash ↦ Outcome.ok (genesis_event c state_hash)
        ]
  ]

-- the checks of `ValidateGenesis` on the payload
unfoldable pub check_payload : TxPayload → Outcome GenesisError (Unit {0})
check_payload TxPayload.other = Outcome.failed bad_payload
check_payload (TxPayload.genesis none) = Outcome.panicked
check_payload (TxPayload.genesis (some p)) =
    if p.initial_supply == 0 then Outcome.failed zero_supply else elim p.validator_set [
      | none ↦ Outcome.failed no_validators
      | some _ ↦ elim p.account_states [
        | none ↦ Outcome.failed no_accounts
        | some _ ↦ Outcome.ok tt
      ]
    ]

unfoldable pub check_transactions : List (Option GenesisTx) → Outcome GenesisError (Unit {0})
unfolding check_payload
check_transactions (none ∷ []) = Outcome.panicked
check_transactions (some tx ∷ []) = check_payload tx.payload
check_transactions _ = Outcome.failed bad_count

-- `ValidateGenesis`
unfoldable pub validate_genesis : GenesisEvent → Outcome GenesisError (Unit {0})
unfolding check_transactions
validate_genesis g =
    if g.id == []
    then Outcome.failed missing_id
    else if not (g.round == 0)
    then Outcome.failed bad_round
    else check_transactions g.transactions

-- the configurations of `CreateTestnetGenesis` and `CreateMainnetGenesis`, at the time `now`
unfoldable pub testnet_config : ℕ → List ValidatorInfo → GenesisConfig
testnet_config now validators = record {
  chain_id = codes "ndag-testnet-v1";
  network_id = codes "ndag-testnet";
  initial_supply = 100000000000000;
  genesis_time = now;
  treasury_addr = codes "ndag1testnet00000000000000000000000000000";
  validators = validators;
  token_registry = [];
  account_states = [];
}

unfoldable pub mainnet_config : ℕ → List ValidatorInfo → GenesisConfig
mainnet_config now validators = record {
  chain_id = codes "ndag-mainnet-v1";
  network_id = codes "ndag-mainnet";
  initial_supply = 100000000000000;
  genesis_time = now;
  treasury_addr = codes "ndag1mainnet00000000000000000000000000000";
  validators = validators;
  token_registry = [];
  account_states = [];
}
