-- ===== src/Pb.antt =====
-- The protobuf messages that the node passes around (proto/event.proto, proto/consensus.proto, proto/api.proto), as
-- their Go structs: `[]byte` and `string` are byte strings, and a pointer that may be nil is an
-- option. Of the messages the fields that the modelled code reads or writes are kept.
use dagnet_crypto.Base.{ℕ, Bool, Option, List, Str}

pub record TransferPayload : Type 0 where
  pub to : Str
  pub amount : ℕ

pub record CreateTokenPayload : Type 0 where
  pub token_id : Str
  pub name : Str
  pub symbol : Str
  pub decimals : ℕ
  pub initial_supply : ℕ
  pub admin_address : Str
  pub metadata_uri : Str
  pub mintable : Bool
  pub burnable : Bool
  pub pausable : Bool
  pub blacklistable : Bool

pub record MintTokenPayload : Type 0 where
  pub token_id : Str
  pub to : Str
  pub amount : ℕ

pub record BurnTokenPayload : Type 0 where
  pub token_id : Str
  pub amount : ℕ

pub record TransferTokenPayload : Type 0 where
  pub token_id : Str
  pub to : Str
  pub amount : ℕ

pub record CreateCollectionPayload : Type 0 where
  pub collection_id : Str
  pub name : Str
  pub symbol : Str
  pub metadata_uri : Str
  pub is_mutable : Bool

pub record MintNftPayload : Type 0 where
  pub collection_id : Str
  pub nft_id : Str
  pub owner : Str
  pub metadata_uri : Str
  pub attributes : List Str
  pub metadata_hash : Str

pub record TransferNftPayload : Type 0 where
  pub collection_id : Str
  pub nft_id : Str
  pub to : Str

pub record CreateValidatorPayload : Type 0 where
  pub validator_address : Str
  pub public_key : Str
  pub commission_rate : ℕ
  pub max_commission_rate : ℕ
  pub commission_change_rate : ℕ
  pub moniker : Str
  pub identity : Str
  pub website : Str
  pub details : Str

pub record DelegateStakePayload : Type 0 where
  pub validator_address : Str
  pub amount : ℕ

-- The `oneof payload`. `other` is each alternative that no part of the program executes, and an
-- unset payload.
pub data Payload : Type 0 where
  transfer : TransferPayload → Payload
  create_validator : CreateValidatorPayload → Payload
  delegate_stake : DelegateStakePayload → Payload
  create_token : CreateTokenPayload → Payload
  mint_token : MintTokenPayload → Payload
  burn_token : BurnTokenPayload → Payload
  transfer_token : TransferTokenPayload → Payload
  create_collection : CreateCollectionPayload → Payload
  mint_nft : MintNftPayload → Payload
  transfer_nft : TransferNftPayload → Payload
  other : Payload

pub record Transaction : Type 0 where
  pub id : Str
  pub chain_id : Str
  pub network_id : Str
  pub nonce : ℕ
  pub fee : ℕ
  pub gas_limit : ℕ
  pub timestamp : ℕ
  pub payload : Payload
  pub signature : Str
  pub public_key : Str

pub record Token : Type 0 where
  pub token_id : Str
  pub name : Str
  pub symbol : Str
  pub decimals : ℕ
  pub total_supply : ℕ
  pub admin_address : Str
  pub metadata_uri : Str
  pub mintable : Bool
  pub burnable : Bool
  pub pausable : Bool
  pub blacklistable : Bool
  pub paused : Bool
  pub blacklisted_addresses : List Str

pub record Nft : Type 0 where
  pub collection_id : Str
  pub nft_id : Str
  pub owner : Str
  pub metadata_uri : Str
  pub attributes : List Str
  pub metadata_hash : Str
  pub is_burned : Bool
  pub mint_height : ℕ

pub record NftCollection : Type 0 where
  pub collection_id : Str
  pub name : Str
  pub symbol : Str
  pub admin_address : Str
  pub metadata_uri : Str
  pub is_mutable : Bool
  pub total_supply : ℕ

-- `pb.Validator`; the registry of the consensus engine has a type of its own
pub record PbValidator : Type 0 where
  pub address : Str
  pub public_key : Str
  pub stake : ℕ
  pub commission_rate : ℕ
  pub max_commission_rate : ℕ
  pub commission_change_rate : ℕ
  pub moniker : Str
  pub identity : Str
  pub website : Str
  pub details : Str
  pub jailed : Bool
  pub voting_power : ℕ

pub record EventMetadata : Type 0 where
  pub is_witness : Bool
  pub is_famous : Bool
  pub is_finalized : Bool

pub record Event : Type 0 where
  pub id : Str
  pub creator : Str
  pub parents : List Str
  pub timestamp : ℕ
  pub round : ℕ
  pub signature : Str
  pub vrf_proof : Str
  pub transactions : List Transaction
  pub metadata : Option EventMetadata

pub record SyncDagRequest : Type 0 where
  pub start_round : ℕ
  pub end_round : ℕ
  pub include_transactions : Bool
  pub limit : ℕ

pub record SyncDagResponse : Type 0 where
  pub event : Option Event
  pub transactions : List Transaction
  pub has_more : Bool

-- `proto.Marshal` and `proto.Unmarshal` for a message; none is an error
pub record Codec (A : Type 0) : Type 0 where
  pub marshal : A → Option Str
  pub unmarshal : Str → Option A
