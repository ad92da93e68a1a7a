-- ===== src/Executor/Accounts.antt =====
-- What the methods of `TransactionExecutor` share: records they fill in, and how they load and save
-- accounts, tokens and validators (pkg/state/executor.go).
use mathlib.Core.Option
use dagnet_crypto.Base.{
  ℕ, Bool, true, false, Option, none, some, [], Str, str_key, nat_key, leb, add_u64, sub_u64,
}
use dagnet_crypto.Map.{insert, get_or}
use dagnet_crypto.Pb.{Transaction, CreateTokenPayload, CreateValidatorPayload, Token, PbValidator}
use dagnet_crypto.Consensus.Validators.{Validator}
use dagnet_crypto.Storage.Engine.{Read, value, not_found, read_error}
use dagnet_crypto.Storage.Keys.{get_account, put_account, put_token, get_validator, put_validator}
use dagnet_crypto.Executor.Monad.{
  Account, account_error, marshal_failed, unmarshal_failed, Action, Outcome, done, failed, panicked,
  Env, ◌>>=◌, require, store,
}

-- the data of a read, where it gives some
abbrev pub data_of : Read → Option Str
data_of (value v) = some v
data_of not_found = none
data_of read_error = none

-- the literal of `getOrCreateAccount`
abbrev pub new_account : Str → Account
new_account address = record {
  address = address;
  balance = 0;
  nonce = 0;
  public_key = [];
  tokens = some [];
  delegated = 0;
  validator = [];
}

-- `hasSufficientBalance`
abbrev pub has_sufficient_balance : Account → ℕ → Bool
has_sufficient_balance a amount = leb amount a.balance

-- `account.Tokens[id]`, also of a nil map
abbrev pub token_balance : Str → Account → ℕ
token_balance id a = elim a.tokens [ none ↦ 0 | some m ↦ get_or id 0 m ]

-- `account.Tokens[id] = x`; none panics
abbrev pub set_token : Str → ℕ → Account → Option Account
set_token id x a = Option.map (λ m. record a { tokens = some (insert id x m) }) a.tokens

-- `x.Balance -= amount`, `x.Balance += amount`
abbrev pub debit : ℕ → Account → Account
debit amount a = record a { balance = sub_u64 a.balance amount }

abbrev pub credit : ℕ → Account → Account
credit amount a = record a { balance = add_u64 a.balance amount }

-- `minStake`
abbrev pub min_stake : ℕ
min_stake = 10000000000

-- the two literals of `executeCreateValidator`
abbrev pub stored_validator : CreateValidatorPayload → PbValidator
stored_validator p = record {
  address = p.validator_address;
  public_key = p.public_key;
  stake = min_stake;
  commission_rate = p.commission_rate;
  max_commission_rate = p.max_commission_rate;
  commission_change_rate = p.commission_change_rate;
  moniker = p.moniker;
  identity = p.identity;
  website = p.website;
  details = p.details;
  jailed = false;
  voting_power = min_stake;
}

abbrev pub consensus_validator : CreateValidatorPayload → Validator
consensus_validator p = record {
  address = p.validator_address;
  public_key = p.public_key;
  stake = min_stake;
  commissions = 0;
  is_active = true;
}

-- the literal of `executeCreateToken`
abbrev pub token_of : CreateTokenPayload → Token
token_of p = record {
  token_id = p.token_id;
  name = p.name;
  symbol = p.symbol;
  decimals = p.decimals;
  total_supply = p.initial_supply;
  admin_address = p.admin_address;
  metadata_uri = p.metadata_uri;
  mintable = p.mintable;
  burnable = p.burnable;
  pausable = p.pausable;
  blacklistable = p.blacklistable;
  paused = false;
  blacklisted_addresses = [];
}

-- the last part of `Execute`; `ctx.Refund` is always 0
unfoldable pub settle : Transaction → Account → Account
settle tx sender = credit 0 (debit tx.fee (record sender { nonce = tx.nonce }))

module _ {D : Type 0} (env : Env D) where
  -- `getAccount`
  unfoldable pub load_account : Str → D → Outcome Account
  load_account address d = elim (get_account env.level_db address d) [
    | value v ↦ elim (env.account_codec.unmarshal v) [
      | none ↦ failed unmarshal_failed
      | some a ↦ done a
    ]
    | not_found ↦ failed account_error
    | read_error ↦ failed account_error
  ]

  -- `getOrCreateAccount`, which gives a new account after any error of `getAccount`
  unfoldable pub get_or_create_account : Str → D → Account
  get_or_create_account address d = elim (load_account address d) [
    | done a ↦ a
    | failed _ ↦ new_account address
    | panicked ↦ new_account address
  ]

  -- `saveAccount`
  unfoldable pub save_account : Account → Action D (Unit {0})
  save_account a = do
    data_bytes ← require (env.account_codec.marshal a) marshal_failed
    store (put_account env.level_db a.address data_bytes)

  -- `getValidator`
  unfoldable pub load_validator : Str → D → Option PbValidator
  load_validator address d = elim (data_of (get_validator env.level_db address d)) [
    | none ↦ none
    | some v ↦ env.validator_codec.unmarshal v
  ]

  -- marshalling and storing a token and a validator
  unfoldable pub save_token : Str → Token → Action D (Unit {0})
  save_token id token = do
    data_bytes ← require (env.token_codec.marshal token) marshal_failed
    store (put_token env.level_db id data_bytes)

  unfoldable pub save_validator : Str → PbValidator → Action D (Unit {0})
  save_validator address v = do
    data_bytes ← require (env.validator_codec.marshal v) marshal_failed
    store (put_validator env.level_db address data_bytes)
