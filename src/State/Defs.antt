-- ===== src/State/Defs.antt =====
-- The methods of `StateMachine` (pkg/state/state.go). A pointer to an account is its key: each read
-- through it sees the writes made before, also those through another pointer to the same account.
use dagnet_crypto.Base.{
  ℕ, Bool, true, false, none, some, List, [], ◌∷◌, ◌++◌, Str, codes, str_key, nat_key, ltb, leb,
  not, ◌==◌, if◌then◌else◌, ◌||◌, add_u64, sub_u64,
}
use dagnet_crypto.Map.{Map, lookup, insert, modify, contains, get_or}
use dagnet_crypto.Pb.{
  Transaction, Payload, TransferPayload, CreateTokenPayload, TransferTokenPayload,
  CreateCollectionPayload, MintNftPayload, TransferNftPayload, CreateValidatorPayload,
  DelegateStakePayload, Nft, Token,
}
use dagnet_crypto.Consensus.Validators.{add_validator, get_validator}
use dagnet_crypto.State.Monad.{
  AccountState, State, err, nonce_zero, fee_too_low, sender_not_found, invalid_nonce,
  insufficient_balance, token_exists, insufficient_token_balance, insufficient_fee_balance,
  collection_exists, nft_exists, nft_not_found, not_owner, commission_too_high, unsupported_type,
  Action, read, require, ◌>>=◌, ◌>>◌, reject_if, update,
}

-- the literal of `getOrCreateAccount`
abbrev pub new_account : Str → AccountState
new_account address = record {
  address = address;
  balance = 0;
  nonce = 0;
  public_key = [];
  tokens = [];
  nfts = [];
  delegated = 0;
  validator = [];
}

-- the effect of `getOrCreateAccount`
unfoldable pub ensure : Str → State → State
ensure address s =
    if contains address s.accounts
    then s
    else record s { accounts = insert address (new_account address) s.accounts }

abbrev pub get_or_create_account : Str → Action (Unit {0})
get_or_create_account address = update (ensure address)

-- the account behind a pointer
unfoldable pub deref : Str → State → AccountState
deref a s = get_or a (new_account a) s.accounts

-- a write through a pointer to an account
unfoldable pub on_account : Str → (AccountState → AccountState) → State → State
on_account a f s = record s { accounts = modify a f s.accounts }

abbrev pub write : Str → (AccountState → AccountState) → Action (Unit {0})
write a f = update (on_account a f)

-- `account.Balance -= x`, `account.Balance += x`
abbrev pub debit : ℕ → AccountState → AccountState
debit x a = record a { balance = sub_u64 a.balance x }

abbrev pub credit : ℕ → AccountState → AccountState
credit x a = record a { balance = add_u64 a.balance x }

-- `account.Tokens[id]`, `account.Tokens[id] -= x`, `account.Tokens[id] += x`
abbrev pub token_balance : Str → AccountState → ℕ
token_balance id a = get_or id 0 a.tokens

abbrev pub debit_token : Str → ℕ → AccountState → AccountState
debit_token id x a = record a { tokens = insert id (sub_u64 (token_balance id a) x) a.tokens }

abbrev pub credit_token : Str → ℕ → AccountState → AccountState
credit_token id x a = record a { tokens = insert id (add_u64 (token_balance id a) x) a.tokens }

-- `getTransactionValue`
unfoldable pub transaction_value : Payload → ℕ
transaction_value (Payload.transfer p) = p.amount
transaction_value (Payload.transfer_token p) = p.amount
transaction_value _ = 0

unfoldable pub verify_transaction : Transaction → Action (Unit {0})
verify_transaction tx = do
  reject_if (tx.nonce == 0) nonce_zero
  reject_if (ltb tx.fee 1000) fee_too_low
  account ← require (← read (λ s. lookup tx.public_key s.accounts)) sender_not_found
  reject_if (leb tx.nonce account.nonce) invalid_nonce
  reject_if (ltb account.balance (add_u64 tx.fee (transaction_value tx.payload)))
      insufficient_balance

-- `if account.Balance < tx.Fee { return err }; account.Balance -= tx.Fee`
unfoldable pub pay_fee : Str → ℕ → Action (Unit {0})
pay_fee payer fee = do
  reject_if (ltb (← read (deref payer)).balance fee) insufficient_fee_balance
  write payer (debit fee)

unfoldable pub execute_transfer : Transaction → TransferPayload → Action (Unit {0})
execute_transfer tx p = do
  require (← read (λ s. lookup tx.public_key s.accounts)) sender_not_found
  get_or_create_account p.to
  reject_if (ltb (← read (deref tx.public_key)).balance (add_u64 p.amount tx.fee))
      insufficient_balance
  write tx.public_key (debit (add_u64 p.amount tx.fee))
  write p.to (credit p.amount)
  write tx.public_key (λ a. record a { nonce = tx.nonce })

-- the literal of `executeCreateToken`
abbrev pub token_of : CreateTokenPayload → Token
token_of p = record {
  token_id = p.token_id;
  name = p.name;
  symbol = p.symbol;
  decimals = p.decimals;
  total_supply = p.initial_supply;
  admin_address = p.admin_address;
  mintable = p.mintable;
  burnable = p.burnable;
  metadata_uri = [];
  pausable = false;
  blacklistable = false;
  paused = false;
  blacklisted_addresses = [];
}

-- `sm.tokens[id] = token`
unfoldable pub register_token : CreateTokenPayload → State → State
register_token p s = record s { tokens = insert p.token_id (token_of p) s.tokens }

unfoldable pub execute_create_token : Transaction → CreateTokenPayload → Action (Unit {0})
execute_create_token tx p = do
  reject_if (← read (λ s. contains p.token_id s.tokens)) token_exists
  update (register_token p)
  get_or_create_account p.admin_address
  write p.admin_address (λ a. record a { tokens = insert p.token_id p.initial_supply a.tokens })

unfoldable pub execute_transfer_token : Transaction → TransferTokenPayload → Action (Unit {0})
unfolding pay_fee
execute_transfer_token tx p = do
  get_or_create_account tx.public_key
  get_or_create_account p.to
  reject_if (ltb (token_balance p.token_id (← read (deref tx.public_key))) p.amount)
      insufficient_token_balance
  write tx.public_key (debit_token p.token_id p.amount)
  write p.to (credit_token p.token_id p.amount)
  pay_fee tx.public_key tx.fee

-- `for _, nft := range sm.nfts { if nft.CollectionId == id { … } }`
unfoldable pub has_collection : Str → Map Str Nft → Bool
has_collection id [] = false
has_collection id ((_, nft) ∷ m) = nft.collection_id == id || has_collection id m

unfoldable pub execute_create_collection : Transaction → CreateCollectionPayload → Action (Unit {0})
unfolding has_collection
execute_create_collection tx p = do
  reject_if (← read (λ s. has_collection p.collection_id s.nfts)) collection_exists

-- `fmt.Sprintf("%s-%s", collectionId, nftId)`
unfoldable pub nft_key : Str → Str → Str
nft_key collection_id nft_id = collection_id ++ (codes "-" ++ nft_id)

-- the literal of `executeMintNFT`
abbrev pub nft_of : MintNftPayload → Nft
nft_of p = record {
  collection_id = p.collection_id;
  nft_id = p.nft_id;
  owner = p.owner;
  metadata_uri = p.metadata_uri;
  attributes = p.attributes;
  metadata_hash = p.metadata_hash;
  is_burned = false;
  mint_height = 1;
}

-- `sm.nfts[id] = nft` in `executeMintNFT`
unfoldable pub register_nft : Str → MintNftPayload → State → State
register_nft id p s = record s { nfts = insert id (nft_of p) s.nfts }

-- `account.NFTs = append(account.NFTs, id)`
abbrev pub append_nft : Str → AccountState → AccountState
append_nft id a = record a { nfts = a.nfts ++ (id ∷ []) }

unfoldable pub execute_mint_nft : Transaction → MintNftPayload → Action (Unit {0})
unfolding pay_fee
execute_mint_nft tx p = do
  reject_if (← read (λ s. contains (nft_key p.collection_id p.nft_id) s.nfts)) nft_exists
  update (register_nft (nft_key p.collection_id p.nft_id) p)
  get_or_create_account p.owner
  write p.owner (append_nft (nft_key p.collection_id p.nft_id))
  get_or_create_account tx.public_key
  pay_fee tx.public_key tx.fee

-- `removeNFTFromAccount`, on the account's list
unfoldable pub remove_nft : Str → List Str → List Str
remove_nft id [] = []
remove_nft id (x ∷ xs) = if x == id then xs else x ∷ remove_nft id xs

-- `nft.Owner = to; sm.nfts[id] = nft`
unfoldable pub set_owner : Str → Str → State → State
set_owner id to s = record s { nfts = modify id (λ n. record n { owner = to }) s.nfts }

abbrev pub drop_nft : Str → AccountState → AccountState
drop_nft id a = record a { nfts = remove_nft id a.nfts }

unfoldable pub execute_transfer_nft : Transaction → TransferNftPayload → Action (Unit {0})
unfolding pay_fee
execute_transfer_nft tx p = do
  nft ← require (← read (λ s. lookup (nft_key p.collection_id p.nft_id) s.nfts)) nft_not_found
  reject_if (not (nft.owner == tx.public_key)) not_owner
  get_or_create_account tx.public_key
  get_or_create_account p.to
  update (set_owner (nft_key p.collection_id p.nft_id) p.to)
  write tx.public_key (drop_nft (nft_key p.collection_id p.nft_id))
  write p.to (append_nft (nft_key p.collection_id p.nft_id))
  pay_fee tx.public_key tx.fee

-- `sm.consensus.AddValidator(…)` in `executeCreateValidator`
unfoldable pub register_validator : CreateValidatorPayload → State → State
unfolding add_validator
register_validator p s = record s {
  validators =
      add_validator
        (record {
          address = p.validator_address;
          public_key = p.public_key;
          stake = 100000000;
          commissions = 0;
          is_active = true;
        })
        s.validators;
}

unfoldable pub execute_create_validator : Transaction → CreateValidatorPayload → Action (Unit {0})
unfolding pay_fee
execute_create_validator tx p = do
  reject_if (ltb 100000000 p.commission_rate) commission_too_high
  update (register_validator p)
  get_or_create_account tx.public_key
  pay_fee tx.public_key tx.fee

-- `if validator, ok := sm.consensus.GetValidator(address); ok { validator.Stake += amount }`
unfoldable pub raise_stake : Str → ℕ → State → State
unfolding get_validator
raise_stake address amount s = elim (get_validator address s.validators) [
  | none ↦ s
  | some _ ↦ record s {
    validators = modify address (λ v. record v { stake = add_u64 v.stake amount }) s.validators;
  }
]

unfoldable pub execute_delegate_stake : Transaction → DelegateStakePayload → Action (Unit {0})
execute_delegate_stake tx p = do
  get_or_create_account tx.public_key
  reject_if (ltb (← read (deref tx.public_key)).balance (add_u64 p.amount tx.fee))
      insufficient_balance
  write tx.public_key (debit (add_u64 p.amount tx.fee))
  write tx.public_key (λ a. record a { delegated = add_u64 a.delegated p.amount })
  write tx.public_key (λ a. record a { validator = p.validator_address })
  update (raise_stake p.validator_address p.amount)

-- the `switch` of `ExecuteTransaction`
unfoldable pub dispatch : Transaction → Payload → Action (Unit {0})
dispatch tx (Payload.transfer p) = execute_transfer tx p
dispatch tx (Payload.create_token p) = execute_create_token tx p
dispatch tx (Payload.transfer_token p) = execute_transfer_token tx p
dispatch tx (Payload.create_collection p) = execute_create_collection tx p
dispatch tx (Payload.mint_nft p) = execute_mint_nft tx p
dispatch tx (Payload.transfer_nft p) = execute_transfer_nft tx p
dispatch tx (Payload.create_validator p) = execute_create_validator tx p
dispatch tx (Payload.delegate_stake p) = execute_delegate_stake tx p
dispatch tx _ = λ s. (err unsupported_type, s)

unfoldable pub execute_transaction : Transaction → Action (Unit {0})
unfolding dispatch
execute_transaction tx = do verify_transaction tx; dispatch tx tx.payload

-- the loop over a finalized event's transactions in `eventLoop` (cmd/ndagd/main.go), which logs an
-- error and goes on
unfoldable pub execute_all : List Transaction → State → State
execute_all [] s = s
execute_all (tx ∷ txs) s = execute_all txs (execute_transaction tx s).1
