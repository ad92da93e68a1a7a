-- ===== src/Executor/Methods.antt =====
-- The methods of `TransactionExecutor` (pkg/state/executor.go). A method takes the copy of the sender's
-- account that `ExecutionContext` holds and gives it back as it leaves it.
use dagnet_crypto.Base.{
  true, false, Option, none, some, [], ◌++◌, Str, codes, str_key, nat_key, ltb, not, ◌==◌, ◌&&◌,
  add_u64, sub_u64,
}
use dagnet_crypto.Text.{decimal_i64}
use dagnet_crypto.Map.{modify}
use dagnet_crypto.Pb.{
  Transaction, Payload, TransferPayload, CreateTokenPayload, MintTokenPayload, TransferTokenPayload,
  CreateCollectionPayload, MintNftPayload, CreateValidatorPayload, DelegateStakePayload, Nft,
  NftCollection,
}
use dagnet_crypto.Consensus.Validators.{add_validator}
use dagnet_crypto.Crypto.Sign.{verify_transaction_signature}
use dagnet_crypto.Crypto.Address.{get_address_from_public_key}
use dagnet_crypto.Storage.Keys.{get_token, put_nft}
use dagnet_crypto.Executor.Monad.{
  Account, nil_transaction, invalid_signature, invalid_nonce, insufficient_fee, zero_amount,
  insufficient_balance, commission_too_high, validator_not_found, other_validator, token_exists,
  token_not_found, not_mintable, not_admin, insufficient_token_balance, collection_exists,
  collection_not_found, marshal_failed, unmarshal_failed, unsupported_type, Action, reject, lift,
  Env, ◌>>=◌, ◌>>◌, return, reject_if, require, or_panic, store, read, update,
}
use dagnet_crypto.Executor.Accounts.{
  settle, data_of, has_sufficient_balance, token_balance, set_token, debit, credit, min_stake,
  stored_validator, consensus_validator, token_of, load_account, get_or_create_account,
  save_account, load_validator, save_token, save_validator,
}

module _ {D : Type 0} (env : Env D) where
  unfoldable pub execute_transfer : TransferPayload → Account → Action D Account
  execute_transfer p sender = do
    reject_if (p.amount == 0) zero_amount
    reject_if (not (has_sufficient_balance sender p.amount)) insufficient_balance
    recipient ← read (λ w. get_or_create_account env p.to w.db)
    save_account env (credit p.amount recipient)
    return (debit p.amount sender)

  unfoldable pub execute_create_validator : CreateValidatorPayload → Account → Action D Account
  execute_create_validator p sender = do
    reject_if (ltb p.max_commission_rate p.commission_rate) commission_too_high
    reject_if (not (has_sufficient_balance sender min_stake)) insufficient_balance
    save_validator env p.validator_address (stored_validator p)
    update (λ w. record w { validators = add_validator (consensus_validator p) w.validators })
    return
        (record (debit min_stake sender) { delegated = min_stake; validator = p.validator_address })

  unfoldable pub execute_delegate_stake : DelegateStakePayload → Account → Action D Account
  execute_delegate_stake p sender = do
    reject_if (p.amount == 0) zero_amount
    reject_if (not (has_sufficient_balance sender p.amount)) insufficient_balance
    stored ← read (λ w. load_validator env p.validator_address w.db)
    v ← require stored validator_not_found
    reject_if (not (sender.validator == []) && not (sender.validator == p.validator_address))
        other_validator
    save_validator env p.validator_address (record v { stake = add_u64 v.stake p.amount })
    update (λ w. record w {
      validators =
          modify p.validator_address (λ c. record c { stake = add_u64 v.stake p.amount })
            w.validators;
    })
    return (record sender {
      delegated = add_u64 sender.delegated p.amount;
      validator = p.validator_address;
    })

  unfoldable pub execute_create_token : CreateTokenPayload → Account → Action D Account
  execute_create_token p sender = do
    stored ← read (λ w. data_of (get_token env.level_db p.token_id w.db))
    reject_if (elim stored [ none ↦ false | some _ ↦ true ]) token_exists
    save_token env p.token_id (token_of p)
    admin ← read (λ w. get_or_create_account env p.admin_address w.db)
    minted ← or_panic (set_token p.token_id p.initial_supply admin)
    save_account env minted
    return sender

  unfoldable pub execute_mint_token : MintTokenPayload → Account → Action D Account
  execute_mint_token p sender = do
    stored ← read (λ w. data_of (get_token env.level_db p.token_id w.db))
    data_bytes ← require stored token_not_found
    token ← require (env.token_codec.unmarshal data_bytes) unmarshal_failed
    reject_if (not token.mintable) not_mintable
    reject_if (not (sender.address == token.admin_address)) not_admin
    recipient ← read (λ w. get_or_create_account env p.to w.db)
    minted ←
        or_panic
          (set_token p.token_id (add_u64 (token_balance p.token_id recipient) p.amount) recipient)
    save_token env p.token_id (record token { total_supply = add_u64 token.total_supply p.amount })
    save_account env minted
    return sender

  unfoldable pub execute_transfer_token : TransferTokenPayload → Account → Action D Account
  execute_transfer_token p sender = do
    reject_if (ltb (token_balance p.token_id sender) p.amount) insufficient_token_balance
    recipient ← read (λ w. get_or_create_account env p.to w.db)
    paid ←
        or_panic (set_token p.token_id (sub_u64 (token_balance p.token_id sender) p.amount) sender)
    received ←
        or_panic
          (set_token p.token_id (add_u64 (token_balance p.token_id recipient) p.amount) recipient)
    save_account env paid
    save_account env received
    return paid

  -- the literal of `executeMintNFT`
  unfoldable pub nft_of : MintNftPayload → Nft
  nft_of p = record {
    collection_id = p.collection_id;
    nft_id = p.nft_id;
    owner = p.owner;
    metadata_uri = p.metadata_uri;
    attributes = p.attributes;
    metadata_hash = p.metadata_hash;
    is_burned = false;
    mint_height = env.round;
  }

  unfoldable pub execute_mint_nft : MintNftPayload → Account → Action D Account
  execute_mint_nft p sender = do
    stored ← read (λ w. data_of (env.get_collection p.collection_id w.db))
    data_bytes ← require stored collection_not_found
    collection ← require (env.collection_codec.unmarshal data_bytes) unmarshal_failed
    reject_if (not (sender.address == collection.admin_address)) not_admin
    nft_bytes ← require (env.nft_codec.marshal (nft_of p)) marshal_failed
    store (put_nft env.level_db p.collection_id p.nft_id nft_bytes)
    return sender

  -- `fmt.Sprintf("collection-%s-%d", …)`
  unfoldable pub collection_id_of : Account → Str
  collection_id_of sender =
      codes "collection-" ++ (sender.address ++ (codes "-" ++ decimal_i64 env.now))

  -- the literal of `executeCreateCollection`
  unfoldable pub collection_of : CreateCollectionPayload → Account → NftCollection
  collection_of p sender = record {
    collection_id = collection_id_of sender;
    name = p.name;
    symbol = p.symbol;
    admin_address = sender.address;
    metadata_uri = p.metadata_uri;
    is_mutable = p.is_mutable;
    total_supply = 0;
  }

  unfoldable pub execute_create_collection : CreateCollectionPayload → Account → Action D Account
  execute_create_collection p sender = do
    stored ← read (λ w. data_of (env.get_collection (collection_id_of sender) w.db))
    reject_if (elim stored [ none ↦ false | some _ ↦ true ]) collection_exists
    data_bytes ← require (env.collection_codec.marshal (collection_of p sender)) marshal_failed
    store (env.put_collection (collection_id_of sender) data_bytes)
    return sender

  -- `executeTransaction`
  unfoldable pub execute_transaction : Payload → Account → Action D Account
  execute_transaction (Payload.transfer p) sender = execute_transfer p sender
  execute_transaction (Payload.create_validator p) sender = execute_create_validator p sender
  execute_transaction (Payload.delegate_stake p) sender = execute_delegate_stake p sender
  execute_transaction (Payload.create_token p) sender = execute_create_token p sender
  execute_transaction (Payload.mint_token p) sender = execute_mint_token p sender
  execute_transaction (Payload.burn_token p) sender = env.burn_token p sender
  execute_transaction (Payload.transfer_token p) sender = execute_transfer_token p sender
  execute_transaction (Payload.create_collection p) sender = execute_create_collection p sender
  execute_transaction (Payload.mint_nft p) sender = execute_mint_nft p sender
  execute_transaction (Payload.transfer_nft p) sender = env.transfer_nft p sender
  execute_transaction Payload.other sender = reject unsupported_type

  -- `Execute`, of a transaction that may be nil
  unfoldable pub execute : Option Transaction → Action D (Unit {0})
  execute none = reject nil_transaction
  execute (some tx) = do
    reject_if (not (verify_transaction_signature env.crypto tx)) invalid_signature
    loaded ←
        read (λ w. load_account env (get_address_from_public_key env.sum256 tx.public_key) w.db)
    sender ← lift loaded
    reject_if (not (tx.nonce == add_u64 sender.nonce 1)) invalid_nonce
    reject_if (not (has_sufficient_balance sender tx.fee)) insufficient_fee
    after ← execute_transaction tx.payload sender
    save_account env (settle tx after)
