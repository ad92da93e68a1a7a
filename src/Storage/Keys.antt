-- ===== src/Storage/Keys.antt =====
-- `Store` and the stores of its parts (pkg/storage/storage.go): all share one database, under keys with
-- a prefix for each.
use dagnet_crypto.Base.{Bool, Option, ◌++◌, Str, codes}
use dagnet_crypto.Storage.Engine.{LevelDb, Read, engine_get, engine_put, engine_has}

unfoldable pub event_key : Str → Str
event_key id = codes "event:" ++ id

unfoldable pub tx_key : Str → Str
tx_key id = codes "tx:" ++ id

unfoldable pub account_key : Str → Str
account_key address = codes "account:" ++ address

unfoldable pub token_key : Str → Str
token_key id = codes "token:" ++ id

unfoldable pub nft_key : Str → Str → Str
nft_key collection_id nft_id = codes "nft:" ++ (collection_id ++ (codes ":" ++ nft_id))

unfoldable pub validator_key : Str → Str
validator_key address = codes "validator:" ++ address

module _ {D : Type 0} (db : LevelDb D) where
  -- `Store.GetEvent` and `EventStore.Get`, `Store.PutEvent` and `EventStore.Put`, `EventStore.Has`
  unfoldable pub get_event : Str → D → Read
  unfolding engine_get
  get_event id d = engine_get db (event_key id) d

  unfoldable pub put_event : Str → Str → D → Bool × D
  unfolding engine_put
  put_event id v d = engine_put db (event_key id) v d

  unfoldable pub has_event : Str → D → Option Bool
  unfolding engine_has
  has_event id d = engine_has db (event_key id) d

  -- `Store.GetTransaction`, `Store.PutTransaction`
  unfoldable pub get_transaction : Str → D → Read
  unfolding engine_get
  get_transaction id d = engine_get db (tx_key id) d

  unfoldable pub put_transaction : Str → Str → D → Bool × D
  unfolding engine_put
  put_transaction id v d = engine_put db (tx_key id) v d

  -- `StateStore`
  unfoldable pub get_account : Str → D → Read
  unfolding engine_get
  get_account address d = engine_get db (account_key address) d

  unfoldable pub put_account : Str → Str → D → Bool × D
  unfolding engine_put
  put_account address v d = engine_put db (account_key address) v d

  -- `TokenStore`
  unfoldable pub get_token : Str → D → Read
  unfolding engine_get
  get_token id d = engine_get db (token_key id) d

  unfoldable pub put_token : Str → Str → D → Bool × D
  unfolding engine_put
  put_token id v d = engine_put db (token_key id) v d

  -- `NFTStore`
  unfoldable pub get_nft : Str → Str → D → Read
  unfolding engine_get
  get_nft collection_id nft_id d = engine_get db (nft_key collection_id nft_id) d

  unfoldable pub put_nft : Str → Str → Str → D → Bool × D
  unfolding engine_put
  put_nft collection_id nft_id v d = engine_put db (nft_key collection_id nft_id) v d

  -- `ValidatorStore`
  unfoldable pub get_validator : Str → D → Read
  unfolding engine_get
  get_validator address d = engine_get db (validator_key address) d

  unfoldable pub put_validator : Str → Str → D → Bool × D
  unfolding engine_put
  put_validator address v d = engine_put db (validator_key address) v d
