-- ===== src/Executor/Tests/Tokens.antt =====
-- Runs with the creation and the transfer of tokens of the executor (pkg/state/executor.go) in memory.
use dagnet_crypto.Base.{
  split, ◌≤◌, ◌≡◌, inl, refl, true, some, [], ◌∷◌, codes, str_key, str_eq, nat_key, arith,
}
use dagnet_crypto.Text.{hex, hex_digit}
use dagnet_crypto.Map.{insert, lookup}
use dagnet_crypto.Pb.{Payload, CreateTokenPayload}
use dagnet_crypto.Crypto.Address.{get_address_from_public_key}
use dagnet_crypto.Crypto.Sign.{verify_transaction_signature, verify_data}
use dagnet_crypto.Storage.Engine.{engine_get, engine_put}
use dagnet_crypto.Storage.Keys.{
  get_account, put_account, get_token, put_token, account_key, token_key,
}
use dagnet_crypto.Executor.Monad.{
  Account, World, done, panicked, ◌>>=◌, ◌>>◌, return, reject_if, require, or_panic, lift, store,
  read,
}
use dagnet_crypto.Executor.Accounts.{
  load_account, get_or_create_account, save_account, save_token, settle, token_balance,
}
use dagnet_crypto.Executor.Methods.{
  execute, execute_transaction, execute_create_token, execute_transfer_token,
}
use dagnet_crypto.Executor.Laws.{is_done, normal}
use dagnet_crypto.Executor.Cases.{sender_of}
use dagnet_crypto.Executor.Memory.{
  Memory, memory_env, memory_env-IsEnv, memory_get, put_str, get_str, put_entries, get_entries,
  encode_account, decode_account,
}
use dagnet_crypto.Executor.Nonce.Saves.{save-IsAddressed}
use dagnet_crypto.Executor.Effects.{issue_to_self, first_token_panics}
use dagnet_crypto.Executor.Tests.{alice, account, empty_world, tx, empty_world-IsAddressed}

-- alice has a token of her own
abbrev holder : Account
holder = record (account alice 100) { tokens = some ((codes "g", 1) ∷ []) }

abbrev held_world : World Memory
held_world = (save_account memory_env holder empty_world).1

abbrev gold : CreateTokenPayload
gold = record {
  token_id = codes "a";
  name = [];
  symbol = [];
  decimals = 0;
  initial_supply = 1000;
  admin_address = alice;
  metadata_uri = [];
  mintable = true;
  burnable = true;
  pausable = true;
  blacklistable = true;
}

gold_succeeds :
    is_done (execute memory_env (some (tx 10 (Payload.create_token gold))) held_world).0 ≡ true
unfolding execute execute_transaction execute_create_token get_or_create_account
    verify_transaction_signature verify_data reject_if read lift return settle
    get_address_from_public_key hex hex_digit load_account get_account put_account engine_get
    engine_put account_key memory_get lookup insert save_account store require ◌>>=◌ ◌>>◌ str_eq
    encode_account decode_account put_str get_str split get_entries put_entries or_panic save_token
    put_token get_token token_key
gold_succeeds = refl

held_sender :
    load_account memory_env (sender_of memory_env (tx 10 (Payload.create_token gold))) held_world.db
    ≡ done holder
unfolding get_address_from_public_key hex hex_digit load_account get_account put_account engine_get
    engine_put account_key memory_get lookup insert save_account store require ◌>>=◌ ◌>>◌ str_eq
    encode_account decode_account put_str get_str split get_entries put_entries
held_sender = refl

issue_to_self_example :
    load_account memory_env
      (sender_of memory_env (tx 10 (Payload.create_token gold)))
      (execute memory_env (some (tx 10 (Payload.create_token gold))) held_world).1.db
    ≡ done (normal (settle (tx 10 (Payload.create_token gold)) holder))
issue_to_self_example =
    issue_to_self memory_env memory_env-IsEnv (tx 10 (Payload.create_token gold)) holder held_world
      (inl (gold, refl))
      (save-IsAddressed memory_env memory_env-IsEnv holder empty_world empty_world-IsAddressed)
      held_sender gold_succeeds

bob_saved : is_done (save_account memory_env (account (codes "bob") 5) empty_world).0 ≡ true
unfolding save_account store require ◌>>=◌ put_account engine_put
bob_saved = refl

holder_has_gold : 1 ≤ token_balance (codes "g") holder
unfolding lookup str_eq
holder_has_gold = omega arith

first_token_panics_example :
    (execute_transfer_token memory_env
      (record { token_id = codes "g"; to = codes "bob"; amount = 1 })
      holder
      (save_account memory_env (account (codes "bob") 5) empty_world).1).0
    ≡ panicked
first_token_panics_example =
    first_token_panics memory_env memory_env-IsEnv (account (codes "bob") 5) holder
      (record { token_id = codes "g"; to = codes "bob"; amount = 1 }) empty_world refl bob_saved
      refl holder_has_gold
