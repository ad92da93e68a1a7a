-- ===== src/Executor/Tests.antt =====
-- Runs of the executor (pkg/state/executor.go) in memory, and its theorems at such runs.
mod Stakes
mod Tokens
use dagnet_crypto.Base.{
  split, ℕ, zero, suc, ◌+◌, ◌≡◌, ◌≢◌, refl, sym, true, false, some, [], ◌∷◌, Str, codes, str_key,
  str_eq, nat_key, ◌==◌, if◌then◌else◌, arith,
}
use dagnet_crypto.Text.{hex, hex_digit}
use dagnet_crypto.Map.{insert, lookup}
use dagnet_crypto.Pb.{Transaction, Payload, TransferPayload}
use dagnet_crypto.Crypto.Address.{get_address_from_public_key}
use dagnet_crypto.Crypto.Sign.{verify_transaction_signature, verify_data}
use dagnet_crypto.Storage.Engine.{engine_get, engine_put}
use dagnet_crypto.Storage.Keys.{get_account, put_account, account_key}
use dagnet_crypto.Executor.Monad.{
  Account, World, done, ◌>>=◌, ◌>>◌, return, reject_if, require, lift, store, read,
}
use dagnet_crypto.Executor.Accounts.{
  load_account, get_or_create_account, save_account, settle, new_account, debit, credit,
}
use dagnet_crypto.Executor.Methods.{execute, execute_transaction, execute_transfer}
use dagnet_crypto.Executor.Laws.{is_done, normal}
use dagnet_crypto.Executor.Cases.{sender_of, IsAddressed}
use dagnet_crypto.Executor.Memory.{
  Memory, memory_env, memory_env-IsEnv, memory_get, put_str, get_str, put_entries, get_entries,
  encode_account, decode_account,
}
use dagnet_crypto.Executor.Nonce.Saves.{save-IsAddressed}
use dagnet_crypto.Executor.Nonce.Replay.{execute_list, executed_once}
use dagnet_crypto.Executor.Transfer.{
  balance_of, transfer-accounts, transfer-conserves, self_transfer-loses,
}

abbrev zeros : ℕ → Str
zeros zero = []
zeros (suc n) = 0 ∷ zeros n

abbrev pub alice : Str
alice = codes "ndag0000000000000000"

abbrev pub account : Str → ℕ → Account
account address balance = record (new_account address) { balance = balance }

abbrev pub empty_world : World Memory
empty_world = record { db = []; validators = [] }

abbrev start : World Memory
start =
    (save_account memory_env (account (codes "bob") 5)
      (save_account memory_env (account alice 100) empty_world).1).1

pub empty_world-IsAddressed : IsAddressed memory_env empty_world.db
unfolding load_account get_account engine_get memory_get lookup
empty_world-IsAddressed a x l = cc

start-IsAddressed : IsAddressed memory_env start.db
start-IsAddressed =
    save-IsAddressed memory_env memory_env-IsEnv (account (codes "bob") 5)
      (save_account memory_env (account alice 100) empty_world).1
      (save-IsAddressed memory_env memory_env-IsEnv (account alice 100) empty_world
        empty_world-IsAddressed)

abbrev pub tx : ℕ → Payload → Transaction
tx fee payload = record {
  id = [];
  chain_id = [];
  network_id = [];
  nonce = 1;
  fee = fee;
  gas_limit = 0;
  timestamp = 0;
  payload = payload;
  signature = zeros 64;
  public_key = zeros 32;
}

abbrev pay : Str → ℕ → TransferPayload
pay to amount = record { to = to; amount = amount }

sender_is_alice : sender_of memory_env (tx 1 Payload.other) ≡ alice
unfolding get_address_from_public_key hex hex_digit str_eq
sender_is_alice = refl

loaded_alice : load_account memory_env alice start.db ≡ done (normal (account alice 100))
unfolding load_account get_account put_account engine_get engine_put account_key memory_get lookup
    insert save_account store require ◌>>=◌ ◌>>◌ str_eq encode_account decode_account put_str
    get_str split get_entries put_entries
loaded_alice = refl

abbrev transfer_to_bob : Transaction
transfer_to_bob = tx 10 (Payload.transfer (pay (codes "bob") 20))

transfer_succeeds : is_done (execute memory_env (some transfer_to_bob) start).0 ≡ true
unfolding execute execute_transaction execute_transfer get_or_create_account
    verify_transaction_signature verify_data reject_if read lift return settle
    get_address_from_public_key hex hex_digit load_account get_account put_account engine_get
    engine_put account_key memory_get lookup insert save_account store require ◌>>=◌ ◌>>◌ str_eq
    encode_account decode_account put_str get_str split get_entries put_entries
transfer_succeeds = refl

loaded_sender :
    load_account memory_env (sender_of memory_env transfer_to_bob) start.db
    ≡ done (normal (account alice 100))
unfolding get_address_from_public_key hex hex_digit str_eq
loaded_sender = loaded_alice

transfer-accounts_example :
    load_account memory_env (codes "bob") (execute memory_env (some transfer_to_bob) start).1.db ≡ (
      if sender_of memory_env transfer_to_bob == codes "bob"
      then done (normal (settle transfer_to_bob (debit 20 (normal (account alice 100)))))
      else if codes "bob" == codes "bob"
      then done (normal (credit 20 (get_or_create_account memory_env (codes "bob") start.db)))
      else load_account memory_env (codes "bob") start.db)
transfer-accounts_example =
    transfer-accounts memory_env memory_env-IsEnv transfer_to_bob (pay (codes "bob") 20)
      (normal (account alice 100)) start (codes "bob") refl start-IsAddressed loaded_sender
      transfer_succeeds

bob_has_five : balance_of memory_env (codes "bob") start.db ≡ 5
unfolding get_address_from_public_key hex hex_digit load_account get_account put_account engine_get
    engine_put account_key memory_get lookup insert save_account store require ◌>>=◌ ◌>>◌ str_eq
    encode_account decode_account put_str get_str split get_entries put_entries
    get_or_create_account
bob_has_five = refl

bob_is_other : codes "bob" ≢ sender_of memory_env transfer_to_bob
unfolding get_address_from_public_key hex hex_digit str_eq
bob_is_other e = cc

transfer-conserves_example :
    let after = (execute memory_env (some transfer_to_bob) start).1.db in
    (balance_of memory_env (sender_of memory_env transfer_to_bob) after + 30
      ≡ balance_of memory_env (sender_of memory_env transfer_to_bob) start.db)
    × (balance_of memory_env (codes "bob") after
        ≡ balance_of memory_env (codes "bob") start.db + 20)
transfer-conserves_example =
    transfer-conserves memory_env memory_env-IsEnv transfer_to_bob (pay (codes "bob") 20)
      (normal (account alice 100)) start refl start-IsAddressed loaded_sender transfer_succeeds
      bob_is_other (omega arith) (omega arith) (omega (arith, bob_has_five))

abbrev to_self : Transaction
to_self = tx 10 (Payload.transfer (pay alice 20))

to_self_succeeds : is_done (execute memory_env (some to_self) start).0 ≡ true
unfolding execute execute_transaction execute_transfer get_or_create_account
    verify_transaction_signature verify_data reject_if read lift return settle
    get_address_from_public_key hex hex_digit load_account get_account put_account engine_get
    engine_put account_key memory_get lookup insert save_account store require ◌>>=◌ ◌>>◌ str_eq
    encode_account decode_account put_str get_str split get_entries put_entries
to_self_succeeds = refl

self_transfer-loses_example :
    balance_of memory_env alice (execute memory_env (some to_self) start).1.db + 30 ≡ 100
self_transfer-loses_example =
    self_transfer-loses memory_env memory_env-IsEnv to_self (pay alice 20)
      (normal (account alice 100)) start refl start-IsAddressed loaded_sender to_self_succeeds
      (sym sender_is_alice) (omega arith) (omega arith)

executed_once_example :
    is_done
      (execute memory_env (some transfer_to_bob) (
        execute_list memory_env
          (to_self ∷ [])
          (execute memory_env (some transfer_to_bob) start).1)).0
    ≡ false
executed_once_example =
    executed_once memory_env memory_env-IsEnv transfer_to_bob (to_self ∷ []) start refl (refl, tt)
      start-IsAddressed transfer_succeeds (omega arith)
