-- ===== src/Executor/Tests/Stakes.antt =====
-- Runs with delegations and the validators of the executor (pkg/state/executor.go) in memory.
use dagnet_crypto.Base.{
  split, ◌+◌, ◌≡◌, refl, sym, ◌∙◌, true, false, none, some, [], Str, codes, str_key, str_eq,
  nat_key, arith,
}
use dagnet_crypto.Text.{hex, hex_digit}
use dagnet_crypto.Map.{insert, lookup}
use dagnet_crypto.Pb.{Transaction, Payload, PbValidator}
use dagnet_crypto.Crypto.Address.{get_address_from_public_key}
use dagnet_crypto.Crypto.Sign.{verify_transaction_signature, verify_data}
use dagnet_crypto.Storage.Engine.{engine_get, engine_put}
use dagnet_crypto.Storage.Keys.{
  get_account, put_account, get_validator, put_validator, account_key, validator_key,
}
use dagnet_crypto.Executor.Monad.{
  World, done, ◌>>=◌, ◌>>◌, return, reject_if, require, lift, store, read, update,
}
use dagnet_crypto.Executor.Accounts.{
  load_account, get_or_create_account, save_account, load_validator, save_validator, settle,
}
use dagnet_crypto.Executor.Methods.{execute, execute_transaction, execute_delegate_stake}
use dagnet_crypto.Executor.Laws.{is_done, normal, load-save_validator}
use dagnet_crypto.Executor.Cases.{sender_of, IsAddressed}
use dagnet_crypto.Executor.Memory.{
  Memory, memory_env, memory_env-IsEnv, memory_get, put_str, get_str, put_entries, get_entries,
  encode_account, decode_account, encode_validator, get_texts, decode_validator,
}
use dagnet_crypto.Executor.Nonce.Saves.{save-IsAddressed}
use dagnet_crypto.Executor.Transfer.{balance_of}
use dagnet_crypto.Executor.Stake.{IsInStep, execute-IsInStep}
use dagnet_crypto.Executor.Effects.{delegate-free}
use dagnet_crypto.Executor.Tests.{alice, account, empty_world, tx, empty_world-IsAddressed}

abbrev some_validator : PbValidator
some_validator = record {
  address = codes "v";
  public_key = [];
  stake = 7;
  commission_rate = 0;
  max_commission_rate = 0;
  commission_change_rate = 0;
  moniker = [];
  identity = [];
  website = [];
  details = [];
  jailed = false;
  voting_power = 7;
}

abbrev staked : World Memory
staked =
    (save_account memory_env (account alice 100)
      (save_validator memory_env (codes "v") some_validator empty_world).1).1

staked-IsAddressed : IsAddressed memory_env staked.db
staked-IsAddressed =
    save-IsAddressed memory_env memory_env-IsEnv (account alice 100)
      (save_validator memory_env (codes "v") some_validator empty_world).1
      (λ a x l. empty_world-IsAddressed a x (
        sym
          (load-save_validator memory_env memory_env-IsEnv (codes "v") some_validator a empty_world)
        ∙ l))

abbrev delegation : Transaction
delegation = tx 10 (Payload.delegate_stake (record { validator_address = codes "v"; amount = 50 }))

delegation_succeeds : is_done (execute memory_env (some delegation) staked).0 ≡ true
unfolding execute execute_transaction execute_delegate_stake get_or_create_account
    verify_transaction_signature verify_data reject_if read lift return settle
    get_address_from_public_key hex hex_digit load_account get_account put_account engine_get
    engine_put account_key memory_get lookup insert save_account store require ◌>>=◌ ◌>>◌ str_eq
    encode_account decode_account put_str get_str split get_entries put_entries load_validator
    save_validator get_validator put_validator validator_key encode_validator decode_validator
    get_texts update
delegation_succeeds = refl

staked_sender :
    load_account memory_env (sender_of memory_env delegation) staked.db
    ≡ done (normal (account alice 100))
unfolding get_address_from_public_key hex hex_digit load_account get_account put_account engine_get
    engine_put account_key memory_get lookup insert save_account store require ◌>>=◌ ◌>>◌ str_eq
    encode_account decode_account put_str get_str split get_entries put_entries load_validator
    save_validator get_validator put_validator validator_key encode_validator decode_validator
    get_texts update
staked_sender = refl

staked_validator : load_validator memory_env (codes "v") staked.db ≡ some some_validator
unfolding get_address_from_public_key hex hex_digit load_account get_account put_account engine_get
    engine_put account_key memory_get lookup insert save_account store require ◌>>=◌ ◌>>◌ str_eq
    encode_account decode_account put_str get_str split get_entries put_entries load_validator
    save_validator get_validator put_validator validator_key encode_validator decode_validator
    get_texts update
staked_validator = refl

delegate-free_example :
    let after = (execute memory_env (some delegation) staked).1.db in
    (load_validator memory_env (codes "v") after ≡ some (record some_validator { stake = 57 }))
    × (balance_of memory_env (sender_of memory_env delegation) after + 10 ≡ 100)
delegate-free_example =
    delegate-free memory_env memory_env-IsEnv delegation
      (record { validator_address = codes "v"; amount = 50 }) (normal (account alice 100))
      some_validator staked refl staked-IsAddressed staked_sender staked_validator
      delegation_succeeds (omega arith)

abbrev creation : Transaction
creation = tx 10 (
    Payload.create_validator (record {
      validator_address = codes "v";
      public_key = [];
      commission_rate = 1;
      max_commission_rate = 2;
      commission_change_rate = 0;
      moniker = [];
      identity = [];
      website = [];
      details = [];
    }))

abbrev rich : World Memory
rich = (save_account memory_env (account alice 100000000000) empty_world).1

none_is_some : {A : Type 0} {c : A} → none ≡ some c → ⊥
none_is_some e = cc

nothing_registered : (a : Str) → none ≡ lookup a rich.validators
unfolding lookup save_account store require ◌>>=◌ put_account
nothing_registered a = refl

rich-IsInStep : IsInStep memory_env rich
rich-IsInStep a c l = absurd (none_is_some (nothing_registered a ∙ l))

execute-IsInStep_example : IsInStep memory_env (execute memory_env (some creation) rich).1
execute-IsInStep_example =
    execute-IsInStep memory_env memory_env-IsEnv creation rich refl rich-IsInStep
