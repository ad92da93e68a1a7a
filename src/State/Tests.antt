-- ===== src/State/Tests.antt =====
-- `StateMachine` on concrete inputs, and the theorems about it at such inputs.
use dagnet_crypto.Base.{
  ◌≤◌, if◌then◌else◌, ◌&&◌, ◌==◌, ℕ, ◌+◌, ◌≡◌, refl, false, [], ◌∷◌, Str, codes, str_key, str_eq,
  str_eq_iff, arith,
}
use dagnet_crypto.Map.{lookup, insert, modify, contains}
use dagnet_crypto.Map.Sum.{sum_by}
use dagnet_crypto.Pb.{Transaction, Payload}
use dagnet_crypto.State.Monad.{err, State, Error, ok, err}
use dagnet_crypto.State.Defs.{
  new_account, ensure, on_account, deref, transaction_value, verify_transaction, execute_transfer,
  dispatch, execute_transaction, execute_all,
}
use dagnet_crypto.State.Accounts.{total}
use dagnet_crypto.State.Wealth.{wealth, charged, execute_transaction-wealth}
use dagnet_crypto.State.Nonce.{nonce_of, is_transfer, execute_transaction-nonce, no_replay}
use dagnet_crypto.State.Overflow.{transfer_overflow_mints}
use dagnet_crypto.State.Supply.{IsBacked, execute_all-IsBacked}
use dagnet_crypto.State.Ownership.{IsOwned, execute_all-IsOwned, count}

abbrev alice : Str
alice = codes "alice"

abbrev bob : Str
bob = codes "bob"

abbrev gold : Str
gold = codes "gold"

-- alice has 5000 coins, 10 of the token gold, and the NFT "c-n".
abbrev start : State
start = record {
  accounts =
      (
        alice,
        record (new_account alice) {
          balance = 5000;
          tokens = (gold, 10) ∷ [];
          nfts = codes "c-n" ∷ [];
        },
      )
      ∷ [];
  tokens =
      (
        gold,
        record {
          token_id = gold;
          name = gold;
          symbol = gold;
          decimals = 0;
          total_supply = 10;
          admin_address = alice;
          mintable = false;
          burnable = false;
          metadata_uri = [];
          pausable = false;
          blacklistable = false;
          paused = false;
          blacklisted_addresses = [];
        },
      )
      ∷ [];
  nfts =
      (
        codes "c-n",
        record {
          collection_id = codes "c";
          nft_id = codes "n";
          owner = alice;
          metadata_uri = [];
          attributes = [];
          metadata_hash = [];
          is_burned = false;
          mint_height = 1;
        },
      )
      ∷ [];
  validators = [];
}

abbrev transaction : ℕ → ℕ → Payload → Transaction
transaction nonce fee payload = record {
  id = codes "t";
  chain_id = [];
  network_id = [];
  nonce = nonce;
  fee = fee;
  gas_limit = 1;
  timestamp = 0;
  payload = payload;
  signature = [];
  public_key = alice;
}

abbrev pay : Transaction
pay = transaction 1 1000 (Payload.transfer (record { to = bob; amount = 300 }))

abbrev give : Transaction
give =
    transaction 1 1000 (Payload.transfer_token (record { token_id = gold; to = bob; amount = 4 }))

abbrev hand_over : Transaction
hand_over =
    transaction 2 1000
      (Payload.transfer_nft (record { collection_id = codes "c"; nft_id = codes "n"; to = bob }))

pay_moves :
    let (r, s) = execute_transaction pay start in
    (r ≡ ok tt)
    × ((deref alice s).balance ≡ 3700)
    × ((deref bob s).balance ≡ 300)
    × (nonce_of alice s ≡ 1)
unfolding execute_transaction verify_transaction dispatch execute_transfer ensure on_account deref
    transaction_value lookup insert modify contains str_eq
pay_moves = (refl, refl, refl, refl)

execute_transaction-wealth_example :
    let (r, s') = execute_transaction pay start in
    wealth s' + charged r pay.payload 1000 ≡ wealth start
execute_transaction-wealth_example =
    execute_transaction-wealth pay start (omega arith) (unfold total sum_by in omega arith)

no_replay_example :
    let s' = execute_all (give ∷ []) (execute_transaction pay start).1 in
    (e : Error) × (execute_transaction pay s' ≡ (err e, s'))
unfolding execute_transaction verify_transaction dispatch execute_transfer ensure on_account deref
    transaction_value lookup insert modify contains str_eq
no_replay_example = no_replay pay (give ∷ []) pay start refl refl refl (omega arith)

-- amount and fee add up to 2^64
abbrev wrapping : Transaction
wrapping =
    transaction 1 1000 (Payload.transfer (record { to = bob; amount = 18446744073709550616 }))

transfer_overflow_mints_example :
    let (r, s') = execute_transaction wrapping start in
    (r ≡ ok tt)
    × ((deref alice s').balance ≡ (deref alice start).balance)
    × ((deref bob s').balance ≡ (deref bob start).balance + 18446744073709550616)
unfolding deref lookup contains str_eq
transfer_overflow_mints_example =
    transfer_overflow_mints wrapping (record { to = bob; amount = 18446744073709550616 }) start refl
      refl (omega arith) (omega arith) (omega arith) (ground (arith, str_eq_iff bob alice))
      (omega arith) (omega arith)

start-IsBacked : IsBacked start
unfolding total sum_by lookup str_eq
start-IsBacked id = ground (arith, str_eq_iff gold id)

execute_all-IsBacked_example : IsBacked (execute_all (pay ∷ give ∷ hand_over ∷ []) start)
execute_all-IsBacked_example =
    execute_all-IsBacked (pay ∷ give ∷ hand_over ∷ []) start (tt, (tt, (tt, tt))) start-IsBacked

start-IsOwned : IsOwned start
unfolding lookup count deref
start-IsOwned id k = ground (arith, str_eq_iff (codes "c-n") id, str_eq_iff alice k)

execute_all-IsOwned_example : IsOwned (execute_all (pay ∷ give ∷ hand_over ∷ []) start)
execute_all-IsOwned_example = execute_all-IsOwned (pay ∷ give ∷ hand_over ∷ []) start start-IsOwned

execute_transaction-nonce_example :
    let (r, s') = execute_transaction pay start in
    (nonce_of alice s' ≡ (elim r [
      | ok _ ↦
          if is_transfer pay.payload && pay.public_key == alice then 1 else nonce_of alice start
      | err _ ↦ nonce_of alice start
    ]))
    × (nonce_of alice start ≤ nonce_of alice s')
execute_transaction-nonce_example = execute_transaction-nonce pay start alice
