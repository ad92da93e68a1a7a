-- ===== src/State/Maps.antt =====
-- Which methods of `StateMachine` leave the token map or the NFT map alone.
use dagnet_crypto.Base.{ℕ, ◌≡◌, ◌⊎◌, Str, arith}
use dagnet_crypto.Pb.{
  Transaction, TransferPayload, CreateTokenPayload, TransferTokenPayload, MintNftPayload,
  TransferNftPayload, CreateValidatorPayload, DelegateStakePayload,
}
use dagnet_crypto.State.Monad.{State}
use dagnet_crypto.State.Defs.{
  ensure, on_account, pay_fee, execute_transfer, execute_create_token, execute_transfer_token,
  execute_mint_nft, execute_transfer_nft, execute_create_validator, execute_delegate_stake,
  register_token, register_nft, set_owner, register_validator, raise_stake, verify_transaction,
  dispatch, execute_transaction,
}

-- both maps are as before
pub record SameMaps (s t : State) : Type 0 where
  pub tokens : t.tokens ≡ s.tokens
  pub nfts : t.nfts ≡ s.nfts

pub pay_fee-SameMaps : (a : Str) (fee : ℕ) (s : State) → SameMaps s (pay_fee a fee s).1
unfolding pay_fee on_account
pay_fee-SameMaps a fee s = ground arith

pub transfer-SameMaps :
    (tx : Transaction) (p : TransferPayload) (s : State) → SameMaps s (execute_transfer tx p s).1
unfolding execute_transfer ensure on_account
transfer-SameMaps tx p s = ground arith

pub transfer_token-SameMaps :
    (tx : Transaction) (p : TransferTokenPayload) (s : State)
    → SameMaps s (execute_transfer_token tx p s).1
unfolding execute_transfer_token ensure on_account
transfer_token-SameMaps tx p s = ground arith

pub mint_nft-tokens :
    (tx : Transaction) (p : MintNftPayload) (s : State)
    → (execute_mint_nft tx p s).1.tokens ≡ s.tokens
unfolding execute_mint_nft ensure on_account register_nft
mint_nft-tokens tx p s = ground arith

pub transfer_nft-tokens :
    (tx : Transaction) (p : TransferNftPayload) (s : State)
    → (execute_transfer_nft tx p s).1.tokens ≡ s.tokens
unfolding execute_transfer_nft ensure on_account set_owner
transfer_nft-tokens tx p s = ground arith

pub create_token-nfts :
    (tx : Transaction) (p : CreateTokenPayload) (s : State)
    → (execute_create_token tx p s).1.nfts ≡ s.nfts
unfolding execute_create_token ensure on_account register_token
create_token-nfts tx p s = ground arith

pub create_validator-SameMaps :
    (tx : Transaction) (p : CreateValidatorPayload) (s : State)
    → SameMaps s (execute_create_validator tx p s).1
unfolding execute_create_validator ensure on_account register_validator
create_validator-SameMaps tx p s = ground arith

pub delegate_stake-SameMaps :
    (tx : Transaction) (p : DelegateStakePayload) (s : State)
    → SameMaps s (execute_delegate_stake tx p s).1
unfolding execute_delegate_stake ensure on_account raise_stake
delegate_stake-SameMaps tx p s = ground arith

-- `ExecuteTransaction` leaves the state alone, where it refuses the transaction, or as the payload's
-- method does.
pub execute_transaction-state :
    (tx : Transaction) (s : State)
    → ((execute_transaction tx s).1 ≡ s)
      ⊎ ((execute_transaction tx s).1 ≡ (dispatch tx tx.payload s).1)
unfolding execute_transaction verify_transaction
execute_transaction-state tx s = ground arith
