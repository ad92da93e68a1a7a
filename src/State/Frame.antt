-- ===== src/State/Frame.antt =====
-- What each method of `StateMachine` leaves alone: a number `f` that it reads off an account is the
-- same for every account `k`, and in sum, if `f` ignores the fields that the method writes.
use dagnet_crypto.Base.{
  ℕ, ◌≡◌, refl, ap, Str, List, str_key, str_eq_iff, arith, inl, inr, Bool-cases, add_u64,
}
use dagnet_crypto.Map.{Map, insert, contains}
use dagnet_crypto.Pb.{
  Transaction, TransferPayload, CreateTokenPayload, TransferTokenPayload, MintNftPayload,
  TransferNftPayload, CreateValidatorPayload, DelegateStakePayload,
}
use dagnet_crypto.State.Monad.{AccountState, State}
use dagnet_crypto.State.Defs.{
  new_account, ensure, on_account, deref, debit, credit, debit_token, credit_token, pay_fee,
  execute_transfer, execute_create_token, execute_transfer_token, execute_mint_nft,
  execute_transfer_nft, execute_create_validator, execute_delegate_stake, register_token,
  register_nft, set_owner, register_validator, raise_stake, append_nft, drop_nft, nft_key,
}
use dagnet_crypto.State.Accounts.{
  total, deref-ensure, total-ensure, deref-on_account, total-on_account, same-deref, same-total,
  register_token-accounts, register_nft-accounts, set_owner-accounts, register_validator-accounts,
  raise_stake-accounts, on_account_unknown,
}

module _ (f : AccountState → ℕ) (k : Str) where
  -- `t` has `f` of account `k`, and the sum of `f`, as `s` has them
  pub record Same (s t : State) : Type 0 where
    pub point : f (deref k t) ≡ f (deref k s)
    pub sum : total f t ≡ total f s

  pub Same-accounts : {s t : State} → t.accounts ≡ s.accounts → Same s t
  Same-accounts {s} {t} e = record { point = ap f (same-deref t s e k); sum = same-total t s e f }

  pub Same-ensure : (a : Str) (s : State) → f (new_account a) ≡ 0 → Same s (ensure a s)
  Same-ensure a s h = record { point = ap f (deref-ensure a k s); sum = total-ensure f a s h }

  pub Same-on_account :
      (a : Str) (g : AccountState → AccountState) (s : State)
      → f (g (deref a s)) ≡ f (deref a s)
      → Same s (on_account a g s)
  Same-on_account a g s h = elim (Bool-cases (contains a s.accounts)) [
    | inl known ↦
        ground
          (arith, deref-on_account a g s k known, total-on_account a g s f known, str_eq_iff a k)
    | inr missing ↦ rw (on_account_unknown a g s missing) (record { point = refl; sum = refl })
  ]

-- `f` sees nothing of a field.
abbrev pub IgnoresBalance : (AccountState → ℕ) → Type 0
IgnoresBalance f = (v : AccountState) (x : ℕ) → f (record v { balance = x }) ≡ f v

abbrev pub IgnoresNonce : (AccountState → ℕ) → Type 0
IgnoresNonce f = (v : AccountState) (x : ℕ) → f (record v { nonce = x }) ≡ f v

abbrev pub IgnoresTokens : (AccountState → ℕ) → Type 0
IgnoresTokens f = (v : AccountState) (x : Map Str ℕ) → f (record v { tokens = x }) ≡ f v

abbrev pub IgnoresNfts : (AccountState → ℕ) → Type 0
IgnoresNfts f = (v : AccountState) (x : List Str) → f (record v { nfts = x }) ≡ f v

abbrev pub IgnoresStake : (AccountState → ℕ) → Type 0
IgnoresStake f =
    (v : AccountState) (x : ℕ) (y : Str) → f (record v { delegated = x; validator = y }) ≡ f v

module _ (f : AccountState → ℕ) (k : Str) (start : (a : Str) → f (new_account a) ≡ 0) where
  pub pay_fee-Same :
      IgnoresBalance f → (a : Str) (fee : ℕ) (s : State) → Same f k s (pay_fee a fee s).1
  unfolding pay_fee
  pay_fee-Same b a fee s = ground (arith, Same-on_account f k a (debit fee) s (b (deref a s) _))

  pub transfer-Same :
      IgnoresBalance f
      → IgnoresNonce f
      → (tx : Transaction) (p : TransferPayload) (s : State)
      → Same f k s (execute_transfer tx p s).1
  unfolding execute_transfer
  transfer-Same b n tx p s =
      let a = tx.public_key in
      let x = add_u64 p.amount tx.fee in
      let s₁ = ensure p.to s in
      let s₂ = on_account a (debit x) s₁ in
      let s₃ = on_account p.to (credit p.amount) s₂ in
      let e₁ = Same-ensure f k p.to s (start p.to) in
      let e₂ = Same-on_account f k a (debit x) s₁ (b (deref a s₁) _) in
      let e₃ = Same-on_account f k p.to (credit p.amount) s₂ (b (deref p.to s₂) _) in
      let e₄ =
        Same-on_account f k a (λ v. record v { nonce = tx.nonce }) s₃ (n (deref a s₃) tx.nonce) in
      ground arith

  pub create_token-Same :
      IgnoresTokens f
      → (tx : Transaction) (p : CreateTokenPayload) (s : State)
      → Same f k s (execute_create_token tx p s).1
  unfolding execute_create_token
  create_token-Same t tx p s =
      let a = p.admin_address in
      let s₁ = register_token p s in
      let s₂ = ensure a s₁ in
      let e₁ = Same-accounts f k {s = s} {t = s₁} (register_token-accounts p s) in
      let e₂ = Same-ensure f k a s₁ (start a) in
      let e₃ =
        Same-on_account f k a
          (λ v. record v { tokens = insert p.token_id p.initial_supply v.tokens }) s₂
          (t (deref a s₂) _) in
      ground arith

  pub transfer_token-Same :
      IgnoresBalance f
      → IgnoresTokens f
      → (tx : Transaction) (p : TransferTokenPayload) (s : State)
      → Same f k s (execute_transfer_token tx p s).1
  unfolding execute_transfer_token
  transfer_token-Same b t tx p s =
      let a = tx.public_key in
      let g = debit_token p.token_id p.amount in
      let h = credit_token p.token_id p.amount in
      let s₁ = ensure a s in
      let s₂ = ensure p.to s₁ in
      let s₃ = on_account a g s₂ in
      let s₄ = on_account p.to h s₃ in
      let e₁ = Same-ensure f k a s (start a) in
      let e₂ = Same-ensure f k p.to s₁ (start p.to) in
      let e₃ = Same-on_account f k a g s₂ (t (deref a s₂) _) in
      let e₄ = Same-on_account f k p.to h s₃ (t (deref p.to s₃) _) in
      let e₅ = pay_fee-Same b a tx.fee s₄ in ground arith

  pub mint_nft-Same :
      IgnoresBalance f
      → IgnoresNfts f
      → (tx : Transaction) (p : MintNftPayload) (s : State) → Same f k s (execute_mint_nft tx p s).1
  unfolding execute_mint_nft
  mint_nft-Same b n tx p s =
      let id = nft_key p.collection_id p.nft_id in
      let a = tx.public_key in
      let s₁ = register_nft id p s in
      let s₂ = ensure p.owner s₁ in
      let s₃ = on_account p.owner (append_nft id) s₂ in
      let s₄ = ensure a s₃ in
      let e₁ = Same-accounts f k {s = s} {t = s₁} (register_nft-accounts id p s) in
      let e₂ = Same-ensure f k p.owner s₁ (start p.owner) in
      let e₃ = Same-on_account f k p.owner (append_nft id) s₂ (n (deref p.owner s₂) _) in
      let e₄ = Same-ensure f k a s₃ (start a) in let e₅ = pay_fee-Same b a tx.fee s₄ in ground arith

  pub transfer_nft-Same :
      IgnoresBalance f
      → IgnoresNfts f
      → (tx : Transaction) (p : TransferNftPayload) (s : State)
      → Same f k s (execute_transfer_nft tx p s).1
  unfolding execute_transfer_nft
  transfer_nft-Same b n tx p s =
      let id = nft_key p.collection_id p.nft_id in
      let a = tx.public_key in
      let s₁ = ensure a s in
      let s₂ = ensure p.to s₁ in
      let s₃ = set_owner id p.to s₂ in
      let s₄ = on_account a (drop_nft id) s₃ in
      let s₅ = on_account p.to (append_nft id) s₄ in
      let e₁ = Same-ensure f k a s (start a) in
      let e₂ = Same-ensure f k p.to s₁ (start p.to) in
      let e₃ = Same-accounts f k {s = s₂} {t = s₃} (set_owner-accounts id p.to s₂) in
      let e₄ = Same-on_account f k a (drop_nft id) s₃ (n (deref a s₃) _) in
      let e₅ = Same-on_account f k p.to (append_nft id) s₄ (n (deref p.to s₄) _) in
      let e₆ = pay_fee-Same b a tx.fee s₅ in ground arith

  pub create_validator-Same :
      IgnoresBalance f
      → (tx : Transaction) (p : CreateValidatorPayload) (s : State)
      → Same f k s (execute_create_validator tx p s).1
  unfolding execute_create_validator
  create_validator-Same b tx p s =
      let a = tx.public_key in
      let s₁ = register_validator p s in
      let s₂ = ensure a s₁ in
      let e₁ = Same-accounts f k {s = s} {t = s₁} (register_validator-accounts p s) in
      let e₂ = Same-ensure f k a s₁ (start a) in let e₃ = pay_fee-Same b a tx.fee s₂ in ground arith

  pub delegate_stake-Same :
      IgnoresBalance f
      → IgnoresStake f
      → (tx : Transaction) (p : DelegateStakePayload) (s : State)
      → Same f k s (execute_delegate_stake tx p s).1
  unfolding execute_delegate_stake
  delegate_stake-Same b d tx p s =
      let a = tx.public_key in
      let x = add_u64 p.amount tx.fee in
      let g = λ (v : AccountState). record v { delegated = add_u64 v.delegated p.amount } in
      let h = λ (v : AccountState). record v { validator = p.validator_address } in
      let s₁ = ensure a s in
      let s₂ = on_account a (debit x) s₁ in
      let s₃ = on_account a g s₂ in
      let s₄ = on_account a h s₃ in
      let s₅ = raise_stake p.validator_address p.amount s₄ in
      let e₁ = Same-ensure f k a s (start a) in
      let e₂ = Same-on_account f k a (debit x) s₁ (b (deref a s₁) _) in
      let e₃ = Same-on_account f k a g s₂ (d (deref a s₂) _ (deref a s₂).validator) in
      let e₄ = Same-on_account f k a h s₃ (d (deref a s₃) (deref a s₃).delegated _) in
      let e₅ =
        Same-accounts f k {s = s₄} {t = s₅}
          (raise_stake-accounts p.validator_address p.amount s₄) in
      ground arith
