-- ===== src/State/Supply.antt =====
-- Fungible tokens under the methods of `StateMachine` (pkg/state/state.go).
use dagnet_crypto.Base.{
  List, [], ◌∷◌, All, ℕ, ◌<◌, ◌≡◌, refl, none, some, inl, inr, Str, str_key, str_eq_iff, arith,
  ◌==◌, if◌then◌else◌, add_u64, sub_u64, u64_mod,
}
use dagnet_crypto.Map.{lookup, insert, contains, lookup-insert}
use dagnet_crypto.Pb.{Transaction, Payload, CreateTokenPayload, TransferTokenPayload}
use dagnet_crypto.State.Monad.{AccountState, State}
use dagnet_crypto.State.Defs.{
  new_account, ensure, on_account, deref, debit_token, credit_token, token_balance,
  execute_create_token, execute_transfer_token, execute_create_collection, execute_transfer,
  execute_mint_nft, execute_transfer_nft, execute_create_validator, execute_delegate_stake,
  dispatch, execute_transaction, execute_all, register_token, token_of,
}
use dagnet_crypto.State.Accounts.{
  total, ensure-Known, ensure_keeps-Known, total-ensure, on_account-Known, total-on_account,
  le-total, same-total, register_token-accounts,
}
use dagnet_crypto.State.Frame.{
  transfer-Same, mint_nft-Same, transfer_nft-Same, create_validator-Same, delegate_stake-Same,
  pay_fee-Same,
}
use dagnet_crypto.State.Maps.{
  execute_transaction-state, transfer-SameMaps, transfer_token-SameMaps, mint_nft-tokens,
  transfer_nft-tokens, create_validator-SameMaps, delegate_stake-SameMaps,
}

-- what all accounts hold of a token
abbrev pub held : Str → State → ℕ
held id s = total (token_balance id) s

-- the total supply that the token's record gives; 0 for a token that does not exist
abbrev pub supply : Str → State → ℕ
supply id s = elim (lookup id s.tokens) [ none ↦ 0 | some t ↦ t.total_supply ]

-- Of each token the accounts hold exactly its total supply, a `uint64`.
abbrev pub IsBacked : State → Type 0
IsBacked s = (id : Str) → (held id s ≡ supply id s) × (supply id s < u64_mod)

token_balance-new : (id a : Str) → token_balance id (new_account a) ≡ 0
unfolding lookup
token_balance-new id a = refl

-- The initial supply of a new token is a `uint64`.
abbrev pub HasU64Supply : Payload → Type 0
HasU64Supply (Payload.create_token p) = p.initial_supply < u64_mod
HasU64Supply _ = Unit {0}

-- a new state with the same tokens and the same holdings
carry_over :
    (s t : State)
    → ((id : Str) → held id t ≡ held id s)
    → t.tokens ≡ s.tokens
    → IsBacked s
    → IsBacked t
carry_over s t h e b id = ground (arith, h id, b id)

create_token-supply :
    (tx : Transaction) (p : CreateTokenPayload) (s : State) (id : Str)
    → supply id (execute_create_token tx p s).1 ≡ (
        if contains p.token_id s.tokens
        then supply id s
        else if p.token_id == id
        then p.initial_supply
        else supply id s)
unfolding execute_create_token register_token ensure on_account
create_token-supply tx p s id = ground (arith, lookup-insert p.token_id id (token_of p) s.tokens)

-- A new token goes to its admin. Nobody held it, since it had no supply.
create_token-held :
    (tx : Transaction) (p : CreateTokenPayload) (s : State) (id : Str)
    → IsBacked s
    → held id (execute_create_token tx p s).1 ≡ (
        if contains p.token_id s.tokens
        then held id s
        else if p.token_id == id
        then p.initial_supply
        else held id s)
unfolding execute_create_token contains
create_token-held tx p s id b =
    let f = token_balance id in
    let a = p.admin_address in
    let g =
      λ (v : AccountState). record v { tokens = insert p.token_id p.initial_supply v.tokens } in
    let s₁ = register_token p s in
    let s₂ = ensure a s₁ in
    let known = ensure-Known a s₁ in
    ground (
      arith,
      b id,
      same-total s₁ s (register_token-accounts p s) f,
      total-ensure f a s₁ (token_balance-new id a),
      total-on_account a g s₂ f known,
      le-total f a s₂ known,
      lookup-insert p.token_id id p.initial_supply (deref a s₂).tokens,
      str_eq_iff p.token_id id,
    )

create_token-IsBacked :
    (tx : Transaction) (p : CreateTokenPayload) (s : State)
    → p.initial_supply < u64_mod
    → IsBacked s
    → IsBacked (execute_create_token tx p s).1
create_token-IsBacked tx p s fits b id =
    ground (arith, b id, create_token-held tx p s id b, create_token-supply tx p s id)

transfer_token-held :
    (tx : Transaction) (p : TransferTokenPayload) (s : State) (id : Str)
    → IsBacked s
    → held id (execute_transfer_token tx p s).1 ≡ held id s
unfolding execute_transfer_token
transfer_token-held tx p s id b =
    let f = token_balance id in
    let a = tx.public_key in
    let g = debit_token p.token_id p.amount in
    let h = credit_token p.token_id p.amount in
    let s₁ = ensure a s in
    let s₂ = ensure p.to s₁ in
    let s₃ = on_account a g s₂ in
    let s₄ = on_account p.to h s₃ in
    let here = ensure_keeps-Known p.to a s₁ (ensure-Known a s) in
    let there = on_account-Known a g s₂ p.to (ensure-Known p.to s₁) in
    ground (
      arith,
      b id,
      total-ensure f a s (token_balance-new id a),
      total-ensure f p.to s₁ (token_balance-new id p.to),
      total-on_account a g s₂ f here,
      total-on_account p.to h s₃ f there,
      le-total f a s₂ here,
      le-total f p.to s₃ there,
      lookup-insert p.token_id id (sub_u64 (token_balance p.token_id (deref a s₂)) p.amount)
          (deref a s₂).tokens,
      lookup-insert p.token_id id (add_u64 (token_balance p.token_id (deref p.to s₃)) p.amount)
          (deref p.to s₃).tokens,
      str_eq_iff p.token_id id,
      (pay_fee-Same f id (token_balance-new id) (λ _ _. refl) a tx.fee s₄).sum,
    )

dispatch-IsBacked :
    (tx : Transaction) (q : Payload) (s : State)
    → HasU64Supply q
    → IsBacked s
    → IsBacked (dispatch tx q s).1
unfolding dispatch
dispatch-IsBacked tx (Payload.transfer p) s h b =
    carry_over s (execute_transfer tx p s).1
      (λ id.
        (transfer-Same (token_balance id) id (token_balance-new id) (λ _ _. refl) (λ _ _. refl) tx p
          s).sum)
      (transfer-SameMaps tx p s).tokens b
dispatch-IsBacked tx (Payload.create_token p) s h b = create_token-IsBacked tx p s h b
dispatch-IsBacked tx (Payload.transfer_token p) s h b =
    carry_over s (execute_transfer_token tx p s).1 (λ id. transfer_token-held tx p s id b)
      (transfer_token-SameMaps tx p s).tokens b
dispatch-IsBacked tx (Payload.create_collection p) s h b =
    unfold execute_create_collection in ground (arith, b)
dispatch-IsBacked tx (Payload.mint_nft p) s h b =
    carry_over s (execute_mint_nft tx p s).1
      (λ id.
        (mint_nft-Same (token_balance id) id (token_balance-new id) (λ _ _. refl) (λ _ _. refl) tx p
          s).sum)
      (mint_nft-tokens tx p s) b
dispatch-IsBacked tx (Payload.transfer_nft p) s h b =
    carry_over s (execute_transfer_nft tx p s).1
      (λ id.
        (transfer_nft-Same (token_balance id) id (token_balance-new id) (λ _ _. refl) (λ _ _. refl)
          tx p s).sum)
      (transfer_nft-tokens tx p s) b
dispatch-IsBacked tx (Payload.create_validator p) s h b =
    carry_over s (execute_create_validator tx p s).1
      (λ id.
        (create_validator-Same (token_balance id) id (token_balance-new id) (λ _ _. refl) tx p
          s).sum)
      (create_validator-SameMaps tx p s).tokens b
dispatch-IsBacked tx (Payload.delegate_stake p) s h b =
    carry_over s (execute_delegate_stake tx p s).1
      (λ id.
        (delegate_stake-Same (token_balance id) id (token_balance-new id) (λ _ _. refl)
          (λ _ _ _. refl) tx p s).sum)
      (delegate_stake-SameMaps tx p s).tokens b
dispatch-IsBacked tx (Payload.mint_token p) s h b = b
dispatch-IsBacked tx (Payload.burn_token p) s h b = b
dispatch-IsBacked tx Payload.other s h b = b

execute_transaction-IsBacked :
    (tx : Transaction) (s : State)
    → HasU64Supply tx.payload
    → IsBacked s
    → IsBacked (execute_transaction tx s).1
execute_transaction-IsBacked tx s h b = elim (execute_transaction-state tx s) [
  | inl e ↦ rw e b
  | inr e ↦ rw e (dispatch-IsBacked tx tx.payload s h b)
]

-- A run of `ExecuteTransaction` over any transactions, whether they succeed or fail, keeps each token
-- backed: the accounts together hold exactly the total supply of its record. The initial supply of
-- a created token is a `uint64`.
pub execute_all-IsBacked :
    (txs : List Transaction) (s : State)
    → All (λ tx. HasU64Supply tx.payload) txs
    → IsBacked s
    → IsBacked (execute_all txs s)
unfolding execute_all
execute_all-IsBacked [] s h b = b
execute_all-IsBacked (tx ∷ txs) s h b =
    execute_all-IsBacked txs (execute_transaction tx s).1 h.1
      (execute_transaction-IsBacked tx s h.0 b)
