-- ===== src/State/Wealth.antt =====
-- The native coins under the methods of `StateMachine` (pkg/state/state.go).
use dagnet_crypto.Base.{
  ℕ, ◌+◌, ◌<◌, ◌≤◌, ◌≡◌, refl, Str, str_key, arith, inl, inr, Option-cases, add_u64, u64_mod,
}
use dagnet_crypto.Map.{lookup, insert}
use dagnet_crypto.Pb.{
  Transaction, Payload, TransferPayload, CreateTokenPayload, TransferTokenPayload, MintNftPayload,
  TransferNftPayload, CreateValidatorPayload, DelegateStakePayload,
}
use dagnet_crypto.State.Monad.{AccountState, State, Result, ok, err}
use dagnet_crypto.State.Defs.{
  ensure, on_account, deref, debit, credit, debit_token, credit_token, pay_fee, verify_transaction,
  execute_transfer, execute_create_token, execute_transfer_token, execute_create_collection,
  execute_mint_nft, execute_transfer_nft, execute_create_validator, execute_delegate_stake,
  dispatch, execute_transaction, register_token, register_nft, set_owner, register_validator,
  raise_stake, append_nft, drop_nft, nft_key,
}
use dagnet_crypto.State.Accounts.{
  Known, total, ensure-Known, ensure_keeps-Known, total-ensure, on_account-Known, total-on_account,
  le-total, Known-of_lookup, same-total, same-Known, register_token-accounts, register_nft-accounts,
  set_owner-accounts, register_validator-accounts, raise_stake-accounts,
}

-- an account's coins: what it can spend and what it has delegated
abbrev pub coins : AccountState → ℕ
coins a = a.balance + a.delegated

-- all coins
abbrev pub wealth : State → ℕ
wealth s = total coins s

-- the coins that leave the accounts: the fee, where the method takes one
abbrev pub charged : Result (Unit {0}) → Payload → ℕ → ℕ
charged (err _) p fee = 0
charged (ok _) (Payload.create_token _) fee = 0
charged (ok _) (Payload.create_collection _) fee = 0
charged (ok _) (Payload.transfer _) fee = fee
charged (ok _) _ fee = fee

-- the amount that a method adds to the fee
abbrev pub spent : Payload → ℕ
spent (Payload.transfer p) = p.amount
spent (Payload.delegate_stake p) = p.amount
spent _ = 0

-- an update that leaves the coins of the account
on_account-wealth :
    (a : Str) (g : AccountState → AccountState) (s : State)
    → Known a s
    → coins (g (deref a s)) ≡ coins (deref a s)
    → wealth (on_account a g s) ≡ wealth s
on_account-wealth a g s h e = omega (arith, total-on_account a g s coins h)

pay_fee-wealth :
    (a : Str) (fee : ℕ) (s : State)
    → Known a s
    → wealth s < u64_mod
    → let (r, s') = pay_fee a fee s in wealth s' + charged r Payload.other fee ≡ wealth s
unfolding pay_fee
pay_fee-wealth a fee s h w =
    ground (arith, total-on_account a (debit fee) s coins h, le-total coins a s h)

-- A covered debit that is credited to another account, or the same, but for the fee.
move-wealth :
    (a b : Str) (amount fee : ℕ) (s : State)
    → Known a s
    → Known b s
    → wealth s < u64_mod
    → amount + fee ≤ (deref a s).balance
    → wealth (on_account b (credit amount) (on_account a (debit (add_u64 amount fee)) s)) + fee
      ≡ wealth s
move-wealth a b amount fee s ha hb w cover =
    let s' = on_account a (debit (add_u64 amount fee)) s in
    let first = total-on_account a (debit (add_u64 amount fee)) s coins ha in
    let bound = le-total coins a s ha in
    let known = on_account-Known a (debit (add_u64 amount fee)) s b hb in
    let second = total-on_account b (credit amount) s' coins known in
    let bound' = le-total coins b s' known in omega arith

transfer-wealth :
    (tx : Transaction) (p : TransferPayload) (s : State)
    → p.amount + tx.fee < u64_mod
    → wealth s < u64_mod
    → let (r, s') = execute_transfer tx p s in
      wealth s' + charged r (Payload.transfer p) tx.fee ≡ wealth s
unfolding execute_transfer
transfer-wealth tx p s fits w = elim (Option-cases (lookup tx.public_key s.accounts)) [
  | inl e ↦ rw e (omega arith)
  | inr (v, e) ↦
      let a = tx.public_key in
      let s₁ = ensure p.to s in
      let same = total-ensure coins p.to s (omega arith) in
      let here = ensure_keeps-Known p.to a s (Known-of_lookup a s e) in
      let there = ensure-Known p.to s in
      let x = add_u64 p.amount tx.fee in
      let s₂ = on_account a (debit x) s₁ in
      let s₃ = on_account p.to (credit p.amount) s₂ in
      let known =
        on_account-Known p.to (credit p.amount) s₂ a (on_account-Known a (debit x) s₁ a here) in
      let last = on_account-wealth a (λ v. record v { nonce = tx.nonce }) s₃ known refl in
      let moved = move-wealth a p.to p.amount tx.fee s₁ here there in ground arith
]

create_token-wealth :
    (tx : Transaction) (p : CreateTokenPayload) (s : State)
    → wealth (execute_create_token tx p s).1 ≡ wealth s
unfolding execute_create_token
create_token-wealth tx p s =
    let s₁ = register_token p s in
    let s₂ = ensure p.admin_address s₁ in
    let same = same-total s₁ s (register_token-accounts p s) coins in
    let same' = total-ensure coins p.admin_address s₁ refl in
    let last =
      on_account-wealth p.admin_address
        (λ a. record a { tokens = insert p.token_id p.initial_supply a.tokens }) s₂
        (ensure-Known p.admin_address s₁) refl in
    ground arith

transfer_token-wealth :
    (tx : Transaction) (p : TransferTokenPayload) (s : State)
    → wealth s < u64_mod
    → let (r, s') = execute_transfer_token tx p s in
      wealth s' + charged r (Payload.transfer_token p) tx.fee ≡ wealth s
unfolding execute_transfer_token
transfer_token-wealth tx p s w =
    let a = tx.public_key in
    let s₁ = ensure a s in
    let s₂ = ensure p.to s₁ in
    let same = total-ensure coins a s refl in
    let same' = total-ensure coins p.to s₁ refl in
    let here = ensure_keeps-Known p.to a s₁ (ensure-Known a s) in
    let there = ensure-Known p.to s₁ in
    let g = debit_token p.token_id p.amount in
    let s₃ = on_account a g s₂ in
    let out = on_account-wealth a g s₂ here refl in
    let h = credit_token p.token_id p.amount in
    let into = on_account-wealth p.to h s₃ (on_account-Known a g s₂ p.to there) refl in
    let known = on_account-Known p.to h s₃ a (on_account-Known a g s₂ a here) in
    let paid = pay_fee-wealth a tx.fee (on_account p.to h s₃) known in ground arith

mint_nft-wealth :
    (tx : Transaction) (p : MintNftPayload) (s : State)
    → wealth s < u64_mod
    → let (r, s') = execute_mint_nft tx p s in
      wealth s' + charged r (Payload.mint_nft p) tx.fee ≡ wealth s
unfolding execute_mint_nft
mint_nft-wealth tx p s w =
    let id = nft_key p.collection_id p.nft_id in
    let s₁ = register_nft id p s in
    let s₂ = ensure p.owner s₁ in
    let s₃ = on_account p.owner (append_nft id) s₂ in
    let same = same-total s₁ s (register_nft-accounts id p s) coins in
    let same' = total-ensure coins p.owner s₁ refl in
    let listed = on_account-wealth p.owner (append_nft id) s₂ (ensure-Known p.owner s₁) refl in
    let same'' = total-ensure coins tx.public_key s₃ refl in
    let paid =
      pay_fee-wealth tx.public_key tx.fee (ensure tx.public_key s₃)
        (ensure-Known tx.public_key s₃) in
    ground arith

transfer_nft-wealth :
    (tx : Transaction) (p : TransferNftPayload) (s : State)
    → wealth s < u64_mod
    → let (r, s') = execute_transfer_nft tx p s in
      wealth s' + charged r (Payload.transfer_nft p) tx.fee ≡ wealth s
unfolding execute_transfer_nft
transfer_nft-wealth tx p s w =
    let id = nft_key p.collection_id p.nft_id in
    let a = tx.public_key in
    let s₁ = ensure a s in
    let s₂ = ensure p.to s₁ in
    let s₃ = set_owner id p.to s₂ in
    let s₄ = on_account a (drop_nft id) s₃ in
    let s₅ = on_account p.to (append_nft id) s₄ in
    let kept = same-Known s₃ s₂ (set_owner-accounts id p.to s₂) in
    let here = kept a (ensure_keeps-Known p.to a s₁ (ensure-Known a s)) in
    let there = on_account-Known a (drop_nft id) s₃ p.to (kept p.to (ensure-Known p.to s₁)) in
    let known =
      on_account-Known p.to (append_nft id) s₄ a (on_account-Known a (drop_nft id) s₃ a here) in
    let e₁ = total-ensure coins a s refl in
    let e₂ = total-ensure coins p.to s₁ refl in
    let e₃ = same-total s₃ s₂ (set_owner-accounts id p.to s₂) coins in
    let e₄ = on_account-wealth a (drop_nft id) s₃ here refl in
    let e₅ = on_account-wealth p.to (append_nft id) s₄ there refl in
    let paid = pay_fee-wealth a tx.fee s₅ known in ground arith

create_validator-wealth :
    (tx : Transaction) (p : CreateValidatorPayload) (s : State)
    → wealth s < u64_mod
    → let (r, s') = execute_create_validator tx p s in
      wealth s' + charged r (Payload.create_validator p) tx.fee ≡ wealth s
unfolding execute_create_validator
create_validator-wealth tx p s w =
    let s₁ = register_validator p s in
    let s₂ = ensure tx.public_key s₁ in
    let e₁ = same-total s₁ s (register_validator-accounts p s) coins in
    let e₂ = total-ensure coins tx.public_key s₁ refl in
    let paid = pay_fee-wealth tx.public_key tx.fee s₂ (ensure-Known tx.public_key s₁) in
    ground arith

delegate_stake-wealth :
    (tx : Transaction) (p : DelegateStakePayload) (s : State)
    → p.amount + tx.fee < u64_mod
    → wealth s < u64_mod
    → let (r, s') = execute_delegate_stake tx p s in
      wealth s' + charged r (Payload.delegate_stake p) tx.fee ≡ wealth s
unfolding execute_delegate_stake
delegate_stake-wealth tx p s fits w =
    let a = tx.public_key in
    let x = add_u64 p.amount tx.fee in
    let s₁ = ensure a s in
    let here = ensure-Known a s in
    let s₂ = on_account a (debit x) s₁ in
    let g = λ (v : AccountState). record v { delegated = add_u64 v.delegated p.amount } in
    let s₃ = on_account a g s₂ in
    let h = λ (v : AccountState). record v { validator = p.validator_address } in
    let known = on_account-Known a (debit x) s₁ a here in
    let e₁ = total-ensure coins a s refl in
    let e₂ = total-on_account a (debit x) s₁ coins here in
    let e₃ = total-on_account a g s₂ coins known in
    let e₄ = on_account-wealth a h s₃ (on_account-Known a g s₂ a known) refl in
    let bound = le-total coins a s₁ here in
    let bound' = le-total coins a s₂ known in
    let e₅ =
      same-total (raise_stake p.validator_address p.amount (on_account a h s₃)) (on_account a h s₃)
        (raise_stake-accounts p.validator_address p.amount (on_account a h s₃)) coins in
    ground arith

dispatch-wealth :
    (tx : Transaction) (q : Payload) (s : State)
    → spent q + tx.fee < u64_mod
    → wealth s < u64_mod
    → let (r, s') = dispatch tx q s in wealth s' + charged r q tx.fee ≡ wealth s
unfolding dispatch
dispatch-wealth tx (Payload.transfer p) s fits w = transfer-wealth tx p s fits w
dispatch-wealth tx (Payload.create_token p) s fits w = ground (arith, create_token-wealth tx p s)
dispatch-wealth tx (Payload.transfer_token p) s fits w = transfer_token-wealth tx p s w
dispatch-wealth tx (Payload.create_collection p) s fits w =
    unfold execute_create_collection in ground arith
dispatch-wealth tx (Payload.mint_nft p) s fits w = mint_nft-wealth tx p s w
dispatch-wealth tx (Payload.transfer_nft p) s fits w = transfer_nft-wealth tx p s w
dispatch-wealth tx (Payload.create_validator p) s fits w = create_validator-wealth tx p s w
dispatch-wealth tx (Payload.delegate_stake p) s fits w = delegate_stake-wealth tx p s fits w
dispatch-wealth tx (Payload.mint_token p) s fits w = omega arith
dispatch-wealth tx (Payload.burn_token p) s fits w = omega arith
dispatch-wealth tx Payload.other s fits w = omega arith

-- No transaction makes or loses coins: where amount and fee together fit in a `uint64`, and so do
-- all coins, `ExecuteTransaction` lowers the sum of all balances and delegations by the fee that
-- the method takes (none for a new token or collection), and an error leaves the sum alone.
pub execute_transaction-wealth :
    (tx : Transaction) (s : State)
    → spent tx.payload + tx.fee < u64_mod
    → wealth s < u64_mod
    → let (r, s') = execute_transaction tx s in wealth s' + charged r tx.payload tx.fee ≡ wealth s
unfolding execute_transaction verify_transaction
execute_transaction-wealth tx s fits w = ground (arith, dispatch-wealth tx tx.payload s fits w)
