-- ===== src/Executor/Effects.antt =====
-- What executed delegations and token transactions do (pkg/state/executor.go).
use dagnet_crypto.Base.{
  ◌≡◌, inl, inr, ◌⊎◌, refl, sym, ap, ◌∙◌, ◌+◌, ◌≤◌, ◌<◌, true, none, some, [], str_key, str_eq_iff,
  nat_key, arith, add_u64, u64_mod,
}
use dagnet_crypto.Pb.{
  Transaction, Payload, DelegateStakePayload, CreateTokenPayload, MintTokenPayload,
  TransferTokenPayload, PbValidator,
}
use dagnet_crypto.Executor.Monad.{
  Account, done, panicked, World, Env, ◌>>=◌, ◌>>◌, reject_if, require, or_panic, read, update,
  return,
}
use dagnet_crypto.Executor.Accounts.{
  load_account, load_validator, save_account, save_validator, get_or_create_account, token_balance,
  settle,
}
use dagnet_crypto.Executor.Methods.{
  execute, execute_transaction, execute_delegate_stake, execute_create_token, execute_mint_token,
  execute_transfer_token,
}
use dagnet_crypto.Executor.Laws.{
  IsEnv, is_done, normal, load-save, load_validator-save, load_validator-save_account,
}
use dagnet_crypto.Executor.Cases.{sender_of, IsAddressed, success_form, get_or_create-loaded}
use dagnet_crypto.Executor.Transfer.{balance_of, loaded-balance}

settle-balance :
    (tx : Transaction) (s : Account)
    → tx.fee ≤ s.balance
    → s.balance < u64_mod
    → (settle tx s).balance + tx.fee ≡ s.balance
unfolding settle
settle-balance tx s enough fits = omega (arith, enough, fits)

module _ {D : Type 0} (env : Env D) where
  -- what a delegation that ends well did
  delegate_form :
      (p : DelegateStakePayload) (s after : Account) (v : PbValidator) (w : World D)
      → load_validator env p.validator_address w.db ≡ some v
      → (execute_delegate_stake env p s w).0 ≡ done after
      → let more = record v { stake = add_u64 v.stake p.amount } in
        (after
          ≡ record s { delegated = add_u64 s.delegated p.amount; validator = p.validator_address })
        × ((execute_delegate_stake env p s w).1.db
            ≡ (save_validator env p.validator_address more w).1.db)
        × (is_done (save_validator env p.validator_address more w).0 ≡ true)
  unfolding execute_delegate_stake ◌>>=◌ ◌>>◌ reject_if require read update return
  delegate_form p s after v w l h = ground arith

  -- creating and minting give the sender's copy back as it was
  create_form :
      (p : CreateTokenPayload) (s after : Account) (w : World D)
      → (execute_create_token env p s w).0 ≡ done after
      → after ≡ s
  unfolding execute_create_token ◌>>=◌ ◌>>◌ reject_if require or_panic read update return
  create_form p s after w h = ground arith

  mint_form :
      (p : MintTokenPayload) (s after : Account) (w : World D)
      → (execute_mint_token env p s w).0 ≡ done after
      → after ≡ s
  unfolding execute_mint_token ◌>>=◌ ◌>>◌ reject_if require or_panic read update return
  mint_form p s after w h = ground arith

  nil_tokens_panic :
      (p : TransferTokenPayload) (s : Account) (w : World D)
      → (get_or_create_account env p.to w.db).tokens ≡ none
      → p.amount ≤ token_balance p.token_id s
      → (execute_transfer_token env p s w).0 ≡ panicked
  unfolding execute_transfer_token ◌>>=◌ ◌>>◌ reject_if or_panic read return
  nil_tokens_panic p s w nil enough = ground arith

  module _ (law : IsEnv env) where
    -- the account that a success stores last
    stored_last :
        (tx : Transaction) (s after : Account) (w v : World D)
        → IsAddressed env w.db
        → load_account env (sender_of env tx) w.db ≡ done s
        → execute env (some tx) w ≡ save_account env (settle tx after) v
        → is_done (execute env (some tx) w).0 ≡ true
        → after.address ≡ s.address
        → load_account env (sender_of env tx) (execute env (some tx) w).1.db
          ≡ done (normal (settle tx after))
    unfolding settle
    stored_last tx s after w v own l same ok here = rw same (
        ground (
          arith,
          load-save env law (settle tx after) (sender_of env tx) v,
          here,
          own (sender_of env tx) s l,
          ok,
          same,
          (str_eq_iff (sender_of env tx) (sender_of env tx)).1 refl,
        ))

    -- A delegation that is executed raises the validator's stored stake by the amount, and takes only the
    -- fee from the sender's balance.
    pub delegate-free :
        (tx : Transaction) (p : DelegateStakePayload) (s : Account) (v : PbValidator) (w : World D)
        → tx.payload ≡ Payload.delegate_stake p
        → IsAddressed env w.db
        → load_account env (sender_of env tx) w.db ≡ done s
        → load_validator env p.validator_address w.db ≡ some v
        → is_done (execute env (some tx) w).0 ≡ true
        → s.balance < u64_mod
        → let after = (execute env (some tx) w).1.db in
          (load_validator env p.validator_address after
            ≡ some (record v { stake = add_u64 v.stake p.amount }))
          × (balance_of env (sender_of env tx) after + tx.fee ≡ s.balance)
    unfolding execute_transaction
    delegate-free tx p s v w e own l lv ok fits =
        let (after, x, same, fee) = success_form env tx (Payload.delegate_stake p) s w e l ok in
        let (a, db, saved) = delegate_form p s after v w lv x in
        let mid = (execute_delegate_stake env p s w).1 in
        let more = record v { stake = add_u64 v.stake p.amount } in
        let last = stored_last tx s after w mid own l same ok (ap (λ y. y.address) a) in
        (
          ap (λ r. load_validator env p.validator_address r.1.db) same
              ∙ load_validator-save_account env law (settle tx after) p.validator_address mid
              ∙ ap (λ d. load_validator env p.validator_address d) db
              ∙ ground (
                arith,
                load_validator-save env law p.validator_address p.validator_address more w,
                saved,
                (str_eq_iff p.validator_address p.validator_address).1 refl,
              ),
          ap (λ n. n + tx.fee)
                (loaded-balance env (sender_of env tx) (normal (settle tx after))
                  (execute env (some tx) w).1.db last)
              ∙ ap (λ y. (settle tx y).balance + tx.fee) a
              ∙ settle-balance tx _ fee fits,
        )

    -- After a token is created or minted, the sender's account is stored as it was before, up to the fee and
    -- the nonce, also when the tokens were issued to the sender: these are lost.
    pub issue_to_self :
        (tx : Transaction) (s : Account) (w : World D)
        → ((p : CreateTokenPayload) × (tx.payload ≡ Payload.create_token p))
          ⊎ ((p : MintTokenPayload) × (tx.payload ≡ Payload.mint_token p))
        → IsAddressed env w.db
        → load_account env (sender_of env tx) w.db ≡ done s
        → is_done (execute env (some tx) w).0 ≡ true
        → load_account env (sender_of env tx) (execute env (some tx) w).1.db
          ≡ done (normal (settle tx s))
    unfolding execute_transaction
    issue_to_self tx s w (inl (p, e)) own l ok =
        let (after, x, same, fee) = success_form env tx (Payload.create_token p) s w e l ok in
        let a = create_form p s after w x in
        stored_last tx s after w _ own l same ok (ap (λ y. y.address) a)
        ∙ ap (λ y. done (normal (settle tx y))) a
    issue_to_self tx s w (inr (p, e)) own l ok =
        let (after, x, same, fee) = success_form env tx (Payload.mint_token p) s w e l ok in
        let a = mint_form p s after w x in
        stored_last tx s after w _ own l same ok (ap (λ y. y.address) a)
        ∙ ap (λ y. done (normal (settle tx y))) a

    -- Once an account is stored with no tokens, every transfer of tokens to it panics that passes the check of
    -- the sender's balance: its map of tokens is loaded as nil.
    pub first_token_panics :
        (a s : Account) (p : TransferTokenPayload) (w : World D)
        → a.tokens ≡ some []
        → is_done (save_account env a w).0 ≡ true
        → p.to ≡ a.address
        → p.amount ≤ token_balance p.token_id s
        → (execute_transfer_token env p s (save_account env a w).1).0 ≡ panicked
    first_token_panics a s p w empty ok to enough =
        let loaded : load_account env p.to (save_account env a w).1.db ≡ done (normal a) =
          ground
            (arith, load-save env law a p.to w, ok, to, (str_eq_iff a.address p.to).1 (sym to)) in
        nil_tokens_panic p s (save_account env a w).1
          (ap (λ x. x.tokens)
              (get_or_create-loaded env p.to (normal a) (save_account env a w).1.db loaded)
            ∙ rw empty refl)
          enough
