-- ===== src/Executor/Nonce/Methods.antt =====
-- No method of the executor changes a stored nonce by itself (pkg/state/executor.go).
use dagnet_crypto.Base.{
  ◌≡◌, inl, inr, refl, ℕ, true, some, Option-cases, Str, str_key, nat_key, arith,
}
use dagnet_crypto.Pb.{
  Payload, TransferPayload, CreateTokenPayload, MintTokenPayload, TransferTokenPayload,
  CreateCollectionPayload, MintNftPayload, CreateValidatorPayload, DelegateStakePayload,
}
use dagnet_crypto.Storage.Keys.{put_nft}
use dagnet_crypto.Executor.Monad.{Account, Env}
use dagnet_crypto.Executor.Accounts.{set_token}
use dagnet_crypto.Executor.Methods.{
  execute_transaction, execute_transfer, execute_create_validator, execute_delegate_stake,
  execute_create_token, execute_mint_token, execute_transfer_token, execute_mint_nft,
  execute_create_collection, collection_id_of,
}
use dagnet_crypto.Executor.Laws.{IsEnv, load-put_nft, load-put_collection}
use dagnet_crypto.Executor.Keeps.{
  Keeps, bind-Keeps, then-Keeps, return-Keeps, reject-Keeps, reject_if-Keeps, read-Keeps,
  require-Keeps, or_panic-Keeps, update-Keeps, store-Keeps,
}
use dagnet_crypto.Executor.Nonce.Saves.{
  declared, HasNonces, loads-HasNonces, save-Keeps, Current, Sent, get_or_create-Current,
  save_token-Keeps, save_validator-Keeps,
}

module _ {D : Type 0} (env : Env D) (law : IsEnv env) where
  transfer-Keeps :
      (n : Str → ℕ) (p : TransferPayload) (s : Account)
      → Current n s
      → Keeps (HasNonces env n) (Sent n s) (execute_transfer env p s)
  unfolding execute_transfer
  transfer-Keeps n p s c = then-Keeps (reject_if-Keeps _ _) (
      then-Keeps (reject_if-Keeps _ _) (
        bind-Keeps {P = Current n} (read-Keeps _ (get_or_create-Current env law n p.to))
          (λ r k. then-Keeps (save-Keeps env law _ k) (return-Keeps _ (refl, c)))))

  -- the sender's copy may change in all but the address and the nonce
  create_validator-Keeps :
      (n : Str → ℕ) (p : CreateValidatorPayload) (s : Account)
      → Current n s
      → Keeps (HasNonces env n) (Sent n s) (execute_create_validator env p s)
  unfolding execute_create_validator
  create_validator-Keeps n p s c = then-Keeps (reject_if-Keeps _ _) (
      then-Keeps (reject_if-Keeps _ _) (
        then-Keeps (save_validator-Keeps env law _ _)
          (then-Keeps (update-Keeps _ (λ w i. i)) (return-Keeps _ (refl, c)))))

  delegate_stake-Keeps :
      (n : Str → ℕ) (p : DelegateStakePayload) (s : Account)
      → Current n s
      → Keeps (HasNonces env n) (Sent n s) (execute_delegate_stake env p s)
  unfolding execute_delegate_stake
  delegate_stake-Keeps n p s c = then-Keeps (reject_if-Keeps _ _) (
      then-Keeps (reject_if-Keeps _ _) (
        bind-Keeps {P = λ _. Unit {0}} (read-Keeps _ (λ w i. tt)) (λ o _.
          bind-Keeps {P = λ _. Unit {0}} (require-Keeps _ _ (λ x e. tt)) (λ v _.
            then-Keeps (reject_if-Keeps _ _) (
              then-Keeps (save_validator-Keeps env law _ _)
                (then-Keeps (update-Keeps _ (λ w i. i)) (return-Keeps _ (refl, c))))))))

  set_token-Current :
      (n : Str → ℕ) (id : Str) (x : ℕ) (a b : Account)
      → Current n a
      → set_token id x a ≡ some b
      → Sent n a b
  set_token-Current n id x a b c e = elim (Option-cases a.tokens) [
    | inl h ↦ ground (arith, h)
    | inr (m, h) ↦ ground (arith, h)
  ]

  create_token-Keeps :
      (n : Str → ℕ) (p : CreateTokenPayload) (s : Account)
      → Current n s
      → Keeps (HasNonces env n) (Sent n s) (execute_create_token env p s)
  unfolding execute_create_token
  create_token-Keeps n p s c = bind-Keeps {P = λ _. Unit {0}} (read-Keeps _ (λ w i. tt)) (λ o _.
      then-Keeps (reject_if-Keeps _ _) (
        then-Keeps (save_token-Keeps env law _ _) (
          bind-Keeps {P = Current n}
            (read-Keeps _ (get_or_create-Current env law n p.admin_address))
            (λ a k.
              bind-Keeps {P = Current n}
                (or_panic-Keeps _ (λ b e. (set_token-Current n _ _ a b k e).1))
                (λ b k'. then-Keeps (save-Keeps env law _ k') (return-Keeps _ (refl, c)))))))

  mint_token-Keeps :
      (n : Str → ℕ) (p : MintTokenPayload) (s : Account)
      → Current n s
      → Keeps (HasNonces env n) (Sent n s) (execute_mint_token env p s)
  unfolding execute_mint_token
  mint_token-Keeps n p s c = bind-Keeps {P = λ _. Unit {0}} (read-Keeps _ (λ w i. tt)) (λ o _.
      bind-Keeps {P = λ _. Unit {0}} (require-Keeps _ _ (λ x e. tt)) (λ bytes _.
        bind-Keeps {P = λ _. Unit {0}} (require-Keeps _ _ (λ x e. tt)) (λ t _.
          then-Keeps (reject_if-Keeps _ _) (
            then-Keeps (reject_if-Keeps _ _) (
              bind-Keeps {P = Current n} (read-Keeps _ (get_or_create-Current env law n p.to))
                (λ a k.
                  bind-Keeps {P = Current n}
                    (or_panic-Keeps _ (λ b e. (set_token-Current n _ _ a b k e).1))
                    (λ b k'.
                      then-Keeps (save_token-Keeps env law _ _)
                        (then-Keeps (save-Keeps env law _ k') (return-Keeps _ (refl, c))))))))))

  transfer_token-Keeps :
      (n : Str → ℕ) (p : TransferTokenPayload) (s : Account)
      → Current n s
      → Keeps (HasNonces env n) (Sent n s) (execute_transfer_token env p s)
  unfolding execute_transfer_token
  transfer_token-Keeps n p s c = then-Keeps (reject_if-Keeps _ _) (
      bind-Keeps {P = Current n} (read-Keeps _ (get_or_create-Current env law n p.to)) (λ r k.
        bind-Keeps {P = Sent n s} (or_panic-Keeps _ (λ b e. set_token-Current n _ _ s b c e))
          (λ a ka.
            bind-Keeps {P = Current n}
              (or_panic-Keeps _ (λ b e. (set_token-Current n _ _ r b k e).1))
              (λ b kb.
                then-Keeps (save-Keeps env law _ ka.1)
                  (then-Keeps (save-Keeps env law _ kb) (return-Keeps _ ka))))))

  mint_nft-Keeps :
      (n : Str → ℕ) (p : MintNftPayload) (s : Account)
      → Current n s
      → Keeps (HasNonces env n) (Sent n s) (execute_mint_nft env p s)
  unfolding execute_mint_nft
  mint_nft-Keeps n p s c = bind-Keeps {P = λ _. Unit {0}} (read-Keeps _ (λ w i. tt)) (λ o _.
      bind-Keeps {P = λ _. Unit {0}} (require-Keeps _ _ (λ x e. tt)) (λ bytes _.
        bind-Keeps {P = λ _. Unit {0}} (require-Keeps _ _ (λ x e. tt)) (λ t _.
          then-Keeps (reject_if-Keeps _ _) (
            bind-Keeps {P = λ _. Unit {0}} (require-Keeps _ _ (λ x e. tt)) (λ b _.
              then-Keeps
                (store-Keeps _ (λ w i.
                  loads-HasNonces env law n w
                    (record w { db = (put_nft env.level_db p.collection_id p.nft_id b w.db).1 })
                    (λ b'. load-put_nft env law p.collection_id p.nft_id b' b w.db) i))
                (return-Keeps _ (refl, c)))))))

  create_collection-Keeps :
      (n : Str → ℕ) (p : CreateCollectionPayload) (s : Account)
      → Current n s
      → Keeps (HasNonces env n) (Sent n s) (execute_create_collection env p s)
  unfolding execute_create_collection
  create_collection-Keeps n p s c =
      bind-Keeps {P = λ _. Unit {0}} (read-Keeps _ (λ w i. tt)) (λ o _.
        then-Keeps (reject_if-Keeps _ _) (
          bind-Keeps {P = λ _. Unit {0}} (require-Keeps _ _ (λ x e. tt)) (λ b _.
            then-Keeps
              (store-Keeps _ (λ w i.
                loads-HasNonces env law n w
                  (record w { db = (env.put_collection (collection_id_of env s) b w.db).1 })
                  (λ b'. load-put_collection env law (collection_id_of env s) b b' w.db) i))
              (return-Keeps _ (refl, c)))))

  pub execute_transaction-Keeps :
      (n : Str → ℕ) (q : Payload) (s : Account)
      → declared q ≡ true
      → Current n s
      → Keeps (HasNonces env n) (Sent n s) (execute_transaction env q s)
  unfolding execute_transaction
  execute_transaction-Keeps n (Payload.transfer p) s d c = transfer-Keeps n p s c
  execute_transaction-Keeps n (Payload.create_validator p) s d c = create_validator-Keeps n p s c
  execute_transaction-Keeps n (Payload.delegate_stake p) s d c = delegate_stake-Keeps n p s c
  execute_transaction-Keeps n (Payload.create_token p) s d c = create_token-Keeps n p s c
  execute_transaction-Keeps n (Payload.mint_token p) s d c = mint_token-Keeps n p s c
  execute_transaction-Keeps n (Payload.burn_token p) s d c = cc
  execute_transaction-Keeps n (Payload.transfer_token p) s d c = transfer_token-Keeps n p s c
  execute_transaction-Keeps n (Payload.create_collection p) s d c = create_collection-Keeps n p s c
  execute_transaction-Keeps n (Payload.mint_nft p) s d c = mint_nft-Keeps n p s c
  execute_transaction-Keeps n (Payload.transfer_nft p) s d c = cc
  execute_transaction-Keeps n Payload.other s d c = reject-Keeps _
