-- ===== src/Executor/Stake.antt =====
-- The stakes that the executor stores and those the consensus engine has (pkg/state/executor.go).
use dagnet_crypto.Base.{
  ◌≡◌, inl, inr, ◌⊎◌, refl, sym, ap, ◌∙◌, true, false, Bool-cases, some, Str, str_key, nat_key,
  ◌==◌, arith, add_u64,
}
use dagnet_crypto.Pb.{
  Transaction, Payload, CreateValidatorPayload, DelegateStakePayload, PbValidator, Token,
}
use dagnet_crypto.Storage.Keys.{put_nft}
use dagnet_crypto.Executor.Monad.{Account, World, Env, ◌>>=◌, ◌>>◌, return, require, store}
use dagnet_crypto.Executor.Accounts.{save_account, settle, save_token, save_validator}
use dagnet_crypto.Executor.Methods.{
  execute, execute_transaction, execute_transfer, execute_create_validator, execute_delegate_stake,
  execute_create_token, execute_mint_token, execute_transfer_token, execute_mint_nft,
  execute_create_collection, collection_id_of,
}
use dagnet_crypto.Executor.Laws.{IsEnv, Outcome-cases, is_done}
use dagnet_crypto.Executor.Cases.{execute-cases}
use dagnet_crypto.Executor.Keeps.{
  Keeps, bind-Keeps, then-Keeps, return-Keeps, reject-Keeps, reject_if-Keeps, read-Keeps,
  require-Keeps, or_panic-Keeps, store-Keeps,
}
use dagnet_crypto.Executor.Monad.{update}
use dagnet_crypto.Map.{Map, lookup, modify, lookup-insert, lookup-modify}
use dagnet_crypto.Consensus.Validators.{Validator, add_validator}
use dagnet_crypto.Executor.Accounts.{load_validator, stored_validator, consensus_validator}
use dagnet_crypto.Executor.Laws.{
  load_validator-save, load_validator-save_account, load_validator-save_token,
  load_validator-put_nft, load_validator-put_collection,
}
use dagnet_crypto.Executor.Nonce.Saves.{declared}

module _ {D : Type 0} (env : Env D) where
  -- every validator of the engine is stored, with the same stake
  abbrev pub IsInStep : World D → Type 0
  IsInStep w =
      (a : Str) (c : Validator)
      → lookup a w.validators ≡ some c
      → (v : PbValidator) × (load_validator env a w.db ≡ some v) × (v.stake ≡ c.stake)

  same-IsInStep :
      (v w : World D)
      → w.validators ≡ v.validators
      → ((b : Str) → load_validator env b w.db ≡ load_validator env b v.db)
      → IsInStep v
      → IsInStep w
  same-IsInStep v w r same i a c l =
      let (x, y, z) = i a c (ap (lookup a) (sym r) ∙ l) in (x, same a ∙ y, z)

  -- only the registry's owner writes it
  saves-registry : (a : Account) (w : World D) → (save_account env a w).1.validators ≡ w.validators
  unfolding save_account ◌>>=◌ require store
  saves-registry a w = ground arith

  save_token-registry :
      (id : Str) (t : Token) (w : World D) → (save_token env id t w).1.validators ≡ w.validators
  unfolding save_token ◌>>=◌ require store
  save_token-registry id t w = ground arith

  save_validator-registry :
      (a : Str) (v : PbValidator) (w : World D)
      → (save_validator env a v w).1.validators ≡ w.validators
  unfolding save_validator ◌>>=◌ require store
  save_validator-registry a v w = ground arith

  module _ (law : IsEnv env) where
    save-Keeps : (a : Account) → Keeps IsInStep (λ _. Unit {0}) (save_account env a)
    save-Keeps a = record {
      kept = λ w i.
          same-IsInStep w (save_account env a w).1 (saves-registry a w)
            (λ b. load_validator-save_account env law a b w) i;
      gives = λ w i x y. tt;
    }

    save_token-Keeps : (id : Str) (t : Token) → Keeps IsInStep (λ _. Unit {0}) (save_token env id t)
    save_token-Keeps id t = record {
      kept = λ w i.
          same-IsInStep w (save_token env id t w).1 (save_token-registry id t w)
            (λ b. load_validator-save_token env law id t b w) i;
      gives = λ w i x y. tt;
    }

    -- a save that fails
    failed-IsInStep :
        (a : Str) (v : PbValidator) (w : World D)
        → is_done (save_validator env a v w).0 ≡ false
        → IsInStep w
        → IsInStep (save_validator env a v w).1
    failed-IsInStep a v w f i =
        same-IsInStep w (save_validator env a v w).1 (save_validator-registry a v w)
          (λ b. ground (arith, load_validator-save env law a b v w, f)) i

    -- what a step writes to the registry: the stake that is stored
    abbrev Registers : Str → PbValidator → (Map Str Validator → Map Str Validator) → Type 0
    Registers a v f =
        (r : Map Str Validator) (b : Str) (c : Validator)
        → lookup b (f r) ≡ some c
        → ((a == b) ≡ true × v.stake ≡ c.stake) ⊎ ((a == b) ≡ false × lookup b r ≡ some c)

    saved-IsInStep :
        (a : Str) (v : PbValidator) (f : Map Str Validator → Map Str Validator) (w : World D)
        → Registers a v f
        → is_done (save_validator env a v w).0 ≡ true
        → IsInStep w
        → IsInStep (record (save_validator env a v w).1 {
          validators = f (save_validator env a v w).1.validators;
        })
    saved-IsInStep a v f w only ok i b c l =
        elim (only w.validators b c
          (ap (λ r. lookup b (f r)) (sym (save_validator-registry a v w)) ∙ l)) [
            | inl (same, stake) ↦
                (v, ground (arith, load_validator-save env law a b v w, ok, same), stake)
            | inr (other, old) ↦
                let (x, y, z) = i b c old in
                (x, ground (arith, load_validator-save env law a b v w, ok, other, y), z)
          ]

    -- a validator is stored and then registered
    save_validator-Keeps :
        (a : Str) (v : PbValidator) (f : Map Str Validator → Map Str Validator) (s : Account)
        → Registers a v f
        → Keeps IsInStep
            (λ _. Unit {0})
            (save_validator env a v
              >> (update (λ w. record w { validators = f w.validators }) >> return s))
    save_validator-Keeps a v f s only =
        unfold ◌>>◌ update return in
        record {
          kept = λ w i. elim (Outcome-cases (save_validator env a v w).0) [
            | inl (x, e) ↦
                rw (e, ◌>>◌, update, return) (saved-IsInStep a v f w only (ap is_done e) i)
            | inr (inl (err, e)) ↦ rw (e, ◌>>◌) (failed-IsInStep a v w (ap is_done e) i)
            | inr (inr e) ↦ rw (e, ◌>>◌) (failed-IsInStep a v w (ap is_done e) i)
          ];
          gives = λ w i x y. tt;
        }

    create-Registers :
        (p : CreateValidatorPayload)
        → Registers p.validator_address (stored_validator p) (add_validator (consensus_validator p))
    unfolding add_validator
    create-Registers p r b c l = elim (Bool-cases (p.validator_address == b)) [
      | inl e ↦
          inl
            (e, ground (arith, lookup-insert p.validator_address b (consensus_validator p) r, l, e))
      | inr e ↦
          inr
            (e, ground (arith, lookup-insert p.validator_address b (consensus_validator p) r, l, e))
    ]

    delegate-Registers :
        (p : DelegateStakePayload) (v : PbValidator)
        → Registers p.validator_address
            (record v { stake = add_u64 v.stake p.amount })
            (modify p.validator_address (λ c. record c { stake = add_u64 v.stake p.amount }))
    delegate-Registers p v r b c l =
        let read =
          lookup-modify p.validator_address b (λ c'. record c' { stake = add_u64 v.stake p.amount })
            r in
        elim (Bool-cases (p.validator_address == b)) [
          | inl e ↦ inl (e, ground (arith, read, l, e))
          | inr e ↦ inr (e, ground (arith, read, l, e))
        ]

    execute_transaction-Keeps :
        (q : Payload) (s : Account)
        → declared q ≡ true
        → Keeps IsInStep (λ _. Unit {0}) (execute_transaction env q s)
    unfolding execute_transaction execute_transfer execute_create_validator execute_delegate_stake
        execute_create_token execute_mint_token execute_transfer_token execute_mint_nft
        execute_create_collection add_validator
    execute_transaction-Keeps (Payload.transfer p) s d = then-Keeps (reject_if-Keeps _ _) (
        then-Keeps (reject_if-Keeps _ _) (
          bind-Keeps {P = λ _. Unit {0}} (read-Keeps _ (λ w i. tt))
            (λ r k. then-Keeps (save-Keeps _) (return-Keeps _ tt))))
    execute_transaction-Keeps (Payload.create_validator p) s d = then-Keeps (reject_if-Keeps _ _) (
        then-Keeps (reject_if-Keeps _ _) (
          save_validator-Keeps p.validator_address (stored_validator p)
            (add_validator (consensus_validator p)) _ (create-Registers p)))
    execute_transaction-Keeps (Payload.delegate_stake p) s d = then-Keeps (reject_if-Keeps _ _) (
        then-Keeps (reject_if-Keeps _ _) (
          bind-Keeps {P = λ _. Unit {0}} (read-Keeps _ (λ w i. tt)) (λ o _.
            bind-Keeps {P = λ _. Unit {0}} (require-Keeps _ _ (λ x e. tt)) (λ v _.
              then-Keeps (reject_if-Keeps _ _) (
                save_validator-Keeps p.validator_address
                  (record v { stake = add_u64 v.stake p.amount })
                  (modify p.validator_address (λ c. record c { stake = add_u64 v.stake p.amount }))
                  _ (delegate-Registers p v))))))
    execute_transaction-Keeps (Payload.create_token p) s d =
        bind-Keeps {P = λ _. Unit {0}} (read-Keeps _ (λ w i. tt)) (λ o _.
          then-Keeps (reject_if-Keeps _ _) (
            then-Keeps (save_token-Keeps _ _) (
              bind-Keeps {P = λ _. Unit {0}} (read-Keeps _ (λ w i. tt)) (λ a k.
                bind-Keeps {P = λ _. Unit {0}} (or_panic-Keeps _ (λ b e. tt))
                  (λ b k'. then-Keeps (save-Keeps _) (return-Keeps _ tt))))))
    execute_transaction-Keeps (Payload.mint_token p) s d =
        bind-Keeps {P = λ _. Unit {0}} (read-Keeps _ (λ w i. tt)) (λ o _.
          bind-Keeps {P = λ _. Unit {0}} (require-Keeps _ _ (λ x e. tt)) (λ bytes _.
            bind-Keeps {P = λ _. Unit {0}} (require-Keeps _ _ (λ x e. tt)) (λ t _.
              then-Keeps (reject_if-Keeps _ _) (
                then-Keeps (reject_if-Keeps _ _) (
                  bind-Keeps {P = λ _. Unit {0}} (read-Keeps _ (λ w i. tt)) (λ a k.
                    bind-Keeps {P = λ _. Unit {0}} (or_panic-Keeps _ (λ b e. tt)) (λ b k'.
                      then-Keeps (save_token-Keeps _ _)
                        (then-Keeps (save-Keeps _) (return-Keeps _ tt)))))))))
    execute_transaction-Keeps (Payload.burn_token p) s d = cc
    execute_transaction-Keeps (Payload.transfer_token p) s d = then-Keeps (reject_if-Keeps _ _) (
        bind-Keeps {P = λ _. Unit {0}} (read-Keeps _ (λ w i. tt)) (λ r k.
          bind-Keeps {P = λ _. Unit {0}} (or_panic-Keeps _ (λ b e. tt)) (λ a ka.
            bind-Keeps {P = λ _. Unit {0}} (or_panic-Keeps _ (λ b e. tt))
              (λ b kb. then-Keeps (save-Keeps _) (then-Keeps (save-Keeps _) (return-Keeps _ tt))))))
    execute_transaction-Keeps (Payload.create_collection p) s d =
        bind-Keeps {P = λ _. Unit {0}} (read-Keeps _ (λ w i. tt)) (λ o _.
          then-Keeps (reject_if-Keeps _ _) (
            bind-Keeps {P = λ _. Unit {0}} (require-Keeps _ _ (λ x e. tt)) (λ b _.
              then-Keeps
                (store-Keeps _ (λ w i.
                  same-IsInStep w
                    (record w { db = (env.put_collection (collection_id_of env s) b w.db).1 }) refl
                    (λ b'. load_validator-put_collection env law (collection_id_of env s) b b' w.db)
                    i))
                (return-Keeps _ tt))))
    execute_transaction-Keeps (Payload.mint_nft p) s d =
        bind-Keeps {P = λ _. Unit {0}} (read-Keeps _ (λ w i. tt)) (λ o _.
          bind-Keeps {P = λ _. Unit {0}} (require-Keeps _ _ (λ x e. tt)) (λ bytes _.
            bind-Keeps {P = λ _. Unit {0}} (require-Keeps _ _ (λ x e. tt)) (λ t _.
              then-Keeps (reject_if-Keeps _ _) (
                bind-Keeps {P = λ _. Unit {0}} (require-Keeps _ _ (λ x e. tt)) (λ b _.
                  then-Keeps
                    (store-Keeps _ (λ w i.
                      same-IsInStep w
                        (record w { db = (put_nft env.level_db p.collection_id p.nft_id b w.db).1 })
                        refl
                        (λ b'. load_validator-put_nft env law p.collection_id p.nft_id b' b w.db)
                        i))
                    (return-Keeps _ tt))))))
    execute_transaction-Keeps (Payload.transfer_nft p) s d = cc
    execute_transaction-Keeps Payload.other s d = reject-Keeps _

    -- Executing any transaction of a type the repository has a method for, however it ends, keeps this: every
    -- validator that the consensus engine has is stored, with the same stake.
    pub execute-IsInStep :
        (tx : Transaction) (w : World D)
        → declared tx.payload ≡ true
        → IsInStep w
        → IsInStep (execute env (some tx) w).1
    execute-IsInStep tx w d i = elim (execute-cases env tx w) [
      | inl (f, same) ↦ rw same i
      | inr (s, l, n, fee, inl (x, f, same)) ↦
          rw same ((execute_transaction-Keeps tx.payload s d).kept w i)
      | inr (s, l, n, fee, inr (after, x, same)) ↦ rw same (
          (save-Keeps (settle tx after)).kept (execute_transaction env tx.payload s w).1
            ((execute_transaction-Keeps tx.payload s d).kept w i))
    ]
