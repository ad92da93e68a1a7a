-- ===== src/Executor/Nonce/Replay.antt =====
-- What executing transactions does to the nonces, and that none runs twice (pkg/state/executor.go).
use dagnet_crypto.Base.{
  ◌≡◌, inl, inr, ◌⊎◌, refl, ap, ◌∙◌, ◌+◌, ◌≤◌, ◌<◌, true, false, Bool-cases, some, List, [], ◌∷◌,
  length, Str, str_key, str_eq_iff, ◌==◌, ◌&&◌, if◌then◌else◌, arith, add_u64, u64_mod, All,
}
use dagnet_crypto.Pb.{Transaction}
use dagnet_crypto.Executor.Monad.{Account, done, World, Env}
use dagnet_crypto.Executor.Accounts.{load_account, save_account, get_or_create_account, settle}
use dagnet_crypto.Executor.Methods.{execute, execute_transaction}
use dagnet_crypto.Executor.Laws.{IsEnv, is_done, normal, load-save}
use dagnet_crypto.Executor.Cases.{sender_of, IsAddressed, execute-cases}
use dagnet_crypto.Executor.Keeps.{Keeps}
use dagnet_crypto.Executor.Nonce.Saves.{
  nonce_of, declared, HasNonces, Current, Sent, save-IsAddressed,
}
use dagnet_crypto.Executor.Nonce.Methods.{execute_transaction-Keeps}

-- transactions executed one after the other
abbrev pub execute_list : {D : Type 0} → Env D → List Transaction → World D → World D
execute_list env [] w = w
execute_list env (tx ∷ txs) w = execute_list env txs (execute env (some tx) w).1

module _ {D : Type 0} (env : Env D) (law : IsEnv env) where
  get_or_create-save :
      (a : Account) (b : Str) (w : World D)
      → get_or_create_account env b (save_account env a w).1.db ≡ (
          if is_done (save_account env a w).0 && a.address == b
          then normal a
          else get_or_create_account env b w.db)
  unfolding get_or_create_account
  get_or_create-save a b w = ground (arith, load-save env law a b w)

  loaded-Current :
      (a : Str) (s : Account) (w : World D)
      → IsAddressed env w.db
      → load_account env a w.db ≡ done s
      → Current (λ b. nonce_of env b w.db) s
  unfolding get_or_create_account
  loaded-Current a s w own l = rw (own a s l, l, nonce_of, get_or_create_account) refl

  ran-HasNonces :
      (tx : Transaction) (s : Account) (w : World D)
      → declared tx.payload ≡ true
      → IsAddressed env w.db
      → load_account env (sender_of env tx) w.db ≡ done s
      → Keeps
          (HasNonces env (λ b. nonce_of env b w.db))
          (Sent (λ b. nonce_of env b w.db) s)
          (execute_transaction env tx.payload s)
  ran-HasNonces tx s w d own l =
      execute_transaction-Keeps env law (λ b. nonce_of env b w.db) tx.payload s d
        (loaded-Current (sender_of env tx) s w own l)

  -- the account that `execute` saves at the end is the sender's
  sent-address :
      (tx : Transaction) (s after : Account) (w : World D)
      → declared tx.payload ≡ true
      → IsAddressed env w.db
      → load_account env (sender_of env tx) w.db ≡ done s
      → (execute_transaction env tx.payload s w).0 ≡ done after
      → after.address ≡ sender_of env tx
  sent-address tx s after w d own l x =
      ((ran-HasNonces tx s w d own l).gives w (own, λ b. refl) after x).0
      ∙ own (sender_of env tx) s l

  -- When a transaction of a type the repository has a method for is executed, the stored nonce of its
  -- sender becomes its nonce if it succeeds; every other nonce stays, and all stay if it fails or panics.
  pub execute-nonce :
      (tx : Transaction) (w : World D) (b : Str)
      → declared tx.payload ≡ true
      → IsAddressed env w.db
      → nonce_of env b (execute env (some tx) w).1.db ≡ (
          if is_done (execute env (some tx) w).0 && sender_of env tx == b
          then tx.nonce
          else nonce_of env b w.db)
  unfolding settle
  execute-nonce tx w b d own = elim (execute-cases env tx w) [
    | inl (f, same) ↦ rw (f, same) refl
    | inr (s, l, n, fee, inl (x, f, same)) ↦
        rw (f, same) (((ran-HasNonces tx s w d own l).kept w (own, λ c. refl)).1 b)
    | inr (s, l, n, fee, inr (after, x, same)) ↦
        let mid = (execute_transaction env tx.payload s w).1 in
        rw same (
          ground (
            arith,
            get_or_create-save (settle tx after) b mid,
            sent-address tx s after w d own l x,
            ((ran-HasNonces tx s w d own l).kept w (own, λ c. refl)).1 b,
          ))
  ]

  pub execute-IsAddressed :
      (tx : Transaction) (w : World D)
      → declared tx.payload ≡ true
      → IsAddressed env w.db
      → IsAddressed env (execute env (some tx) w).1.db
  execute-IsAddressed tx w d own = elim (execute-cases env tx w) [
    | inl (f, same) ↦ rw same own
    | inr (s, l, n, fee, inl (x, f, same)) ↦
        rw same (((ran-HasNonces tx s w d own l).kept w (own, λ c. refl)).0)
    | inr (s, l, n, fee, inr (after, x, same)) ↦ rw same (
        save-IsAddressed env law (settle tx after) (execute_transaction env tx.payload s w).1
          (((ran-HasNonces tx s w d own l).kept w (own, λ c. refl)).0))
  ]

  -- a success had the next nonce
  success-nonce :
      (tx : Transaction) (w : World D)
      → IsAddressed env w.db
      → is_done (execute env (some tx) w).0 ≡ true
      → tx.nonce ≡ add_u64 (nonce_of env (sender_of env tx) w.db) 1
  unfolding get_or_create_account
  success-nonce tx w own ok = elim (execute-cases env tx w) [
    | inl (f, same) ↦ ground (arith, f, ok)
    | inr (s, l, n, fee, inl (x, f, same)) ↦ ground (arith, f, ok)
    | inr (s, l, n, fee, inr (after, x, same)) ↦ rw (l, nonce_of, get_or_create_account) n
  ]

  -- a success stores the nonce
  stored-nonce :
      (tx : Transaction) (w : World D)
      → declared tx.payload ≡ true
      → IsAddressed env w.db
      → is_done (execute env (some tx) w).0 ≡ true
      → nonce_of env (sender_of env tx) (execute env (some tx) w).1.db ≡ tx.nonce
  stored-nonce tx w d own ok = ground (
    arith,
    execute-nonce tx w (sender_of env tx) d own,
    ok,
    (str_eq_iff (sender_of env tx) (sender_of env tx)).1 refl,
  )

  step-nonce :
      (tx : Transaction) (w : World D) (b : Str)
      → declared tx.payload ≡ true
      → IsAddressed env w.db
      → (nonce_of env b (execute env (some tx) w).1.db ≡ nonce_of env b w.db)
        ⊎ (nonce_of env b (execute env (some tx) w).1.db ≡ add_u64 (nonce_of env b w.db) 1)
  step-nonce tx w b d own =
      elim (Bool-cases (is_done (execute env (some tx) w).0 && sender_of env tx == b)) [
        | inr f ↦
            inl
              (execute-nonce tx w b d own ∙ ap (λ c. if c then tx.nonce else nonce_of env b w.db) f)
        | inl f ↦ inr (
            execute-nonce tx w b d own
            ∙ ap (λ c. if c then tx.nonce else nonce_of env b w.db) f
            ∙ success-nonce tx w own (ground (arith, f))
            ∙ ap (λ a. add_u64 (nonce_of env a w.db) 1)
                ((str_eq_iff (sender_of env tx) b).0 (ground (arith, f))))
      ]

  list-nonce :
      (txs : List Transaction) (w : World D) (b : Str)
      → All (λ tx. declared tx.payload ≡ true) txs
      → IsAddressed env w.db
      → nonce_of env b w.db + length txs < u64_mod
      → nonce_of env b w.db ≤ nonce_of env b (execute_list env txs w).db
        × nonce_of env b (execute_list env txs w).db ≤ nonce_of env b w.db + length txs
        × IsAddressed env (execute_list env txs w).db
  list-nonce [] w b ds own fits = (omega arith, omega arith, own)
  list-nonce (tx ∷ txs) w b (d, ds) own fits =
      let w1 = (execute env (some tx) w).1 in
      let own1 = execute-IsAddressed tx w d own in
      elim (step-nonce tx w b d own) [
        | inl e ↦
            let (low, high, own2) = list-nonce txs w1 b ds own1 (omega (arith, e, fits)) in
            (omega (arith, e, low), omega (arith, e, high), own2)
        | inr e ↦
            let (low, high, own2) = list-nonce txs w1 b ds own1 (omega (arith, e, fits)) in
            (omega (arith, e, low, fits), omega (arith, e, high, fits), own2)
      ]

  -- A transaction that succeeded fails when it is executed again, whatever transactions come between, if
  -- every stored account is under its own address, no transaction is a burn of tokens or a transfer of an
  -- NFT (no file declares the methods for these), and the nonce plus their number stays below 2^64 - 1.
  pub executed_once :
      (tx : Transaction) (txs : List Transaction) (w : World D)
      → declared tx.payload ≡ true
      → All (λ t. declared t.payload ≡ true) txs
      → IsAddressed env w.db
      → is_done (execute env (some tx) w).0 ≡ true
      → tx.nonce + length txs + 1 < u64_mod
      → is_done (execute env (some tx) (execute_list env txs (execute env (some tx) w).1)).0 ≡ false
  executed_once tx txs w d ds own ok fits =
      let w1 = (execute env (some tx) w).1 in
      let first = stored-nonce tx w d own ok in
      let (low, high, own2) =
        list-nonce txs w1 (sender_of env tx) ds (execute-IsAddressed tx w d own)
          (omega (arith, first, fits)) in
      elim (Bool-cases (is_done (execute env (some tx) (execute_list env txs w1)).0)) [
        | inr e ↦ e
        | inl e ↦ absurd (
            omega
              (arith, first, low, high, fits, success-nonce tx (execute_list env txs w1) own2 e))
      ]
