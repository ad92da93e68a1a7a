-- ===== src/Executor/Transfer.antt =====
-- What an executed transfer does to the stored accounts (pkg/state/executor.go).
use dagnet_crypto.Base.{
  ◌≡◌, ◌≢◌, refl, ap, ◌∙◌, ℕ, ◌+◌, ◌≤◌, ◌<◌, true, some, Str, str_key, str_eq_iff, nat_key, ◌==◌,
  if◌then◌else◌, arith, add_u64, sub_u64, u64_mod,
}
use dagnet_crypto.Pb.{Transaction, Payload, TransferPayload}
use dagnet_crypto.Executor.Monad.{Account, done, World, Env, ◌>>=◌, ◌>>◌, reject_if, read, return}
use dagnet_crypto.Executor.Accounts.{
  load_account, save_account, get_or_create_account, credit, debit, settle,
}
use dagnet_crypto.Executor.Methods.{execute, execute_transaction, execute_transfer}
use dagnet_crypto.Executor.Laws.{IsEnv, is_done, normal, load-save}
use dagnet_crypto.Executor.Cases.{
  sender_of, IsAddressed, success_form, get_or_create-loaded, get_or_create-address,
}

-- the balance that `getOrCreateAccount` gives
abbrev pub balance_of : {D : Type 0} → Env D → Str → D → ℕ
balance_of env a d = (get_or_create_account env a d).balance

module _ {D : Type 0} (env : Env D) where
  pub loaded-balance :
      (a : Str) (s : Account) (d : D)
      → load_account env a d ≡ done s
      → balance_of env a d ≡ s.balance
  loaded-balance a s d l = ap (λ x. x.balance) (get_or_create-loaded env a s d l)

  -- what a transfer that ends well did
  transfer_form :
      (p : TransferPayload) (s after : Account) (w : World D)
      → (execute_transfer env p s w).0 ≡ done after
      → (after ≡ debit p.amount s)
        × ((execute_transfer env p s w).1
            ≡ (save_account env (credit p.amount (get_or_create_account env p.to w.db)) w).1)
        × (is_done (save_account env (credit p.amount (get_or_create_account env p.to w.db)) w).0
            ≡ true)
        × (1 ≤ p.amount)
        × (p.amount ≤ s.balance)
  unfolding execute_transfer ◌>>=◌ ◌>>◌ reject_if read return
  transfer_form p s after w h = ground arith

  module _ (law : IsEnv env) where
    -- a success: both saves went through
    executed_form :
        (tx : Transaction) (p : TransferPayload) (s : Account) (w : World D)
        → tx.payload ≡ Payload.transfer p
        → load_account env (sender_of env tx) w.db ≡ done s
        → is_done (execute env (some tx) w).0 ≡ true
        → let mid = save_account env (credit p.amount (get_or_create_account env p.to w.db)) w in
          (execute env (some tx) w ≡ save_account env (settle tx (debit p.amount s)) mid.1)
          × (is_done mid.0 ≡ true)
          × (1 ≤ p.amount)
          × (p.amount ≤ s.balance)
          × (tx.fee ≤ s.balance)
    unfolding execute_transaction
    executed_form tx p s w e l ok =
        let (after, x, same, fee) = success_form env tx (Payload.transfer p) s w e l ok in
        let (a, mid, mid_ok, positive, enough) = transfer_form p s after w x in
        (
          same
              ∙ ap (λ y. save_account env (settle tx y) (execute_transfer env p s w).1) a
              ∙ ap (λ y. save_account env (settle tx (debit p.amount s)) y) mid,
          mid_ok,
          positive,
          enough,
          fee,
        )

    -- After a transfer is executed with success, the sender's account is stored with the amount and the
    -- fee taken off and with the transaction's nonce, the recipient's with the amount added if it is
    -- another one, and every other account as it was.
    pub transfer-accounts :
        (tx : Transaction) (p : TransferPayload) (s : Account) (w : World D) (b : Str)
        → tx.payload ≡ Payload.transfer p
        → IsAddressed env w.db
        → load_account env (sender_of env tx) w.db ≡ done s
        → is_done (execute env (some tx) w).0 ≡ true
        → load_account env b (execute env (some tx) w).1.db ≡ (
            if sender_of env tx == b
            then done (normal (settle tx (debit p.amount s)))
            else if p.to == b
            then done (normal (credit p.amount (get_or_create_account env p.to w.db)))
            else load_account env b w.db)
    unfolding settle
    transfer-accounts tx p s w b e own l ok =
        let (same, mid_ok, _, _, _) = executed_form tx p s w e l ok in
        let r = credit p.amount (get_or_create_account env p.to w.db) in
        rw same (
          ground (
            arith,
            load-save env law (settle tx (debit p.amount s)) b (save_account env r w).1,
            load-save env law r b w,
            own (sender_of env tx) s l,
            get_or_create-address env p.to w.db own,
            mid_ok,
            ok,
            same,
          ))

    transfer-balances :
        (tx : Transaction) (p : TransferPayload) (s : Account) (w : World D) (b : Str)
        → tx.payload ≡ Payload.transfer p
        → IsAddressed env w.db
        → load_account env (sender_of env tx) w.db ≡ done s
        → is_done (execute env (some tx) w).0 ≡ true
        → balance_of env b (execute env (some tx) w).1.db ≡ (
            if sender_of env tx == b
            then add_u64 (sub_u64 (sub_u64 s.balance p.amount) tx.fee) 0
            else if p.to == b
            then add_u64 (balance_of env p.to w.db) p.amount
            else balance_of env b w.db)
    unfolding get_or_create_account settle
    transfer-balances tx p s w b e own l ok =
        ground (arith, transfer-accounts tx p s w b e own l ok)

    -- the sender pays the amount and then the fee
    sender-balance :
        (tx : Transaction) (p : TransferPayload) (s : Account) (w : World D)
        → tx.payload ≡ Payload.transfer p
        → IsAddressed env w.db
        → load_account env (sender_of env tx) w.db ≡ done s
        → is_done (execute env (some tx) w).0 ≡ true
        → balance_of env (sender_of env tx) (execute env (some tx) w).1.db
          ≡ add_u64 (sub_u64 (sub_u64 s.balance p.amount) tx.fee) 0
    sender-balance tx p s w e own l ok = ground (
      arith,
      transfer-balances tx p s w (sender_of env tx) e own l ok,
      (str_eq_iff (sender_of env tx) (sender_of env tx)).1 refl,
    )

    -- A transfer between two accounts takes exactly the amount and the fee from the sender and gives exactly
    -- the amount to the recipient, where the sender can pay for both together and the sum does not overflow.
    pub transfer-conserves :
        (tx : Transaction) (p : TransferPayload) (s : Account) (w : World D)
        → tx.payload ≡ Payload.transfer p
        → IsAddressed env w.db
        → load_account env (sender_of env tx) w.db ≡ done s
        → is_done (execute env (some tx) w).0 ≡ true
        → p.to ≢ sender_of env tx
        → p.amount + tx.fee ≤ s.balance
        → s.balance < u64_mod
        → balance_of env p.to w.db + p.amount < u64_mod
        → let after = (execute env (some tx) w).1.db in
          (balance_of env (sender_of env tx) after + (p.amount + tx.fee)
            ≡ balance_of env (sender_of env tx) w.db)
          × (balance_of env p.to after ≡ balance_of env p.to w.db + p.amount)
    transfer-conserves tx p s w e own l ok other enough fits sum_fits =
        let (_, _, _, amount_fits, fee_fits) = executed_form tx p s w e l ok in
        let loaded = loaded-balance (sender_of env tx) s w.db l in
        (
          omega (arith, sender-balance tx p s w e own l ok, loaded, enough, fits),
          ground (
            arith,
            transfer-balances tx p s w p.to e own l ok,
            (str_eq_iff p.to p.to).1 refl,
            str_eq_iff (sender_of env tx) p.to,
            other,
          ),
        )

    -- The amount and the fee are checked one by one: if the sender can pay for each and not for both, the
    -- transfer is executed and the sender's balance wraps around to near 2^64.
    transfer-wraps :
        (tx : Transaction) (p : TransferPayload) (s : Account) (w : World D)
        → tx.payload ≡ Payload.transfer p
        → IsAddressed env w.db
        → load_account env (sender_of env tx) w.db ≡ done s
        → is_done (execute env (some tx) w).0 ≡ true
        → s.balance < p.amount + tx.fee
        → s.balance < u64_mod
        → balance_of env (sender_of env tx) (execute env (some tx) w).1.db + (p.amount + tx.fee)
          ≡ s.balance + u64_mod
    transfer-wraps tx p s w e own l ok short fits =
        let (_, _, _, amount_fits, fee_fits) = executed_form tx p s w e l ok in
        omega (arith, sender-balance tx p s w e own l ok, short, fits, amount_fits, fee_fits)

    -- A transfer to oneself loses the amount: the sender's copy is saved over the recipient's.
    pub self_transfer-loses :
        (tx : Transaction) (p : TransferPayload) (s : Account) (w : World D)
        → tx.payload ≡ Payload.transfer p
        → IsAddressed env w.db
        → load_account env (sender_of env tx) w.db ≡ done s
        → is_done (execute env (some tx) w).0 ≡ true
        → p.to ≡ sender_of env tx
        → p.amount + tx.fee ≤ s.balance
        → s.balance < u64_mod
        → balance_of env p.to (execute env (some tx) w).1.db + (p.amount + tx.fee) ≡ s.balance
    self_transfer-loses tx p s w e own l ok self enough fits =
        ap (λ a. balance_of env a (execute env (some tx) w).1.db + (p.amount + tx.fee)) self
        ∙ omega (arith, sender-balance tx p s w e own l ok, enough, fits)
