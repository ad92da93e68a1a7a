-- ===== src/State/Overflow.antt =====
-- Amount and fee are added in `uint64` with no overflow check, in `verifyTransaction` as in
-- `executeTransfer` (pkg/state/state.go).
use dagnet_crypto.Base.{◌+◌, ◌<◌, ◌≤◌, ◌≡◌, ◌≢◌, str_key, str_eq_iff, arith, add_u64, u64_mod}
use dagnet_crypto.Pb.{Transaction, Payload, TransferPayload}
use dagnet_crypto.State.Monad.{AccountState, State, ok}
use dagnet_crypto.State.Defs.{
  ensure, on_account, deref, debit, credit, transaction_value, verify_transaction, execute_transfer,
  dispatch, execute_transaction,
}
use dagnet_crypto.State.Accounts.{
  Known, deref-ensure, ensure-Known, ensure_keeps-Known, on_account-Known, deref-on_account,
  lookup_of_Known,
}
use dagnet_crypto.State.Nonce.{nonce_of, Verified, ok_of_Verified}

execute-verified :
    (tx : Transaction) (p : TransferPayload) (s : State)
    → tx.payload ≡ Payload.transfer p
    → verify_transaction tx s ≡ (ok tt, s)
    → execute_transaction tx s ≡ execute_transfer tx p s
unfolding execute_transaction dispatch
execute-verified tx p s e v = ground arith

module _ (tx : Transaction) (p : TransferPayload) (s : State) (here : Known tx.public_key s)
    (wraps : p.amount + tx.fee ≡ u64_mod) (other : p.to ≢ tx.public_key)
    (fits : (deref tx.public_key s).balance < u64_mod)
    (room : (deref p.to s).balance + p.amount < u64_mod) where
  transfer_overflows :
      let (r, s') = execute_transfer tx p s in
      (r ≡ ok tt)
      × ((deref tx.public_key s').balance ≡ (deref tx.public_key s).balance)
      × ((deref p.to s').balance ≡ (deref p.to s).balance + p.amount)
  unfolding execute_transfer
  transfer_overflows =
      let a = tx.public_key in
      let x = add_u64 p.amount tx.fee in
      let g = λ (v : AccountState). record v { nonce = tx.nonce } in
      let found = lookup_of_Known a s here in
      let s₁ = ensure p.to s in
      let s₂ = on_account a (debit x) s₁ in
      let s₃ = on_account p.to (credit p.amount) s₂ in
      let here₁ = ensure_keeps-Known p.to a s here in
      let there = on_account-Known a (debit x) s₁ p.to (ensure-Known p.to s) in
      let known =
        on_account-Known p.to (credit p.amount) s₂ a (on_account-Known a (debit x) s₁ a here₁) in
      ground (
        arith,
        found,
        deref-ensure p.to a s,
        deref-ensure p.to p.to s,
        deref-on_account a (debit x) s₁ a here₁,
        deref-on_account a (debit x) s₁ p.to here₁,
        deref-on_account p.to (credit p.amount) s₂ a there,
        deref-on_account p.to (credit p.amount) s₂ p.to there,
        deref-on_account a g s₃ a known,
        deref-on_account a g s₃ p.to known,
        str_eq_iff a a,
        str_eq_iff p.to p.to,
        str_eq_iff a p.to,
        str_eq_iff p.to a,
      )

-- A transfer whose amount and fee add up to 2^64 costs its sender nothing: the sender keeps the
-- whole balance, and the recipient gets the amount, which nobody had.
pub transfer_overflow_mints :
    (tx : Transaction) (p : TransferPayload) (s : State)
    → tx.payload ≡ Payload.transfer p
    → Known tx.public_key s
    → nonce_of tx.public_key s < tx.nonce
    → 1000 ≤ tx.fee
    → p.amount + tx.fee ≡ u64_mod
    → p.to ≢ tx.public_key
    → (deref tx.public_key s).balance < u64_mod
    → (deref p.to s).balance + p.amount < u64_mod
    → let (r, s') = execute_transaction tx s in
      (r ≡ ok tt)
      × ((deref tx.public_key s').balance ≡ (deref tx.public_key s).balance)
      × ((deref p.to s').balance ≡ (deref p.to s).balance + p.amount)
transfer_overflow_mints tx p s e here fresh fee wraps other fits room =
    let funds : add_u64 tx.fee (transaction_value tx.payload) ≤ (deref tx.public_key s).balance =
      rw e (unfold transaction_value in omega arith) in
    let v : Verified tx s = record { known = here; fresh = fresh; fee = fee; funds = funds } in
    rw (execute-verified tx p s e (ok_of_Verified tx s v))
      (transfer_overflows tx p s here wraps other fits room)
