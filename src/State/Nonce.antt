-- ===== src/State/Nonce.antt =====
-- Nonces and replay under `ExecuteTransaction` (pkg/state/state.go).
use dagnet_crypto.Base.{
  ℕ, ◌<◌, ◌≤◌, ◌≡◌, refl, Bool, true, false, Str, str_key, str_eq_iff, arith, inl, inr,
  Option-cases, ◌==◌, if◌then◌else◌, ◌&&◌, List, [], ◌∷◌, add_u64,
}
use dagnet_crypto.Map.{lookup}
use dagnet_crypto.Pb.{Transaction, Payload, TransferPayload}
use dagnet_crypto.State.Monad.{State, Error, Result, ok, err}
use dagnet_crypto.State.Defs.{
  ensure, on_account, deref, debit, credit, transaction_value, verify_transaction, execute_transfer,
  execute_create_collection, dispatch, execute_transaction, execute_all,
}
use dagnet_crypto.State.Accounts.{
  Known, deref-ensure, ensure-Known, ensure_keeps-Known, on_account-Known, deref-on_account,
  Known-of_lookup, lookup_of_Known,
}
use dagnet_crypto.State.Frame.{
  transfer_token-Same, create_token-Same, mint_nft-Same, transfer_nft-Same, create_validator-Same,
  delegate_stake-Same,
}

-- the nonce that the state machine holds for a key
abbrev pub nonce_of : Str → State → ℕ
nonce_of k s = (deref k s).nonce

abbrev pub is_transfer : Payload → Bool
is_transfer (Payload.transfer _) = true
is_transfer _ = false

dispatch_others-nonce :
    (tx : Transaction) (q : Payload) (s : State) (k : Str)
    → is_transfer q ≡ false
    → nonce_of k (dispatch tx q s).1 ≡ nonce_of k s
unfolding dispatch
dispatch_others-nonce tx (Payload.transfer p) s k h = cc
dispatch_others-nonce tx (Payload.create_token p) s k h =
    (create_token-Same (λ v. v.nonce) k (λ _. refl) (λ _ _. refl) tx p s).point
dispatch_others-nonce tx (Payload.transfer_token p) s k h =
    (transfer_token-Same (λ v. v.nonce) k (λ _. refl) (λ _ _. refl) (λ _ _. refl) tx p s).point
dispatch_others-nonce tx (Payload.create_collection p) s k h =
    unfold execute_create_collection in ground arith
dispatch_others-nonce tx (Payload.mint_nft p) s k h =
    (mint_nft-Same (λ v. v.nonce) k (λ _. refl) (λ _ _. refl) (λ _ _. refl) tx p s).point
dispatch_others-nonce tx (Payload.transfer_nft p) s k h =
    (transfer_nft-Same (λ v. v.nonce) k (λ _. refl) (λ _ _. refl) (λ _ _. refl) tx p s).point
dispatch_others-nonce tx (Payload.create_validator p) s k h =
    (create_validator-Same (λ v. v.nonce) k (λ _. refl) (λ _ _. refl) tx p s).point
dispatch_others-nonce tx (Payload.delegate_stake p) s k h =
    (delegate_stake-Same (λ v. v.nonce) k (λ _. refl) (λ _ _. refl) (λ _ _ _. refl) tx p s).point
dispatch_others-nonce tx (Payload.mint_token p) s k h = refl
dispatch_others-nonce tx (Payload.burn_token p) s k h = refl
dispatch_others-nonce tx Payload.other s k h = refl

-- A transfer stores its nonce for the sender and touches no other; a failed one touches none.
transfer-nonce :
    (tx : Transaction) (p : TransferPayload) (s : State) (k : Str)
    → nonce_of k (execute_transfer tx p s).1 ≡ (elim (execute_transfer tx p s).0 [
      | ok _ ↦ if tx.public_key == k then tx.nonce else nonce_of k s
      | err _ ↦ nonce_of k s
    ])
unfolding execute_transfer
transfer-nonce tx p s k = elim (Option-cases (lookup tx.public_key s.accounts)) [
  | inl e ↦ rw e
  | inr (v, e) ↦
      let a = tx.public_key in
      let x = add_u64 p.amount tx.fee in
      let s₁ = ensure p.to s in
      let s₂ = on_account a (debit x) s₁ in
      let s₃ = on_account p.to (credit p.amount) s₂ in
      let here = ensure_keeps-Known p.to a s (Known-of_lookup a s e) in
      let there = on_account-Known a (debit x) s₁ p.to (ensure-Known p.to s) in
      let known =
        on_account-Known p.to (credit p.amount) s₂ a (on_account-Known a (debit x) s₁ a here) in
      ground (
        arith,
        deref-ensure p.to k s,
        deref-on_account a (debit x) s₁ k here,
        deref-on_account a (debit x) s₁ a here,
        deref-on_account a (debit x) s₁ p.to here,
        deref-on_account p.to (credit p.amount) s₂ k there,
        deref-on_account p.to (credit p.amount) s₂ a there,
        deref-on_account a (λ v. record v { nonce = tx.nonce }) s₃ k known,
        str_eq_iff a k,
        str_eq_iff a p.to,
        str_eq_iff p.to k,
      )
]

-- What the checks of `verifyTransaction` come to.
pub record Verified (tx : Transaction) (s : State) : Type 0 where
  pub known : Known tx.public_key s
  pub fresh : nonce_of tx.public_key s < tx.nonce
  pub fee : 1000 ≤ tx.fee
  pub funds : add_u64 tx.fee (transaction_value tx.payload) ≤ (deref tx.public_key s).balance

Verified-of_ok :
    (tx : Transaction) (s : State) → (verify_transaction tx s).0 ≡ ok tt → Verified tx s
unfolding verify_transaction deref
Verified-of_ok tx s h = elim (Option-cases (lookup tx.public_key s.accounts)) [
  | inl e ↦ ground arith
  | inr (v, e) ↦ let k = Known-of_lookup tx.public_key s e in ground arith
]

verified_of_done :
    (tx : Transaction) (s : State)
    → (execute_transaction tx s).0 ≡ ok tt
    → (verify_transaction tx s).0 ≡ ok tt
unfolding execute_transaction
verified_of_done tx s h = ground arith

pub ok_of_Verified :
    (tx : Transaction) (s : State) → Verified tx s → verify_transaction tx s ≡ (ok tt, s)
unfolding verify_transaction
ok_of_Verified tx s v = let e = lookup_of_Known tx.public_key s v.known in ground arith

-- A verification never changes the state.
verify-state : (tx : Transaction) (s : State) → (verify_transaction tx s).1 ≡ s
unfolding verify_transaction
verify-state tx s = ground arith

dispatch-nonce :
    (tx : Transaction) (q : Payload) (s : State) (k : Str)
    → nonce_of k (dispatch tx q s).1 ≡ (elim (dispatch tx q s).0 [
      | ok _ ↦ if is_transfer q && tx.public_key == k then tx.nonce else nonce_of k s
      | err _ ↦ nonce_of k s
    ])
dispatch-nonce tx (Payload.transfer p) s k = unfold dispatch in transfer-nonce tx p s k
dispatch-nonce tx q s k = ground (arith, dispatch_others-nonce tx q s k)

-- What `ExecuteTransaction` does to the nonces: a transfer that succeeds stores its own nonce, which
-- is above the old one, for its sender; each other transaction, and each failure, changes none.
pub execute_transaction-nonce :
    (tx : Transaction) (s : State) (k : Str)
    → let (r, s') = execute_transaction tx s in
      (nonce_of k s' ≡ (elim r [
        | ok _ ↦ if is_transfer tx.payload && tx.public_key == k then tx.nonce else nonce_of k s
        | err _ ↦ nonce_of k s
      ]))
      × (nonce_of k s ≤ nonce_of k s')
unfolding execute_transaction
execute_transaction-nonce tx s k = ground (
  arith,
  Verified-of_ok tx s,
  verify-state tx s,
  dispatch-nonce tx tx.payload s k,
  str_eq_iff tx.public_key k,
)

execute_all-nonce :
    (txs : List Transaction) (s : State) (k : Str) → nonce_of k s ≤ nonce_of k (execute_all txs s)
unfolding execute_all
execute_all-nonce [] s k = omega arith
execute_all-nonce (tx ∷ txs) s k = omega (
  arith,
  (execute_transaction-nonce tx s k).1,
  execute_all-nonce txs (execute_transaction tx s).1 k,
)

-- An old nonce is refused.
old_nonce_refused :
    (tx : Transaction) (s : State)
    → tx.nonce ≤ nonce_of tx.public_key s
    → (e : Error) × (execute_transaction tx s ≡ (err e, s))
old_nonce_refused tx s old = refused (verify_transaction tx s).0 refl
  where
    refused :
        (r : Result (Unit {0}))
        → (verify_transaction tx s).0 ≡ r
        → (e : Error) × (execute_transaction tx s ≡ (err e, s))
    refused (ok _) h = absurd (omega (arith, (Verified-of_ok tx s h).fresh))
    refused (err e) h = (e, unfold execute_transaction in ground (arith, verify-state tx s))

-- Once a transfer has succeeded, no transaction of the same sender with the same nonce or a lower
-- one is executed, whatever transactions come between: it is refused, and changes nothing.
pub no_replay :
    (tx : Transaction) (between : List Transaction) (again : Transaction) (s : State)
    → is_transfer tx.payload ≡ true
    → (execute_transaction tx s).0 ≡ ok tt
    → again.public_key ≡ tx.public_key
    → again.nonce ≤ tx.nonce
    → let s' = execute_all between (execute_transaction tx s).1 in
      (e : Error) × (execute_transaction again s' ≡ (err e, s'))
no_replay tx between again s t done same old =
    let a = again.public_key in
    let s₁ = (execute_transaction tx s).1 in
    let stored : nonce_of a s₁ ≡ tx.nonce =
      ground (arith, (execute_transaction-nonce tx s a).0, str_eq_iff tx.public_key a) in
    old_nonce_refused again (execute_all between s₁) (omega (arith, execute_all-nonce between s₁ a))

-- Any other transaction that succeeded passes verification again as long as the sender's account
-- covers its fee and value: its nonce does not count as used.
pub others_replayable :
    (tx : Transaction) (s : State)
    → is_transfer tx.payload ≡ false
    → (execute_transaction tx s).0 ≡ ok tt
    → Known tx.public_key (execute_transaction tx s).1
    → add_u64 tx.fee (transaction_value tx.payload)
      ≤ (deref tx.public_key (execute_transaction tx s).1).balance
    → verify_transaction tx (execute_transaction tx s).1 ≡ (ok tt, (execute_transaction tx s).1)
others_replayable tx s t done known funds =
    let checked = Verified-of_ok tx s (verified_of_done tx s done) in
    let kept : nonce_of tx.public_key (execute_transaction tx s).1 ≡ nonce_of tx.public_key s =
      ground (arith, (execute_transaction-nonce tx s tx.public_key).0) in
    ok_of_Verified tx (execute_transaction tx s).1
      (record { known = known; fresh = omega arith; fee = checked.fee; funds = funds })
