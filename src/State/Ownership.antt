-- ===== src/State/Ownership.antt =====
-- NFTs under the methods of `StateMachine` (pkg/state/state.go): the owner in the NFT's record and
-- the lists in the accounts.
use dagnet_crypto.Base.{
  ℕ, ◌+◌, ◌-◌, ◌≡◌, refl, Bool, true, false, none, some, inl, inr, Str, str_key, str_eq_iff, arith,
  ◌==◌, if◌then◌else◌, Option-cases, Bool-cases, sym, ◌∙◌, List, [], ◌∷◌, ◌++◌, ◌&&◌,
}
use dagnet_crypto.Map.{lookup, contains, lookup-insert, lookup-modify}
use dagnet_crypto.Pb.{Transaction, Payload, MintNftPayload, TransferNftPayload}
use dagnet_crypto.State.Monad.{AccountState, State}
use dagnet_crypto.State.Defs.{
  ensure, on_account, deref, append_nft, drop_nft, remove_nft, nft_key, execute_mint_nft,
  execute_transfer_nft, execute_create_collection, execute_transfer, execute_create_token,
  execute_transfer_token, execute_create_validator, execute_delegate_stake, dispatch,
  execute_transaction, execute_all, register_nft, nft_of, set_owner,
}
use dagnet_crypto.State.Accounts.{
  deref-ensure, ensure-Known, ensure_keeps-Known, on_account-Known, deref-on_account, same-deref,
  same-Known, register_nft-accounts, set_owner-accounts,
}
use dagnet_crypto.State.Frame.{
  transfer-Same, create_token-Same, transfer_token-Same, create_validator-Same, delegate_stake-Same,
  pay_fee-Same,
}
use dagnet_crypto.State.Maps.{
  execute_transaction-state, transfer-SameMaps, transfer_token-SameMaps, create_token-nfts,
  create_validator-SameMaps, delegate_stake-SameMaps,
}

-- how often a list names an NFT
unfoldable pub count : Str → List Str → ℕ
count id [] = 0
count id (x ∷ xs) = (if x == id then 1 else 0) + count id xs

count-append :
    (id x : Str) (xs : List Str)
    → count id (xs ++ (x ∷ [])) ≡ count id xs + (if x == id then 1 else 0)
unfolding count
count-append id x [] = omega arith
count-append id x (y ∷ ys) = omega (arith, count-append id x ys)

count-remove_nft :
    (id x : Str) (xs : List Str)
    → count id (remove_nft x xs) ≡ count id xs - (if x == id then 1 else 0)
unfolding count remove_nft
count-remove_nft id x [] = ground arith
count-remove_nft id x (y ∷ ys) =
    ground (arith, count-remove_nft id x ys, str_eq_iff y x, str_eq_iff x id, str_eq_iff y id)

abbrev listed_in : Str → AccountState → ℕ
listed_in id v = count id v.nfts

-- how often account `k` lists the NFT `id`
abbrev pub listed : Str → Str → State → ℕ
listed id k s = listed_in id (deref k s)

-- how often it should
abbrev pub owned : Str → Str → State → ℕ
owned id k s = elim (lookup id s.nfts) [ none ↦ 0 | some n ↦ if n.owner == k then 1 else 0 ]

-- Each NFT is listed once by the account of its owner and by no other, and an account lists only
-- NFTs that exist.
abbrev pub IsOwned : State → Type 0
IsOwned s = (id k : Str) → listed id k s ≡ owned id k s

carry_over :
    (s t : State)
    → ((id k : Str) → listed id k t ≡ listed id k s)
    → t.nfts ≡ s.nfts
    → IsOwned s
    → IsOwned t
carry_over s t h e b id k = ground (arith, h id k, b id k)

mint_nft-owned :
    (tx : Transaction) (p : MintNftPayload) (s : State) (id k : Str)
    → let key = nft_key p.collection_id p.nft_id in
      owned id k (execute_mint_nft tx p s).1 ≡ (
        if contains key s.nfts
        then owned id k s
        else if key == id
        then if p.owner == k then 1 else 0
        else owned id k s)
unfolding execute_mint_nft register_nft ensure on_account
mint_nft-owned tx p s id k =
    ground (arith, lookup-insert (nft_key p.collection_id p.nft_id) id (nft_of p) s.nfts)

mint_nft-listed :
    (tx : Transaction) (p : MintNftPayload) (s : State) (id k : Str)
    → let key = nft_key p.collection_id p.nft_id in
      listed id k (execute_mint_nft tx p s).1 ≡ (
        if contains key s.nfts
        then listed id k s
        else listed id k s + (if key == id then if p.owner == k then 1 else 0 else 0))
unfolding execute_mint_nft count
mint_nft-listed tx p s id k =
    let key = nft_key p.collection_id p.nft_id in
    let a = tx.public_key in
    let s₁ = register_nft key p s in
    let s₂ = ensure p.owner s₁ in
    let s₃ = on_account p.owner (append_nft key) s₂ in
    let s₄ = ensure a s₃ in
    ground (
      arith,
      same-deref s₁ s (register_nft-accounts key p s) k,
      deref-ensure p.owner k s₁,
      deref-on_account p.owner (append_nft key) s₂ k (ensure-Known p.owner s₁),
      deref-ensure a k s₃,
      (pay_fee-Same (listed_in id) k (λ _. refl) (λ _ _. refl) a tx.fee s₄).point,
      count-append id key (deref p.owner s₂).nfts,
      str_eq_iff p.owner k,
    )

mint_nft-IsOwned :
    (tx : Transaction) (p : MintNftPayload) (s : State)
    → IsOwned s
    → IsOwned (execute_mint_nft tx p s).1
unfolding contains
mint_nft-IsOwned tx p s b id k = ground (
  arith,
  b id k,
  mint_nft-owned tx p s id k,
  mint_nft-listed tx p s id k,
  str_eq_iff (nft_key p.collection_id p.nft_id) id,
)

-- the checks that `executeTransferNFT` makes before it writes
may_move : Transaction → Str → State → Bool
may_move tx key s = elim (lookup key s.nfts) [ none ↦ false | some n ↦ n.owner == tx.public_key ]

transfer_nft-owned :
    (tx : Transaction) (p : TransferNftPayload) (s : State) (id k : Str)
    → let key = nft_key p.collection_id p.nft_id in
      owned id k (execute_transfer_nft tx p s).1
      ≡ (if may_move tx key s && (key == id) then if p.to == k then 1 else 0 else owned id k s)
unfolding execute_transfer_nft set_owner ensure on_account may_move
transfer_nft-owned tx p s id k =
    let key = nft_key p.collection_id p.nft_id in
    ground (arith, lookup-modify key id (λ n. record n { owner = p.to }) s.nfts, str_eq_iff key id)

transfer_nft-listed :
    (tx : Transaction) (p : TransferNftPayload) (s : State) (id k : Str)
    → let key = nft_key p.collection_id p.nft_id in
      listed id k (execute_transfer_nft tx p s).1 ≡ (
        if may_move tx key s
        then listed id k s
          - (if tx.public_key == k then if key == id then 1 else 0 else 0)
          + (if p.to == k then if key == id then 1 else 0 else 0)
        else listed id k s)
unfolding execute_transfer_nft may_move count
transfer_nft-listed tx p s id k =
    let key = nft_key p.collection_id p.nft_id in
    let a = tx.public_key in
    let s₁ = ensure a s in
    let s₂ = ensure p.to s₁ in
    let s₃ = set_owner key p.to s₂ in
    let s₄ = on_account a (drop_nft key) s₃ in
    let s₅ = on_account p.to (append_nft key) s₄ in
    let kept = same-Known s₃ s₂ (set_owner-accounts key p.to s₂) in
    let here = kept a (ensure_keeps-Known p.to a s₁ (ensure-Known a s)) in
    let there = on_account-Known a (drop_nft key) s₃ p.to (kept p.to (ensure-Known p.to s₁)) in
    ground (
      arith,
      deref-ensure a k s,
      deref-ensure a a s,
      deref-ensure p.to k s₁,
      same-deref s₃ s₂ (set_owner-accounts key p.to s₂) k,
      deref-on_account a (drop_nft key) s₃ k here,
      deref-on_account p.to (append_nft key) s₄ k there,
      (pay_fee-Same (listed_in id) k (λ _. refl) (λ _ _. refl) a tx.fee s₅).point,
      count-append id key (deref k s₄).nfts,
      count-remove_nft id key (deref k s₃).nfts,
      str_eq_iff a k,
      str_eq_iff p.to k,
    )

owned_of_may_move :
    (tx : Transaction) (key id k : Str) (s : State)
    → may_move tx key s ≡ true
    → key ≡ id
    → owned id k s ≡ (if tx.public_key == k then 1 else 0)
unfolding may_move
owned_of_may_move tx key id k s m e = rw (← e) (elim (Option-cases (lookup key s.nfts)) [
  | inl none_found ↦ ground arith
  | inr (n, found) ↦ ground (arith, str_eq_iff n.owner tx.public_key)
])

transfer_nft-IsOwned :
    (tx : Transaction) (p : TransferNftPayload) (s : State)
    → IsOwned s
    → IsOwned (execute_transfer_nft tx p s).1
transfer_nft-IsOwned tx p s b id k =
    let key = nft_key p.collection_id p.nft_id in
    transfer_nft-listed tx p s id k
    ∙ (elim (Bool-cases (may_move tx key s)) [
      | inl m ↦ elim (Bool-cases (key == id)) [
        | inl e ↦
            rw (b id k, owned_of_may_move tx key id k s m ((str_eq_iff key id).0 e), m, e)
              (ground arith)
        | inr e ↦ rw (b id k, m, e) (ground arith)
      ]
      | inr m ↦ rw (b id k, m)
    ])
    ∙ sym (transfer_nft-owned tx p s id k)

dispatch-IsOwned :
    (tx : Transaction) (q : Payload) (s : State) → IsOwned s → IsOwned (dispatch tx q s).1
unfolding dispatch count
dispatch-IsOwned tx (Payload.transfer p) s b =
    carry_over s (execute_transfer tx p s).1
      (λ id k.
        (transfer-Same (listed_in id) k (λ _. refl) (λ _ _. refl) (λ _ _. refl) tx p s).point)
      (transfer-SameMaps tx p s).nfts b
dispatch-IsOwned tx (Payload.create_token p) s b =
    carry_over s (execute_create_token tx p s).1
      (λ id k. (create_token-Same (listed_in id) k (λ _. refl) (λ _ _. refl) tx p s).point)
      (create_token-nfts tx p s) b
dispatch-IsOwned tx (Payload.transfer_token p) s b =
    carry_over s (execute_transfer_token tx p s).1
      (λ id k.
        (transfer_token-Same (listed_in id) k (λ _. refl) (λ _ _. refl) (λ _ _. refl) tx p s).point)
      (transfer_token-SameMaps tx p s).nfts b
dispatch-IsOwned tx (Payload.create_collection p) s b =
    carry_over s (execute_create_collection tx p s).1
      (λ id k. unfold execute_create_collection in ground arith)
      (unfold execute_create_collection in ground arith) b
dispatch-IsOwned tx (Payload.mint_nft p) s b = mint_nft-IsOwned tx p s b
dispatch-IsOwned tx (Payload.transfer_nft p) s b = transfer_nft-IsOwned tx p s b
dispatch-IsOwned tx (Payload.create_validator p) s b =
    carry_over s (execute_create_validator tx p s).1
      (λ id k. (create_validator-Same (listed_in id) k (λ _. refl) (λ _ _. refl) tx p s).point)
      (create_validator-SameMaps tx p s).nfts b
dispatch-IsOwned tx (Payload.delegate_stake p) s b =
    carry_over s (execute_delegate_stake tx p s).1
      (λ id k.
        (delegate_stake-Same (listed_in id) k (λ _. refl) (λ _ _. refl) (λ _ _ _. refl) tx p
          s).point)
      (delegate_stake-SameMaps tx p s).nfts b
dispatch-IsOwned tx (Payload.mint_token p) s b = b
dispatch-IsOwned tx (Payload.burn_token p) s b = b
dispatch-IsOwned tx Payload.other s b = b

execute_transaction-IsOwned :
    (tx : Transaction) (s : State) → IsOwned s → IsOwned (execute_transaction tx s).1
execute_transaction-IsOwned tx s b = elim (execute_transaction-state tx s) [
  | inl e ↦ rw e b
  | inr e ↦ rw e (dispatch-IsOwned tx tx.payload s b)
]

-- A run of `ExecuteTransaction` over any transactions, whether they succeed or fail, keeps the NFT
-- records and the accounts' lists in step: each NFT stands once in the list of the owner that its
-- record names, in no other list, and no list names an NFT that does not exist.
pub execute_all-IsOwned :
    (txs : List Transaction) (s : State) → IsOwned s → IsOwned (execute_all txs s)
unfolding execute_all
execute_all-IsOwned [] s b = b
execute_all-IsOwned (tx ∷ txs) s b =
    execute_all-IsOwned txs (execute_transaction tx s).1 (execute_transaction-IsOwned tx s b)
