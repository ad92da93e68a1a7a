-- ===== src/Executor/Cases.antt =====
-- How `TransactionExecutor.Execute` may end (pkg/state/executor.go), and the addresses of what it loads.
use mathlib.Core.Path.{subst}
use dagnet_crypto.Base.{
  ◌≡◌, inl, inr, ◌⊎◌, refl, sym, ap, ◌∙◌, ◌≤◌, true, false, nat_eq_iff, leb→le, Bool-cases, some,
  Str, str_key, nat_key, ◌==◌, leb, add_u64,
}
use dagnet_crypto.Pb.{Transaction, Payload}
use dagnet_crypto.Crypto.Sign.{verify_transaction_signature}
use dagnet_crypto.Crypto.Address.{get_address_from_public_key}
use dagnet_crypto.Executor.Monad.{Account, done, World, Env, ◌>>=◌, ◌>>◌, reject_if, read, lift}
use dagnet_crypto.Executor.Accounts.{
  load_account, save_account, get_or_create_account, new_account, settle,
}
use dagnet_crypto.Executor.Methods.{execute, execute_transaction}
use dagnet_crypto.Executor.Laws.{Outcome-cases, done_injective, is_done}

module _ {D : Type 0} (env : Env D) where
  -- the address of who sends a transaction
  abbrev pub sender_of : Transaction → Str
  sender_of tx = get_address_from_public_key env.sum256 tx.public_key

  -- every stored account has the address it is stored under
  abbrev pub IsAddressed : D → Type 0
  IsAddressed d = (a : Str) (x : Account) → load_account env a d ≡ done x → x.address ≡ a

  pub loaded_or_new :
      (a : Str) (d : D)
      → ((x : Account) × (load_account env a d ≡ done x) × (get_or_create_account env a d ≡ x))
        ⊎ (get_or_create_account env a d ≡ new_account a)
  unfolding get_or_create_account
  loaded_or_new a d = elim (Outcome-cases (load_account env a d)) [
    | inl (x, e) ↦ inl (x, e, rw (e, get_or_create_account) refl)
    | inr (inl (x, e)) ↦ inr (rw (e, get_or_create_account) refl)
    | inr (inr e) ↦ inr (rw (e, get_or_create_account) refl)
  ]

  pub get_or_create-loaded :
      (a : Str) (s : Account) (d : D)
      → load_account env a d ≡ done s
      → get_or_create_account env a d ≡ s
  unfolding get_or_create_account
  get_or_create-loaded a s d l = rw (l, get_or_create_account) refl

  pub get_or_create-address :
      (a : Str) (d : D) → IsAddressed d → (get_or_create_account env a d).address ≡ a
  get_or_create-address a d h = elim (loaded_or_new a d) [
    | inl (x, l, e) ↦ rw e (h a x l)
    | inr e ↦ rw e refl
  ]

  -- how `execute` ends: stopped before the payload, stopped in it, or at the last save
  pub execute-cases :
      (tx : Transaction) (w : World D)
      → ((is_done (execute env (some tx) w).0 ≡ false) × ((execute env (some tx) w).1 ≡ w))
        ⊎ ((s : Account) × (load_account env (sender_of tx) w.db ≡ done s)
            × (tx.nonce ≡ add_u64 s.nonce 1)
            × (tx.fee ≤ s.balance)
            × ((is_done (execute_transaction env tx.payload s w).0 ≡ false)
                  × (is_done (execute env (some tx) w).0 ≡ false)
                  × ((execute env (some tx) w).1 ≡ (execute_transaction env tx.payload s w).1)
                ⊎ ((after : Account) × ((execute_transaction env tx.payload s w).0 ≡ done after)
                    × (execute env (some tx) w
                        ≡ save_account env
                            (settle tx after)
                            (execute_transaction env tx.payload s w).1))))
  unfolding execute ◌>>=◌ ◌>>◌ reject_if read lift
  execute-cases tx w = elim (Bool-cases (verify_transaction_signature env.crypto tx)) [
    | inr v ↦ inl (rw v refl, rw v refl)
    | inl v ↦ elim (Outcome-cases (load_account env (sender_of tx) w.db)) [
      | inr (inl (e, l)) ↦ inl (rw (v, l) refl, rw (v, l) refl)
      | inr (inr l) ↦ inl (rw (v, l) refl, rw (v, l) refl)
      | inl (s, l) ↦ elim (Bool-cases (tx.nonce == add_u64 s.nonce 1)) [
        | inr n ↦ inl (rw (v, l, n) refl, rw (v, l, n) refl)
        | inl n ↦ elim (Bool-cases (leb tx.fee s.balance)) [
          | inr f ↦ inl (rw (v, l, n, f) refl, rw (v, l, n, f) refl)
          | inl f ↦ inr (
            s,
            l,
            (nat_eq_iff tx.nonce (add_u64 s.nonce 1)).0 n,
            leb→le tx.fee s.balance f,
            elim (Outcome-cases (execute_transaction env tx.payload s w).0) [
              | inl (after, x) ↦ inr (after, x, rw (v, l, n, f, x, ◌>>=◌) refl)
              | inr (inl (e, x)) ↦
                  inl (rw x refl, rw (v, l, n, f, x, ◌>>=◌) refl, rw (v, l, n, f, x, ◌>>=◌) refl)
              | inr (inr x) ↦
                  inl (rw x refl, rw (v, l, n, f, x, ◌>>=◌) refl, rw (v, l, n, f, x, ◌>>=◌) refl)
            ],
          )
        ]
      ]
    ]
  ]

  -- what a success did, with its payload and its sender's account
  pub success_form :
      (tx : Transaction) (q : Payload) (s : Account) (w : World D)
      → tx.payload ≡ q
      → load_account env (sender_of tx) w.db ≡ done s
      → is_done (execute env (some tx) w).0 ≡ true
      → (after : Account) × ((execute_transaction env q s w).0 ≡ done after)
        × (execute env (some tx) w
            ≡ save_account env (settle tx after) (execute_transaction env q s w).1)
        × (tx.fee ≤ s.balance)
  success_form tx q s w e l ok = elim (execute-cases tx w) [
    | inl (f, same) ↦ absurd (cc (f, ok))
    | inr (s', l', n, fee, inl (x, f, same)) ↦ absurd (cc (f, ok))
    | inr (s', l', n, fee, inr (after, x, same)) ↦
        let at_s = done_injective (sym l' ∙ l) in
        let one = ap (λ a. (execute_transaction env q a w)) at_s in
        let two = ap (λ y. execute_transaction env y s' w) e in
        (
          after,
          ap (λ r. r.0) (sym (two ∙ one)) ∙ x,
          same ∙ ap (λ r. save_account env (settle tx after) r.1) (two ∙ one),
          subst (λ a. tx.fee ≤ a.balance) at_s fee,
        )
  ]
