-- ===== src/Executor/Nonce/Saves.antt =====
-- The nonces of the stored accounts when the executor saves something (pkg/state/executor.go).
use dagnet_crypto.Base.{
  ◌≡◌, inl, inr, ◌⊎◌, sym, ap, ◌∙◌, ℕ, Bool, true, false, Bool-cases, Str, str_key, str_eq_iff,
  nat_key, ◌==◌, ◌&&◌, if◌then◌else◌, arith,
}
use dagnet_crypto.Pb.{Payload, PbValidator, Token}
use dagnet_crypto.Executor.Monad.{Account, done, World, Env}
use dagnet_crypto.Executor.Accounts.{
  load_account, save_account, get_or_create_account, save_token, save_validator,
}
use dagnet_crypto.Executor.Laws.{
  IsEnv, done_injective, is_done, normal, load-save, load-save_token, load-save_validator,
}
use dagnet_crypto.Executor.Cases.{IsAddressed, get_or_create-address}
use dagnet_crypto.Executor.Keeps.{Keeps}

-- the nonce that `getOrCreateAccount` gives
abbrev pub nonce_of : {D : Type 0} → Env D → Str → D → ℕ
nonce_of env a d = (get_or_create_account env a d).nonce

-- the payloads whose methods the repository has
abbrev pub declared : Payload → Bool
declared (Payload.burn_token _) = false
declared (Payload.transfer_nft _) = false
declared _ = true

-- an account whose nonce is the stored one
abbrev pub Current : (Str → ℕ) → Account → Type 0
Current n a = a.nonce ≡ n a.address

-- what a method gives back: the sender's copy, with a current nonce
abbrev pub Sent : (Str → ℕ) → Account → Account → Type 0
Sent n s a = (a.address ≡ s.address) × Current n a

-- accounts have their addresses, and the nonces are given
abbrev pub HasNonces : {D : Type 0} → Env D → (Str → ℕ) → World D → Type 0
HasNonces env n w = IsAddressed env w.db × ((b : Str) → nonce_of env b w.db ≡ n b)

module _ {D : Type 0} (env : Env D) (law : IsEnv env) where
  -- equal loads
  pub loads-HasNonces :
      (n : Str → ℕ) (v w : World D)
      → ((b : Str) → load_account env b w.db ≡ load_account env b v.db)
      → HasNonces env n v
      → HasNonces env n w
  unfolding get_or_create_account
  loads-HasNonces n v w same (own, h) =
      (λ a x l. own a x (sym (same a) ∙ l), λ b. rw (same b, get_or_create_account, nonce_of) (h b))

  -- after a save a load gives what was saved, or what it gave before
  pub load-save_cases :
      (a : Account) (b : Str) (w : World D)
      → ((a.address ≡ b) × (load_account env b (save_account env a w).1.db ≡ done (normal a)))
        ⊎ (load_account env b (save_account env a w).1.db ≡ load_account env b w.db)
  load-save_cases a b w = elim (Bool-cases (is_done (save_account env a w).0 && a.address == b)) [
    | inl e ↦ inl (
      (str_eq_iff a.address b).0 (ground (arith, e)),
      load-save env law a b w ∙ ap (λ c. if c then done (normal a) else load_account env b w.db) e,
    )
    | inr e ↦ inr (
        load-save env law a b w
        ∙ ap (λ c. if c then done (normal a) else load_account env b w.db) e)
  ]

  pub save-IsAddressed :
      (a : Account) (w : World D)
      → IsAddressed env w.db
      → IsAddressed env (save_account env a w).1.db
  save-IsAddressed a w own b x l = elim (load-save_cases a b w) [
    | inl (here, s) ↦ ap (λ y. y.address) (sym (done_injective (sym s ∙ l))) ∙ here
    | inr s ↦ own b x (sym s ∙ l)
  ]

  pub save-Keeps :
      {n : Str → ℕ} (a : Account)
      → a.nonce ≡ n a.address
      → Keeps (HasNonces env n) (λ _. Unit {0}) (save_account env a)
  unfolding get_or_create_account
  save-Keeps {n} a e = record {
    kept = λ w (own, h). (
      save-IsAddressed a w own,
      λ b. elim (load-save_cases a b w) [
        | inl (here, s) ↦ rw (s, get_or_create_account, nonce_of) (e ∙ ap n here)
        | inr s ↦ rw (s, get_or_create_account, nonce_of) (h b)
      ],
    );
    gives = λ w i x y. tt;
  }

  pub get_or_create-Current :
      (n : Str → ℕ) (a : Str) (w : World D)
      → HasNonces env n w
      → Current n (get_or_create_account env a w.db)
  get_or_create-Current n a w (own, h) = h a ∙ ap n (sym (get_or_create-address env a w.db own))

  pub save_token-Keeps :
      {n : Str → ℕ} (id : Str) (t : Token)
      → Keeps (HasNonces env n) (λ _. Unit {0}) (save_token env id t)
  save_token-Keeps {n} id t = record {
    kept = λ w i.
        loads-HasNonces n w (save_token env id t w).1 (λ b. load-save_token env law id t b w) i;
    gives = λ w i x y. tt;
  }

  pub save_validator-Keeps :
      {n : Str → ℕ} (a : Str) (v : PbValidator)
      → Keeps (HasNonces env n) (λ _. Unit {0}) (save_validator env a v)
  save_validator-Keeps {n} a v = record {
    kept = λ w i.
        loads-HasNonces n w (save_validator env a v w).1 (λ b. load-save_validator env law a v b w)
          i;
    gives = λ w i x y. tt;
  }
