-- ===== src/State/Accounts.antt =====
-- How reads and totals of the accounts go through the two ways to change them, `ensure` and
-- `on_account`.
use dagnet_crypto.Base.{
  ℕ, ◌+◌, ◌≤◌, ◌≡◌, refl, true, false, Str, str_key, str_eq_iff, arith, inl, inr, some,
  Option-cases, ◌==◌, if◌then◌else◌,
}
use dagnet_crypto.Map.{lookup, contains, lookup-insert, modify_missing, lookup-modify}
use dagnet_crypto.Map.Sum.{sum_by, sum_by-modify, sum_by-insert_new, le-sum_by}
use dagnet_crypto.Pb.{CreateTokenPayload, MintNftPayload, CreateValidatorPayload}
use dagnet_crypto.State.Monad.{AccountState, State}
use dagnet_crypto.State.Defs.{
  new_account, ensure, on_account, deref, register_token, register_nft, set_owner,
  register_validator, raise_stake,
}

-- `sm.accounts[a]` exists.
abbrev pub Known : Str → State → Type 0
Known a s = contains a s.accounts ≡ true

-- a field, summed over the accounts
unfoldable pub total : (AccountState → ℕ) → State → ℕ
total f s = sum_by f s.accounts

pub Known-of_lookup :
    (a : Str) (s : State) {v : AccountState} → lookup a s.accounts ≡ some v → Known a s
unfolding contains
Known-of_lookup a s e = rw (e, contains)

pub lookup_of_Known : (a : Str) (s : State) → Known a s → lookup a s.accounts ≡ some (deref a s)
unfolding contains deref
lookup_of_Known a s h = ground arith

pub deref-ensure : (a b : Str) (s : State) → deref b (ensure a s) ≡ deref b s
unfolding ensure contains deref
deref-ensure a b s = ground (arith, lookup-insert a b (new_account a) s.accounts, str_eq_iff a b)

pub ensure-Known : (a : Str) (s : State) → Known a (ensure a s)
unfolding ensure contains
ensure-Known a s = ground (arith, lookup-insert a a (new_account a) s.accounts, str_eq_iff a a)

pub ensure_keeps-Known : (a b : Str) (s : State) → Known b s → Known b (ensure a s)
unfolding ensure contains
ensure_keeps-Known a b s h =
    ground (arith, lookup-insert a b (new_account a) s.accounts, str_eq_iff a b)

pub total-ensure :
    (f : AccountState → ℕ) (a : Str) (s : State)
    → f (new_account a) ≡ 0
    → total f (ensure a s) ≡ total f s
unfolding ensure contains total
total-ensure f a s h = ground (arith, sum_by-insert_new f a (new_account a) s.accounts)

module _ (a : Str) (g : AccountState → AccountState) (s : State) where
  pub on_account-Known : (b : Str) → Known b s → Known b (on_account a g s)
  unfolding on_account contains
  on_account-Known b h = ground (arith, lookup-modify a b g s.accounts)

  pub deref-on_account :
      (b : Str)
      → Known a s
      → deref b (on_account a g s) ≡ (if a == b then g (deref a s) else deref b s)
  unfolding on_account contains deref
  deref-on_account b h = ground (arith, lookup-modify a b g s.accounts, str_eq_iff a b)

  pub total-on_account :
      (f : AccountState → ℕ)
      → Known a s
      → total f (on_account a g s) + f (deref a s) ≡ total f s + f (g (deref a s))
  unfolding on_account contains total deref
  total-on_account f h = elim (Option-cases (lookup a s.accounts)) [
    | inl e ↦ ground arith
    | inr (v, e) ↦ ground (arith, sum_by-modify f a g v s.accounts)
  ]

pub on_account_unknown :
    (a : Str) (g : AccountState → AccountState) (s : State)
    → contains a s.accounts ≡ false
    → on_account a g s ≡ s
unfolding on_account
on_account_unknown a g s h = ground (arith, modify_missing a g s.accounts)

pub le-total : (f : AccountState → ℕ) (a : Str) (s : State) → Known a s → f (deref a s) ≤ total f s
unfolding contains total deref
le-total f a s h = elim (Option-cases (lookup a s.accounts)) [
  | inl e ↦ ground arith
  | inr (v, e) ↦ ground (arith, le-sum_by f a v s.accounts)
]

-- What `deref` and `total` see of two states with the same accounts.
module _ (s t : State) (same : s.accounts ≡ t.accounts) where
  pub same-deref : (a : Str) → deref a s ≡ deref a t
  unfolding deref
  same-deref a = rw same

  pub same-total : (f : AccountState → ℕ) → total f s ≡ total f t
  unfolding total
  same-total f = rw same

  pub same-Known : (a : Str) → Known a t → Known a s
  same-Known a h = rw same h

-- The writes to the other maps.
pub register_token-accounts :
    (p : CreateTokenPayload) (s : State) → (register_token p s).accounts ≡ s.accounts
unfolding register_token
register_token-accounts p s = refl

pub register_nft-accounts :
    (id : Str) (p : MintNftPayload) (s : State) → (register_nft id p s).accounts ≡ s.accounts
unfolding register_nft
register_nft-accounts id p s = refl

pub set_owner-accounts : (id to : Str) (s : State) → (set_owner id to s).accounts ≡ s.accounts
unfolding set_owner
set_owner-accounts id to s = refl

pub register_validator-accounts :
    (p : CreateValidatorPayload) (s : State) → (register_validator p s).accounts ≡ s.accounts
unfolding register_validator
register_validator-accounts p s = refl

pub raise_stake-accounts : (a : Str) (x : ℕ) (s : State) → (raise_stake a x s).accounts ≡ s.accounts
unfolding raise_stake
raise_stake-accounts a x s = ground arith
