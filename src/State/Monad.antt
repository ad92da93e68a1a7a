-- ===== src/State/Monad.antt =====
-- What `StateMachine` holds (pkg/state/state.go), and the monad of its methods. `pools`, which no
-- method reads or writes, and `store` are left out.
use dagnet_crypto.Base.{ℕ, Bool, true, false, Option, none, some, List, [], Str, str_key}
use dagnet_crypto.Map.{Map}
use dagnet_crypto.Pb.{Token, Nft}
use dagnet_crypto.Consensus.Validators.{Registry}

pub record AccountState : Type 0 where
  pub address : Str
  pub balance : ℕ
  pub nonce : ℕ
  pub public_key : Str
  pub tokens : Map Str ℕ
  pub nfts : List Str
  pub delegated : ℕ
  pub validator : Str

-- `validators` is the registry behind the field `consensus`.
pub record State : Type 0 where
  pub accounts : Map Str AccountState
  pub tokens : Map Str Token
  pub nfts : Map Str Nft
  pub validators : Registry

-- `NewStateMachine`, over a consensus engine with the given registry
pub new_state_machine : Registry → State
new_state_machine validators = record {
  accounts = [];
  tokens = [];
  nfts = [];
  validators = validators;
}

-- the errors that the methods return
pub data Error : Type 0 where
  nonce_zero fee_too_low sender_not_found invalid_nonce insufficient_balance : Error
  token_exists insufficient_token_balance insufficient_fee_balance : Error
  collection_exists nft_exists nft_not_found not_owner commission_too_high : Error
  unsupported_type : Error

pub data Result {ℓ} (A : Type ℓ) : Type ℓ where
  ok : A → Result A
  err : Error → Result A

abbrev pub Action : Type 0 → Type 0
Action A = State → Result A × State

-- what a method reads of the state
abbrev pub read : {A : Type 0} → (State → A) → Action A
read f s = (ok (f s), s)

-- `x, exists := …; if !exists { return e }`
abbrev pub require : {A : Type 0} → Option A → Error → Action A
require none e s = (err e, s)
require (some x) e s = (ok x, s)

infixl 5 ◌>>=◌ ◌>>◌
abbrev pub ◌>>=◌ : {A B : Type 0} → Action A → (A → Action B) → Action B
◌>>=◌ m next s = elim (m s).0 [ ok x ↦ next x (m s).1 | err e ↦ (err e, (m s).1) ]

abbrev pub ◌>>◌ : {A B : Type 0} → Action A → Action B → Action B
◌>>◌ first second s = elim (first s).0 [ ok _ ↦ second (first s).1 | err e ↦ (err e, (first s).1) ]

-- `if test { return e }`
abbrev pub reject_if : Bool → Error → Action (Unit {0})
reject_if test e s = elim test [ true ↦ (err e, s) | false ↦ (ok tt, s) ]

-- a write that cannot fail
abbrev pub update : (State → State) → Action (Unit {0})
update f s = (ok tt, f s)
