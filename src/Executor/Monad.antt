-- ===== src/Executor/Monad.antt =====
-- What `TransactionExecutor` works on (pkg/state/executor.go), and the monad of its methods. The database
-- and the registry of the consensus engine are shared; accounts are copies that a read decodes.
use dagnet_crypto.Base.{ℕ, Bool, true, false, Option, none, some, Str, str_key}
use dagnet_crypto.Map.{Map}
use dagnet_crypto.Pb.{
  Codec, Token, Nft, NftCollection, PbValidator, BurnTokenPayload, TransferNftPayload,
}
use dagnet_crypto.Consensus.Validators.{Registry}
use dagnet_crypto.Crypto.Sign.{Primitives}
use dagnet_crypto.Storage.Engine.{LevelDb, Read}

-- `AccountState`, of which the executor reads and writes these fields, and also the message it is stored
-- as. The map of tokens may be nil.
pub record Account : Type 0 where
  pub address : Str
  pub balance : ℕ
  pub nonce : ℕ
  pub public_key : Str
  pub tokens : Option (Map Str ℕ)
  pub delegated : ℕ
  pub validator : Str

-- the errors that the methods return
pub data Error : Type 0 where
  nil_transaction invalid_signature account_error invalid_nonce insufficient_fee : Error
  zero_amount insufficient_balance commission_too_high validator_not_found other_validator : Error
  token_exists token_not_found not_mintable not_admin insufficient_token_balance : Error
  collection_exists collection_not_found marshal_failed unmarshal_failed store_failed : Error
  unsupported_type : Error

-- what a call gives: it may also panic
pub data Outcome {ℓ} (A : Type ℓ) : Type ℓ where
  done : A → Outcome A
  failed : Error → Outcome A
  panicked : Outcome A

pub record World (D : Type 0) : Type 0 where
  pub db : D
  pub validators : Registry

abbrev pub Action : Type 0 → Type 0 → Type 0
Action D A = World D → Outcome A × World D

-- What is not in the repository: the database, protobuf, cryptography, the clock, and four methods that
-- the executor calls and no file declares (`GetCollection`, `PutCollection`, `executeBurnToken`,
-- `executeTransferNFT`). `round` is `CurrentRound()`.
pub record Env (D : Type 0) : Type 0 where
  pub level_db : LevelDb D
  pub account_codec : Codec Account
  pub token_codec : Codec Token
  pub validator_codec : Codec PbValidator
  pub nft_codec : Codec Nft
  pub collection_codec : Codec NftCollection
  pub crypto : Primitives
  pub sum256 : Str → Str
  pub now : ℕ
  pub round : ℕ
  pub get_collection : Str → D → Read
  pub put_collection : Str → Str → D → Bool × D
  pub burn_token : BurnTokenPayload → Account → Action D Account
  pub transfer_nft : TransferNftPayload → Account → Action D Account

module _ {D : Type 0} where
  infixl 5 ◌>>=◌ ◌>>◌
  unfoldable pub ◌>>=◌ : {A B : Type 0} → Action D A → (A → Action D B) → Action D B
  ◌>>=◌ m next w = elim (m w).0 [
    | done x ↦ next x (m w).1
    | failed e ↦ (failed e, (m w).1)
    | panicked ↦ (panicked, (m w).1)
  ]

  unfoldable pub ◌>>◌ : {A B : Type 0} → Action D A → Action D B → Action D B
  ◌>>◌ first second w = elim (first w).0 [
    | done _ ↦ second (first w).1
    | failed e ↦ (failed e, (first w).1)
    | panicked ↦ (panicked, (first w).1)
  ]

  unfoldable pub return : {A : Type 0} → A → Action D A
  return x w = (done x, w)

  unfoldable pub reject : {A : Type 0} → Error → Action D A
  reject e w = (failed e, w)

  -- what a method that only reads gives
  unfoldable pub lift : {A : Type 0} → Outcome A → Action D A
  lift o w = (o, w)

  -- `if test { return e }`
  unfoldable pub reject_if : Bool → Error → Action D (Unit {0})
  reject_if test e w = elim test [ true ↦ (failed e, w) | false ↦ (done tt, w) ]

  -- `x, err := …; if err != nil { return e }`
  unfoldable pub require : {A : Type 0} → Option A → Error → Action D A
  require none e w = (failed e, w)
  require (some x) e w = (done x, w)

  -- a write to a nil map panics
  unfoldable pub or_panic : {A : Type 0} → Option A → Action D A
  or_panic none w = (panicked, w)
  or_panic (some x) w = (done x, w)

  -- a write of the database, which may fail
  unfoldable pub store : (D → Bool × D) → Action D (Unit {0})
  store write w =
      let (fine, d) = write w.db in
      elim fine [
        | true ↦ (done tt, record w { db = d })
        | false ↦ (failed store_failed, record w { db = d })
      ]

  -- what a method reads of the shared state
  unfoldable pub read : {A : Type 0} → (World D → A) → Action D A
  read f w = (done (f w), w)

  unfoldable pub update : (World D → World D) → Action D (Unit {0})
  update f w = (done tt, f w)
