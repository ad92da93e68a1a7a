-- ===== src/Executor/Laws.antt =====
-- What the documentation of LevelDB and protobuf says, and what a read gives after each save of the
-- executor (pkg/state/executor.go).
use dagnet_crypto.Base.{
  ◌≡◌, refl, ap, Bool, true, false, none, some, Option-cases, inl, inr, ◌⊎◌, [], ◌∷◌, Str, str_key,
  str_eq, ◌==◌, ◌&&◌, if◌then◌else◌, arith,
}
use dagnet_crypto.Pb.{Codec, PbValidator, Token}
use dagnet_crypto.Storage.Engine.{IsKeyValue, LevelDb, value}
use dagnet_crypto.Storage.Keys.{
  get_account, put_account, put_token, put_nft, get_validator, put_validator, nft_key, account_key,
  validator_key,
}
use dagnet_crypto.Storage.Tables.{Row, fetch, perform, fetch-perform, fetch-perform_key, row_key}
use dagnet_crypto.Executor.Monad.{
  Account, Error, Outcome, done, failed, panicked, ◌>>=◌, require, store, World, Env,
}
use dagnet_crypto.Executor.Accounts.{
  load_account, save_account, load_validator, save_token, save_validator,
}

-- protobuf gives an empty map back as nil
abbrev pub normal : Account → Account
normal a = record a {
  tokens = elim a.tokens [
    | none ↦ none
    | some m ↦ elim m [ [] ↦ none | x ∷ rest ↦ some (x ∷ rest) ]
  ];
}

-- what is decoded is what was encoded, up to `norm`
pub record IsCodec {A : Type 0} (c : Codec A) (norm : A → A) : Type 0 where
  pub decoded : (a : A) (b : Str) → c.marshal a ≡ some b → c.unmarshal b ≡ some (norm a)

pub record IsEnv {D : Type 0} (env : Env D) : Type 0 where
  pub key_value : IsKeyValue env.level_db
  pub accounts : IsCodec env.account_codec normal
  pub validators : IsCodec env.validator_codec (λ v. v)
  -- collections have keys of their own
  pub collection_account :
      (id v a : Str) (d : D)
      → get_account env.level_db a (env.put_collection id v d).1 ≡ get_account env.level_db a d
  pub collection_validator :
      (id v a : Str) (d : D)
      → get_validator env.level_db a (env.put_collection id v d).1 ≡ get_validator env.level_db a d

abbrev pub is_done : {A : Type 0} → Outcome A → Bool
is_done (done _) = true
is_done (failed _) = false
is_done panicked = false

pub Outcome-cases :
    {A : Type 0} (o : Outcome A)
    → ((a : A) × (o ≡ done a)) ⊎ (((e : Error) × (o ≡ failed e)) ⊎ (o ≡ panicked))
Outcome-cases (done a) = inl (a, refl)
Outcome-cases (failed e) = inr (inl (e, refl))
Outcome-cases panicked = inr (inr refl)

pub done_injective : {A : Type 0} {x y : A} → done x ≡ done y → x ≡ y
done_injective {A} {x} {y} e = ap (λ o. elim o [ done a ↦ a | failed _ ↦ x | panicked ↦ x ]) e

module _ {D : Type 0} (db : LevelDb D) (law : IsKeyValue db) where
  pub get_account-put_account :
      (a b v : Str) (d : D)
      → get_account db b (put_account db a v d).1
        ≡ (if (put_account db a v d).0 && a == b then value v else get_account db b d)
  unfolding fetch perform
  get_account-put_account a b v d =
      fetch-perform db law (record { row = Row.account a; data_bytes = v }) (Row.account b) d refl
        refl

  pub get_account-put_token :
      (a b v : Str) (d : D) → get_account db b (put_token db a v d).1 ≡ get_account db b d
  unfolding fetch perform
  get_account-put_token a b v d = ground (
    arith,
    fetch-perform db law (record { row = Row.token a; data_bytes = v }) (Row.account b) d refl refl,
  )

  pub get_account-put_validator :
      (a b v : Str) (d : D) → get_account db b (put_validator db a v d).1 ≡ get_account db b d
  unfolding fetch perform
  get_account-put_validator a b v d = ground (
    arith,
    fetch-perform db law (record { row = Row.validator a; data_bytes = v }) (Row.account b) d refl
        refl,
  )

  pub get_account-put_nft :
      (c n b v : Str) (d : D) → get_account db b (put_nft db c n v d).1 ≡ get_account db b d
  unfolding fetch perform row_key nft_key account_key str_eq
  get_account-put_nft c n b v d = ground (
    arith,
    fetch-perform_key db law (record { row = Row.nft c n; data_bytes = v }) (Row.account b) d,
  )

  pub get_validator-put_validator :
      (a b v : Str) (d : D)
      → get_validator db b (put_validator db a v d).1
        ≡ (if (put_validator db a v d).0 && a == b then value v else get_validator db b d)
  unfolding fetch perform
  get_validator-put_validator a b v d =
      fetch-perform db law (record { row = Row.validator a; data_bytes = v }) (Row.validator b) d
        refl refl

  pub get_validator-put_account :
      (a b v : Str) (d : D) → get_validator db b (put_account db a v d).1 ≡ get_validator db b d
  unfolding fetch perform
  get_validator-put_account a b v d = ground (
    arith,
    fetch-perform db law (record { row = Row.account a; data_bytes = v }) (Row.validator b) d refl
        refl,
  )

  pub get_validator-put_token :
      (a b v : Str) (d : D) → get_validator db b (put_token db a v d).1 ≡ get_validator db b d
  unfolding fetch perform
  get_validator-put_token a b v d = ground (
    arith,
    fetch-perform db law (record { row = Row.token a; data_bytes = v }) (Row.validator b) d refl
        refl,
  )

  pub get_validator-put_nft :
      (c n b v : Str) (d : D) → get_validator db b (put_nft db c n v d).1 ≡ get_validator db b d
  unfolding fetch perform row_key nft_key validator_key str_eq
  get_validator-put_nft c n b v d = ground (
    arith,
    fetch-perform_key db law (record { row = Row.nft c n; data_bytes = v }) (Row.validator b) d,
  )

module _ {D : Type 0} (env : Env D) (law : IsEnv env) where
  -- what is loaded after an account is saved
  pub load-save :
      (a : Account) (b : Str) (w : World D)
      → load_account env b (save_account env a w).1.db ≡ (
          if is_done (save_account env a w).0 && a.address == b
          then done (normal a)
          else load_account env b w.db)
  unfolding load_account save_account ◌>>=◌ require store
  load-save a b w = elim (Option-cases (env.account_codec.marshal a)) [
    | inl e ↦ rw (e) refl
    | inr (bytes, e) ↦ rw e (
        ground (
          arith,
          get_account-put_account env.level_db law.key_value a.address b bytes w.db,
          law.accounts.decoded a bytes e,
        ))
  ]

  pub load_validator-save :
      (a b : Str) (v : PbValidator) (w : World D)
      → load_validator env b (save_validator env a v w).1.db ≡ (
          if is_done (save_validator env a v w).0 && a == b
          then some v
          else load_validator env b w.db)
  unfolding load_validator save_validator ◌>>=◌ require store
  load_validator-save a b v w = elim (Option-cases (env.validator_codec.marshal v)) [
    | inl e ↦ rw e refl
    | inr (bytes, e) ↦ rw e (
        ground (
          arith,
          get_validator-put_validator env.level_db law.key_value a b bytes w.db,
          law.validators.decoded v bytes e,
        ))
  ]

  pub load-save_token :
      (id : Str) (t : Token) (b : Str) (w : World D)
      → load_account env b (save_token env id t w).1.db ≡ load_account env b w.db
  unfolding load_account save_token ◌>>=◌ require store
  load-save_token id t b w = elim (Option-cases (env.token_codec.marshal t)) [
    | inl e ↦ rw e refl
    | inr (bytes, e) ↦
        rw e (ground (arith, get_account-put_token env.level_db law.key_value id b bytes w.db))
  ]

  pub load-save_validator :
      (a : Str) (v : PbValidator) (b : Str) (w : World D)
      → load_account env b (save_validator env a v w).1.db ≡ load_account env b w.db
  unfolding load_account save_validator ◌>>=◌ require store
  load-save_validator a v b w = elim (Option-cases (env.validator_codec.marshal v)) [
    | inl e ↦ rw e refl
    | inr (bytes, e) ↦
        rw e (ground (arith, get_account-put_validator env.level_db law.key_value a b bytes w.db))
  ]

  pub load-put_nft :
      (c n b v : Str) (d : D)
      → load_account env b (put_nft env.level_db c n v d).1 ≡ load_account env b d
  unfolding load_account
  load-put_nft c n b v d = ground (arith, get_account-put_nft env.level_db law.key_value c n b v d)

  pub load-put_collection :
      (id v b : Str) (d : D)
      → load_account env b (env.put_collection id v d).1 ≡ load_account env b d
  unfolding load_account
  load-put_collection id v b d = ground (arith, law.collection_account id v b d)

  pub load_validator-save_account :
      (a : Account) (b : Str) (w : World D)
      → load_validator env b (save_account env a w).1.db ≡ load_validator env b w.db
  unfolding load_validator save_account ◌>>=◌ require store
  load_validator-save_account a b w = elim (Option-cases (env.account_codec.marshal a)) [
    | inl e ↦ rw e refl
    | inr (bytes, e) ↦ rw e (
        ground (arith, get_validator-put_account env.level_db law.key_value a.address b bytes w.db))
  ]

  pub load_validator-save_token :
      (id : Str) (t : Token) (b : Str) (w : World D)
      → load_validator env b (save_token env id t w).1.db ≡ load_validator env b w.db
  unfolding load_validator save_token ◌>>=◌ require store
  load_validator-save_token id t b w = elim (Option-cases (env.token_codec.marshal t)) [
    | inl e ↦ rw e refl
    | inr (bytes, e) ↦
        rw e (ground (arith, get_validator-put_token env.level_db law.key_value id b bytes w.db))
  ]

  pub load_validator-put_nft :
      (c n b v : Str) (d : D)
      → load_validator env b (put_nft env.level_db c n v d).1 ≡ load_validator env b d
  unfolding load_validator
  load_validator-put_nft c n b v d =
      ground (arith, get_validator-put_nft env.level_db law.key_value c n b v d)

  pub load_validator-put_collection :
      (id v b : Str) (d : D)
      → load_validator env b (env.put_collection id v d).1 ≡ load_validator env b d
  unfolding load_validator
  load_validator-put_collection id v b d = ground (arith, law.collection_validator id v b d)
