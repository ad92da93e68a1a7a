-- ===== src/Storage/Tables.antt =====
-- What the stores promise (pkg/storage/storage.go): tables of their own, though they share one database.
use dagnet_crypto.Base.{
  ◌≡◌, refl, ap, ◌∙◌, Bool, true, false, List, [], ◌∷◌, ◌++◌, Str, str_key, str_eq, nat_key, ◌==◌,
  ◌&&◌, not, if◌then◌else◌, arith,
}
use dagnet_crypto.Storage.Engine.{LevelDb, IsKeyValue, Read, value, engine_get, engine_put}
use dagnet_crypto.Storage.Keys.{
  event_key, tx_key, account_key, token_key, nft_key, validator_key, get_event, put_event,
  get_transaction, put_transaction, get_account, put_account, get_token, put_token, get_nft,
  put_nft, get_validator, put_validator,
}

-- a row of one of the tables
pub data Row : Type 0 where
  event : Str → Row
  transaction : Str → Row
  account : Str → Row
  token : Str → Row
  nft : Str → Str → Row
  validator : Str → Row

abbrev pub same_row : Row → Row → Bool
same_row (event a) (event b) = a == b
same_row (transaction a) (transaction b) = a == b
same_row (account a) (account b) = a == b
same_row (token a) (token b) = a == b
same_row (nft c n) (nft c' n') = c == c' && n == n'
same_row (validator a) (validator b) = a == b
same_row _ _ = false

-- a write of a row, and the tables as a function of the rows
pub record Write : Type 0 where
  pub row : Row
  pub data_bytes : Str

abbrev pub Tables : Type 0
Tables = Row → Read

abbrev pub write_table : Write → Tables → Tables
write_table w t r = if same_row w.row r then value w.data_bytes else t r

-- no byte is a colon
abbrev pub no_colon : Str → Bool
no_colon [] = true
no_colon (x ∷ s) = not (x == 58) && no_colon s

-- the collection of an NFT has no colon in its id
abbrev pub plain : Row → Bool
plain (nft c n) = no_colon c
plain _ = true

abbrev pub all_plain : List Write → Bool
all_plain [] = true
all_plain (w ∷ ws) = plain w.row && all_plain ws

-- the key a row is stored under
unfoldable pub row_key : Row → Str
row_key (event id) = event_key id
row_key (transaction id) = tx_key id
row_key (account id) = account_key id
row_key (token id) = token_key id
row_key (nft c n) = nft_key c n
row_key (validator id) = validator_key id

-- the first colon splits
joined_iff :
    (c n c' n' : Str)
    → no_colon c ≡ true
    → no_colon c' ≡ true
    → str_eq (c ++ (58 ∷ n)) (c' ++ (58 ∷ n')) ≡ (str_eq c c' && str_eq n n')
unfolding str_eq
joined_iff [] n [] n' h h' = refl
joined_iff [] n (y ∷ c') n' h h' = ground arith
joined_iff (x ∷ c) n [] n' h h' = ground arith
joined_iff (x ∷ c) n (y ∷ c') n' h h' = ground (arith, joined_iff c n c' n')

-- different rows have different keys
row_key_iff :
    (r r' : Row) → plain r ≡ true → plain r' ≡ true → (row_key r == row_key r') ≡ same_row r r'
unfolding row_key event_key tx_key account_key token_key nft_key validator_key str_eq
row_key_iff (event id) r' h h' =
    elim r' as (λ k. plain k ≡ true → (row_key (event id) == row_key k) ≡ same_row (event id) k) [
      | event _ ↦ λ _. refl
      | transaction _ ↦ λ _. refl
      | account _ ↦ λ _. refl
      | token _ ↦ λ _. refl
      | nft c' n' ↦ λ _. refl
      | validator _ ↦ λ _. refl
    ]
      h'
row_key_iff (transaction id) r' h h' =
    elim r'
        as (λ k.
          plain k ≡ true → (row_key (transaction id) == row_key k) ≡ same_row (transaction id) k) [
            | event _ ↦ λ _. refl
            | transaction _ ↦ λ _. refl
            | account _ ↦ λ _. refl
            | token _ ↦ λ _. refl
            | nft c' n' ↦ λ _. refl
            | validator _ ↦ λ _. refl
          ]
      h'
row_key_iff (account id) r' h h' =
    elim r'
        as (λ k. plain k ≡ true → (row_key (account id) == row_key k) ≡ same_row (account id) k) [
          | event _ ↦ λ _. refl
          | transaction _ ↦ λ _. refl
          | account _ ↦ λ _. refl
          | token _ ↦ λ _. refl
          | nft c' n' ↦ λ _. refl
          | validator _ ↦ λ _. refl
        ]
      h'
row_key_iff (token id) r' h h' =
    elim r' as (λ k. plain k ≡ true → (row_key (token id) == row_key k) ≡ same_row (token id) k) [
      | event _ ↦ λ _. refl
      | transaction _ ↦ λ _. refl
      | account _ ↦ λ _. refl
      | token _ ↦ λ _. refl
      | nft c' n' ↦ λ _. refl
      | validator _ ↦ λ _. refl
    ]
      h'
row_key_iff (nft c n) r' h h' =
    elim r' as (λ k. plain k ≡ true → (row_key (nft c n) == row_key k) ≡ same_row (nft c n) k) [
      | event _ ↦ λ _. refl
      | transaction _ ↦ λ _. refl
      | account _ ↦ λ _. refl
      | token _ ↦ λ _. refl
      | nft c' n' ↦ λ p. joined_iff c n c' n' h p
      | validator _ ↦ λ _. refl
    ]
      h'
row_key_iff (validator id) r' h h' =
    elim r'
        as (λ k.
          plain k ≡ true → (row_key (validator id) == row_key k) ≡ same_row (validator id) k) [
            | event _ ↦ λ _. refl
            | transaction _ ↦ λ _. refl
            | account _ ↦ λ _. refl
            | token _ ↦ λ _. refl
            | nft c' n' ↦ λ _. refl
            | validator _ ↦ λ _. refl
          ]
      h'

module _ {D : Type 0} (db : LevelDb D) where
  -- the stores' operations on a row
  unfoldable pub fetch : Row → D → Read
  fetch (event id) d = get_event db id d
  fetch (transaction id) d = get_transaction db id d
  fetch (account id) d = get_account db id d
  fetch (token id) d = get_token db id d
  fetch (nft c n) d = get_nft db c n d
  fetch (validator id) d = get_validator db id d

  unfoldable pub perform : Write → D → Bool × D
  perform w d = elim w.row [
    | event id ↦ put_event db id w.data_bytes d
    | transaction id ↦ put_transaction db id w.data_bytes d
    | account id ↦ put_account db id w.data_bytes d
    | token id ↦ put_token db id w.data_bytes d
    | nft c n ↦ put_nft db c n w.data_bytes d
    | validator id ↦ put_validator db id w.data_bytes d
  ]

  -- writes in turn, with what each answers
  unfoldable pub perform_all : List Write → D → List Bool × D
  perform_all [] d = ([], d)
  perform_all (w ∷ ws) d =
      let (fine, d1) = perform w d in let (rest, d2) = perform_all ws d1 in (fine ∷ rest, d2)

  fetch_form : (r : Row) (d : D) → fetch r d ≡ engine_get db (row_key r) d
  unfolding fetch get_event get_transaction get_account get_token get_nft get_validator row_key
  fetch_form r d = elim r as (λ k. fetch k d ≡ engine_get db (row_key k) d) [
    | event _ ↦ refl
    | transaction _ ↦ refl
    | account _ ↦ refl
    | token _ ↦ refl
    | nft _ _ ↦ refl
    | validator _ ↦ refl
  ]

  perform_form :
      (r : Row) (v : Str) (d : D)
      → perform (record { row = r; data_bytes = v }) d ≡ engine_put db (row_key r) v d
  unfolding perform put_event put_transaction put_account put_token put_nft put_validator row_key
  perform_form r v d =
      elim r
        as (λ k. perform (record { row = k; data_bytes = v }) d ≡ engine_put db (row_key k) v d) [
          | event _ ↦ refl
          | transaction _ ↦ refl
          | account _ ↦ refl
          | token _ ↦ refl
          | nft _ _ ↦ refl
          | validator _ ↦ refl
        ]

-- the tables after writes, of which those count that went through
abbrev pub replay : List Write → List Bool → Tables → Tables
replay (w ∷ ws) (fine ∷ rest) t = replay ws rest (if fine then write_table w t else t)
replay _ _ t = t

module _ {D : Type 0} (db : LevelDb D) (law : IsKeyValue db) where
  -- one write, by the keys
  pub fetch-perform_key :
      (w : Write) (r : Row) (d : D)
      → fetch db r (perform db w d).1 ≡ (
          if (perform db w d).0 && row_key w.row == row_key r
          then value w.data_bytes
          else fetch db r d)
  unfolding engine_get engine_put
  fetch-perform_key w r d = ground (
    arith,
    fetch_form db r (perform db w d).1,
    fetch_form db r d,
    perform_form db w.row w.data_bytes d,
    law.get-put (row_key w.row) (row_key r) w.data_bytes d,
    law.get-failed_put (row_key w.row) (row_key r) w.data_bytes d,
  )

  -- one write: all rows but its own stay, and none changes when it fails
  pub fetch-perform :
      (w : Write) (r : Row) (d : D)
      → plain w.row ≡ true
      → plain r ≡ true
      → fetch db r (perform db w d).1
        ≡ (if (perform db w d).0 && same_row w.row r then value w.data_bytes else fetch db r d)
  fetch-perform w r d hw hr =
      fetch-perform_key w r d
      ∙ ap (λ b. if (perform db w d).0 && b then value w.data_bytes else fetch db r d)
          (row_key_iff w.row r hw hr)

  run_from :
      (ws : List Write) (t : Tables) (d : D)
      → all_plain ws ≡ true
      → ((r : Row) → plain r ≡ true → fetch db r d ≡ t r)
      → (r : Row) → plain r ≡ true
      → fetch db r (perform_all db ws d).1 ≡ replay ws (perform_all db ws d).0 t r
  unfolding perform_all
  run_from [] t d hs view r hr = view r hr
  run_from (w ∷ ws) t d hs view r hr =
      run_from ws (if (perform db w d).0 then write_table w t else t) (perform db w d).1
        (ground arith)
        (λ r' hr'. ground (arith, fetch-perform w r' d (ground arith) hr', view r' hr')) r hr

  -- After any writes, of which some may fail, every read of a row gives what the tables hold after the
  -- writes that went through, if the ids of the NFT collections in use have no colon.
  pub fetch-perform_all :
      (ws : List Write) (r : Row) (d : D)
      → all_plain ws ≡ true
      → plain r ≡ true
      → fetch db r (perform_all db ws d).1 ≡ replay ws (perform_all db ws d).0 (λ x. fetch db x d) r
  fetch-perform_all ws r d hs hr = run_from ws (λ x. fetch db x d) d hs (λ x hx. refl) r hr
