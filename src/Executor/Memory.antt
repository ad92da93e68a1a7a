-- ===== src/Executor/Memory.antt =====
-- An environment for the executor (pkg/state/executor.go) that keeps all in memory: a database that never
-- fails, encodings with length prefixes, and signatures that always verify.
use dagnet_crypto.Base.{
  split, split-append, ◌≡◌, refl, sym, ap, ◌∙◌, ℕ, zero, suc, Bool, true, false, Option, none, some,
  List, [], ◌∷◌, ◌++◌, Str, str_key, nat_key, ◌==◌, length, arith,
}
use dagnet_crypto.Map.{Map, insert, lookup, contains, lookup-insert}
use dagnet_crypto.Pb.{Codec, PbValidator}
use dagnet_crypto.Crypto.Sign.{Primitives}
use dagnet_crypto.Storage.Engine.{LevelDb, IsKeyValue, Found, found, absent, not_found}
use dagnet_crypto.Executor.Monad.{Account, Env, reject, unsupported_type}
use dagnet_crypto.Executor.Laws.{IsEnv, normal}

abbrev pub Memory : Type 0
Memory = Map Str Str

unfoldable pub memory_get : Str → Memory → Found
memory_get k d = elim (lookup k d) [ none ↦ absent | some v ↦ found v ]

abbrev pub memory_db : LevelDb Memory
memory_db = record {
  get = memory_get;
  has = λ k d. some (contains k d);
  put = λ k v d. (true, insert k v d);
  delete = λ k d. (false, d);
  write = λ ops d. (false, d);
  range = λ start end_key d. (d, true);
}

some_injective : {x y : Str} → some x ≡ some y → x ≡ y
some_injective {x} e = ap (λ o. elim o [ some a ↦ a | none ↦ x ]) e

memory_db-IsKeyValue : IsKeyValue memory_db
unfolding memory_get
memory_db-IsKeyValue = record {
  get-put = λ k j v d h. ground (arith, lookup-insert k j v d);
  get-failed_put = λ k j v d h. cc;
}

-- a text after its length
unfoldable pub put_str : Str → Str → Str
put_str s rest = length s ∷ (s ++ rest)

unfoldable pub get_str : Str → Option (Str × Str)
get_str [] = none
get_str (n ∷ s) = split n s

get_str-put_str : (s rest : Str) → get_str (put_str s rest) ≡ some (s, rest)
unfolding get_str put_str
get_str-put_str s rest = split-append s rest

-- entries to the end of the text
unfoldable pub put_entries : Map Str ℕ → Str
put_entries [] = []
put_entries ((k, v) ∷ m) = v ∷ put_str k (put_entries m)

unfoldable pub get_entries : ℕ → Str → Map Str ℕ
get_entries zero s = []
get_entries (suc n) [] = []
get_entries (suc n) (v ∷ s) = elim (get_str s) [
  | none ↦ []
  | some (k, rest) ↦ (k, v) ∷ get_entries n rest
]

get_entries-put_entries : (m : Map Str ℕ) → get_entries (length m) (put_entries m) ≡ m
unfolding get_entries put_entries
get_entries-put_entries [] = refl
get_entries-put_entries ((k, v) ∷ m) =
    rw (get_str-put_str k (put_entries m), get_entries-put_entries m, get_entries, put_entries) refl

-- an empty map is nil when it is read
abbrev or_nil : Map Str ℕ → Option (Map Str ℕ)
or_nil [] = none
or_nil (x ∷ m) = some (x ∷ m)

abbrev held : Option (Map Str ℕ) → Map Str ℕ
held none = []
held (some m) = m

unfoldable pub encode_account : Account → Str
encode_account a =
    a.balance
    ∷ a.nonce
    ∷ a.delegated
    ∷ put_str a.address (
        put_str a.public_key
          (put_str a.validator (length (held a.tokens) ∷ put_entries (held a.tokens))))

unfoldable pub decode_account : Str → Option Account
decode_account (balance ∷ nonce ∷ delegated ∷ s) = elim (get_str s) [
  | none ↦ none
  | some (address, s1) ↦ elim (get_str s1) [
    | none ↦ none
    | some (public_key, s2) ↦ elim (get_str s2) [
      | none ↦ none
      | some (validator, s3) ↦ elim s3 [
        | [] ↦ none
        | n ∷ s4 ↦ some (record {
          address = address;
          balance = balance;
          nonce = nonce;
          public_key = public_key;
          tokens = or_nil (get_entries n s4);
          delegated = delegated;
          validator = validator;
        })
      ]
    ]
  ]
]
decode_account _ = none

abbrev pub account_codec : Codec Account
account_codec = record { marshal = λ a. some (encode_account a); unmarshal = decode_account }

tokens_back :
    (t : Option (Map Str ℕ))
    → or_nil (get_entries (length (held t)) (put_entries (held t)))
      ≡ elim t [ none ↦ none | some m ↦ elim m [ [] ↦ none | x ∷ rest ↦ some (x ∷ rest) ] ]
unfolding get_entries
tokens_back none = refl
tokens_back (some []) = refl
tokens_back (some (x ∷ m)) = rw (get_entries-put_entries (x ∷ m)) refl

decode-encode_account : (a : Account) → decode_account (encode_account a) ≡ some (normal a)
unfolding decode_account encode_account
decode-encode_account a =
    let s3 = length (held a.tokens) ∷ put_entries (held a.tokens) in
    let s2 = put_str a.validator s3 in
    let s1 = put_str a.public_key s2 in
    rw
      (
        get_str-put_str a.address s1,
        get_str-put_str a.public_key s2,
        get_str-put_str a.validator s3,
        decode_account,
        encode_account,
      )
      (ap (λ y. some (record a { tokens = y })) (tokens_back a.tokens))

abbrev flag : Bool → ℕ
flag true = 1
flag false = 0

flag_back : (b : Bool) → (flag b == 1) ≡ b
flag_back true = refl
flag_back false = refl

unfoldable pub encode_validator : PbValidator → Str
encode_validator v =
    v.stake
    ∷ v.commission_rate
    ∷ v.max_commission_rate
    ∷ v.commission_change_rate
    ∷ v.voting_power
    ∷ flag v.jailed
    ∷ put_str v.address (
        put_str v.public_key
          (put_str v.moniker (put_str v.identity (put_str v.website (put_str v.details [])))))

-- six texts in a row
unfoldable pub get_texts : ℕ → Str → Option (List Str)
get_texts zero s = some []
get_texts (suc n) s = elim (get_str s) [
  | none ↦ none
  | some (x, rest) ↦ elim (get_texts n rest) [ none ↦ none | some xs ↦ some (x ∷ xs) ]
]

abbrev with_texts :
    List Str → (Str → Str → Str → Str → Str → Str → PbValidator) → Option PbValidator
with_texts (a ∷ b ∷ c ∷ d ∷ e ∷ f ∷ []) make = some (make a b c d e f)
with_texts _ make = none

unfoldable pub decode_validator : Str → Option PbValidator
decode_validator (stake ∷ rate ∷ max_rate ∷ change ∷ power ∷ jailed ∷ s) = elim (get_texts 6 s) [
  | none ↦ none
  | some xs ↦ with_texts xs (λ a b c d e f. record {
    address = a;
    public_key = b;
    stake = stake;
    commission_rate = rate;
    max_commission_rate = max_rate;
    commission_change_rate = change;
    moniker = c;
    identity = d;
    website = e;
    details = f;
    jailed = jailed == 1;
    voting_power = power;
  })
]
decode_validator _ = none

decode-encode_validator : (v : PbValidator) → decode_validator (encode_validator v) ≡ some v
unfolding decode_validator encode_validator get_texts
decode-encode_validator v =
    let s6 = put_str v.details [] in
    let s5 = put_str v.website s6 in
    let s4 = put_str v.identity s5 in
    let s3 = put_str v.moniker s4 in
    let s2 = put_str v.public_key s3 in
    rw
      (
        get_str-put_str v.address s2,
        get_str-put_str v.public_key s3,
        get_str-put_str v.moniker s4,
        get_str-put_str v.identity s5,
        get_str-put_str v.website s6,
        get_str-put_str v.details [],
        decode_validator,
        encode_validator,
        get_texts,
      )
      (ap (λ b. some (record v { jailed = b })) (flag_back v.jailed))

abbrev always : Primitives
always = record {
  generate_key = λ random. (random, random);
  sign = λ private bytes. [];
  verify = λ key bytes s. true;
  public_of = λ private. private;
  sum = λ bytes. bytes;
}

abbrev pub memory_env : Env Memory
memory_env = record {
  level_db = memory_db;
  account_codec = account_codec;
  token_codec = record { marshal = λ t. some []; unmarshal = λ b. none };
  validator_codec = record {
    marshal = λ v. some (encode_validator v);
    unmarshal = decode_validator;
  };
  nft_codec = record { marshal = λ t. some []; unmarshal = λ b. none };
  collection_codec = record { marshal = λ t. some []; unmarshal = λ b. none };
  crypto = always;
  sum256 = λ bytes. bytes;
  now = 0;
  round = 0;
  get_collection = λ id d. not_found;
  put_collection = λ id v d. (false, d);
  burn_token = λ p s. reject unsupported_type;
  transfer_nft = λ p s. reject unsupported_type;
}

pub memory_env-IsEnv : IsEnv memory_env
memory_env-IsEnv = record {
  key_value = memory_db-IsKeyValue;
  accounts = record {
    decoded = λ a b e. ap decode_account (sym (some_injective e)) ∙ decode-encode_account a;
  };
  validators = record {
    decoded = λ v b e. ap decode_validator (sym (some_injective e)) ∙ decode-encode_validator v;
  };
  collection_account = λ id v a d. refl;
  collection_validator = λ id v a d. refl;
}
