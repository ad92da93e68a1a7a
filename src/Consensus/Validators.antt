-- ===== src/Consensus/Validators.antt =====
-- The validator registry of `ConsensusEngine` (pkg/consensus/types.go). The engine hands out
-- pointers to its validators, so a write through one changes the registry's entry.
use dagnet_crypto.Base.{ℕ, Bool, Option, Str, str_key}
use dagnet_crypto.Map.{Map, lookup, insert}

pub record Validator : Type 0 where
  pub address : Str
  pub public_key : Str
  pub stake : ℕ
  pub commissions : ℕ
  pub is_active : Bool

abbrev pub Registry : Type 0
Registry = Map Str Validator

unfoldable pub add_validator : Validator → Registry → Registry
add_validator v r = insert v.address v r

unfoldable pub get_validator : Str → Registry → Option Validator
get_validator address r = lookup address r
