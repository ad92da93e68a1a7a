-- ===== src/Map/Sum.antt =====
-- The sum of a field over the entries of a map.
use dagnet_crypto.Base.{ℕ, ◌+◌, ◌≤◌, ◌≡◌, none, some, [], ◌∷◌, arith, Key}
use dagnet_crypto.Map.{Map, lookup, insert, modify}

module _ {ℓ κ} {K : Type ℓ} {V : Type κ} where
  unfoldable pub sum_by : (V → ℕ) → Map K V → ℕ
  sum_by f [] = 0
  sum_by f ((_, v) ∷ m) = f v + sum_by f m

module _ {ℓ κ} {K : Type ℓ} {V : Type κ} ⦃key : Key K⦄ where
  pub sum_by-modify :
      (f : V → ℕ) (k : K) (g : V → V) (v : V) (m : Map K V)
      → lookup k m ≡ some v
      → sum_by f (modify k g m) + f v ≡ sum_by f m + f (g v)
  unfolding sum_by modify lookup
  sum_by-modify f k g v [] h = cc
  sum_by-modify f k g v ((j, w) ∷ m) h = ground (arith, sum_by-modify f k g v m)

  pub sum_by-insert_new :
      (f : V → ℕ) (k : K) (v : V) (m : Map K V)
      → lookup k m ≡ none
      → sum_by f (insert k v m) ≡ sum_by f m + f v
  unfolding sum_by insert lookup
  sum_by-insert_new f k v [] h = omega arith
  sum_by-insert_new f k v ((j, w) ∷ m) h = ground (arith, sum_by-insert_new f k v m)

  pub le-sum_by : (f : V → ℕ) (k : K) (v : V) (m : Map K V) → lookup k m ≡ some v → f v ≤ sum_by f m
  unfolding sum_by lookup
  le-sum_by f k v [] h = cc
  le-sum_by f k v ((j, w) ∷ m) h = ground (arith, le-sum_by f k v m)
