-- ===== src/Consensus/Search.antt =====
-- The depth-first walk that `getAncestorsRecursive` and `getDescendantsRecursive` share
-- (pkg/consensus/types.go), over the ids `next x` that an id leads to. The `map[string]bool` of the
-- ids found so far is `Found`. The recursion has fuel, and `none` means that it ran out.
pub mod Total
pub mod Exact
use dagnet_crypto.Base.{
  ℕ, zero, suc, ◌≡◌, Bool, true, false, Option, none, some, List, [], ◌∷◌, Str, str_key, ◌==◌, ◌||◌,
  if◌then◌else◌, str_eq_iff, arith,
}
use dagnet_crypto.Map.{Map, lookup, insert, get_or, lookup-insert}

abbrev pub Found : Type 0
Found = Map Str Bool

-- `found[x]`
unfoldable pub has : Str → Found → Bool
has x found = get_or x false found

-- `found[x] = true`
unfoldable pub add : Str → Found → Found
add x found = insert x true found

pub has-add :
    (x y : Str) (found : Found) → has y (add x found) ≡ (if x == y then true else has y found)
unfolding has add
has-add x y found = ground (arith, lookup-insert x y true found)

-- the loop over the ids that one id leads to; `visit` is the recursive call
unfoldable pub each : (Str → Found → Option Found) → List Str → Found → Option Found
each visit [] found = some found
each visit (x ∷ xs) found = elim (has x found) [
  | true ↦ each visit xs found
  | false ↦ elim (visit x (add x found)) [ none ↦ none | some more ↦ each visit xs more ]
]

unfoldable pub explore : (Str → List Str) → ℕ → Str → Found → Option Found
explore next zero x found = none
explore next (suc fuel) x found = each (explore next fuel) (next x) found

-- membership in a list of ids
unfoldable pub mem : Str → List Str → Bool
mem y [] = false
mem y (x ∷ xs) = x == y || mem y xs

-- `y` is at the end of a path of one or more links from `x`
pub data Leads (next : Str → List Str) : Str → Str → Type 0 where
  link : {x y : Str} → mem y (next x) ≡ true → Leads next x y
  then_on : {x y z : Str} → mem y (next x) ≡ true → Leads next y z → Leads next x z
