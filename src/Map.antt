-- ===== src/Map.antt =====
-- A Go map, as an association list in an arbitrary order; of several entries for one key the first
-- counts. What Go mutates through a pointer that the map holds is an update of the entry, `modify`.
pub mod Sum
use mathlib.Core.Option
use dagnet_crypto.Base.{
  ◌≡◌, refl, Bool, true, false, Option, none, some, List, [], ◌∷◌, arith, Key, ◌==◌, if◌then◌else◌,
}

abbrev pub Map {ℓ κ} : Type ℓ → Type κ → Type (ℓ ⊔ κ)
Map K V = List (K × V)

module _ {ℓ κ} {K : Type ℓ} {V : Type κ} ⦃key : Key K⦄ where
  -- `m[k] = v`: the entry is replaced, or a new one comes last
  unfoldable pub insert : K → V → Map K V → Map K V
  insert k v [] = (k, v) ∷ []
  insert k v (old ∷ m) = if old.0 == k then (old.0, v) ∷ m else old ∷ insert k v m

  -- `v, ok := m[k]`
  unfoldable pub lookup : K → Map K V → Option V
  lookup k [] = none
  lookup k (entry ∷ m) = if entry.0 == k then some entry.1 else lookup k m

  -- a write through the pointer `m[k]`
  unfoldable pub modify : K → (V → V) → Map K V → Map K V
  modify k f [] = []
  modify k f (old ∷ m) = if old.0 == k then (old.0, f old.1) ∷ m else old ∷ modify k f m

  -- `_, ok := m[k]`
  unfoldable pub contains : K → Map K V → Bool
  contains k m = elim (lookup k m) [ none ↦ false | some _ ↦ true ]

  -- `m[k]` where a missing key reads as the zero value `d`
  abbrev pub get_or : K → V → Map K V → V
  get_or k d m = elim (lookup k m) [ none ↦ d | some v ↦ v ]

  -- a read after a write, of the same key or of another
  pub lookup-insert :
      (written read : K) (v : V) (m : Map K V)
      → lookup read (insert written v m) ≡ (if written == read then some v else lookup read m)
  unfolding insert lookup
  lookup-insert written read v [] = refl
  lookup-insert written read v (old ∷ m) =
      let here = key.same_iff old.0 read in
      let there = key.same_iff old.0 written in
      ground (arith, lookup-insert written read v m, there, here, key.same_iff written read)

  pub lookup-modify :
      (k j : K) (f : V → V) (m : Map K V)
      → lookup j (modify k f m) ≡ (if k == j then Option.map f (lookup j m) else lookup j m)
  unfolding lookup modify
  lookup-modify k j f [] = ground arith
  lookup-modify k j f ((i, w) ∷ m) =
      ground (arith, key.same_iff i k, lookup-modify k j f m, key.same_iff i j, key.same_iff k j)

  pub contains-insert :
      (k j : K) (v : V) (m : Map K V)
      → contains j (insert k v m) ≡ (if k == j then true else contains j m)
  unfolding contains
  contains-insert k j v m = ground (arith, lookup-insert k j v m)

  pub modify_missing : (k : K) (f : V → V) (m : Map K V) → contains k m ≡ false → modify k f m ≡ m
  unfolding contains lookup modify
  modify_missing k f [] h = refl
  modify_missing k f ((i, w) ∷ m) h = ground (arith, modify_missing k f m)
