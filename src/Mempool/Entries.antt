-- ===== src/Mempool/Entries.antt =====
-- The map `txs` (pkg/mempool/mempool.go) as a set of entries: no id has two.
use dagnet_crypto.Base.{
  ℕ, ◌+◌, ◌≤◌, ◌<◌, ◌≡◌, refl, Bool, true, false, some, List, [], ◌∷◌, Str, str_key, str_eq_iff,
  nat_key, nat_eq_iff, ◌==◌, ◌&&◌, ◌||◌, if◌then◌else◌, inl, inr, arith, Bool-cases, Option-cases,
  get_elem?, map,
}
use dagnet_crypto.Map.{Map, lookup, insert, contains}
use dagnet_crypto.Mempool.Heap.Items.{count}
use dagnet_crypto.Mempool.Pool.{MempoolTx, delete, young}

-- how many entries an id has
unfoldable pub entries : Str → Map Str ℕ → ℕ
entries id [] = 0
entries id ((k, _) ∷ m) = (if k == id then 1 else 0) + entries id m

-- whether an id has an entry with a reference
unfoldable pub entry_in : Str → ℕ → Map Str ℕ → Bool
entry_in id r [] = false
entry_in id r ((k, v) ∷ m) = (k == id && v == r) || entry_in id r m

entries-entry_in : (id : Str) (r : ℕ) (m : Map Str ℕ) → entry_in id r m ≡ true → 0 < entries id m
unfolding entries entry_in
entries-entry_in id r [] h = cc
entries-entry_in id r ((k, v) ∷ m) h = ground (arith, entries-entry_in id r m)

pub entries-missing : (id : Str) (m : Map Str ℕ) → contains id m ≡ false → entries id m ≡ 0
unfolding entries contains lookup
entries-missing id [] h = refl
entries-missing id ((k, v) ∷ m) h = ground (arith, entries-missing id m)

pub lookup-entry_in :
    (id : Str) (r : ℕ) (m : Map Str ℕ)
    → entries id m ≤ 1
    → entry_in id r m ≡ true
    → lookup id m ≡ some r
unfolding entries entry_in lookup
lookup-entry_in id r [] u h = cc
lookup-entry_in id r ((k, v) ∷ m) u h =
    ground (arith, lookup-entry_in id r m, entries-entry_in id r m, nat_eq_iff v r)

pub entry_in-lookup :
    (id : Str) (r : ℕ) (m : Map Str ℕ) → lookup id m ≡ some r → entry_in id r m ≡ true
unfolding entry_in lookup
entry_in-lookup id r [] h = cc
entry_in-lookup id r ((k, v) ∷ m) h = ground (arith, entry_in-lookup id r m, nat_eq_iff v r)

pub entries-insert :
    (id k : Str) (r : ℕ) (m : Map Str ℕ)
    → contains id m ≡ false
    → entries k (insert id r m) ≡ entries k m + (if id == k then 1 else 0)
unfolding entries insert contains lookup
entries-insert id k r [] h = ground arith
entries-insert id k r ((j, v) ∷ m) h = ground (arith, entries-insert id k r m)

pub entry_in-insert :
    (id k : Str) (r s : ℕ) (m : Map Str ℕ)
    → contains id m ≡ false
    → entry_in k s (insert id r m) ≡ (entry_in k s m || (id == k && r == s))
unfolding entry_in insert contains lookup
entry_in-insert id k r s [] h = ground arith
entry_in-insert id k r s ((j, v) ∷ m) h = ground (arith, entry_in-insert id k r s m)

pub entries-delete :
    (id k : Str) (m : Map Str ℕ) → entries k (delete id m) ≡ (if id == k then 0 else entries k m)
unfolding entries delete
entries-delete id k [] = ground arith
entries-delete id k ((j, v) ∷ m) =
    ground (arith, entries-delete id k m, str_eq_iff j id, str_eq_iff j k, str_eq_iff id k)

pub entry_in-delete :
    (id k : Str) (s : ℕ) (m : Map Str ℕ)
    → entry_in k s (delete id m) ≡ (if id == k then false else entry_in k s m)
unfolding entry_in delete
entry_in-delete id k s [] = ground arith
entry_in-delete id k s ((j, v) ∷ m) =
    ground (arith, entry_in-delete id k s m, str_eq_iff j id, str_eq_iff j k, str_eq_iff id k)

module _ (now : ℕ) (objects : List MempoolTx) where
  pub entries-young : (k : Str) (m : Map Str ℕ) → entries k (young now objects m) ≤ entries k m
  unfolding entries young
  entries-young k [] = omega arith
  entries-young k ((j, r) ∷ m) = elim (Option-cases (get_elem? objects r)) [
    | inl e ↦ ground (arith, entries-young k m)
    | inr (x, e) ↦ ground (arith, entries-young k m)
  ]

  pub entry_in-young :
      (k : Str) (s : ℕ) (m : Map Str ℕ)
      → entry_in k s (young now objects m) ≡ true
      → entry_in k s m ≡ true
  unfolding entry_in young
  entry_in-young k s [] h = h
  entry_in-young k s ((j, r) ∷ m) h = elim (Option-cases (get_elem? objects r)) [
    | inl e ↦ ground (arith, entry_in-young k s m)
    | inr (x, e) ↦ ground (arith, entry_in-young k s m)
  ]

abbrev pub refs : Map Str ℕ → List ℕ
refs m = map (λ e. e.1) m

pub count-refs_in :
    (id : Str) (r : ℕ) (m : Map Str ℕ) → entry_in id r m ≡ true → 0 < count r (refs m)
unfolding entry_in count
count-refs_in id r [] h = cc
count-refs_in id r ((k, v) ∷ m) h = ground (arith, count-refs_in id r m)

pub id_of_count :
    (r : ℕ) (m : Map Str ℕ) → 0 < count r (refs m) → (id : Str) × (entry_in id r m ≡ true)
unfolding entry_in count
id_of_count r [] h = elim h [ ]
id_of_count r ((k, v) ∷ m) h = elim (Bool-cases (v == r)) [
  | inl e ↦ (k, ground (arith, str_eq_iff k k))
  | inr e ↦ let (id, found) = id_of_count r m (ground arith) in (id, ground arith)
]

-- a reference has one entry, where it tells the id and no id has two
pub count-refs_le :
    (id_of : ℕ → Str) (r : ℕ) (m : Map Str ℕ)
    → ((k : Str) (s : ℕ) → entry_in k s m ≡ true → id_of s ≡ k)
    → count r (refs m) ≤ entries (id_of r) m
unfolding entry_in count entries
count-refs_le id_of r [] h = omega arith
count-refs_le id_of r ((k, v) ∷ m) h =
    let rest = count-refs_le id_of r m (λ j s e. h j s (ground arith)) in
    ground
      (arith, rest, h k v, str_eq_iff k k, nat_eq_iff v r, nat_eq_iff v v, str_eq_iff k (id_of r))
