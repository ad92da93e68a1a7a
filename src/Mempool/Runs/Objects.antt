-- ===== src/Mempool/Runs/Objects.antt =====
-- The objects that the map and the queue share (pkg/mempool/mempool.go), before and after a write.
use dagnet_crypto.Base.{
  ℕ, zero, suc, ◌≤◌, ◌<◌, ◌≡◌, refl, Bool, true, false, none, some, List, [], ◌∷◌, ◌++◌, Str,
  str_key, nat_key, nat_eq_iff, ◌==◌, if◌then◌else◌, inl, inr, arith, Option-cases, length,
  length-set, get_elem?, set,
}
use dagnet_crypto.Map.{Map, insert}
use dagnet_crypto.Mempool.Priority.{Float64, negative, priority}
use dagnet_crypto.Mempool.Pool.{MempoolTx, priority_at, delete, mark_removed}
use dagnet_crypto.Mempool.Runs.{id_at}

pub get_elem?-append :
    (xs : List MempoolTx) (x : MempoolTx) (r : ℕ)
    → get_elem? (xs ++ (x ∷ [])) r ≡ (if r == length xs then some x else get_elem? xs r)
get_elem?-append [] x zero = refl
get_elem?-append [] x (suc r) = ground arith
get_elem?-append (y ∷ xs) x zero = ground arith
get_elem?-append (y ∷ xs) x (suc r) = ground (arith, get_elem?-append xs x r)

pub get_elem?-set :
    (xs : List MempoolTx) (i r : ℕ) (x : MempoolTx)
    → i < length xs
    → get_elem? (set xs i x) r ≡ (if r == i then some x else get_elem? xs r)
get_elem?-set [] i r x h = elim h [ ]
get_elem?-set (y ∷ xs) zero zero x h = refl
get_elem?-set (y ∷ xs) zero (suc r) x h = ground arith
get_elem?-set (y ∷ xs) (suc i) zero x h = ground arith
get_elem?-set (y ∷ xs) (suc i) (suc r) x h = ground (arith, get_elem?-set xs i r x)

pub get_elem?-past : (xs : List MempoolTx) (r : ℕ) → length xs ≤ r → get_elem? xs r ≡ none
get_elem?-past [] r h = refl
get_elem?-past (x ∷ xs) zero h = absurd (omega arith)
get_elem?-past (x ∷ xs) (suc r) h = get_elem?-past xs r (omega arith)

pub length-insert : (id : Str) (r : ℕ) (m : Map Str ℕ) → length (insert id r m) ≤ suc (length m)
unfolding insert
length-insert id r [] = omega arith
length-insert id r (e ∷ m) = ground (arith, length-insert id r m)

pub length-delete : (id : Str) (m : Map Str ℕ) → length (delete id m) ≤ length m
unfolding delete
length-delete id [] = omega arith
length-delete id (e ∷ m) = ground (arith, length-delete id m)

-- what a reference tells after an object has come
pub id_at-append :
    (xs : List MempoolTx) (x : MempoolTx) (r : ℕ)
    → id_at (xs ++ (x ∷ [])) r ≡ (if r == length xs then x.tx.id else id_at xs r)
unfolding id_at
id_at-append xs x r = ground (arith, get_elem?-append xs x r)

pub priority_at-append :
    (xs : List MempoolTx) (x : MempoolTx) (r : ℕ)
    → priority_at (xs ++ (x ∷ [])) r ≡ (if r == length xs then x.priority else priority_at xs r)
unfolding priority_at
priority_at-append xs x r = ground (arith, get_elem?-append xs x r)

not_negative :
    (p q : Bool) (n : ℕ)
    → negative (if p then if q then Float64.nan else Float64.infinite else Float64.finite n) ≡ false
unfolding negative
not_negative true true n = refl
not_negative true false n = refl
not_negative false q n = refl

pub priority-live : (fee gas : ℕ) → negative (priority fee gas) ≡ false
unfolding priority
priority-live fee gas = not_negative _ _ _

pub id_at-mark :
    (r s : ℕ) (objects : List MempoolTx) → id_at (mark_removed r objects) s ≡ id_at objects s
unfolding mark_removed id_at
id_at-mark r s objects = elim (Option-cases (get_elem? objects r)) [
  | inl e ↦ ground arith
  | inr (x, e) ↦ ground (
    arith,
    get_elem?-set objects r s (record x { priority = Float64.minus_one }),
    get_elem?-past objects r,
  )
]

pub negative-mark :
    (r s : ℕ) (objects : List MempoolTx)
    → r < length objects
    → negative (priority_at (mark_removed r objects) s)
      ≡ (if r == s then true else negative (priority_at objects s))
unfolding mark_removed priority_at negative
negative-mark r s objects h = elim (Option-cases (get_elem? objects r)) [
  | inl e ↦ ground (arith, nat_eq_iff r s)
  | inr (x, e) ↦
      ground (
        arith,
        nat_eq_iff r s,
        get_elem?-set objects r s (record x { priority = Float64.minus_one }),
      )
]

pub length-mark :
    (r : ℕ) (objects : List MempoolTx) → length (mark_removed r objects) ≡ length objects
unfolding mark_removed
length-mark r objects = elim (Option-cases (get_elem? objects r)) [
  | inl e ↦ ground arith
  | inr (x, e) ↦ ground (arith, length-set objects r (record x { priority = Float64.minus_one }))
]
