-- ===== src/Consensus/Search/Total.antt =====
-- The walk ends: it marks an id before it goes there, and never goes to a marked one.
use dagnet_crypto.Base.{
  ℕ, zero, suc, ◌+◌, ◌≤◌, ◌<◌, ◌≡◌, refl, true, false, Option, some, List, [], ◌∷◌, Str, str_key,
  if◌then◌else◌, inl, inr, str_eq_iff, arith, Bool-cases,
}
use dagnet_crypto.Consensus.Search.{Found, has, add, has-add, each, explore, mem}

-- the entries of `ids` that are not found yet
unfoldable pub missing : List Str → Found → ℕ
missing [] found = 0
missing (u ∷ us) found = (if has u found then 0 else 1) + missing us found

missing-add_le :
    (us : List Str) (x : Str) (found : Found) → missing us (add x found) ≤ missing us found
unfolding missing
missing-add_le [] x found = omega arith
missing-add_le (u ∷ us) x found = ground (arith, missing-add_le us x found, has-add x u found)

missing-add_lt :
    (us : List Str) (x : Str) (found : Found)
    → mem x us ≡ true
    → has x found ≡ false
    → missing us (add x found) < missing us found
unfolding missing mem
missing-add_lt [] x found m h = cc
missing-add_lt (u ∷ us) x found m h = ground (
  arith,
  missing-add_lt us x found,
  missing-add_le us x found,
  has-add x u found,
  str_eq_iff u x,
  str_eq_iff x u,
)

-- A call with `f` rounds of fuel ends where fewer than `f` ids are missing, and loses none.
abbrev Ends : List Str → ℕ → (Str → Found → Option Found) → Type 0
Ends us f visit =
    (x : Str) (found : Found)
    → missing us found < f
    → (r : Found) × (visit x found ≡ some r) × (missing us r ≤ missing us found)

each-Ends :
    (us : List Str) (f : ℕ) (visit : Str → Found → Option Found)
    → Ends us f visit
    → (xs : List Str) (found : Found) → ((y : Str) → mem y xs ≡ true → mem y us ≡ true)
    → missing us found < suc f
    → (r : Found) × (each visit xs found ≡ some r) × (missing us r ≤ missing us found)
unfolding each
each-Ends us f visit ends [] found within h = (found, refl, omega arith)
each-Ends us f visit ends (x ∷ xs) found within h = elim (Bool-cases (has x found)) [
  | inl old ↦ rw (old, each) (each-Ends us f visit ends xs found tail h)
  | inr new ↦
      let fewer = missing-add_lt us x found (within x head) new in
      let (more, e, le) = ends x (add x found) (omega arith) in
      let (r, e', le') = each-Ends us f visit ends xs more tail (omega arith) in
      (r, rw (new, e, each) e', omega arith)
]
  where
    tail : (y : Str) → mem y xs ≡ true → mem y us ≡ true
    tail y m = within y (unfold mem in ground arith)

    head : mem x (x ∷ xs) ≡ true
    head = unfold mem in ground (arith, str_eq_iff x x)

-- Where all links lead into `us`, one round of fuel more than the ids of `us` that are missing is
-- enough.
pub explore-Ends :
    (next : Str → List Str) (us : List Str)
    → ((x y : Str) → mem y (next x) ≡ true → mem y us ≡ true)
    → (f : ℕ) → Ends us f (explore next f)
unfolding explore
explore-Ends next us within zero x found h = elim h [ ]
explore-Ends next us within (suc f) x found h =
    each-Ends us f (explore next f) (explore-Ends next us within f) (next x) found (within x) h
