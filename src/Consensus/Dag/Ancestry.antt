-- ===== src/Consensus/Dag/Ancestry.antt =====
-- `GetAncestors`, `GetDescendants` and `StronglySee` (pkg/consensus/types.go) against paths of links.
use dagnet_crypto.Base.{
  suc, ◌≤◌, ◌≡◌, refl, true, some, List, [], ◌∷◌, ◌++◌, Str, str_key, ◌||◌, inl, inr, ◌↔◌, arith,
  Option-cases, length,
}
use dagnet_crypto.Map.{Map, lookup}
use dagnet_crypto.Pb.{Event}
use dagnet_crypto.Consensus.Search.{Found, has, explore, mem, Leads}
use dagnet_crypto.Consensus.Search.Total.{missing, explore-Ends}
use dagnet_crypto.Consensus.Search.Exact.{explore_exact}
use dagnet_crypto.Consensus.Dag.{
  Dag, parents_of, children_of, all_parents, all_children, found_or_none, get_ancestors,
  get_descendants,
}

pub mem-append : (y : Str) (xs ys : List Str) → mem y (xs ++ ys) ≡ (mem y xs || mem y ys)
unfolding mem
mem-append y [] ys = refl
mem-append y (x ∷ xs) ys = ground (arith, mem-append y xs ys)

mem-all_parents :
    (m : Map Str Event) (x y : Str) (e : Event)
    → lookup x m ≡ some e
    → mem y e.parents ≡ true
    → mem y (all_parents m) ≡ true
unfolding lookup all_parents
mem-all_parents [] x y e h k = cc
mem-all_parents ((i, e') ∷ m) x y e h k =
    ground (arith, mem-append y e'.parents (all_parents m), mem-all_parents m x y e)

mem-all_children :
    (m : Map Str (List Str)) (x y : Str) (ids : List Str)
    → lookup x m ≡ some ids
    → mem y ids ≡ true
    → mem y (all_children m) ≡ true
unfolding lookup all_children
mem-all_children [] x y ids h k = cc
mem-all_children ((i, js) ∷ m) x y ids h k =
    ground (arith, mem-append y js (all_children m), mem-all_children m x y ids)

parents_within :
    (d : Dag) (x y : Str) → mem y (parents_of d x) ≡ true → mem y (all_parents d.events) ≡ true
unfolding parents_of mem
parents_within d x y h = elim (Option-cases (lookup x d.events)) [
  | inl e ↦ ground arith
  | inr (v, e) ↦ mem-all_parents d.events x y v e (ground arith)
]

children_within :
    (d : Dag) (x y : Str) → mem y (children_of d x) ≡ true → mem y (all_children d.children) ≡ true
unfolding children_of mem
children_within d x y h = elim (Option-cases (lookup x d.children)) [
  | inl e ↦ ground arith
  | inr (v, e) ↦ mem-all_children d.children x y v e (ground arith)
]

missing-le-length : (us : List Str) (found : Found) → missing us found ≤ length us
unfolding missing
missing-le-length [] found = omega arith
missing-le-length (u ∷ us) found = ground (arith, missing-le-length us found)

-- a walk with enough fuel
walk_exact :
    (next : Str → List Str) (us : List Str)
    → ((x y : Str) → mem y (next x) ≡ true → mem y us ≡ true)
    → (x y : Str)
    → (has y (found_or_none (explore next (suc (length us)) x [])) ≡ true) ↔ Leads next x y
walk_exact next us within x y =
    let bound = missing-le-length us [] in
    let (r, e, _) = explore-Ends next us within (suc (length us)) x [] (omega arith) in
    rw e (explore_exact next (suc (length us)) x r e y)

-- `GetAncestors` ends, and marks exactly the ids that a path of one or more parent links leads to.
pub get_ancestors_exact :
    (d : Dag) (x y : Str) → (has y (get_ancestors d x) ≡ true) ↔ Leads (parents_of d) x y
unfolding get_ancestors
get_ancestors_exact d = walk_exact (parents_of d) (all_parents d.events) (parents_within d)

-- `GetDescendants` ends, and marks exactly the ids that a path of one or more child links leads to.
pub get_descendants_exact :
    (d : Dag) (x y : Str) → (has y (get_descendants d x) ≡ true) ↔ Leads (children_of d) x y
unfolding get_descendants
get_descendants_exact d = walk_exact (children_of d) (all_children d.children) (children_within d)
