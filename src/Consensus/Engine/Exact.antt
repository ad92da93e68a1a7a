-- ===== src/Consensus/Engine/Exact.antt =====
-- The answers of `CheckFinality` and `voteOnFame` (pkg/consensus/types.go).
use dagnet_crypto.Base.{
  ℕ, zero, suc, ◌*◌, ◌<◌, ◌≡◌, refl, true, Option, some, List, [], ◌∷◌, Str, str_key, ◌==◌, inl,
  inr, ◌⊎◌, ◌↔◌, str_eq_iff, arith, Bool-cases, Option-cases, All, length, add_u64,
}
use dagnet_crypto.Map.{lookup, insert, contains}
use dagnet_crypto.Pb.{Event}
use dagnet_crypto.Consensus.Search.{Found, has, add, each, explore, Leads}
use dagnet_crypto.Consensus.Dag.{Dag, parents_of, all_parents, get_witnesses, get_ancestors}
use dagnet_crypto.Consensus.Dag.Ancestry.{get_ancestors_exact}
use dagnet_crypto.Consensus.Engine.{
  is_final, is_famous, all_final, check_finality, vote_on_fame, count_seers,
}
use dagnet_crypto.Consensus.Engine.Finality.{final_of_all}

-- The walk writes nothing but `true`.
AllTrue : Found → Type 0
AllTrue found = All (λ entry. entry.1 ≡ true) found

add-AllTrue : (x : Str) (found : Found) → AllTrue found → AllTrue (add x found)
unfolding add insert AllTrue
add-AllTrue x [] h = (refl, tt)
add-AllTrue x ((y, b) ∷ found) h = elim (Bool-cases (y == x)) [
  | inl e ↦ rw (e, insert) (refl, h.1)
  | inr e ↦ rw (e, insert) (h.0, add-AllTrue x found h.1)
]

abbrev KeepsTrue : (Str → Found → Option Found) → Type 0
KeepsTrue visit = (x : Str) (found r : Found) → visit x found ≡ some r → AllTrue found → AllTrue r

each-AllTrue :
    (visit : Str → Found → Option Found)
    → KeepsTrue visit
    → (xs : List Str) (found r : Found) → each visit xs found ≡ some r
    → AllTrue found
    → AllTrue r
unfolding each
each-AllTrue visit k [] found r e h = let same : found ≡ r = cc in rw (← same) h
each-AllTrue visit k (x ∷ xs) found r e h = elim (Bool-cases (has x found)) [
  | inl old ↦ each-AllTrue visit k xs found r (rw (old, each) at e) h
  | inr new ↦ elim (Option-cases (visit x (add x found))) [
    | inl stuck ↦ ground arith
    | inr (more, e') ↦
        each-AllTrue visit k xs more r (rw (new, e', each) at e)
          (k x (add x found) more e' (add-AllTrue x found h))
  ]
]

explore-AllTrue : (next : Str → List Str) (f : ℕ) → KeepsTrue (explore next f)
unfolding explore
explore-AllTrue next zero x found r e h = ground arith
explore-AllTrue next (suc f) x found r e h =
    each-AllTrue (explore next f) (explore-AllTrue next f) (next x) found r e h

get_ancestors-AllTrue : (d : Dag) (id : Str) → AllTrue (get_ancestors d id)
unfolding get_ancestors AllTrue
get_ancestors-AllTrue d id =
    let f = suc (length (all_parents d.events)) in
    elim (Option-cases (explore (parents_of d) f id [])) [
      | inl stuck ↦ rw stuck tt
      | inr (r, e) ↦ rw e (explore-AllTrue (parents_of d) f id [] r e tt)
    ]

all_of_final :
    (r : Found) (d : Dag)
    → AllTrue r
    → ((y : Str) → has y r ≡ true → is_final y d ≡ true)
    → all_final r d ≡ true
unfolding all_final has lookup AllTrue
all_of_final [] d t h = refl
all_of_final ((x, b) ∷ r) d t h =
    ground
      (arith, h x, t.0, str_eq_iff x x, all_of_final r d t.1 (λ y m. h y (ground (arith, t.0))))

-- What makes `CheckFinality` answer true.
abbrev pub MayFinalize : Str → Dag → Type 0
MayFinalize id d =
    (contains id d.events ≡ true)
    × (is_famous id d ≡ true)
    × ((y : Str) → Leads (parents_of d) id y → is_final y d ≡ true)

all_final_iff :
    (id : Str) (d : Dag)
    → (all_final (get_ancestors d id) d ≡ true)
      ↔ ((y : Str) → Leads (parents_of d) id y → is_final y d ≡ true)
all_final_iff id d =
    let r = get_ancestors d id in
    (
      λ a y path. final_of_all r d y a ((get_ancestors_exact d id y).1 path),
      λ h.
          all_of_final r d (get_ancestors-AllTrue d id)
            (λ y m. h y ((get_ancestors_exact d id y).0 m)),
    )

check_finality_answer :
    (id : Str) (d : Dag)
    → ((check_finality id d).0 ≡ true) ↔ (
        (is_final id d ≡ true)
        ⊎ (contains id d.events ≡ true)
          × (is_famous id d ≡ true)
          × (all_final (get_ancestors d id) d ≡ true))
unfolding check_finality contains
check_finality_answer id d = ground arith

-- `CheckFinality` answers true just if the event is final already, or is in the DAG, was voted famous,
-- and each event on a path of parent links from it is final.
pub check_finality_iff :
    (id : Str) (d : Dag)
    → ((check_finality id d).0 ≡ true) ↔ ((is_final id d ≡ true) ⊎ MayFinalize id d)
check_finality_iff id d =
    let a = check_finality_answer id d in
    let b = all_final_iff id d in
    (
      λ h. elim (a.0 h) [ inl f ↦ inl f | inr (k, f, all) ↦ inr (k, f, b.0 all) ],
      λ h. elim h [ inl f ↦ a.1 (inl f) | inr (k, f, all) ↦ a.1 (inr (k, f, b.1 all)) ],
    )

-- A witness is voted famous just if more than two thirds of the witnesses of the next round, and at
-- least one, descend from it.
pub vote_on_fame_iff :
    (w : Event) (round : ℕ) (d : Dag)
    → let ws = get_witnesses (add_u64 round 1) d in
      (vote_on_fame w round d ≡ true)
      ↔ ((0 < length ws) × (2 * length ws < 3 * count_seers w.id ws d))
unfolding vote_on_fame
vote_on_fame_iff w round d = ground arith
