-- ===== src/Consensus/Engine/Finality.antt =====
-- Finality (pkg/consensus/types.go).
use dagnet_crypto.Base.{
  ℕ, ◌≡◌, refl, sym, ◌∙◌, Bool, true, false, Option, none, some, [], ◌∷◌, ◌++◌, Str, str_key,
  nat_key, ◌==◌, if◌then◌else◌, inl, inr, ◌⊎◌, str_eq_iff, nat_eq_iff, arith, Bool-cases,
  Option-cases,
}
use dagnet_crypto.Map.{Map, lookup, insert, modify, contains, lookup-insert, lookup-modify}
use dagnet_crypto.Pb.{Event}
use dagnet_crypto.Consensus.Search.{Found, has, mem, Leads, link, then_on}
use dagnet_crypto.Consensus.Dag.{
  Dag, new_dag, parents_of, witnesses_of, add_fresh, add_event, get_ancestors, link_parents,
  witness_metadata,
}
use dagnet_crypto.Consensus.Dag.Ancestry.{mem-append, get_ancestors_exact}
use dagnet_crypto.Consensus.Dag.Links.{add_fresh-parents_of, link_parents-SameEvents, parents_in}
use dagnet_crypto.Consensus.Engine.{
  is_final, is_famous, all_final, finalize, check_finality, set_fame,
}

-- Everything that the engine does to its DAG. A vote is about a witness of some round.
pub data Step : Dag → Dag → Type 0 where
  add : (o : Option Event) (d : Dag) → Step d (add_event o d).1
  vote :
      (id : Str) (round : ℕ) (b : Bool) (d : Dag)
      → mem id (witnesses_of round d) ≡ true
      → Step d (set_fame id b d)
  check : (id : Str) (d : Dag) → Step d (check_finality id d).1

pub data Reach (d : Dag) : Dag → Type 0 where
  here : Reach d d
  next : {d₁ d₂ : Dag} → Reach d d₁ → Step d₁ d₂ → Reach d d₂

-- `id` is a witness of some round
abbrev pub IsWitness : Str → Dag → Type 0
IsWitness id d = (round : ℕ) × (mem id (witnesses_of round d) ≡ true)

pub record IsSound (d : Dag) : Type 0 where
  pub known : (x : Str) → is_final x d ≡ true → contains x d.events ≡ true
  pub closed :
      (x y : Str) → is_final x d ≡ true → mem y (parents_of d x) ≡ true → is_final y d ≡ true
  pub voted : (x : Str) → is_famous x d ≡ true → IsWitness x d
  pub witnessed : (x : Str) → is_final x d ≡ true → IsWitness x d

-- What each step leaves as it is.
pub record SameFlags (s t : Dag) : Type 0 where
  pub final : (x : Str) → is_final x t ≡ is_final x s
  pub fame : (x : Str) → is_famous x t ≡ is_famous x s

pub add_fresh-SameFlags : (e : Event) (d : Dag) → SameFlags d (add_fresh e d)
unfolding add_fresh is_final is_famous
add_fresh-SameFlags e d =
    let same =
      link_parents-SameEvents e.id e.parents (record d { events = insert e.id e d.events }) in
    record { final = λ x. ground (arith, same); fame = λ x. ground (arith, same) }

add_fresh-known :
    (e : Event) (d : Dag) (x : Str)
    → contains x d.events ≡ true
    → contains x (add_fresh e d).events ≡ true
unfolding add_fresh contains
add_fresh-known e d x h =
    let d' = record d { events = insert e.id e d.events } in
    ground (
      arith,
      link_parents-SameEvents e.id e.parents d',
      lookup-insert e.id x e d.events,
      lookup-modify e.id x (λ v. record v { metadata = some witness_metadata })
          (link_parents e.id e.parents d').events,
    )

add_fresh-witnesses :
    (e : Event) (d : Dag) (x : Str) (r : ℕ)
    → mem x (witnesses_of r d) ≡ true
    → mem x (witnesses_of r (add_fresh e d)) ≡ true
unfolding add_fresh witnesses_of
add_fresh-witnesses e d x r h =
    let d' = link_parents e.id e.parents (record d { events = insert e.id e d.events }) in
    ground (
      arith,
      link_parents-SameEvents e.id e.parents (record d { events = insert e.id e d.events }),
      lookup-insert e.round r (witnesses_of e.round d' ++ (e.id ∷ [])) d'.witnesses,
      mem-append x (witnesses_of e.round d') (e.id ∷ []),
      nat_eq_iff e.round r,
    )

add_fresh-IsSound :
    (e : Event) (d : Dag) → contains e.id d.events ≡ false → IsSound d → IsSound (add_fresh e d)
add_fresh-IsSound e d new s =
    let same = add_fresh-SameFlags e d in
    record {
      known = λ x f. add_fresh-known e d x (s.known x (sym (same.final x) ∙ f));
      closed = λ x y f m. ground (
        arith,
        same.final x,
        same.final y,
        s.known x,
        s.closed x y,
        add_fresh-parents_of e d x,
        str_eq_iff e.id x,
      );
      voted = λ x f.
          let (r, m) = s.voted x (sym (same.fame x) ∙ f) in (r, add_fresh-witnesses e d x r m);
      witnessed = λ x f.
          let (r, m) = s.witnessed x (sym (same.final x) ∙ f) in (r, add_fresh-witnesses e d x r m);
    }

add_event-IsSound : (o : Option Event) (d : Dag) → IsSound d → IsSound (add_event o d).1
unfolding add_event
add_event-IsSound none d s = s
add_event-IsSound (some e) d s = elim (Bool-cases (e.id == [])) [
  | inl m ↦ rw m s
  | inr m ↦ elim (Bool-cases (contains e.id d.events)) [
    | inl old ↦ rw (m, old) s
    | inr new ↦ rw (m, new) (add_fresh-IsSound e d new s)
  ]
]

-- a write to the metadata of one event
module _ (id : Str) (g : Event → Event) (kept : (e : Event) → (g e).parents ≡ e.parents) where
  modify-parents :
      (m : Map Str Event) (x : Str)
      → parents_in (lookup x (modify id g m)) ≡ parents_in (lookup x m)
  modify-parents m x = elim (Option-cases (lookup x m)) [
    | inl e ↦ ground (arith, lookup-modify id x g m)
    | inr (v, e) ↦ ground (arith, lookup-modify id x g m, kept v)
  ]

  modify-contains : (m : Map Str Event) (x : Str) → contains x (modify id g m) ≡ contains x m
  unfolding contains
  modify-contains m x = ground (arith, lookup-modify id x g m)

-- what the writes of a vote and of a finality mark do, seen by each reader
pub record Marks (id : Str) (d t : Dag) : Type 0 where
  pub parents : (x : Str) → parents_of t x ≡ parents_of d x
  pub known : (x : Str) → contains x t.events ≡ contains x d.events
  pub witnesses : (r : ℕ) → witnesses_of r t ≡ witnesses_of r d

pub set_fame-Marks : (id : Str) (b : Bool) (d : Dag) → Marks id d (set_fame id b d)
unfolding set_fame witnesses_of parents_of
set_fame-Marks id b d = record {
  parents = modify-parents id _ (λ e. refl) d.events;
  known = modify-contains id _ (λ e. refl) d.events;
  witnesses = λ r. refl;
}

pub finalize-Marks : (id : Str) (d : Dag) → Marks id d (finalize id d)
unfolding finalize witnesses_of parents_of
finalize-Marks id d = record {
  parents = modify-parents id _ (λ e. refl) d.events;
  known = modify-contains id _ (λ e. refl) d.events;
  witnesses = λ r. refl;
}

set_fame-flags :
    (id : Str) (b : Bool) (d : Dag) (x : Str)
    → (is_final x (set_fame id b d) ≡ is_final x d)
      × (is_famous x (set_fame id b d) ≡ (if id == x then b else is_famous x d))
unfolding set_fame is_final is_famous
set_fame-flags id b d x = ground (arith, lookup-insert id x b d.famous)

finalize-flags :
    (id : Str) (d : Dag) (x : Str)
    → (is_famous x (finalize id d) ≡ is_famous x d)
      × (is_final x (finalize id d) ≡ (if id == x then true else is_final x d))
unfolding finalize is_final is_famous
finalize-flags id d x = ground (arith, lookup-insert id x true d.finalized)

set_fame-IsSound :
    (id : Str) (r : ℕ) (b : Bool) (d : Dag)
    → mem id (witnesses_of r d) ≡ true
    → IsSound d
    → IsSound (set_fame id b d)
set_fame-IsSound id r b d w s =
    let k = set_fame-Marks id b d in
    let flags = set_fame-flags id b d in
    record {
      known = λ x f. k.known x ∙ s.known x (sym (flags x).0 ∙ f);
      closed = λ x y f m. (flags y).0 ∙ s.closed x y (sym (flags x).0 ∙ f) (rw (k.parents x) at m);
      voted = λ x f. elim (Bool-cases (id == x)) [
        | inl e ↦ (r, rw (k.witnesses r, ← (str_eq_iff id x).0 e) w)
        | inr e ↦ let (q, m) = s.voted x (rw ((flags x).1, e) at f) in (q, rw (k.witnesses q) m)
      ];
      witnessed =
          λ x f. let (q, m) = s.witnessed x (sym (flags x).0 ∙ f) in (q, rw (k.witnesses q) m);
    }

pub final_of_all :
    (r : Found) (d : Dag) (y : Str) → all_final r d ≡ true → has y r ≡ true → is_final y d ≡ true
unfolding all_final has lookup
final_of_all [] d y a h = cc
final_of_all ((x, b) ∷ r) d y a h = ground (arith, final_of_all r d y, str_eq_iff x y)

finalize-IsSound :
    (id : Str) (d : Dag)
    → contains id d.events ≡ true
    → is_famous id d ≡ true
    → all_final (get_ancestors d id) d ≡ true
    → IsSound d
    → IsSound (finalize id d)
finalize-IsSound id d k f a s =
    let marks = finalize-Marks id d in
    let flags = finalize-flags id d in
    record {
      known = λ x h. marks.known x ∙ (ground (arith, flags x, s.known x, str_eq_iff id x));
      closed = λ x y h m.
          let m' : mem y (parents_of d x) ≡ true = rw (marks.parents x) at m in
          let up = λ (e : id ≡ x).
            final_of_all (get_ancestors d id) d y a
              ((get_ancestors_exact d id y).1 (link (rw e m'))) in
          ground (arith, flags x, flags y, s.closed x y, up, str_eq_iff id x);
      voted = λ x h. let (q, m) = s.voted x (sym (flags x).0 ∙ h) in (q, rw (marks.witnesses q) m);
      witnessed = λ x h. elim (Bool-cases (id == x)) [
        | inl e ↦
            let (q, m) = s.voted id f in (q, rw (marks.witnesses q, ← (str_eq_iff id x).0 e) m)
        | inr e ↦
            let (q, m) = s.witnessed x (rw ((flags x).1, e) at h) in (q, rw (marks.witnesses q) m)
      ];
    }

-- `CheckFinality` changes the DAG only to mark a known and famous event whose ancestors are final.
pub check_cases :
    (id : Str) (d : Dag)
    → ((check_finality id d).1 ≡ d)
      ⊎ ((check_finality id d).1 ≡ finalize id d)
        × (contains id d.events ≡ true)
        × (is_famous id d ≡ true)
        × (all_final (get_ancestors d id) d ≡ true)
unfolding check_finality contains
check_cases id d = ground arith

Step-IsSound : {s t : Dag} → Step s t → IsSound s → IsSound t
Step-IsSound (add o d) s = add_event-IsSound o d s
Step-IsSound (vote id r b d m) s = set_fame-IsSound id r b d m s
Step-IsSound (check id d) s = elim (check_cases id d) [
  | inl e ↦ rw e s
  | inr (e, k, f, a) ↦ rw e (finalize-IsSound id d k f a s)
]

new_dag-IsSound : IsSound new_dag
unfolding is_final is_famous lookup
new_dag-IsSound = record {
  known = λ x h. cc;
  closed = λ x y h m. cc;
  voted = λ x h. absurd (cc);
  witnessed = λ x h. absurd (cc);
}

Reach-IsSound : {d : Dag} → Reach new_dag d → IsSound d
Reach-IsSound here = new_dag-IsSound
Reach-IsSound (next r st) = Step-IsSound st (Reach-IsSound r)

final_along :
    (d : Dag)
    → IsSound d
    → {x y : Str} → is_final x d ≡ true
    → Leads (parents_of d) x y
    → is_final y d ≡ true
final_along d s {x} {y} f (link l) = s.closed x y f l
final_along d s {x} {y} f (then_on {y = w} l path) = final_along d s (s.closed x w f l) path

-- In each DAG that additions, votes and finality checks lead to, in any order, an event that a final
-- event descends from is final too: it is known to the DAG, and a witness of some round.
pub final_ancestry :
    (d : Dag) (x y : Str)
    → Reach new_dag d
    → is_final x d ≡ true
    → has y (get_ancestors d x) ≡ true
    → (is_final y d ≡ true) × (contains y d.events ≡ true) × IsWitness y d
final_ancestry d x y r f h =
    let s = Reach-IsSound r in
    let g = final_along d s f ((get_ancestors_exact d x y).0 h) in (g, s.known y g, s.witnessed y g)
