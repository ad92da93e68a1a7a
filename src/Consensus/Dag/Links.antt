-- ===== src/Consensus/Dag/Links.antt =====
-- `AddEvent` (pkg/consensus/types.go) keeps the maps `parents` and `children` in step with the events.
use dagnet_crypto.Base.{
  ◌≡◌, refl, sym, ◌∙◌, true, false, Option, none, some, List, [], ◌∷◌, ◌++◌, Str, str_key, ◌==◌,
  ◌||◌, ◌&&◌, if◌then◌else◌, inl, inr, ◌↔◌, str_eq_iff, arith, Bool-cases, append_assoc, append-nil,
}
use dagnet_crypto.Map.{lookup, insert, contains, lookup-insert, lookup-modify}
use dagnet_crypto.Pb.{Event}
use dagnet_crypto.Consensus.Search.{has, mem, Leads, link, then_on}
use dagnet_crypto.Consensus.Dag.{
  Dag, new_dag, parents_listed, children_of, parents_of, link_parent, link_parents,
  witness_metadata, add_fresh, add_event, get_ancestors, get_descendants, build,
}
use dagnet_crypto.Consensus.Dag.Ancestry.{mem-append, get_ancestors_exact, get_descendants_exact}

-- what the loop over the parents leaves alone
pub record SameEvents (s t : Dag) : Type 0 where
  pub events : t.events ≡ s.events
  pub witnesses : t.witnesses ≡ s.witnesses
  pub famous : t.famous ≡ s.famous
  pub finalized : t.finalized ≡ s.finalized

pub link_parents-SameEvents :
    (id : Str) (ps : List Str) (d : Dag) → SameEvents d (link_parents id ps d)
unfolding link_parents link_parent
link_parents-SameEvents id [] d = ground arith
link_parents-SameEvents id (p ∷ ps) d =
    ground (arith, link_parents-SameEvents id ps (link_parent id p d))

link_parents-parents :
    (id : Str) (ps : List Str) (d : Dag) (c : Str)
    → parents_listed c (link_parents id ps d)
      ≡ (if id == c then parents_listed c d ++ ps else parents_listed c d)
unfolding link_parents link_parent parents_listed
link_parents-parents id [] d c = ground (arith, append-nil (parents_listed c d))
link_parents-parents id (p ∷ ps) d c = ground (
  arith,
  link_parents-parents id ps (link_parent id p d) c,
  lookup-insert id c (parents_listed id d ++ (p ∷ [])) d.parents,
  append_assoc (parents_listed id d) (p ∷ []) ps,
  str_eq_iff id c,
)

link_parents-children :
    (id : Str) (ps : List Str) (d : Dag) (p c : Str)
    → mem c (children_of (link_parents id ps d) p)
      ≡ (mem c (children_of d p) || (id == c && mem p ps))
unfolding link_parents link_parent children_of mem
link_parents-children id [] d p c = ground arith
link_parents-children id (q ∷ ps) d p c = ground (
  arith,
  link_parents-children id ps (link_parent id q d) p c,
  lookup-insert q p (children_of d q ++ (id ∷ [])) d.children,
  mem-append c (children_of d q) (id ∷ []),
  str_eq_iff q p,
)

-- the event as a lookup sees it, but for its metadata
abbrev pub parents_in : Option Event → List Str
parents_in none = []
parents_in (some e) = e.parents

module _ (e : Event) (d : Dag) where
  abbrev linked_dag : Dag
  linked_dag = link_parents e.id e.parents (record d { events = insert e.id e d.events })

  pub add_fresh-parents_of :
      (c : Str) → parents_of (add_fresh e d) c ≡ (if e.id == c then e.parents else parents_of d c)
  unfolding add_fresh parents_of
  add_fresh-parents_of c = ground (
    arith,
    (link_parents-SameEvents e.id e.parents (record d { events = insert e.id e d.events })).events,
    lookup-insert e.id c e d.events,
    lookup-modify e.id c (λ v. record v { metadata = some witness_metadata }) linked_dag.events,
  )

  add_fresh-parents_listed :
      (c : Str)
      → parents_listed c (add_fresh e d)
        ≡ (if e.id == c then parents_listed c d ++ e.parents else parents_listed c d)
  unfolding add_fresh parents_listed
  add_fresh-parents_listed c =
      ground (
        arith,
        link_parents-parents e.id e.parents (record d { events = insert e.id e d.events }) c,
      )

  add_fresh-children_of :
      (p c : Str)
      → mem c (children_of (add_fresh e d) p)
        ≡ (mem c (children_of d p) || (e.id == c && mem p e.parents))
  unfolding add_fresh children_of
  add_fresh-children_of p c = ground (
    arith,
    link_parents-children e.id e.parents (record d { events = insert e.id e d.events }) p c,
  )

-- The map `parents` lists what the events name, and `children` is its inverse.
pub record IsLinked (d : Dag) : Type 0 where
  pub listed : (c : Str) → parents_listed c d ≡ parents_of d c
  pub inverse : (p c : Str) → mem c (children_of d p) ≡ mem p (parents_of d c)

pub parents_of-unknown : (d : Dag) (c : Str) → contains c d.events ≡ false → parents_of d c ≡ []
unfolding contains parents_of
parents_of-unknown d c h = ground arith

add_fresh-IsLinked :
    (e : Event) (d : Dag) → contains e.id d.events ≡ false → IsLinked d → IsLinked (add_fresh e d)
unfolding mem
add_fresh-IsLinked e d new l = record {
  listed = λ c. ground (
    arith,
    add_fresh-parents_listed e d c,
    add_fresh-parents_of e d c,
    l.listed c,
    parents_of-unknown d e.id new,
    str_eq_iff e.id c,
  );
  inverse = λ p c. ground (
    arith,
    add_fresh-children_of e d p c,
    add_fresh-parents_of e d c,
    l.inverse p c,
    parents_of-unknown d e.id new,
    str_eq_iff e.id c,
  );
}

pub add_event-IsLinked : (o : Option Event) (d : Dag) → IsLinked d → IsLinked (add_event o d).1
unfolding add_event
add_event-IsLinked none d l = l
add_event-IsLinked (some e) d l = elim (Bool-cases (contains e.id d.events)) [
  | inl old ↦ elim (Bool-cases (e.id == [])) [ inl m ↦ rw m l | inr m ↦ rw (m, old) l ]
  | inr new ↦ elim (Bool-cases (e.id == [])) [
    | inl m ↦ rw m l
    | inr m ↦ rw (m, new) (add_fresh-IsLinked e d new l)
  ]
]

build-IsLinked : (os : List (Option Event)) (d : Dag) → IsLinked d → IsLinked (build os d)
unfolding build
build-IsLinked [] d l = l
build-IsLinked (o ∷ os) d l = build-IsLinked os (add_event o d).1 (add_event-IsLinked o d l)

new_dag-IsLinked : IsLinked new_dag
unfolding parents_listed parents_of children_of lookup mem
new_dag-IsLinked = record { listed = λ c. refl; inverse = λ p c. refl }

-- a path with one more link at its end
Leads-snoc :
    (next : Str → List Str) {x y z : Str} → Leads next x y → mem z (next y) ≡ true → Leads next x z
Leads-snoc next (link l) m = then_on l (link m)
Leads-snoc next (then_on l path) m = then_on l (Leads-snoc next path m)

reversed :
    (f g : Str → List Str)
    → ((p c : Str) → mem c (f p) ≡ true → mem p (g c) ≡ true)
    → {x y : Str} → Leads f x y
    → Leads g y x
reversed f g back {x} {y} (link l) = link (back x y l)
reversed f g back {x} {y} (then_on {y = w} l path) =
    Leads-snoc g (reversed f g back path) (back x w l)

-- After any calls of `AddEvent`, with any events in any order, `GetDescendants` and `GetAncestors`
-- are inverse: an id is among the descendants of another just if the other is among its ancestors.
pub descendants_inverse :
    (os : List (Option Event)) (x y : Str)
    → let d = build os new_dag in
      (has y (get_descendants d x) ≡ true) ↔ (has x (get_ancestors d y) ≡ true)
descendants_inverse os x y =
    let d = build os new_dag in
    let l = build-IsLinked os new_dag new_dag-IsLinked in
    let down = get_descendants_exact d x y in
    let up = get_ancestors_exact d y x in
    (
      λ h.
          up.1
            (reversed (children_of d) (parents_of d) (λ p c m. sym (l.inverse p c) ∙ m) (down.0 h)),
      λ h. down.1 (reversed (parents_of d) (children_of d) (λ c p m. l.inverse p c ∙ m) (up.0 h)),
    )
