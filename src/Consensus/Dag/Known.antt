-- ===== src/Consensus/Dag/Known.antt =====
-- Which events a DAG knows after `AddEvent` (pkg/consensus/types.go).
use dagnet_crypto.Base.{
  ◌≡◌, refl, Option, Bool-cases, inl, inr, true, false, some, [], Str, str_key, str_eq_iff, ◌==◌,
  if◌then◌else◌, arith,
}
use dagnet_crypto.Map.{insert, lookup, contains, contains-insert, lookup-insert, lookup-modify}
use dagnet_crypto.Pb.{Event, EventMetadata}
use dagnet_crypto.Consensus.Dag.{
  Dag, link_parents, is_witness, mark_witness, add_fresh, add_event, witness_metadata,
}
use dagnet_crypto.Consensus.Dag.Links.{link_parents-SameEvents}

mark_witness-contains :
    (e : Event) (d : Dag) (x : Str) → contains x (mark_witness e d).events ≡ contains x d.events
unfolding mark_witness contains
mark_witness-contains e d x =
    ground
      (arith, lookup-modify e.id x (λ v. record v { metadata = some witness_metadata }) d.events)

add_fresh-contains :
    (e : Event) (d : Dag) (x : Str)
    → contains x (add_fresh e d).events ≡ (if e.id == x then true else contains x d.events)
unfolding add_fresh
add_fresh-contains e d x =
    let d0 = record d { events = insert e.id e d.events } in
    let d' = link_parents e.id e.parents d0 in
    ground (
      arith,
      mark_witness-contains e d' x,
      (link_parents-SameEvents e.id e.parents d0).events,
      contains-insert e.id x e d.events,
    )

-- `AddEvent` keeps what is known, and the event is known then, unless it has no id
pub add_event-keeps :
    (e : Event) (d : Dag) (x : Str)
    → contains x d.events ≡ true
    → contains x (add_event (some e) d).1.events ≡ true
unfolding add_event
add_event-keeps e d x h = ground (arith, add_fresh-contains e d x, h)

pub add_event-known :
    (e : Event) (d : Dag)
    → (e.id == []) ≡ false
    → contains e.id (add_event (some e) d).1.events ≡ true
unfolding add_event
add_event-known e d h = ground (arith, add_fresh-contains e d e.id, h, str_eq_iff e.id e.id)

-- what stands under its id is the event, but for metadata
pub add_fresh-stored :
    (e : Event) (d : Dag)
    → (v : Option EventMetadata) × (lookup e.id (add_fresh e d).events
        ≡ some (record e { metadata = v }))
unfolding add_fresh mark_witness
add_fresh-stored e d =
    let d0 = record d { events = insert e.id e d.events } in
    let d' = link_parents e.id e.parents d0 in
    let same = (link_parents-SameEvents e.id e.parents d0).events in
    let found = lookup-insert e.id e.id e d.events in
    let own = (str_eq_iff e.id e.id).1 refl in
    let marked =
      lookup-modify e.id e.id (λ v. record v { metadata = some witness_metadata }) d'.events in
    elim (Bool-cases (is_witness e.round e.parents d')) [
      | inl w ↦ (some witness_metadata, ground (arith, w, same, found, own, marked))
      | inr w ↦ (e.metadata, ground (arith, w, same, found, own))
    ]
