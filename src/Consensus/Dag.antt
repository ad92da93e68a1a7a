-- ===== src/Consensus/Dag.antt =====
-- The event DAG (pkg/consensus/types.go): `DAG` and its methods. The lock is left out, since each
-- method holds it. Go's `range` over a map comes in the order of the model's map.
pub mod Ancestry
pub mod Links
pub mod Rounds
pub mod Known
use dagnet_crypto.Base.{
  ℕ, zero, suc, ◌+◌, ◌*◌, ◌/◌, ◌<◌, ◌≡◌, Bool, true, false, Option, none, some, List, [], ◌∷◌, ◌++◌,
  Str, str_key, nat_key, ◌==◌, ◌||◌, if◌then◌else◌, ltb, leb, length, add_u64,
}
use dagnet_crypto.Map.{Map, lookup, insert, modify, contains, get_or}
use dagnet_crypto.Pb.{Event, EventMetadata}
use dagnet_crypto.Consensus.Search.{Found, has, explore}

pub record Dag : Type 0 where
  pub events : Map Str Event
  pub parents : Map Str (List Str)
  pub children : Map Str (List Str)
  pub witnesses : Map ℕ (List Str)
  pub famous : Map Str Bool
  pub finalized : Map Str Bool

-- `NewDAG`
abbrev pub new_dag : Dag
new_dag = record {
  events = [];
  parents = [];
  children = [];
  witnesses = [];
  famous = [];
  finalized = [];
}

pub data AddError : Type 0 where
  invalid_event missing_event_id event_exists : AddError

-- the ids under a key of a `map[string][]string`
unfoldable pub parents_listed : Str → Dag → List Str
parents_listed id d = get_or id [] d.parents

unfoldable pub children_of : Dag → Str → List Str
children_of d id = get_or id [] d.children

unfoldable pub witnesses_of : ℕ → Dag → List Str
witnesses_of round d = get_or round [] d.witnesses

-- the parents that an event of the DAG names
unfoldable pub parents_of : Dag → Str → List Str
parents_of d id = elim (lookup id d.events) [ none ↦ [] | some e ↦ e.parents ]

-- the body of the loop over `event.Parents` in `AddEvent`
unfoldable pub link_parent : Str → Str → Dag → Dag
unfolding parents_listed children_of
link_parent id parent d = record d {
  parents = insert id (parents_listed id d ++ (parent ∷ [])) d.parents;
  children = insert parent (children_of d parent ++ (id ∷ [])) d.children;
}

unfoldable pub link_parents : Str → List Str → Dag → Dag
link_parents id [] d = d
link_parents id (p ∷ ps) d = link_parents id ps (link_parent id p d)

-- the loop of `isWitness`
unfoldable pub is_witness : ℕ → List Str → Dag → Bool
is_witness round [] d = true
is_witness round (p ∷ ps) d = elim (lookup p d.events) [
  | none ↦ is_witness round ps d
  | some parent ↦ if parent.round == round then false else is_witness round ps d
]

abbrev pub witness_metadata : EventMetadata
witness_metadata = record { is_witness = true; is_famous = false; is_finalized = false }

unfoldable pub mark_witness : Event → Dag → Dag
unfolding witnesses_of
mark_witness e d = record d {
  witnesses = insert e.round (witnesses_of e.round d ++ (e.id ∷ [])) d.witnesses;
  events = modify e.id (λ v. record v { metadata = some witness_metadata }) d.events;
}

-- `AddEvent` on an event with a fresh id
unfoldable pub add_fresh : Event → Dag → Dag
unfolding mark_witness
add_fresh e d =
    let d' = link_parents e.id e.parents (record d { events = insert e.id e d.events }) in
    if is_witness e.round e.parents d' then mark_witness e d' else d'

-- `AddEvent`; a nil event is `none`, and no error is `none`
unfoldable pub add_event : Option Event → Dag → Option AddError × Dag
add_event none d = (some invalid_event, d)
add_event (some e) d =
    if e.id == []
    then (some missing_event_id, d)
    else if contains e.id d.events
    then (some event_exists, d)
    else (none, add_fresh e d)

-- a DAG after the given calls of `AddEvent`
unfoldable pub build : List (Option Event) → Dag → Dag
build [] d = d
build (o ∷ os) d = build os (add_event o d).1

unfoldable pub get_event : Str → Dag → Option Event
get_event id d = lookup id d.events

-- the loop of `GetEventsByRound`
unfoldable pub with_round : ℕ → Map Str Event → List Event
with_round round [] = []
with_round round ((_, e) ∷ m) =
    let rest = with_round round m in if e.round == round then e ∷ rest else rest

unfoldable pub get_events_by_round : ℕ → Dag → List Event
unfolding with_round
get_events_by_round round d = with_round round d.events

-- the loop of `GetWitnesses`
unfoldable pub known_events : List Str → Dag → List Event
known_events [] d = []
known_events (id ∷ ids) d = elim (lookup id d.events) [
  | none ↦ known_events ids d
  | some e ↦ e ∷ known_events ids d
]

unfoldable pub get_witnesses : ℕ → Dag → List Event
get_witnesses round d = known_events (witnesses_of round d) d

-- all ids that the events name as parents, and that the map `children` names
unfoldable pub all_parents : Map Str Event → List Str
all_parents [] = []
all_parents ((_, e) ∷ m) = e.parents ++ all_parents m

unfoldable pub all_children : Map Str (List Str) → List Str
all_children [] = []
all_children ((_, ids) ∷ m) = ids ++ all_children m

abbrev pub found_or_none : Option Found → Found
found_or_none none = []
found_or_none (some r) = r

-- Each round of fuel marks an id, so one more than the ids that can be marked is enough.
unfoldable pub get_ancestors : Dag → Str → Found
get_ancestors d id =
    found_or_none (explore (parents_of d) (suc (length (all_parents d.events))) id [])

unfoldable pub get_descendants : Dag → Str → Found
get_descendants d id =
    found_or_none (explore (children_of d) (suc (length (all_children d.children))) id [])

unfoldable pub strongly_see : Dag → Str → Str → Bool
strongly_see d a b = has b (get_ancestors d a)

-- the loop of `RoundNumber` over the parents
unfoldable pub max_round : List Str → ℕ → Dag → ℕ
max_round [] m d = m
max_round (p ∷ ps) m d =
    max_round ps
      (elim (lookup p d.events) [ none ↦ m | some e ↦ if ltb m e.round then e.round else m ]) d

-- the loops that count the events which see, or are seen
unfoldable pub count_seen : Str → List Event → Dag → ℕ
count_seen a [] d = 0
count_seen a (w ∷ ws) d = (if strongly_see d a w.id then 1 else 0) + count_seen a ws d

unfoldable pub can_create_new_round : Event → ℕ → Dag → Bool
can_create_new_round e round d =
    let ws = get_witnesses round d in
    if length ws == 0 then false else leb (length ws * 2 / 3 + 1) (count_seen e.id ws d)

unfoldable pub round_number : Event → Dag → ℕ
round_number e d =
    let m = max_round e.parents 0 d in if can_create_new_round e m d then add_u64 m 1 else m

unfoldable pub events_count : Dag → ℕ
events_count d = length d.events

-- the loop of `LatestRound`
unfoldable pub highest : Map Str Event → ℕ → ℕ
highest [] m = m
highest ((_, e) ∷ rest) m = highest rest (if ltb m e.round then e.round else m)

unfoldable pub latest_round : Dag → ℕ
unfolding highest
latest_round d = highest d.events 0
