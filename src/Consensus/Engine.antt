-- ===== src/Consensus/Engine.antt =====
-- `ConsensusEngine` (pkg/consensus/types.go): fame, finality, the current round and the channels. A
-- buffered channel is the list of what waits in it; a send that finds it full blocks its goroutine,
-- and one that finds it closed panics. Time stamps of finality events are left out.
pub mod Finality
pub mod Runs
pub mod Exact
use dagnet_crypto.Base.{
  ℕ, ◌+◌, ◌*◌, ◌/◌, Bool, true, false, Option, none, some, List, [], ◌∷◌, ◌++◌, Str, str_key,
  nat_key, ◌==◌, ◌&&◌, ◌||◌, if◌then◌else◌, ltb, leb, length, add_u64,
}
use dagnet_crypto.Map.{Map, lookup, insert, modify, get_or}
use dagnet_crypto.Pb.{Event, EventMetadata}
use dagnet_crypto.Consensus.Validators.{Registry}
use dagnet_crypto.Consensus.Search.{Found}
use dagnet_crypto.Consensus.Dag.{
  Dag, AddError, add_event, get_witnesses, get_ancestors, strongly_see, latest_round,
}

pub record FinalityEvent : Type 0 where
  pub event_id : Str
  pub round : ℕ
  pub famous : Bool

pub record Engine : Type 0 where
  pub dag : Dag
  pub validators : Registry
  pub current_round : ℕ
  pub finality : List FinalityEvent
  pub finality_closed : Bool
  pub event_chan : List (Option Event)
  pub crashed : Bool

-- `NewConsensusEngine`
unfoldable pub new_consensus_engine : Dag → Engine
new_consensus_engine dag = record {
  dag = dag;
  validators = [];
  current_round = 0;
  finality = [];
  finality_closed = false;
  event_chan = [];
  crashed = false;
}

-- the capacities of the channels
abbrev pub finality_capacity : ℕ
finality_capacity = 100

abbrev pub event_capacity : ℕ
event_capacity = 1000

-- `ReceiveEvent`: false is the error "event channel full"
unfoldable pub receive_event : Option Event → Engine → Bool × Engine
receive_event event e =
    if ltb (length e.event_chan) event_capacity
    then (true, record e { event_chan = e.event_chan ++ (event ∷ []) })
    else (false, e)

-- `Stop`: to close a closed channel is a panic
unfoldable pub stop : Engine → Engine
stop e = record e { finality_closed = true; crashed = e.finality_closed || e.crashed }

-- the loop of `voteOnFame`
unfoldable pub count_seers : Str → List Event → Dag → ℕ
count_seers b [] d = 0
count_seers b (w ∷ ws) d = (if strongly_see d w.id b then 1 else 0) + count_seers b ws d

unfoldable pub vote_on_fame : Event → ℕ → Dag → Bool
vote_on_fame w round d =
    let ws = get_witnesses (add_u64 round 1) d in
    if length ws == 0 then false else leb (length ws * 2 / 3 + 1) (count_seers w.id ws d)

-- `&pb.EventMetadata{}` where the event has none
abbrev pub metadata_or_new : Option EventMetadata → EventMetadata
metadata_or_new none = record { is_witness = false; is_famous = false; is_finalized = false }
metadata_or_new (some m) = m

-- the writes under the lock in `DetermineFame`
unfoldable pub set_fame : Str → Bool → Dag → Dag
set_fame id b d = record d {
  famous = insert id b d.famous;
  events =
      modify id
        (λ e. record e { metadata = some (record (metadata_or_new e.metadata) { is_famous = b }) })
        d.events;
}

-- how a call of `DetermineFame` ends
pub data FameResult : Type 0 where
  determined no_witnesses blocked panicked : FameResult

-- `e.finality <- event`
unfoldable pub send_finality : FinalityEvent → Engine → FameResult × Engine
send_finality event e =
    if e.finality_closed
    then (panicked, record e { crashed = true })
    else if ltb (length e.finality) finality_capacity
    then (determined, record e { finality = e.finality ++ (event ∷ []) })
    else (blocked, e)

-- a receive from `GetFinalityChannel`: what waits first is taken
unfoldable pub take_finality : Engine → Engine
take_finality e = record e { finality = elim e.finality [ [] ↦ [] | event ∷ rest ↦ rest ] }

-- the loop of `DetermineFame`, which goes on only after a send that went through
unfoldable pub decide_fame : ℕ → List Event → Engine → FameResult × Engine
unfolding send_finality
decide_fame round [] e = (determined, e)
decide_fame round (w ∷ ws) e =
    let b = vote_on_fame w round e.dag in
    let (r, e') =
      send_finality (record { event_id = w.id; round = round; famous = b })
        (record e { dag = set_fame w.id b e.dag }) in
    elim r [ determined ↦ decide_fame round ws e' | other ↦ (other, e') ]

unfoldable pub determine_fame : ℕ → Engine → FameResult × Engine
determine_fame round e =
    let ws = get_witnesses round e.dag in
    if length ws == 0 then (no_witnesses, e) else decide_fame round ws e

-- `finalized[id]`, `famous[id]`
unfoldable pub is_final : Str → Dag → Bool
is_final id d = get_or id false d.finalized

unfoldable pub is_famous : Str → Dag → Bool
is_famous id d = get_or id false d.famous

-- the loop over the ancestors in `CheckFinality`
unfoldable pub all_final : Found → Dag → Bool
all_final [] d = true
all_final ((id, _) ∷ ids) d = is_final id d && all_final ids d

unfoldable pub finalize : Str → Dag → Dag
finalize id d = record d {
  finalized = insert id true d.finalized;
  events =
      modify id
        (λ e. record e {
          metadata = some (record (metadata_or_new e.metadata) { is_finalized = true });
        })
        d.events;
}

unfoldable pub check_finality : Str → Dag → Bool × Dag
check_finality id d = if is_final id d then (true, d) else elim (lookup id d.events) [
  | none ↦ (false, d)
  | some _ ↦
      if is_famous id d
      then if all_final (get_ancestors d id) d then (true, finalize id d) else (false, d)
      else (false, d)
]

-- one turn of the loop in `Start` that takes an event from the channel: after an addition without an
-- error the event's finality is checked
unfoldable pub checked_dag : Option AddError → Option Event → Dag → Dag
checked_dag none (some event) d = (check_finality event.id d).1
checked_dag _ _ d = d

-- A nil event is refused, and then its id is read for the log message: the program crashes.
unfoldable pub take_event : List (Option Event) → Engine → Engine
take_event [] e = e
take_event (event ∷ rest) e =
    let (error, dag) = add_event event e.dag in
    record e {
      event_chan = rest;
      dag = checked_dag error event dag;
      crashed = elim event [ none ↦ true | some _ ↦ e.crashed ];
    }

unfoldable pub process_event : Engine → Engine
unfolding take_event
process_event e = take_event e.event_chan e

unfoldable pub current_round : Engine → ℕ × Engine
current_round e =
    let latest = latest_round e.dag in
    let round = if ltb e.current_round latest then latest else e.current_round in
    (round, record e { current_round = round })
