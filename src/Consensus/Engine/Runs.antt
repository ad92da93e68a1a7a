-- ===== src/Consensus/Engine/Runs.antt =====
-- Runs of the engine's operations (pkg/consensus/types.go), in any order, against the steps that
-- `Finality` speaks of.
use dagnet_crypto.Base.{
  ℕ, ◌≡◌, refl, Bool, true, false, if◌then◌else◌, Option, none, some, List, [], ◌∷◌, Str, str_key,
  nat_key, ◌==◌, inl, inr, str_eq_iff, arith, Bool-cases, Option-cases, All, length,
}
use dagnet_crypto.Map.{Map, lookup, insert, modify, contains, lookup-insert, lookup-modify}
use dagnet_crypto.Pb.{Event}
use dagnet_crypto.Consensus.Search.{has, mem}
use dagnet_crypto.Consensus.Dag.{
  Dag, AddError, new_dag, witnesses_of, is_witness, add_fresh, add_event, known_events,
  get_witnesses, get_ancestors, link_parents,
}
use dagnet_crypto.Consensus.Dag.Links.{link_parents-SameEvents}
use dagnet_crypto.Consensus.Engine.{
  Engine, FinalityEvent, FameResult, new_consensus_engine, receive_event, stop, vote_on_fame,
  set_fame, send_finality, take_finality, decide_fame, determine_fame, is_final, finalize,
  check_finality, process_event, take_event, checked_dag, current_round,
}
use dagnet_crypto.Consensus.Engine.Finality.{
  Step, add, vote, check, Reach, here, next, IsWitness, set_fame-Marks, check_cases, final_ancestry,
}

-- The calls of the engine's methods. `process` is a turn of the loop in `Start`, and with `take` a client
-- takes an event from the finality channel.
pub data Call : Type 0 where
  receive : Option Event → Call
  process : Call
  fame : ℕ → Call
  check_final : Str → Call
  round : Call
  take : Call
  shut : Call

unfoldable pub perform : Call → Engine → Engine
perform (receive event) e = (receive_event event e).1
perform process e = process_event e
perform (fame r) e = (determine_fame r e).1
perform (check_final id) e = record e { dag = (check_finality id e.dag).1 }
perform round e = (current_round e).1
perform take e = take_finality e
perform shut e = stop e

-- nothing happens after a crash
unfoldable pub run : List Call → Engine → Engine
run [] e = e
run (c ∷ cs) e = run cs (if e.crashed then e else perform c e)

-- each event stands under its own id
abbrev IsKeyed : Dag → Type 0
IsKeyed d = (k : Str) (e : Event) → lookup k d.events ≡ some e → e.id ≡ k

modify-IsKeyed :
    (id : Str) (g : Event → Event) (m : Map Str Event)
    → ((e : Event) → (g e).id ≡ e.id)
    → ((k : Str) (e : Event) → lookup k m ≡ some e → e.id ≡ k)
    → (k : Str) (e : Event) → lookup k (modify id g m) ≡ some e
    → e.id ≡ k
modify-IsKeyed id g m kept h k e found = elim (Option-cases (lookup k m)) [
  | inl none_there ↦ ground (arith, lookup-modify id k g m)
  | inr (v, there) ↦ ground (arith, lookup-modify id k g m, h k v, kept v)
]

insert-IsKeyed :
    (v : Event) (m : Map Str Event)
    → ((k : Str) (e : Event) → lookup k m ≡ some e → e.id ≡ k)
    → (k : Str) (e : Event) → lookup k (insert v.id v m) ≡ some e
    → e.id ≡ k
insert-IsKeyed v m h k e found = ground (arith, lookup-insert v.id k v m, h k e, str_eq_iff v.id k)

add_fresh-IsKeyed : (e : Event) (d : Dag) → IsKeyed d → IsKeyed (add_fresh e d)
unfolding add_fresh
add_fresh-IsKeyed e d h =
    let d₁ = record d { events = insert e.id e d.events } in
    let d₂ = link_parents e.id e.parents d₁ in
    let same = (link_parents-SameEvents e.id e.parents d₁).events in
    let plain : IsKeyed d₂ = rw same (insert-IsKeyed e d.events h) in
    elim (Bool-cases (is_witness e.round e.parents d₂)) [
      | inl w ↦ rw w (modify-IsKeyed e.id _ d₂.events (λ e. refl) plain)
      | inr w ↦ rw w plain
    ]

add_event-IsKeyed : (o : Option Event) (d : Dag) → IsKeyed d → IsKeyed (add_event o d).1
unfolding add_event
add_event-IsKeyed none d h = h
add_event-IsKeyed (some e) d h = elim (Bool-cases (e.id == [])) [
  | inl m ↦ rw m h
  | inr m ↦ elim (Bool-cases (contains e.id d.events)) [
    | inl old ↦ rw (m, old) h
    | inr new ↦ rw (m, new) (add_fresh-IsKeyed e d h)
  ]
]

Step-IsKeyed : {s t : Dag} → Step s t → IsKeyed s → IsKeyed t
Step-IsKeyed (add o d) h = add_event-IsKeyed o d h
Step-IsKeyed (vote id r b d m) h = unfold set_fame in modify-IsKeyed id _ d.events (λ e. refl) h
Step-IsKeyed (check id d) h = elim (check_cases id d) [
  | inl e ↦ rw e h
  | inr (e, _, _, _) ↦ rw e (unfold finalize in modify-IsKeyed id _ d.events (λ e. refl) h)
]

-- what a run keeps: the DAG is one that the steps lead to, and each event stands under its id
record IsReached (d : Dag) : Type 0 where
  steps : Reach new_dag d
  keyed : IsKeyed d

IsReached-step : {s t : Dag} → IsReached s → Step s t → IsReached t
IsReached-step r st = record { steps = next r.steps st; keyed = Step-IsKeyed st r.keyed }

Listed : ℕ → Dag → List Event → Type 0
Listed r d ws = All (λ w. mem w.id (witnesses_of r d) ≡ true) ws

known_events-Listed :
    (r : ℕ) (ids : List Str) (d : Dag)
    → IsKeyed d
    → ((id : Str) → mem id ids ≡ true → mem id (witnesses_of r d) ≡ true)
    → Listed r d (known_events ids d)
unfolding known_events Listed mem
known_events-Listed r [] d k within = tt
known_events-Listed r (id ∷ ids) d k within =
    let rest = known_events-Listed r ids d k (λ x m. within x (ground arith)) in
    elim (Option-cases (lookup id d.events)) [
      | inl e ↦ rw (e, known_events) rest
      | inr (w, e) ↦
          rw (e, known_events) (within w.id (ground (arith, k id w e, str_eq_iff id w.id)), rest)
    ]

Listed-set_fame :
    (r : ℕ) (id : Str) (b : Bool) (d : Dag) (ws : List Event)
    → Listed r d ws
    → Listed r (set_fame id b d) ws
unfolding Listed
Listed-set_fame r id b d [] l = tt
Listed-set_fame r id b d (w ∷ ws) l =
    (rw ((set_fame-Marks id b d).witnesses r) l.0, Listed-set_fame r id b d ws l.1)

send-dag : (f : FinalityEvent) (e : Engine) → (send_finality f e).1.dag ≡ e.dag
unfolding send_finality
send-dag f e = ground arith

after_send :
    (r : ℕ) (ws : List Event) (x : FameResult) (e : Engine)
    → IsReached e.dag
    → IsReached (decide_fame r ws e).1.dag
    → IsReached
        (elim x as (λ _. FameResult × Engine) [
          | FameResult.determined ↦ decide_fame r ws e
          | other ↦ (other, e)
        ]).1.dag
after_send r ws FameResult.determined e h k = k
after_send r ws _ e h k = h

decide_fame-IsReached :
    (r : ℕ) (ws : List Event) (e : Engine)
    → Listed r e.dag ws
    → IsReached e.dag
    → IsReached (decide_fame r ws e).1.dag
unfolding decide_fame Listed
decide_fame-IsReached r [] e l h = h
decide_fame-IsReached r (w ∷ ws) e l h =
    let b = vote_on_fame w r e.dag in
    let d = set_fame w.id b e.dag in
    let e₁ = record e { dag = d } in
    let f : FinalityEvent = record { event_id = w.id; round = r; famous = b } in
    let e₂ = (send_finality f e₁).1 in
    let same = send-dag f e₁ in
    let reached : IsReached e₂.dag = rw same (IsReached-step h (vote w.id r b e.dag l.0)) in
    let listed : Listed r e₂.dag ws = rw same (Listed-set_fame r w.id b e.dag ws l.1) in
    after_send r ws (send_finality f e₁).0 e₂ reached (decide_fame-IsReached r ws e₂ listed reached)

determine_fame-IsReached :
    (r : ℕ) (e : Engine) → IsReached e.dag → IsReached (determine_fame r e).1.dag
unfolding determine_fame get_witnesses
determine_fame-IsReached r e h =
    let ws = get_witnesses r e.dag in
    let listed = known_events-Listed r (witnesses_of r e.dag) e.dag h.keyed (λ x m. m) in
    elim (Bool-cases (length ws == 0)) [
      | inl no_event ↦ rw no_event h
      | inr some_event ↦ rw some_event (decide_fame-IsReached r ws e listed h)
    ]

checked_dag-IsReached :
    (error : Option AddError) (event : Option Event) (d : Dag)
    → IsReached d
    → IsReached (checked_dag error event d)
unfolding checked_dag
checked_dag-IsReached none (some event) d h = IsReached-step h (check event.id d)
checked_dag-IsReached _ _ d h = h

take_event-IsReached :
    (waiting : List (Option Event)) (e : Engine)
    → IsReached e.dag
    → IsReached (take_event waiting e).dag
unfolding take_event
take_event-IsReached [] e h = h
take_event-IsReached (event ∷ rest) e h =
    let (error, dag) = add_event event e.dag in
    checked_dag-IsReached error event dag (IsReached-step h (add event e.dag))

perform-IsReached : (c : Call) (e : Engine) → IsReached e.dag → IsReached (perform c e).dag
unfolding perform
perform-IsReached (receive o) e h = unfold receive_event in ground (arith, h)
perform-IsReached process e h = unfold process_event in take_event-IsReached e.event_chan e h
perform-IsReached (fame r) e h = determine_fame-IsReached r e h
perform-IsReached (check_final id) e h = IsReached-step h (check id e.dag)
perform-IsReached round e h = unfold current_round in h
perform-IsReached take e h = unfold take_finality in h
perform-IsReached shut e h = unfold stop in h

guarded-IsReached :
    (crashed : Bool) (c : Call) (e : Engine)
    → IsReached e.dag
    → IsReached (if crashed then e else perform c e).dag
guarded-IsReached true c e h = h
guarded-IsReached false c e h = perform-IsReached c e h

run-IsReached : (cs : List Call) (e : Engine) → IsReached e.dag → IsReached (run cs e).dag
unfolding run
run-IsReached [] e h = h
run-IsReached (c ∷ cs) e h =
    run-IsReached cs (if e.crashed then e else perform c e) (guarded-IsReached e.crashed c e h)

start-IsReached : IsReached (new_consensus_engine new_dag).dag
unfolding new_consensus_engine lookup
start-IsReached = record { steps = here; keyed = λ k e found. cc }

-- After any calls of the engine's methods, in any order, all that a final event descends from is
-- final, is known to the DAG, and is a witness of some round: an event with an ancestor that is no
-- witness, or that has not come, never becomes final.
pub final_after_run :
    (cs : List Call) (x y : Str)
    → is_final x (run cs (new_consensus_engine new_dag)).dag ≡ true
    → has y (get_ancestors (run cs (new_consensus_engine new_dag)).dag x) ≡ true
    → let d = (run cs (new_consensus_engine new_dag)).dag in
      (is_final y d ≡ true) × (contains y d.events ≡ true) × IsWitness y d
final_after_run cs x y =
    let d = (run cs (new_consensus_engine new_dag)).dag in
    final_ancestry d x y (run-IsReached cs (new_consensus_engine new_dag) start-IsReached).steps
