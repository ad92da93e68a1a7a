-- ===== src/Node/Idle.antt =====
-- What a node does over time (pkg/node/node_production.go): ticks, events from others, calls of the
-- mempool, the genesis event. No code calls `DetermineFame`, so there are no votes among the steps.
use dagnet_crypto.Base.{
  ℕ, zero, suc, ◌≡◌, refl, inl, inr, Bool-cases, Option-cases, ◌∙◌, true, false, Option, none, some,
  List, [], ◌∷◌, Str, str_key, nat_key, ◌==◌, ltb, length, add_u64, arith,
}
use dagnet_crypto.Map.{lookup}
use dagnet_crypto.Pb.{Event, Transaction}
use dagnet_crypto.Config.{Config}
use dagnet_crypto.Consensus.Dag.{Dag, AddError, new_dag, add_event, get_witnesses}
use dagnet_crypto.Consensus.Engine.{
  Engine, event_capacity, receive_event, process_event, take_event, checked_dag, check_finality,
  is_final, is_famous, current_round, new_consensus_engine,
}
use dagnet_crypto.Consensus.Engine.Finality.{add_fresh-SameFlags}
use dagnet_crypto.Mempool.Pool.{get_pending, size}
use dagnet_crypto.Mempool.Runs.{Op}
use dagnet_crypto.Mempool.Runs
use dagnet_crypto.Executor.Monad.{Env}
use dagnet_crypto.Node.Events.{event_of-dag}
use dagnet_crypto.Node.{
  Node, new_node, event_of, publish, process_mempool, check_witnesses, check_rounds, check_all,
  cleanup, process_tick, add_genesis,
}

-- the steps of a node: a tick with its time and event id, an event from a peer, a turn of the engine's
-- loop, a call of the mempool, and the genesis event
pub data Step : Type 0 where
  tick : Str → ℕ → Step
  receive : Option Event → Step
  take : Step
  pool : Op → Step
  genesis : Event → Step

-- no event is famous, and none is final
IsIdle : Dag → Type 0
IsIdle d = (x : Str) → (is_final x d ≡ false) × (is_famous x d ≡ false)

new_dag-IsIdle : IsIdle new_dag
unfolding IsIdle is_final is_famous lookup
new_dag-IsIdle x = (refl, refl)

add_event-IsIdle : (o : Option Event) (d : Dag) → IsIdle d → IsIdle (add_event o d).1
unfolding IsIdle add_event
add_event-IsIdle none d h = h
add_event-IsIdle (some e) d h =
    let flags = add_fresh-SameFlags e d in λ x. ground (arith, h x, flags.final x, flags.fame x)

check_finality-idle : (id : Str) (d : Dag) → IsIdle d → check_finality id d ≡ (false, d)
unfolding IsIdle check_finality
check_finality-idle id d h = ground (arith, h id)

checked_dag-idle :
    (error : Option AddError) (o : Option Event) (d : Dag) → IsIdle d → checked_dag error o d ≡ d
unfolding checked_dag
checked_dag-idle none none d h = refl
checked_dag-idle none (some e) d h = rw (check_finality-idle e.id d h, checked_dag) refl
checked_dag-idle (some error) o d h = refl

take_event-IsIdle :
    (waiting : List (Option Event)) (e : Engine) → IsIdle e.dag → IsIdle (take_event waiting e).dag
unfolding take_event
take_event-IsIdle [] e h = h
take_event-IsIdle (o ∷ rest) e h =
    let kept = add_event-IsIdle o e.dag h in
    rw (checked_dag-idle (add_event o e.dag).0 o (add_event o e.dag).1 kept) kept

receive_event-IsIdle :
    (o : Option Event) (e : Engine) → IsIdle e.dag → IsIdle (receive_event o e).1.dag
unfolding receive_event
receive_event-IsIdle o e h = elim (Bool-cases (ltb (length e.event_chan) event_capacity)) [
  | inl t ↦ rw (t, receive_event) h
  | inr t ↦ rw (t, receive_event) h
]

module _ {D : Type 0} (env : Env D) where
  check_witnesses-idle :
      (now : ℕ) (ws : List Event) (n : Node D)
      → IsIdle n.engine.dag
      → check_witnesses env now ws n ≡ (true, n)
  unfolding check_witnesses
  check_witnesses-idle now [] n h = refl
  check_witnesses-idle now (w ∷ ws) n h =
      ground (arith, check_finality-idle w.id n.engine.dag h, check_witnesses-idle now ws n h)

  check_rounds-idle :
      (now latest fuel round : ℕ) (n : Node D)
      → IsIdle n.engine.dag
      → check_rounds env now latest fuel round n ≡ (true, n)
  unfolding check_rounds
  check_rounds-idle now latest zero round n h = refl
  check_rounds-idle now latest (suc fuel) round n h = ground (
    arith,
    check_witnesses-idle now (get_witnesses round n.engine.dag) n h,
    check_rounds-idle now latest fuel (add_u64 round 1) n h,
  )

  check_all-idle :
      (now : ℕ) (n : Node D)
      → IsIdle n.engine.dag
      → check_all env now n ≡ (true, record n { engine = (current_round n.engine).1 })
  unfolding check_all current_round
  check_all-idle now n h =
      let (latest, engine) = current_round n.engine in
      check_rounds-idle now latest (suc latest) 0 (record n { engine = engine }) h

  -- what a node keeps as long as nothing is final
  record Rests (n n' : Node D) : Type 0 where
    idle : IsIdle n'.engine.dag
    same : n'.db ≡ n.db

  publish-Rests :
      (event : Event) (pending : List Transaction) (n : Node D)
      → IsIdle n.engine.dag
      → Rests n (publish event pending n)
  unfolding publish
  publish-Rests event pending n h =
      let kept = add_event-IsIdle (some event) n.engine.dag h in
      elim (Option-cases (add_event (some event) n.engine.dag).0) [
        | inl e ↦ rw (e, publish) (record { idle = kept; same = refl })
        | inr (error, e) ↦ rw (e, publish) (record { idle = h; same = refl })
      ]

  process_mempool-Rests :
      (sign : Event → Option Event) (id : Str) (now : ℕ) (n : Node D)
      → IsIdle n.engine.dag
      → Rests n (process_mempool sign id now n)
  unfolding process_mempool
  process_mempool-Rests sign id now n h =
      let pending = get_pending 100 n.mempool in
      let made = event_of n.config id now pending n.engine in
      let h' : IsIdle made.1.dag = rw (event_of-dag n.config id now pending n.engine) h in
      elim (Bool-cases (length pending == 0)) [
        | inl e ↦ rw (e, process_mempool) (record { idle = h; same = refl })
        | inr e ↦ elim (Option-cases (sign made.0)) [
          | inl e' ↦ rw (e, e', process_mempool) (record { idle = h'; same = refl })
          | inr (s, e') ↦
              rw (e, e', process_mempool)
                (let r = publish-Rests s pending (record n { engine = made.1 }) h' in
                  record { idle = r.idle; same = r.same })
        ]
      ]

  cleanup-Rests : (n : Node D) → IsIdle n.engine.dag → Rests n (cleanup n)
  unfolding cleanup
  cleanup-Rests n h = elim (Bool-cases (ltb 10000 (size n.mempool))) [
    | inl e ↦ rw (e, cleanup) (record { idle = h; same = refl })
    | inr e ↦ rw (e, cleanup) (record { idle = h; same = refl })
  ]

  process_tick-Rests :
      (sign : Event → Option Event) (id : Str) (now : ℕ) (n : Node D)
      → IsIdle n.engine.dag
      → Rests n (process_tick env sign id now n).1
  unfolding process_tick current_round
  process_tick-Rests sign id now n h =
      let made = process_mempool-Rests sign id now n h in
      let n1 = process_mempool sign id now n in
      let n2 = record n1 { engine = (current_round n1.engine).1 } in
      let swept = cleanup-Rests n2 made.idle in
      let quiet = check_all-idle now n1 made.idle in
      rw (process_tick, quiet, quiet) (record { idle = swept.idle; same = swept.same ∙ made.same })

  unfoldable pub perform : (Event → Option Event) → Step → Node D → Node D
  perform sign (Step.tick id now) n = (process_tick env sign id now n).1
  perform sign (Step.receive o) n = record n { engine = (receive_event o n.engine).1 }
  perform sign Step.take n = record n { engine = process_event n.engine }
  perform sign (Step.pool op) n = record n { mempool = Runs.perform op n.mempool }
  perform sign (Step.genesis event) n = add_genesis event n

  unfoldable pub run : (Event → Option Event) → List Step → Node D → Node D
  run sign [] n = n
  run sign (s ∷ ss) n = run sign ss (perform sign s n)

  perform-Rests :
      (sign : Event → Option Event) (s : Step) (n : Node D)
      → IsIdle n.engine.dag
      → Rests n (perform sign s n)
  unfolding perform receive_event process_event add_genesis
  perform-Rests sign (Step.tick id now) n h = process_tick-Rests sign id now n h
  perform-Rests sign (Step.receive o) n h = record {
    idle = receive_event-IsIdle o n.engine h;
    same = refl;
  }
  perform-Rests sign Step.take n h = record {
    idle = take_event-IsIdle n.engine.event_chan n.engine h;
    same = refl;
  }
  perform-Rests sign (Step.pool op) n h = record { idle = h; same = refl }
  perform-Rests sign (Step.genesis event) n h =
      let kept = add_event-IsIdle (some event) n.engine.dag h in
      record {
        idle = rw (check_finality-idle event.id (add_event (some event) n.engine.dag).1 kept) kept;
        same = refl;
      }

  run-Rests :
      (sign : Event → Option Event) (ss : List Step) (n : Node D)
      → IsIdle n.engine.dag
      → Rests n (run sign ss n)
  unfolding run
  run-Rests sign [] n h = record { idle = h; same = refl }
  run-Rests sign (s ∷ ss) n h =
      let r = perform-Rests sign s n h in
      let rest = run-Rests sign ss (perform sign s n) r.idle in
      record { idle = rest.idle; same = rest.same ∙ r.same }

  -- Whatever a new node goes through, any ticks at any times, events of peers, calls of the mempool and
  -- genesis events in any order, its database is what it was at the start, and no event is final: no
  -- transaction is ever executed, since no step determines fame.
  pub run-executes_nothing :
      (sign : Event → Option Event) (config : Config) (db : D) (ss : List Step)
      → ((run sign ss (new_node config db)).db ≡ db)
        × ((x : Str) → is_final x (run sign ss (new_node config db)).engine.dag ≡ false)
  unfolding new_node new_consensus_engine IsIdle
  run-executes_nothing sign config db ss =
      let r = run-Rests sign ss (new_node config db) new_dag-IsIdle in (r.same, λ x. (r.idle x).0)
