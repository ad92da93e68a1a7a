-- ===== src/Node/Older.antt =====
-- The older node (pkg/node/node.go): its events name no parents and are not signed, and it executes
-- nothing.
use dagnet_crypto.Base.{
  ℕ, zero, suc, ◌≡◌, refl, inl, inr, ◌⊎◌, Bool-cases, true, none, some, List, [], ◌∷◌, Str, codes,
  str_key, nat_key, ◌==◌, ◌&&◌, not, if◌then◌else◌, leb, length, add_u64, arith,
}
use dagnet_crypto.Map.{lookup-modify}
use dagnet_crypto.Pb.{Event, Transaction}
use dagnet_crypto.Config.{Config}
use dagnet_crypto.Consensus.Dag.{Dag, add_event, add_fresh, get_event, get_witnesses}
use dagnet_crypto.Consensus.Engine.{
  Engine, current_round, check_finality, finalize, metadata_or_new,
}
use dagnet_crypto.Mempool.Pool.{get_pending}
use dagnet_crypto.Node.{Node, remove_all}
use dagnet_crypto.Node.Moves.{
  Stays, Moves, transactions_in, add_event-ends, add_fresh-transactions, get-remove_all,
}

-- `getNodeCreator`
unfoldable get_node_creator : Config → Str
get_node_creator c =
    if c.validator.enabled && not (c.validator.address == [])
    then c.validator.address
    else codes "anonymous-node"

-- the event of `processMempool`
unfoldable bare_event : Config → Str → ℕ → ℕ → List Transaction → Event
bare_event config id now round pending = record {
  id = id;
  creator = get_node_creator config;
  parents = [];
  timestamp = now;
  round = round;
  signature = [];
  vrf_proof = [];
  transactions = pending;
  metadata = none;
}

module _ {D : Type 0} where
  -- `processMempool` from `AddEvent` on
  unfoldable publish_bare : Event → Node D → Node D
  publish_bare event n = elim (add_event (some event) n.engine.dag).0 [
    | some _ ↦ n
    | none ↦ record n {
      engine = record n.engine {
        dag = (check_finality event.id (add_event (some event) n.engine.dag).1).1;
      };
      mempool = remove_all event.transactions n.mempool;
    }
  ]

  -- `processMempool`
  unfoldable process_mempool_bare : Str → ℕ → Node D → Node D
  process_mempool_bare id now n =
      let pending = get_pending 100 n.mempool in
      if length pending == 0
      then n
      else let (round, engine) = current_round n.engine in
        publish_bare (bare_event n.config id now round pending) (record n { engine = engine })

-- the loops of `checkFinality`; the fuel of the rounds is as in `check_all`
unfoldable finalize_witnesses : List Event → Dag → Dag
finalize_witnesses [] d = d
finalize_witnesses (w ∷ ws) d = finalize_witnesses ws (check_finality w.id d).1

unfoldable finalize_rounds : ℕ → ℕ → ℕ → Dag → Dag
finalize_rounds latest zero round d = d
finalize_rounds latest (suc fuel) round d =
    let rest =
      finalize_rounds latest fuel (add_u64 round 1)
        (finalize_witnesses (get_witnesses round d) d) in
    if leb round latest then rest else d

-- `checkFinality`
unfoldable finalize_all : Engine → Engine
finalize_all e =
    let (latest, e') = current_round e in
    record e' { dag = finalize_rounds latest (suc latest) 0 e'.dag }

check_finality-transactions :
    (id k : Str) (d : Dag) → transactions_in k (check_finality id d).1 ≡ transactions_in k d
unfolding check_finality finalize transactions_in get_event
check_finality-transactions id k d = ground (
  arith,
  lookup-modify id k
      (λ e. record e {
        metadata = some (record (metadata_or_new e.metadata) { is_finalized = true });
      })
      d.events,
)

module _ {D : Type 0} where
  abbrev with_bare : Event → Node D → Node D
  with_bare event n = record n {
    engine = record n.engine { dag = (check_finality event.id (add_fresh event n.engine.dag)).1 };
    mempool = remove_all event.transactions n.mempool;
  }

  publish_bare_cases :
      (event : Event) (n : Node D)
      → (publish_bare event n ≡ n) ⊎ (publish_bare event n ≡ with_bare event n)
  unfolding publish_bare
  publish_bare_cases event n = elim (add_event-ends event n.engine.dag) [
    | inl (error, e) ↦ inl (ground (arith, e))
    | inr (e, new) ↦ inr (ground (arith, e))
  ]

  -- Here too exactly the pending transactions move into the new event, or all stays.
  process_mempool_bare-Moves :
      (id : Str) (now : ℕ) (n : Node D)
      → Stays n (process_mempool_bare id now n)
        ⊎ Moves id (get_pending 100 n.mempool) n (process_mempool_bare id now n)
  unfolding process_mempool_bare bare_event current_round Stays Moves
  process_mempool_bare-Moves id now n =
      let pending = get_pending 100 n.mempool in
      let event = bare_event n.config id now (current_round n.engine).0 pending in
      let n1 = record n { engine = (current_round n.engine).1 } in
      elim (Bool-cases (length pending == 0)) [
        | inl e ↦ rw (e, process_mempool_bare) (inl (refl, refl))
        | inr e ↦ elim (publish_bare_cases event n1) [
          | inl same ↦ inl (ground (arith, e, same), ground (arith, e, same))
          | inr moved ↦ inr (
            λ k. ground (arith, e, moved, get-remove_all pending k n.mempool),
            λ k. ground (
              arith,
              e,
              moved,
              check_finality-transactions id k (add_fresh event n.engine.dag),
              add_fresh-transactions event n.engine.dag k,
            ),
          )
        ]
      ]
