-- ===== src/Node/Moves.antt =====
-- `processMempool` (pkg/node/node_production.go): where the pending transactions go, and what the new
-- event does to the rounds.
use dagnet_crypto.Base.{
  ℕ, ◌≡◌, refl, inl, inr, ◌⊎◌, Bool-cases, Option-cases, false, Option, none, some, List, [], ◌∷◌,
  Str, str_key, nat_key, nat_eq_iff, ◌==◌, if◌then◌else◌, length, arith,
}
use dagnet_crypto.Map.{insert, contains, lookup-insert, lookup-modify}
use dagnet_crypto.Pb.{Event, Transaction}
use dagnet_crypto.Consensus.Dag.{
  Dag, AddError, missing_event_id, event_exists, add_event, add_fresh, link_parents, mark_witness,
  witness_metadata, get_event,
}
use dagnet_crypto.Consensus.Dag.Links.{link_parents-SameEvents}
use dagnet_crypto.Consensus.Engine.{current_round}
use dagnet_crypto.Mempool.Pool.{Mempool, get, get_pending, remove}
use dagnet_crypto.Mempool.Runs.Waiting.{count_id}
use dagnet_crypto.Mempool.Runs.Reads.{get-remove}
use dagnet_crypto.Consensus.Dag.Rounds.{add_fresh-latest_round}
use dagnet_crypto.Node.Events.{event_of-dag, event_of-round}
use dagnet_crypto.Node.{Node, event_of, remove_all, publish, process_mempool}

-- After the removals the ids of the given transactions are gone, and every other one reads as before.
pub get-remove_all :
    (txs : List Transaction) (k : Str) (m : Mempool)
    → get k (remove_all txs m) ≡ (if count_id k txs == 0 then get k m else none)
unfolding remove_all
get-remove_all [] k m = ground arith
get-remove_all (tx ∷ txs) k m = ground (
  arith,
  get-remove_all txs k (remove tx.id m),
  get-remove tx.id k m,
  nat_eq_iff (count_id k (tx ∷ txs)) 0,
  nat_eq_iff (count_id k txs) 0,
)

-- the transactions of an event, if it is known
unfoldable pub transactions_in : Str → Dag → Option (List Transaction)
transactions_in id d = elim (get_event id d) [ none ↦ none | some e ↦ some e.transactions ]

pub add_fresh-transactions :
    (e : Event) (d : Dag) (k : Str)
    → transactions_in k (add_fresh e d)
      ≡ (if e.id == k then some e.transactions else transactions_in k d)
unfolding transactions_in get_event add_fresh mark_witness
add_fresh-transactions e d k =
    let d0 = record d { events = insert e.id e d.events } in
    let d' = link_parents e.id e.parents d0 in
    ground (
      arith,
      (link_parents-SameEvents e.id e.parents d0).events,
      lookup-insert e.id k e d.events,
      lookup-modify e.id k (λ v. record v { metadata = some witness_metadata }) d'.events,
    )

pub add_event-ends :
    (e : Event) (d : Dag)
    → ((error : AddError) × (add_event (some e) d ≡ (some error, d)))
      ⊎ ((add_event (some e) d ≡ (none, add_fresh e d)) × (contains e.id d.events ≡ false))
unfolding add_event
add_event-ends e d = elim (Bool-cases (e.id == [])) [
  | inl h ↦ inl (missing_event_id, rw h refl)
  | inr h ↦ elim (Bool-cases (contains e.id d.events)) [
    | inl h' ↦ inl (event_exists, rw (h, h') refl)
    | inr h' ↦ inr (rw (h, h') refl, h')
  ]
]

-- what signing leaves alone; it may change the id
unfoldable pub KeepsTransactions : (Event → Option Event) → Type 0
KeepsTransactions sign = (e s : Event) → sign e ≡ some s → s.transactions ≡ e.transactions

unfoldable pub KeepsRound : (Event → Option Event) → Type 0
KeepsRound sign = (e s : Event) → sign e ≡ some s → s.round ≡ e.round

module _ {D : Type 0} where
  -- the two ways in which `processMempool` ends: all is as it was, or all that was pending is out of
  -- the mempool and in the event
  unfoldable pub Stays : Node D → Node D → Type 0
  Stays n n' = (n'.mempool ≡ n.mempool) × (n'.engine.dag ≡ n.engine.dag)

  unfoldable pub Moves : Str → List Transaction → Node D → Node D → Type 0
  Moves id pending n n' =
      ((k : Str) → get k n'.mempool ≡ (if count_id k pending == 0 then get k n.mempool else none))
      × ((k : Str)
          → transactions_in k n'.engine.dag
            ≡ (if id == k then some pending else transactions_in k n.engine.dag))

  -- the node after an addition
  abbrev with_event : Event → List Transaction → Node D → Node D
  with_event event pending n = record n {
    engine = record n.engine { dag = add_fresh event n.engine.dag };
    mempool = remove_all pending n.mempool;
  }

  publish_cases :
      (event : Event) (pending : List Transaction) (n : Node D)
      → (publish event pending n ≡ n)
        ⊎ ((publish event pending n ≡ with_event event pending n)
            × (contains event.id n.engine.dag.events ≡ false))
  unfolding publish
  publish_cases event pending n = elim (add_event-ends event n.engine.dag) [
    | inl (error, e) ↦ inl (ground (arith, e))
    | inr (e, new) ↦ inr (ground (arith, e), new)
  ]

  module _ (sign : Event → Option Event) (id : Str) (now : ℕ) where
    -- the event that `processMempool` has signed, and the node once it is made
    abbrev pub draft : Node D → Event
    draft n = (event_of n.config id now (get_pending 100 n.mempool) n.engine).0

    abbrev drafted : Node D → Node D
    drafted n = record n {
      engine = (event_of n.config id now (get_pending 100 n.mempool) n.engine).1;
    }

    -- how `processMempool` ends: with nothing pending, without a signature or an addition, or with one
    data Ends (n : Node D) : Node D → Type 0 where
      nothing : Ends n n
      refused : Ends n (drafted n)
      moved :
          (s : Event)
          → sign (draft n) ≡ some s
          → contains s.id (drafted n).engine.dag.events ≡ false
          → Ends n (with_event s (get_pending 100 n.mempool) (drafted n))

    process_mempool-Ends : (n : Node D) → Ends n (process_mempool sign id now n)
    unfolding process_mempool
    process_mempool-Ends n =
        let pending = get_pending 100 n.mempool in
        elim (Bool-cases (length pending == 0)) [
          | inl e ↦ rw (e, process_mempool) nothing
          | inr e ↦ elim (Option-cases (sign (draft n))) [
            | inl e' ↦ rw (e, e', process_mempool) refused
            | inr (s, e') ↦ elim (publish_cases s pending (drafted n)) [
              | inl same ↦ rw (e, e', process_mempool, same) refused
              | inr (added, new) ↦ rw (e, e', process_mempool, added) (moved s e' new)
            ]
          ]
        ]

    Ends-Moves :
        (n n' : Node D)
        → KeepsTransactions sign
        → Ends n n'
        → Stays n n'
          ⊎ ((s : Event) × (sign (draft n) ≡ some s) × Moves s.id (get_pending 100 n.mempool) n n')
    unfolding Stays Moves event_of KeepsTransactions
    Ends-Moves n _ keeps nothing = inl (refl, refl)
    Ends-Moves n _ keeps refused =
        inl (refl, event_of-dag n.config id now (get_pending 100 n.mempool) n.engine)
    Ends-Moves n _ keeps (moved s signed new) =
        let pending = get_pending 100 n.mempool in
        let same_dag = event_of-dag n.config id now pending n.engine in
        inr (
          s,
          signed,
          (
            λ k. get-remove_all pending k n.mempool,
            λ k. ground (
              arith,
              add_fresh-transactions s (drafted n).engine.dag k,
              keeps (draft n) s signed,
              same_dag,
            ),
          ),
        )

    -- If signing leaves the transactions of an event alone, the transactions that wait in the mempool are
    -- lost in no case. With nothing to do, without a signature, or when `AddEvent` refuses the event, the
    -- mempool and the DAG stay as they are. Otherwise the pending transactions, and no others, have left
    -- the mempool, the signed event, under the id that signing gave it, has exactly them, and all other
    -- events have the transactions that they had.
    pub process_mempool-Moves :
        (n : Node D)
        → KeepsTransactions sign
        → Stays n (process_mempool sign id now n)
          ⊎ ((s : Event) × (sign (draft n) ≡ some s)
              × Moves s.id (get_pending 100 n.mempool) n (process_mempool sign id now n))
    process_mempool-Moves n keeps =
        Ends-Moves n (process_mempool sign id now n) keeps (process_mempool-Ends n)

    Ends-round :
        (n n' : Node D)
        → KeepsRound sign
        → Ends n n'
        → (current_round n'.engine).0 ≡ (current_round n.engine).0
    unfolding current_round KeepsRound
    Ends-round n _ keeps nothing = refl
    Ends-round n _ keeps refused =
        let pending = get_pending 100 n.mempool in
        ground (
          arith,
          event_of-dag n.config id now pending n.engine,
          event_of-round n.config id now pending n.engine,
        )
    Ends-round n _ keeps (moved s signed new) =
        let pending = get_pending 100 n.mempool in
        ground (
          arith,
          event_of-dag n.config id now pending n.engine,
          event_of-round n.config id now pending n.engine,
          add_fresh-latest_round s (drafted n).engine.dag new,
          keeps (draft n) s signed,
        )

    -- If signing leaves the round of an event alone, the events that a node makes never bring it to a new
    -- round: `CurrentRound` after `processMempool` is what it was before, whatever the mempool has.
    pub process_mempool-round :
        (n : Node D)
        → KeepsRound sign
        → (current_round (process_mempool sign id now n).engine).0 ≡ (current_round n.engine).0
    process_mempool-round n keeps =
        Ends-round n (process_mempool sign id now n) keeps (process_mempool-Ends n)
