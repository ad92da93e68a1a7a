-- ===== src/Sync/Arrival.antt =====
-- That a node that synchronises gets the events of its peer (pkg/network/sync.go).
use mathlib.Core.Path.{subst}
use dagnet_crypto.Base.{
  ◌≡◌, refl, sym, ap, ◌∙◌, ℕ, zero, suc, ◌+◌, ◌-◌, ◌^◌, ◌≤◌, ◌<◌, Bool, true, false, inl, inr,
  Option, Option-cases, none, some, List, [], ◌∷◌, ◌++◌, append_assoc, Str, str_key, nat_key,
  length, All, arith,
}
use dagnet_crypto.Map.{Map, contains}
use dagnet_crypto.Pb.{Codec, Event, Transaction, SyncDagRequest, SyncDagResponse}
use dagnet_crypto.Consensus.Dag.{Dag, add_event}
use dagnet_crypto.Consensus.Dag.Known.{add_event-keeps, add_event-known, add_fresh-stored}
use dagnet_crypto.Mempool.Pool.{add}
use dagnet_crypto.Storage.Engine.{LevelDb}
use dagnet_crypto.Sync.Framing.{
  write_message, read_message, ReadResult-cases, message, read_message-write_message,
}
use dagnet_crypto.Sync.Server.{event_response, Served, serve, rounds_end}
use dagnet_crypto.Sync.Client.{
  Node, Counts, shared_event, accept_event, accept_transactions, accept, receive,
}
use dagnet_crypto.Sync.Delivery.{
  reliable, IsFit, events_from, Extends-on, frame, frames, send_rounds-frames, serve-Extends,
  events_from-All,
}

map_entries :
    {P Q : Event → Type 0}
    → ((e : Event) → P e → Q e)
    → (m : Map Str Event) → All (λ entry. P entry.1) m
    → All (λ entry. Q entry.1) m
map_entries f [] h = tt
map_entries f ((k, e) ∷ m) (p, h) = (f e p, map_entries f m h)

module _ {D : Type 0} (db : LevelDb D) (events : Codec Event)
    (responses : Codec SyncDagResponse) where
  -- nothing that is received makes the node forget an event
  abbrev Knows : Str → Node D → Type 0
  Knows id n = contains id n.dag.events ≡ true

  accept_event-Knows :
      (o : Option Event) (n : Node D) (c : Counts) (x : Str)
      → Knows x n
      → Knows x (accept_event db events responses o n c).1.0
  unfolding accept_event
  accept_event-Knows none n c x h = h
  accept_event-Knows (some e) n c x h = ground (arith, add_event-keeps e n.dag x h)

  accept_transactions-dag :
      (txs : List Transaction) (n : Node D) (c : Counts)
      → (accept_transactions db events responses txs n c).1.0.dag ≡ n.dag
  unfolding accept_transactions
  accept_transactions-dag [] n c = refl
  accept_transactions-dag (tx ∷ txs) n c =
      let pool = (add tx n.mempool).1 in
      ground (
        arith,
        accept_transactions-dag txs n c,
        accept_transactions-dag txs (record n { mempool = pool }) c,
        accept_transactions-dag txs (record n { mempool = pool }) (record c { txs = c.txs + 1 }),
      )

  accept-Knows :
      (r : SyncDagResponse) (n : Node D) (c : Counts) (x : Str)
      → Knows x n
      → Knows x (accept db events responses r n c).1.0
  unfolding accept
  accept-Knows r n c x h =
      let (n1, c1) = (accept_event db events responses r.event n c).1 in
      ground
        (arith, accept_event-Knows r.event n c x h, accept_transactions-dag r.transactions n1 c1)

  receive-Knows :
      (fuel : ℕ) (limits : Bool) (input : Str) (n : Node D) (c : Counts) (x : Str)
      → Knows x n
      → Knows x (receive db events responses fuel limits input n c).1
  unfolding receive
  receive-Knows zero limits input n c x h = h
  receive-Knows (suc fuel) limits input n c x h = elim (ReadResult-cases (read_message input)) [
    | inr (inl e) ↦ rw (e, receive) h
    | inr (inr (inl e)) ↦ rw (e, receive) h
    | inr (inr (inr e)) ↦ rw (e, receive) h
    | inl (b, rest, e) ↦ elim (Option-cases (responses.unmarshal b)) [
      | inl u ↦ rw (e, u, receive) h
      | inr (r, u) ↦
          let (n1, c1) = (accept db events responses r n c).1 in
          let kept = accept-Knows r n c x h in
          rw (e, u, receive) (ground (arith, kept, receive-Knows fuel limits rest n1 c1 x kept))
    ]
  ]

  -- an event that is fit is known after its response
  accept_event-known :
      (e : Event) (n : Node D) (c : Counts)
      → IsFit events responses e
      → Knows e.id (accept_event db events responses (some e) n c).1.0
        × ((accept_event db events responses (some e) n c).0 ≡ true)
  unfolding accept_event add_event shared_event
  accept_event-known e n c (_, encodes, id) =
      let (v, stored) = add_fresh-stored e n.dag in
      let (b, m) = encodes v in ground (arith, add_event-known e n.dag id, id, stored, m)

  accepted :
      (e : Event) (n : Node D) (c : Counts)
      → (accept_event db events responses (some e) n c).0 ≡ true
      → accept db events responses (event_response true e) n c
        ≡ (true, (accept_event db events responses (some e) n c).1)
  unfolding accept accept_transactions
  accepted e n c fine = rw (fine, accept) refl

  -- the response of a fit event: it is accepted, and the loop goes on after it
  receive-frame :
      (e : Event) (fuel : ℕ) (rest : Str) (n : Node D) (c : Counts)
      → IsFit events responses e
      → (n1 : Node D) × (c1 : Counts) × (Knows e.id n1)
        × (receive db events responses (suc fuel) false (frame responses e ++ rest) n c
            ≡ receive db events responses fuel false rest n1 c1)
  unfolding receive
  receive-frame e fuel rest n c fit =
      let (b, m, u, small) = fit.0 true in
      let (known, fine) = accept_event-known e n c fit in
      let framed : frame responses e ≡ write_message b = rw (m, frame) refl in
      let read : read_message (write_message b ++ rest) ≡ message b rest =
        ground (arith, read_message-write_message b rest (omega (arith, small)), small) in
      (
        (accept_event db events responses (some e) n c).1.0,
        (accept_event db events responses (some e) n c).1.1,
        known,
        rw (framed, read, u, accepted e n c fine, receive)
            (ap (λ x. receive db events responses fuel false rest x.1.0 x.1.1)
              (accepted e n c fine)),
      )

  -- the responses for fit events are all accepted, whatever comes after them
  receive-frames :
      (es : List Event) (fuel : ℕ) (rest : Str) (n : Node D) (c : Counts)
      → length es < fuel
      → All (IsFit events responses) es
      → All
          (λ e.
            Knows e.id (receive db events responses fuel false (frames responses es ++ rest) n c).1)
          es
  receive-frames [] fuel rest n c enough fits = tt
  receive-frames (e ∷ es) zero rest n c enough fits = absurd (omega (arith, enough))
  receive-frames (e ∷ es) (suc fuel) rest n c enough (fit, fits) =
      let (n1, c1, known, turn) = receive-frame e fuel (frames responses es ++ rest) n c fit in
      let both =
        ap (λ x. receive db events responses (suc fuel) false x n c)
          (append_assoc (frame responses e) (frames responses es) rest) in
      subst (λ r. All (λ x. Knows x.id r.1) (e ∷ es)) (sym (both ∙ turn))
        (
          receive-Knows fuel false (frames responses es ++ rest) n1 c1 e.id known,
          receive-frames es fuel rest n1 c1 (omega (arith, enough)) fits,
        )

  -- A peer that asks another for a range of rounds gets all the events of the rounds before the last: the
  -- other's answer comes to an end, and every event is in the DAG once it has been received. It is asked that
  -- the limit of events is not reached in these rounds, that each event can be encoded in a message that is
  -- short enough and has an id, and that the stream loses nothing.
  pub sync_delivers :
      (requests : Codec SyncDagRequest) (q : SyncDagRequest) (d : Dag) (n : Node D) (c : Counts)
      (fuel turns : ℕ)
      → All (λ entry. IsFit events responses entry.1) d.events
      → q.start_round ≤ q.end_round
      → q.end_round + 1 < 2 ^ 64
      → q.limit < 2 ^ 63
      → length (events_from (q.end_round - q.start_round) q.start_round d) < q.limit
      → q.end_round + 1 < q.start_round + turns
      → length (events_from (q.end_round - q.start_round) q.start_round d) < fuel
      → (answer : Served × Str) × (serve requests responses reliable turns q d [] ≡ some answer)
        × All
            (λ e.
              contains e.id (receive db events responses fuel false answer.1 n c).1.dag.events
              ≡ true)
            (events_from (q.end_round - q.start_round) q.start_round d)
  sync_delivers requests q d n c fuel turns fits order small signed room enough_turns enough =
      let rounds = q.end_round - q.start_round in
      let wanted = events_from rounds q.start_round d in
      let (r, sent) =
        rounds_end requests responses reliable turns q.end_round q.limit q.start_round 0 d [] small
          (omega (arith, order)) enough_turns in
      let sendable = map_entries (λ e fit. fit.0) d.events fits in
      let first =
        send_rounds-frames requests responses rounds turns q.end_round q.limit d q.start_round 0 []
          r sendable (omega (arith, order)) small signed (omega (arith, room)) sent in
      let (answer, all_served, last) = serve-Extends requests responses turns q d [] r sent in
      let (rest, bytes) = Extends-on (frames responses wanted) r.1 answer.1 first last in
      (
        answer,
        all_served,
        subst (λ x. All (λ e. Knows e.id (receive db events responses fuel false x n c).1) wanted)
            (sym bytes)
            (receive-frames wanted fuel rest n c enough
              (events_from-All (IsFit events responses) rounds q.start_round d fits)),
      )
