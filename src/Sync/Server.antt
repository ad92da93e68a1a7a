-- ===== src/Sync/Server.antt =====
-- `SyncManager.handleSyncStream` (pkg/network/sync.go): the events of a range of rounds are sent one by one.
-- Protobuf and the stream that is written to are parameters.
use dagnet_crypto.Base.{
  ◌≡◌, refl, ℕ, zero, suc, ◌+◌, ◌^◌, ◌≤◌, ◌<◌, Bool, true, false, Bool-cases, inl, inr, Option,
  none, some, List, [], ◌∷◌, Str, ltb, leb, length, ◌&&◌, ◌||◌, add_u64, arith,
}
use dagnet_crypto.Pb.{Codec, Event, SyncDagRequest, SyncDagResponse}
use dagnet_crypto.Consensus.Dag.{Dag, get_events_by_round}
use dagnet_crypto.Sync.Framing.{
  write_message, read_message, end_of_stream, broken, too_large, message,
}

-- the literal of the response for an event
abbrev pub event_response : Bool → Event → SyncDagResponse
event_response more e = record { event = some e; transactions = []; has_more = more }

abbrev pub final_response : SyncDagResponse
final_response = record { event = none; transactions = []; has_more = false }

-- how the handler ends
pub data Served : Type 0 where
  request_unread : Served
  request_undecoded : Served
  send_failed : Served
  unmarshalled : Served
  served : Served

-- `sent < int(req.Limit)`, where a large limit is a negative `int`
abbrev pub below_limit : ℕ → ℕ → Bool
below_limit sent limit = ltb limit (2 ^ 63) && ltb sent limit

module _ {S : Type 0} (requests : Codec SyncDagRequest) (responses : Codec SyncDagResponse)
    (send : Str → S → Bool × S) where
  -- the loop over the events of a round, of which there are `total`; it gives whether to go on, and `sent`
  unfoldable pub send_events : Bool → ℕ → List Event → ℕ → S → (Bool × ℕ) × S
  send_events before_end total [] sent s = ((true, sent), s)
  send_events before_end total (e ∷ es) sent s =
      elim (responses.marshal (event_response (before_end || ltb (sent + 1) total) e)) [
        | none ↦ send_events before_end total es sent s
        | some b ↦
            let (fine, s1) = send (write_message b) s in
            elim fine [
              | true ↦ send_events before_end total es (sent + 1) s1
              | false ↦ ((false, sent), s1)
            ]
      ]

  -- the loop over the rounds; none is no end within the fuel
  unfoldable pub send_rounds : ℕ → ℕ → ℕ → Dag → ℕ → ℕ → S → Option ((Bool × ℕ) × S)
  unfolding send_events
  send_rounds zero end_round limit d round sent s = none
  send_rounds (suc fuel) end_round limit d round sent s =
      elim (leb round end_round && below_limit sent limit) [
        | false ↦ some ((true, sent), s)
        | true ↦
            let events = get_events_by_round round d in
            let ((go_on, more), s1) =
              send_events (ltb round end_round) (length events) events sent s in
            elim go_on [
              | false ↦ some ((false, more), s1)
              | true ↦ send_rounds fuel end_round limit d (add_u64 round 1) more s1
            ]
      ]

  -- the part after the request is decoded
  unfoldable pub serve : ℕ → SyncDagRequest → Dag → S → Option (Served × S)
  unfolding send_rounds
  serve fuel r d s = elim (send_rounds fuel r.end_round r.limit d r.start_round 0 s) [
    | none ↦ none
    | some ((false, sent), s1) ↦ some (send_failed, s1)
    | some ((true, sent), s1) ↦ elim (responses.marshal final_response) [
      | none ↦ some (unmarshalled, s1)
      | some b ↦ some (served, (send (write_message b) s1).1)
    ]
  ]

  -- `handleSyncStream`, on the bytes that the peer sends
  unfoldable pub handle_sync_stream : ℕ → Str → Dag → S → Option (Served × S)
  unfolding serve
  handle_sync_stream fuel input d s = elim (read_message input) [
    | end_of_stream ↦ some (request_unread, s)
    | broken ↦ some (request_unread, s)
    | too_large ↦ some (request_unread, s)
    | message b rest ↦ elim (requests.unmarshal b) [
      | none ↦ some (request_undecoded, s)
      | some r ↦ serve fuel r d s
    ]
  ]

  -- The loop over the rounds ends, whatever the peer asks for, unless the last round is 2^64 - 1.
  pub rounds_end :
      (fuel end_round limit round sent : ℕ) (d : Dag) (s : S)
      → end_round + 1 < 2 ^ 64
      → round ≤ end_round + 1
      → end_round + 1 < round + fuel
      → (r : (Bool × ℕ) × S) × (send_rounds fuel end_round limit d round sent s ≡ some r)
  unfolding send_rounds
  rounds_end zero end_round limit round sent d s small low enough =
      absurd (omega (arith, enough, low))
  rounds_end (suc fuel) end_round limit round sent d s small low enough =
      elim (Bool-cases (leb round end_round && below_limit sent limit)) [
        | inr stop ↦ (((true, sent), s), rw (stop, send_rounds) refl)
        | inl next ↦
            let events = get_events_by_round round d in
            let step = send_events (ltb round end_round) (length events) events sent s in
            elim (Bool-cases step.0.0) [
              | inr f ↦ (((false, step.0.1), step.1), rw (next, f, send_rounds) refl)
              | inl g ↦
                  let (r, e) =
                    rounds_end fuel end_round limit (add_u64 round 1) step.0.1 d step.1 small
                      (ground (arith, next, small)) (ground (arith, next, small, enough)) in
                  (r, rw (next, g, send_rounds) e)
            ]
      ]
