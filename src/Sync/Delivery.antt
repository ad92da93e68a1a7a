-- ===== src/Sync/Delivery.antt =====
-- That the events of one node reach another (pkg/network/sync.go), over a stream that loses nothing.
use dagnet_crypto.Base.{
  ◌≡◌, refl, sym, ap, ◌∙◌, ℕ, zero, suc, ◌+◌, ◌^◌, ◌≤◌, ◌<◌, Bool, true, false, Bool-cases, inl,
  inr, ◌⊎◌, Option, Option-cases, none, some, List, [], ◌∷◌, ◌++◌, append-nil, append_assoc, Str,
  str_key, nat_key, ltb, leb, length, length-append, ◌==◌, ◌&&◌, ◌||◌, add_u64, All, arith,
}
use dagnet_crypto.Map.{Map}
use dagnet_crypto.Pb.{Codec, Event, EventMetadata, SyncDagRequest, SyncDagResponse}
use dagnet_crypto.Consensus.Dag.{Dag, get_events_by_round, with_round}
use dagnet_crypto.Sync.Framing.{write_message, max_message_size}
use dagnet_crypto.Sync.Server.{
  event_response, final_response, below_limit, Served, send_events, send_rounds, serve,
}

-- a stream that takes all that is sent
abbrev pub reliable : Str → Str → Bool × Str
reliable b s = (true, s ++ b)

-- a response can be sent: it is encoded in a message that is short enough, and decoded again
abbrev pub IsSendable : Codec SyncDagResponse → SyncDagResponse → Type 0
IsSendable c r =
    (b : Str) × (c.marshal r ≡ some b) × (c.unmarshal b ≡ some r) × (length b ≤ max_message_size)

-- An event can be sent and, with any metadata, stored, and has an id.
abbrev pub IsFit : Codec Event → Codec SyncDagResponse → Event → Type 0
IsFit events responses e =
    ((more : Bool) → IsSendable responses (event_response more e))
    × ((v : Option EventMetadata)
        → (b : Str) × (events.marshal (record e { metadata = v }) ≡ some b))
    × ((e.id == []) ≡ false)

-- the events of the `n` rounds from `round` on
abbrev pub events_from : ℕ → ℕ → Dag → List Event
events_from zero round d = []
events_from (suc n) round d = get_events_by_round round d ++ events_from n (round + 1) d

with_round-All :
    (P : Event → Type 0) (round : ℕ) (m : Map Str Event)
    → All (λ entry. P entry.1) m
    → All P (with_round round m)
unfolding with_round
with_round-All P round [] h = tt
with_round-All P round ((k, e) ∷ m) (p, h) = elim (Bool-cases (e.round == round)) [
  | inl y ↦ rw (y, with_round) (p, with_round-All P round m h)
  | inr y ↦ rw (y, with_round) (with_round-All P round m h)
]

All-append : (P : Event → Type 0) (xs ys : List Event) → All P xs → All P ys → All P (xs ++ ys)
All-append P [] ys h k = k
All-append P (x ∷ xs) ys (p, h) k = (p, All-append P xs ys h k)

pub events_from-All :
    (P : Event → Type 0) (n round : ℕ) (d : Dag)
    → All (λ entry. P entry.1) d.events
    → All P (events_from n round d)
unfolding get_events_by_round
events_from-All P zero round d h = tt
events_from-All P (suc n) round d h =
    All-append P (with_round round d.events) (events_from n (round + 1) d)
      (with_round-All P round d.events h) (events_from-All P n (round + 1) d h)

-- what is sent is only ever added
abbrev pub Extends : Str → Str → Type 0
Extends s t = (rest : Str) × (t ≡ s ++ rest)

pub none_is_some : {A : Type 0} {x : A} → none ≡ some x → ⊥
none_is_some e = cc

Extends-itself : (s : Str) → Extends s s
Extends-itself s = ([], sym (append-nil s))

pub Extends-more : (s b t : Str) → Extends (s ++ b) t → Extends s t
Extends-more s b t (rest, e) = (b ++ rest, e ∙ append_assoc s b rest)

pub Extends-on : (s t u : Str) → Extends s t → Extends t u → Extends s u
Extends-on s t u (a, e) (b, f) = (a ++ b, f ∙ ap (λ x. x ++ b) e ∙ append_assoc s a b)

module _ (responses : Codec SyncDagResponse) where
  -- the bytes of the responses for events that others follow
  abbrev pub frame : Event → Str
  frame e = elim (responses.marshal (event_response true e)) [
    | none ↦ []
    | some b ↦ write_message b
  ]

  abbrev pub frames : List Event → Str
  frames [] = []
  frames (e ∷ es) = frame e ++ frames es

  frames-append : (es fs : List Event) → frames (es ++ fs) ≡ frames es ++ frames fs
  frames-append [] fs = refl
  frames-append (e ∷ es) fs =
      ap (λ x. frame e ++ x) (frames-append es fs)
      ∙ sym (append_assoc (frame e) (frames es) (frames fs))

module _ (requests : Codec SyncDagRequest) (responses : Codec SyncDagResponse) where
  send_events-frames :
      (total : ℕ) (es : List Event) (sent : ℕ) (s : Str)
      → All (λ e. (more : Bool) → IsSendable responses (event_response more e)) es
      → send_events requests responses reliable true total es sent s
        ≡ ((true, sent + length es), s ++ frames responses es)
  unfolding send_events
  send_events-frames total [] sent s h = ground (arith, append-nil s)
  send_events-frames total (e ∷ es) sent s (h, hs) =
      let (b, m, _, _) = h true in
      rw (m, send_events)
        (send_events-frames total es (sent + 1) (s ++ write_message b) hs
          ∙ ground (arith, append_assoc s (write_message b) (frames responses es)))

  send_events-Extends :
      (before_end : Bool) (total : ℕ) (es : List Event) (sent : ℕ) (s : Str)
      → Extends s (send_events requests responses reliable before_end total es sent s).1
  unfolding send_events
  send_events-Extends before_end total [] sent s = Extends-itself s
  send_events-Extends before_end total (e ∷ es) sent s =
      elim (Option-cases
        (responses.marshal (event_response (before_end || ltb (sent + 1) total) e))) [
          | inl m ↦ rw (m, send_events) (send_events-Extends before_end total es sent s)
          | inr (b, m) ↦
              rw (m, send_events)
                (Extends-more s (write_message b) _
                  (send_events-Extends before_end total es (sent + 1) (s ++ write_message b)))
        ]

  -- one turn of the loop over the rounds
  rounds_cases :
      (fuel end_round limit : ℕ) (d : Dag) (round sent : ℕ) (s : Str) (r : (Bool × ℕ) × Str)
      → send_rounds requests responses reliable (suc fuel) end_round limit d round sent s ≡ some r
      → let events = get_events_by_round round d in
        let step =
          send_events requests responses reliable
            (ltb round end_round)
            (length events)
            events
            sent
            s in
        (r.1 ≡ s)
        ⊎ ((r.1 ≡ step.1)
            ⊎ (send_rounds requests responses reliable fuel end_round limit d
                  (add_u64 round 1)
                  step.0.1
                  step.1
                ≡ some r))
  unfolding send_rounds
  rounds_cases fuel end_round limit d round sent s r h = ground arith

  no_fuel :
      (end_round limit : ℕ) (d : Dag) (round sent : ℕ) (s : Str)
      → send_rounds requests responses reliable zero end_round limit d round sent s ≡ none
  unfolding send_rounds
  no_fuel end_round limit d round sent s = refl

  send_rounds-Extends :
      (fuel end_round limit : ℕ) (d : Dag) (round sent : ℕ) (s : Str) (r : (Bool × ℕ) × Str)
      → send_rounds requests responses reliable fuel end_round limit d round sent s ≡ some r
      → Extends s r.1
  unfolding send_rounds
  send_rounds-Extends zero end_round limit d round sent s r h = absurd (none_is_some h)
  send_rounds-Extends (suc fuel) end_round limit d round sent s r h =
      let events = get_events_by_round round d in
      let step =
        send_events requests responses reliable (ltb round end_round) (length events) events sent
          s in
      let one = send_events-Extends (ltb round end_round) (length events) events sent s in
      elim (rounds_cases fuel end_round limit d round sent s r h) [
        | inl e ↦ rw e (Extends-itself s)
        | inr (inl e) ↦ rw e one
        | inr (inr e) ↦
            Extends-on s step.1 r.1 one
              (send_rounds-Extends fuel end_round limit d (add_u64 round 1) step.0.1 step.1 r e)
      ]

  -- a round before the last
  round_form :
      (fuel end_round limit : ℕ) (d : Dag) (round sent : ℕ) (s : Str)
      → All (λ entry. (more : Bool) → IsSendable responses (event_response more entry.1)) d.events
      → round < end_round
      → end_round + 1 < 2 ^ 64
      → limit < 2 ^ 63
      → sent < limit
      → send_rounds requests responses reliable (suc fuel) end_round limit d round sent s
        ≡ send_rounds requests responses reliable fuel end_round limit d
            (round + 1)
            (sent + length (get_events_by_round round d))
            (s ++ frames responses (get_events_by_round round d))
  unfolding send_rounds get_events_by_round
  round_form fuel end_round limit d round sent s fit early small signed room =
      let events = get_events_by_round round d in
      let all_fit =
        with_round-All (λ e. (more : Bool) → IsSendable responses (event_response more e)) round
          d.events fit in
      let go : (leb round end_round && below_limit sent limit) ≡ true =
        ground (arith, early, signed, room) in
      let before : ltb round end_round ≡ true = ground (arith, early) in
      let next : add_u64 round 1 ≡ round + 1 = omega (arith, early, small) in
      let step =
        ap (λ b. send_events requests responses reliable b (length events) events sent s) before
        ∙ send_events-frames (length events) events sent s all_fit in
      rw (go, step, next, send_rounds)
        (ap
          (λ x.
            send_rounds requests responses reliable fuel end_round limit d (round + 1) x.0.1 x.1)
          step)

  -- The rounds before the last are sent in full, each event with the word that more will come, where the
  -- limit is not reached in them.
  pub send_rounds-frames :
      (n fuel end_round limit : ℕ) (d : Dag) (round sent : ℕ) (s : Str) (r : (Bool × ℕ) × Str)
      → All (λ entry. (more : Bool) → IsSendable responses (event_response more entry.1)) d.events
      → round + n ≡ end_round
      → end_round + 1 < 2 ^ 64
      → limit < 2 ^ 63
      → sent + length (events_from n round d) < limit
      → send_rounds requests responses reliable fuel end_round limit d round sent s ≡ some r
      → Extends (s ++ frames responses (events_from n round d)) r.1
  send_rounds-frames zero fuel end_round limit d round sent s r fit at small signed room h =
      rw (append-nil s) (send_rounds-Extends fuel end_round limit d round sent s r h)
  send_rounds-frames (suc n) zero end_round limit d round sent s r fit at small signed room h =
      absurd (none_is_some (sym (no_fuel end_round limit d round sent s) ∙ h))
  send_rounds-frames (suc n) (suc fuel) end_round limit d round sent s r fit at small signed room
        h =
      let events = get_events_by_round round d in
      let both = length-append events (events_from n (round + 1) d) in
      let turn =
        round_form fuel end_round limit d round sent s fit (omega (arith, at)) small signed
          (omega (arith, room)) in
      let rest =
        send_rounds-frames n fuel end_round limit d (round + 1) (sent + length events)
          (s ++ frames responses events) r fit (omega (arith, at)) small signed
          (omega (arith, room, both)) (sym turn ∙ h) in
      rw (frames-append responses events (events_from n (round + 1) d)) (
        rest.0,
        rest.1
            ∙ ap (λ x. x ++ rest.0)
                (append_assoc s (frames responses events)
                  (frames responses (events_from n (round + 1) d))),
      )

  -- the bytes that the handler sends after the request is decoded go on from those of the rounds
  pub serve-Extends :
      (fuel : ℕ) (q : SyncDagRequest) (d : Dag) (s : Str) (r : (Bool × ℕ) × Str)
      → send_rounds requests responses reliable fuel q.end_round q.limit d q.start_round 0 s
        ≡ some r
      → (answer : Served × Str) × (serve requests responses reliable fuel q d s ≡ some answer)
        × Extends r.1 answer.1
  unfolding serve
  serve-Extends fuel q d s r h = elim (Bool-cases r.0.0) [
    | inr f ↦ ((Served.send_failed, r.1), rw (h, f, serve) refl, Extends-itself r.1)
    | inl go ↦ elim (Option-cases (responses.marshal final_response)) [
      | inl m ↦ ((Served.unmarshalled, r.1), rw (h, go, m, serve) refl, Extends-itself r.1)
      | inr (b, m) ↦ (
        (Served.served, r.1 ++ write_message b),
        rw (h, go, m, serve) refl,
        (write_message b, refl),
      )
    ]
  ]
