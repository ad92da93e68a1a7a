-- ===== src/Sync/Peers.antt =====
-- How `SyncManager` goes about its peers (pkg/network/sync.go), and when it stops to read a peer's answer.
use dagnet_crypto.Base.{
  ◌≡◌, refl, ap, ℕ, zero, suc, ◌≤◌, ◌<◌, Bool, true, false, inl, inr, Option, Option-cases, none,
  some, [], ◌∷◌, ◌++◌, ltb, ◌&&◌, ◌||◌, ◌∙◌, Str, str_key, str_eq_iff, length, split, arith,
}
use dagnet_crypto.Map.{Map, lookup, insert, lookup-insert, lookup-modify}
use dagnet_crypto.Pb.{Codec, Event, SyncDagResponse}
use dagnet_crypto.Storage.Engine.{LevelDb}
use dagnet_crypto.Crypto.Integers.{big_endian}
use dagnet_crypto.Sync.Framing.{
  write_message, read_message-write_message, max_message_size, read_message, read_data,
  ReadResult-cases, message,
}
use dagnet_crypto.Sync.Client.{
  Node, Counts, Synced, finished, failed, crashed, unfinished, accept, accept_event,
  accept_transactions, receive, begin_sync, end_sync, sync_with_peer,
}

split-shorter : (n : ℕ) (s a b : Str) → split n s ≡ some (a, b) → length b ≤ length s
unfolding split
split-shorter zero s a b e = ground (arith, e)
split-shorter (suc n) [] a b e = ground (arith, e)
split-shorter (suc n) (x ∷ s) a b e = elim (Option-cases (split n s)) [
  | inl h ↦ ground (arith, h, e)
  | inr ((a', b'), h) ↦ ground (arith, h, e, split-shorter n s a' b' h)
]

read_data-shorter :
    (n : ℕ) (s b rest : Str) → read_data n s ≡ message b rest → length rest ≤ length s
unfolding read_data
read_data-shorter n s b rest e = elim (Option-cases (split n s)) [
  | inl h ↦ ground (arith, h, e)
  | inr ((a', b'), h) ↦ ground (arith, h, e, split-shorter n s a' b' h)
]

-- a message takes at least the bytes of its length
read_message-shorter : (s b rest : Str) → read_message s ≡ message b rest → length rest < length s
unfolding read_message
read_message-shorter [] b rest e = absurd (cc e)
read_message-shorter (x ∷ []) b rest e = absurd (cc e)
read_message-shorter (x ∷ y ∷ []) b rest e = absurd (cc e)
read_message-shorter (x ∷ y ∷ z ∷ []) b rest e = absurd (cc e)
read_message-shorter (x ∷ y ∷ z ∷ w ∷ s) b rest e =
    omega (arith, read_data-shorter (big_endian 0 (x ∷ y ∷ z ∷ w ∷ [])) s b rest e)

abbrev ended : Synced → Bool
ended finished = true
ended failed = true
ended crashed = true
ended unfinished = false

-- how a synchronisation leaves its peer
left_behind :
    (peer : Str) (peers : Map Str Bool)
    → lookup peer (end_sync peer (insert peer true peers)) ≡ some false
unfolding end_sync
left_behind peer peers = ground (
  arith,
  lookup-modify peer peer (λ _. false) (insert peer true peers),
  lookup-insert peer peer true peers,
  (str_eq_iff peer peer).1 refl,
)

-- the bytes of `k` times the same message
abbrev pub repeated : ℕ → Str → Str
repeated zero b = []
repeated (suc k) b = write_message b ++ repeated k b

-- a response that has nothing, and says that there is more
abbrev pub nothing_yet : SyncDagResponse
nothing_yet = record { event = none; transactions = []; has_more = true }

module _ {D : Type 0} (db : LevelDb D) (events : Codec Event)
    (responses : Codec SyncDagResponse) where
  -- Over the bytes that have come, the loop has an end: fuel above their number is enough.
  receive_ends :
      (fuel : ℕ) (limits : Bool) (input : Str) (n : Node D) (c : Counts)
      → length input < fuel
      → ended (receive db events responses fuel limits input n c).0 ≡ true
  unfolding receive
  receive_ends zero limits input n c enough = absurd (omega (arith, enough))
  receive_ends (suc fuel) limits input n c enough = elim (ReadResult-cases (read_message input)) [
    | inr (inl e) ↦ rw (e, receive) refl
    | inr (inr (inl e)) ↦ rw (e, receive) refl
    | inr (inr (inr e)) ↦ rw (e, receive) refl
    | inl (b, rest, e) ↦ elim (Option-cases (responses.unmarshal b)) [
      | inl u ↦ rw (e, u, receive) refl
      | inr (r, u) ↦
          let (n1, c1) = (accept db events responses r n c).1 in
          let less = read_message-shorter input b rest e in
          rw (e, u, receive)
            (ground (arith, receive_ends fuel limits rest n1 c1 (omega (arith, less, enough))))
    ]
  ]

  -- A peer is synchronised with once: after the first time it is on record as not connected, and every later
  -- call returns at once, whatever the peer has to send.
  pub sync_once :
      (fuel later : ℕ) (peer : Str) (answer again : Option Str) (peers : Map Str Bool)
      (n m : Node D)
      → lookup peer peers ≡ none
      → let after = (sync_with_peer db events responses fuel peer answer peers n).1.0 in
        sync_with_peer db events responses later peer again after m ≡ (finished, (after, m))
  unfolding sync_with_peer begin_sync
  sync_once fuel later peer answer again peers n m new = ground (arith, new, left_behind peer peers)

  accept-nothing :
      (n : Node D) (c : Counts) → accept db events responses nothing_yet n c ≡ (true, (n, c))
  unfolding accept accept_event accept_transactions
  accept-nothing n c = refl

  receive-nothing :
      (b rest : Str) (limits : Bool) (n : Node D) (c : Counts)
      → responses.unmarshal b ≡ some nothing_yet
      → length b ≤ max_message_size
      → c.events ≤ 10000
      → c.txs ≤ 50000
      → (k : ℕ)
      → receive db events responses (suc k) limits (write_message b ++ rest) n c
        ≡ receive db events responses k limits rest n c
  unfolding receive
  receive-nothing b rest limits n c decoded short few_events few_txs k =
      let read : read_message (write_message b ++ rest) ≡ message b rest =
        ground (arith, read_message-write_message b rest (omega (arith, short)), short) in
      let quiet = accept-nothing n c in
      let few : (limits && (ltb 10000 c.events || ltb 50000 c.txs)) ≡ false =
        ground (arith, few_events, few_txs) in
      rw (read, decoded, quiet, quiet, few, receive)
        (ap (λ x. receive db events responses k limits rest x.1.0 x.1.1) quiet)

  -- A peer that goes on to answer with an empty response that says there is more keeps the loop going, with
  -- the limits of `SyncWithPeer` as without: after any number of such responses it has not ended, and the node
  -- is as it was. The limits count the events and the transactions that were added, and there are none.
  pub empty_responses-unfinished :
      (b : Str) (limits : Bool) (n : Node D) (c : Counts)
      → responses.unmarshal b ≡ some nothing_yet
      → length b ≤ max_message_size
      → c.events ≤ 10000
      → c.txs ≤ 50000
      → (k : ℕ) → receive db events responses k limits (repeated k b) n c ≡ (unfinished, n)
  unfolding receive
  empty_responses-unfinished b limits n c decoded short few_events few_txs zero = refl
  empty_responses-unfinished b limits n c decoded short few_events few_txs (suc k) =
      receive-nothing b (repeated k b) limits n c decoded short few_events few_txs k
      ∙ empty_responses-unfinished b limits n c decoded short few_events few_txs k
