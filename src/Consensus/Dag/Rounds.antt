-- ===== src/Consensus/Dag/Rounds.antt =====
-- Rounds and quorums (pkg/consensus/types.go).
use dagnet_crypto.Base.{
  ℕ, ◌+◌, ◌*◌, ◌≤◌, ◌<◌, ◌≡◌, refl, true, false, none, some, List, [], ◌∷◌, Str, str_key, nat_key,
  ◌==◌, if◌then◌else◌, inl, inr, ◌↔◌, str_eq_iff, arith, Bool-cases, length, ltb, u64_mod,
}
use dagnet_crypto.Map.{Map, insert, modify, lookup, contains}
use dagnet_crypto.Pb.{Event}
use dagnet_crypto.Consensus.Search.{has, mem, Leads, link, then_on}
use dagnet_crypto.Consensus.Dag.{
  Dag, parents_of, get_ancestors, get_witnesses, strongly_see, max_round, count_seen,
  can_create_new_round, round_number, highest, latest_round, add_fresh, link_parents, mark_witness,
  witness_metadata,
}
use dagnet_crypto.Consensus.Dag.Ancestry.{get_ancestors_exact}
use dagnet_crypto.Consensus.Dag.Links.{parents_of-unknown, link_parents-SameEvents}

-- the round that the DAG gives for an id, 0 for an unknown one
abbrev pub known_round : Str → Dag → ℕ
known_round p d = elim (lookup p d.events) [ none ↦ 0 | some e ↦ e.round ]

max_round-ge : (ps : List Str) (m : ℕ) (d : Dag) → m ≤ max_round ps m d
unfolding max_round
max_round-ge [] m d = omega arith
max_round-ge (p ∷ ps) m d = ground (
  arith,
  max_round-ge ps
      (elim (lookup p d.events) [ none ↦ m | some e ↦ if ltb m e.round then e.round else m ]) d,
)

max_round-ge_parent :
    (ps : List Str) (m : ℕ) (d : Dag) (p : Str)
    → mem p ps ≡ true
    → known_round p d ≤ max_round ps m d
unfolding max_round mem
max_round-ge_parent [] m d p h = cc
max_round-ge_parent (q ∷ ps) m d p h = elim (Bool-cases (q == p)) [
  | inr e ↦ max_round-ge_parent ps _ d p (ground arith)
  | inl e ↦
      let same = (str_eq_iff q p).0 e in
      let n : ℕ = elim (lookup q d.events) [
        | none ↦ m
        | some e ↦ if ltb m e.round then e.round else m
      ] in
      let le = max_round-ge ps n d in rw (← same) (ground arith)
]

-- A new round needs more than two thirds of the witnesses of the parents' round, and at least one.
pub can_create_new_round_iff :
    (e : Event) (round : ℕ) (d : Dag)
    → let ws = get_witnesses round d in
      (can_create_new_round e round d ≡ true)
      ↔ ((0 < length ws) × (2 * length ws < 3 * count_seen e.id ws d))
unfolding can_create_new_round
can_create_new_round_iff e round d = ground arith

-- The round of an event is at least that of each known parent, and one more than the highest of them
-- just if a new round may be created; rounds are taken to be below the last `uint64`.
pub round_number-bounds :
    (e : Event) (d : Dag) (p : Str)
    → mem p e.parents ≡ true
    → max_round e.parents 0 d + 1 < u64_mod
    → (known_round p d ≤ round_number e d)
      × (round_number e d
          ≡ max_round e.parents 0 d
            + (if can_create_new_round e (max_round e.parents 0 d) d then 1 else 0))
unfolding round_number
round_number-bounds e d p m fits = ground (arith, max_round-ge_parent e.parents 0 d p m)

no_links : (d : Dag) (x y : Str) → contains x d.events ≡ false → Leads (parents_of d) x y → ⊥
unfolding mem
no_links d x y new (link l) = let e = parents_of-unknown d x new in ground (arith, e)
no_links d x y new (then_on l path) = let e = parents_of-unknown d x new in ground (arith, e)

sees_nothing : (d : Dag) (x y : Str) → contains x d.events ≡ false → strongly_see d x y ≡ false
unfolding strongly_see
sees_nothing d x y new = elim (Bool-cases (has y (get_ancestors d x))) [
  | inl h ↦ absurd (no_links d x y new ((get_ancestors_exact d x y).0 h))
  | inr h ↦ h
]

count_seen-unknown :
    (d : Dag) (x : Str) (ws : List Event) → contains x d.events ≡ false → count_seen x ws d ≡ 0
unfolding count_seen
count_seen-unknown d x [] new = refl
count_seen-unknown d x (w ∷ ws) new =
    ground (arith, sees_nothing d x w.id new, count_seen-unknown d x ws new)

-- `RoundNumber` of an event that is not in the DAG yet, such as one that is about to be created, is
-- never a new round: the event has no ancestors there, so it sees no witness.
pub round_number-unknown :
    (e : Event) (d : Dag)
    → contains e.id d.events ≡ false
    → round_number e d ≡ max_round e.parents 0 d
unfolding round_number can_create_new_round
round_number-unknown e d new =
    let m = max_round e.parents 0 d in
    ground (arith, count_seen-unknown d e.id (get_witnesses m d) new)

highest-ge : (m : Map Str Event) (n : ℕ) → n ≤ highest m n
unfolding highest
highest-ge [] n = omega arith
highest-ge ((_, e) ∷ m) n = ground (arith, highest-ge m (if ltb n e.round then e.round else n))

highest-ge_entry :
    (m : Map Str Event) (n : ℕ) (k : Str) (e : Event) → lookup k m ≡ some e → e.round ≤ highest m n
unfolding highest lookup
highest-ge_entry [] n k e h = cc
highest-ge_entry ((j, v) ∷ m) n k e h =
    let n' : ℕ = if ltb n v.round then v.round else n in
    ground (arith, highest-ge m n', highest-ge_entry m n' k e)

-- No event of the DAG has a round above `LatestRound`.
pub latest_round-ge :
    (d : Dag) (k : Str) (e : Event) → lookup k d.events ≡ some e → e.round ≤ latest_round d
unfolding latest_round
latest_round-ge d k e h = highest-ge_entry d.events 0 k e h

highest-insert :
    (k : Str) (e : Event) (m : Map Str Event) (n : ℕ)
    → contains k m ≡ false
    → highest (insert k e m) n ≡ (if ltb (highest m n) e.round then e.round else highest m n)
unfolding highest insert contains lookup
highest-insert k e [] n h = ground arith
highest-insert k e ((j, v) ∷ m) n h =
    ground (arith, highest-insert k e m (if ltb n v.round then v.round else n))

highest-modify :
    (k : Str) (f : Event → Event) (m : Map Str Event) (n : ℕ)
    → ((e : Event) → (f e).round ≡ e.round)
    → highest (modify k f m) n ≡ highest m n
unfolding highest modify
highest-modify k f [] n h = refl
highest-modify k f ((j, v) ∷ m) n h =
    ground (arith, h v, highest-modify k f m (if ltb n v.round then v.round else n) h)

-- the new event raises `LatestRound` to its round, if that is higher
pub add_fresh-latest_round :
    (e : Event) (d : Dag)
    → contains e.id d.events ≡ false
    → latest_round (add_fresh e d)
      ≡ (if ltb (latest_round d) e.round then e.round else latest_round d)
unfolding latest_round add_fresh mark_witness
add_fresh-latest_round e d new =
    let d0 = record d { events = insert e.id e d.events } in
    let d' = link_parents e.id e.parents d0 in
    ground (
      arith,
      (link_parents-SameEvents e.id e.parents d0).events,
      highest-insert e.id e d.events 0 new,
      highest-modify e.id (λ v. record v { metadata = some witness_metadata }) d'.events 0
          (λ v. refl),
    )
