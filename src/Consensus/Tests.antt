-- ===== src/Consensus/Tests.antt =====
-- The event DAG and the engine on concrete inputs, and the theorems about them at such inputs.
use dagnet_crypto.Base.{
  ℕ, ◌≡◌, refl, true, false, none, some, List, [], ◌∷◌, Str, codes, str_key, nat_key, str_eq, ◌==◌,
  if◌then◌else◌, ◌⊎◌, ◌↔◌, length,
}
use dagnet_crypto.Map.{lookup, insert, modify, contains}
use dagnet_crypto.Pb.{Event}
use dagnet_crypto.Consensus.Search.{has, add, each, explore, Leads}
use dagnet_crypto.Consensus.Dag.{
  Dag, new_dag, build, parents_listed, children_of, witnesses_of, parents_of, link_parent,
  link_parents, is_witness, mark_witness, add_fresh, add_event, get_ancestors, get_descendants,
  all_parents, strongly_see, get_witnesses, known_events, max_round, round_number, highest,
  latest_round,
}
use dagnet_crypto.Consensus.Dag.Ancestry.{get_ancestors_exact}
use dagnet_crypto.Consensus.Dag.Links.{descendants_inverse}
use dagnet_crypto.Consensus.Dag.Rounds.{round_number-unknown}
use dagnet_crypto.Consensus.Engine.{
  new_consensus_engine, receive_event, process_event, take_event, checked_dag, determine_fame,
  decide_fame, send_finality, set_fame, vote_on_fame, count_seers, is_final, is_famous, all_final,
  finalize, check_finality, current_round,
}
use dagnet_crypto.Consensus.Engine.Finality.{IsWitness}
use dagnet_crypto.Consensus.Engine.Exact.{MayFinalize, check_finality_iff}
use dagnet_crypto.Consensus.Engine.Runs.{Call, run, perform, final_after_run}

abbrev event : Str → ℕ → Str → Event
event id round parent = record {
  id = id;
  parents = if parent == [] then [] else parent ∷ [];
  creator = [];
  timestamp = 0;
  signature = [];
  vrf_proof = [];
  round = round;
  transactions = [];
  metadata = none;
}

abbrev a : Event
a = event (codes "a") 1 []

abbrev b : Event
b = event (codes "b") 2 (codes "a")

abbrev c : Event
c = event (codes "c") 3 (codes "b")

-- b waits for a, which comes later.
abbrev two : Dag
two = build (some b ∷ some a ∷ none ∷ some b ∷ []) new_dag

two_orders :
    (has (codes "a") (get_ancestors two (codes "b")) ≡ true)
    × (has (codes "b") (get_ancestors two (codes "a")) ≡ false)
    × (length two.events ≡ 2)
unfolding build add_event add_fresh link_parents link_parent is_witness mark_witness parents_listed
    children_of witnesses_of get_ancestors explore each has add parents_of all_parents lookup insert
    modify contains str_eq
two_orders = (refl, refl, refl)

get_ancestors_exact_example :
    (has (codes "a") (get_ancestors two (codes "b")) ≡ true)
    ↔ Leads (parents_of two) (codes "b") (codes "a")
get_ancestors_exact_example = get_ancestors_exact two (codes "b") (codes "a")

descendants_inverse_example :
    (has (codes "b") (get_descendants two (codes "a")) ≡ true)
    ↔ (has (codes "a") (get_ancestors two (codes "b")) ≡ true)
descendants_inverse_example =
    descendants_inverse (some b ∷ some a ∷ none ∷ some b ∷ []) (codes "a") (codes "b")

round_number-unknown_example : round_number c two ≡ max_round c.parents 0 two
unfolding build add_event add_fresh link_parents link_parent is_witness mark_witness parents_listed
    children_of witnesses_of lookup insert modify contains str_eq
round_number-unknown_example = round_number-unknown c two refl

-- Each event comes in, and is voted on by the witnesses of the next round.
abbrev calls : List Call
calls =
    Call.receive (some a)
    ∷ Call.process
    ∷ Call.receive (some b)
    ∷ Call.process
    ∷ Call.fame 1
    ∷ Call.check_final (codes "a")
    ∷ Call.receive (some c)
    ∷ Call.process
    ∷ Call.round
    ∷ Call.fame 2
    ∷ Call.check_final (codes "b")
    ∷ []

abbrev ran : Dag
ran = (run calls (new_consensus_engine new_dag)).dag

final_after_run_example :
    (is_final (codes "a") ran ≡ true)
    × (contains (codes "a") ran.events ≡ true)
    × IsWitness (codes "a") ran
unfolding new_consensus_engine run perform receive_event process_event take_event checked_dag
    determine_fame decide_fame send_finality set_fame vote_on_fame count_seers is_final is_famous
    all_final finalize check_finality current_round add_event add_fresh link_parents link_parent
    is_witness mark_witness parents_listed children_of witnesses_of get_ancestors explore each has
    add parents_of all_parents strongly_see get_witnesses known_events highest latest_round lookup
    insert modify contains str_eq
final_after_run_example = final_after_run calls (codes "b") (codes "a") refl refl

check_finality_iff_example :
    ((check_finality (codes "b") ran).0 ≡ true)
    ↔ ((is_final (codes "b") ran ≡ true) ⊎ MayFinalize (codes "b") ran)
check_finality_iff_example = check_finality_iff (codes "b") ran
