-- ===== src/Node/Rounds.antt =====
-- The loop of `checkFinality` over the rounds (pkg/node/node_production.go) ends.
use dagnet_crypto.Base.{
  ℕ, zero, suc, ◌+◌, ◌^◌, ◌<◌, ◌≡◌, refl, inl, inr, Bool-cases, leb, add_u64, arith,
}
use dagnet_crypto.Consensus.Dag.{get_witnesses}
use dagnet_crypto.Consensus.Engine.{current_round}
use dagnet_crypto.Executor.Monad.{Env}
use dagnet_crypto.Node.{Node, check_witnesses, check_rounds, check_all}

-- two amounts of fuel that both reach past the latest round do the same
check_rounds_same :
    {D : Type 0} (env : Env D) (now latest : ℕ)
    → latest + 1 < 2 ^ 64
    → (fuel more round : ℕ) (n : Node D) → latest < round + fuel
    → latest < round + more
    → check_rounds env now latest fuel round n ≡ check_rounds env now latest more round n
unfolding check_rounds
check_rounds_same env now latest fits zero zero round n h h' = refl
check_rounds_same env now latest fits zero (suc more) round n h h' = ground (arith, h)
check_rounds_same env now latest fits (suc fuel) zero round n h h' = ground (arith, h')
check_rounds_same env now latest fits (suc fuel) (suc more) round n h h' =
    elim (Bool-cases (leb round latest)) [
      | inr past ↦ rw (past, check_rounds) refl
      | inl e ↦
          let n' = (check_witnesses env now (get_witnesses round n.engine.dag) n).1 in
          let rest =
            check_rounds_same env now latest fits fuel more (add_u64 round 1) n'
              (ground (arith, h, fits, e)) (ground (arith, h', fits, e)) in
          ground (arith, e, rest)
    ]

-- `checkFinality` has fuel enough at every latest round but the highest that a `uint64` can be.
pub check_all-fuel :
    {D : Type 0} (env : Env D) (now more : ℕ) (n : Node D)
    → (current_round n.engine).0 + 1 < 2 ^ 64
    → check_rounds env now
        (current_round n.engine).0
        (suc (current_round n.engine).0 + more)
        0
        (record n { engine = (current_round n.engine).1 })
      ≡ check_all env now n
unfolding check_all
check_all-fuel env now more n fits =
    let (latest, engine) = current_round n.engine in
    check_rounds_same env now latest fits (suc latest + more) (suc latest) 0
      (record n { engine = engine }) (omega arith) (omega arith)
