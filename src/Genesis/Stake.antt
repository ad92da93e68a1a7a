-- ===== src/Genesis/Stake.antt =====
-- Stakes and the quorum of the genesis validators (internal/genesis/genesis.go).
use dagnet_crypto.Base.{
  ℕ, ◌+◌, ◌*◌, ◌≤◌, ◌<◌, ◌≡◌, List, false, [], ◌∷◌, ◌++◌, arith, length, length-append, add_u64,
  u64_mod,
}
use dagnet_crypto.Genesis.Defs.{
  ValidatorInfo, Validator, ValidatorSet, add_validators, validator_set,
}

-- the sum of the stakes, without a limit
abbrev pub stake_sum : List ValidatorInfo → ℕ
stake_sum [] = 0
stake_sum (v ∷ vs) = v.stake + stake_sum vs

-- the sum of the voting powers, without a limit
abbrev pub power_sum : List Validator → ℕ
power_sum [] = 0
power_sum (v ∷ vs) = v.voting_power + power_sum vs

power_sum-append : (vs ws : List Validator) → power_sum (vs ++ ws) ≡ power_sum vs + power_sum ws
power_sum-append [] ws = omega arith
power_sum-append (v ∷ vs) ws = omega (arith, power_sum-append vs ws)

add_validators-sums :
    (infos : List ValidatorInfo) (vs : ValidatorSet)
    → vs.total_stake + stake_sum infos < u64_mod
    → let r = add_validators infos vs in
      (r.total_stake ≡ vs.total_stake + stake_sum infos)
      × (power_sum r.validators ≡ power_sum vs.validators + stake_sum infos)
      × (length r.validators ≡ length vs.validators + length infos)
unfolding add_validators
add_validators-sums [] vs fits = ground arith
add_validators-sums (v ∷ infos) vs fits =
    let w : Validator = record { info = v; jailed = false; voting_power = v.stake } in
    let exact : add_u64 vs.total_stake v.stake ≡ vs.total_stake + v.stake = omega arith in
    let rest =
      add_validators-sums infos
        (record vs {
          validators = vs.validators ++ (w ∷ []);
          total_stake = add_u64 vs.total_stake v.stake;
        })
        (omega arith) in
    omega (
      arith,
      rest,
      exact,
      power_sum-append vs.validators (w ∷ []),
      length-append vs.validators (w ∷ []),
    )

-- Where twice the sum of the stakes is a `uint64`, each validator is in the set, the total stake is the
-- sum of their stakes and of their voting powers, and the quorum is two thirds of it, rounded down.
pub validator_set-stakes :
    (infos : List ValidatorInfo)
    → 2 * stake_sum infos < u64_mod
    → let vs = validator_set infos in
      (length vs.validators ≡ length infos)
      × (vs.total_stake ≡ stake_sum infos)
      × (power_sum vs.validators ≡ stake_sum infos)
      × (3 * vs.quorum_threshold ≤ 2 * stake_sum infos)
      × (2 * stake_sum infos < 3 * vs.quorum_threshold + 3)
unfolding validator_set
validator_set-stakes infos fits = omega (
  arith,
  add_validators-sums infos (record { validators = []; total_stake = 0; quorum_threshold = 0 })
      (omega arith),
)

-- Where the total stake is a `uint64` and twice of it is not, the quorum is below a third of the stake.
pub quorum_overflows :
    (infos : List ValidatorInfo)
    → stake_sum infos < u64_mod
    → u64_mod ≤ 2 * stake_sum infos
    → 3 * (validator_set infos).quorum_threshold < stake_sum infos
unfolding validator_set
quorum_overflows infos fits over = omega (
  arith,
  add_validators-sums infos (record { validators = []; total_stake = 0; quorum_threshold = 0 })
      (omega arith),
)
