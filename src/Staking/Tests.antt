-- ===== src/Staking/Tests.antt =====
-- Compute staking, include/compute_staking.hpp, at concrete inputs.
use membra_l3_cpp.Base.{All, ℕ, ◌≡◌, refl, ◌⊎◌, true, false, [], ◌∷◌, arith}
use membra_l3_cpp.Base.Dict.{lookup, insert}
use membra_l3_cpp.Base.Fixed.{fixed}
use membra_l3_cpp.Staking.{
  ComputeStake, ComputeStaking, initial, stake_compute, consume_gas_allowance, new_stake,
}
use membra_l3_cpp.Staking.Charge.{CannotPay, Charge, consume_gas_allowance-outcome}
use membra_l3_cpp.Staking.Totals.{IsCounted, stakes_for, unstakes, consumes, run, run-IsCounted}

-- Two cores that Alice staked at time 0.
abbrev staked : ComputeStaking ℕ
staked = (stake_compute initial "alice" 2 4 1 0 0).2

consume_gas_allowance-outcome_example :
    let (paid, s) = consume_gas_allowance staked "alice" 5000 in
    ((paid ≡ true)
      × Charge "alice" 5000 staked.stakes s.stakes
      × (s ≡ record staked { stakes = s.stakes }))
    ⊎ ((paid ≡ false) × (s ≡ staked) × All (CannotPay "alice" 5000) staked.stakes)
unfolding stake_compute insert new_stake
consume_gas_allowance-outcome_example =
    consume_gas_allowance-outcome staked "alice" 5000 ((omega arith, omega arith, omega arith), tt)

run-IsCounted_example : IsCounted (
    run {W = ℕ} initial (
      stakes_for "alice" 2 4 1 0 0
      ∷ consumes "alice" 5000
      ∷ unstakes "stake_alice_0" 3_600_000_000 3_600_000_000
      ∷ []))
unfolding lookup
run-IsCounted_example =
    run-IsCounted
      (stakes_for "alice" 2 4 1 0 0
        ∷ consumes "alice" 5000
        ∷ unstakes "stake_alice_0" 3_600_000_000 3_600_000_000
        ∷ [])
      ((omega arith, omega arith, refl), (tt, (tt, tt)))

-- The stake, and what an hour earns it.
abbrev stake : ComputeStake ℕ
stake = new_stake "stake_alice_0" "alice" 2 4 1 0
