-- ===== src/GasVault/Tests.antt =====
-- The gas vault, include/gas_vault.hpp, at concrete inputs.
use membra_l3_cpp.Base.{ℕ, true, arith}
use membra_l3_cpp.Base.Dict.{insert}
use membra_l3_cpp.Base.Fixed.{fixed}
use membra_l3_cpp.Staking.{
  ComputeStaking, stake_compute, new_stake, current_gas_credit_rate, consume_gas_allowance,
  consume_loop,
}
use membra_l3_cpp.Staking as Staking
use membra_l3_cpp.GasVault.{System, pay_gas}
use membra_l3_cpp.GasVault.Accounts.{IsFit, Conserves, pay_gas-Conserves}
use membra_l3_cpp.GasVault.Limits.{initial}

-- A vault of 900 lamports, and one core that Alice staked at time 0.
abbrev system : System ℕ
system = initial 900 true (stake_compute Staking.initial "alice" 1 4 1 0 0).2

pay_gas-Conserves_example :
    let after = (pay_gas system "alice" 5000).1 in IsFit after × Conserves system after
unfolding stake_compute insert new_stake
pay_gas-Conserves_example = pay_gas-Conserves system "alice" 5000 (record {
  reserves = omega arith;
  paid = omega arith;
  by_compute = omega arith;
  stakes = ((omega arith, omega arith, omega arith), tt);
})
