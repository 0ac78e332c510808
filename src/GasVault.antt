-- ===== src/GasVault.antt =====
-- `GasVault` of include/gas_vault.hpp, over any type `W` of doubles. The vault works on a
-- `ComputeStaking` that it does not own: a call takes the state of both. `attached` says whether the
-- pointer is not null.
pub mod Accounts
pub mod Limits
mod Tests
use membra_l3_cpp.Base.{ℕ, String, Bool, true, false, ◌&&◌, ◌||◌, [], ltb, leb, ◌==◌, if◌then◌else◌}
use membra_l3_cpp.Base.Dict.{Dict, lookup, insert, get_or}
use membra_l3_cpp.Base.Double.{Double}
use membra_l3_cpp.Base.Word.{add64, sub64}
use membra_l3_cpp.Staking.{ComputeStaking, consume_gas_allowance, current_gas_credit_rate}

pub record GasVault : Type 0 where
  pub sol_reserves : ℕ
  pub total_gas_paid : ℕ
  pub gas_paid_by_compute : ℕ
  pub user_tx_counts : Dict ℕ
  pub attached : Bool

-- The vault and the staking system.
pub record System (W : Type 0) : Type 0 where
  pub vault : GasVault
  pub staking : ComputeStaking W

abbrev pub initial_vault : ℕ → Bool → GasVault
initial_vault lamports attached = record {
  sol_reserves = lamports;
  total_gas_paid = 0;
  gas_paid_by_compute = 0;
  user_tx_counts = [];
  attached = attached;
}

-- `user_tx_counts_[user]`, which enters a missing user as 0.
abbrev pub tx_count : GasVault → String → ℕ
tx_count v user = get_or 0 (lookup user v.user_tx_counts)

abbrev note_user : GasVault → String → GasVault
note_user v user = record v { user_tx_counts = insert user (tx_count v user) v.user_tx_counts }

abbrev count_tx : GasVault → String → GasVault
count_tx v user = record v {
  user_tx_counts = insert user (add64 (tx_count v user) 1) v.user_tx_counts;
}

unfoldable pub set_compute_staking : GasVault → Bool → GasVault
set_compute_staking v attached = record v { attached = attached }

unfoldable pub deposit_sol : GasVault → ℕ → GasVault
deposit_sol v amount = record v { sol_reserves = add64 v.sol_reserves amount }

-- `pay_gas` from the reserves.
abbrev pay_reserves : GasVault → String → ℕ → Bool × GasVault
pay_reserves v user gas = if ltb v.sol_reserves gas then (false, v) else (
  true,
  count_tx
      (record v {
        sol_reserves = sub64 v.sol_reserves gas;
        total_gas_paid = add64 v.total_gas_paid gas;
      })
      user,
)

-- `pay_gas` when the allowance has paid.
abbrev paid_by_compute : GasVault → String → ℕ → GasVault
paid_by_compute v user gas =
    count_tx
      (record v {
        gas_paid_by_compute = add64 v.gas_paid_by_compute gas;
        total_gas_paid = add64 v.total_gas_paid gas;
      })
      user

module _ {W : Type 0} where
  pay_from_reserves : GasVault → ComputeStaking W → String → ℕ → Bool × System W
  pay_from_reserves v staking user gas =
      let (paid, v') = pay_reserves v user gas in (paid, record { vault = v'; staking = staking })

  -- `pay_gas` after the rate limit.
  pay_within_limit : GasVault → ComputeStaking W → String → ℕ → Bool × System W
  unfolding pay_from_reserves
  pay_within_limit v staking user gas =
      let (consumed, staking') = consume_gas_allowance staking user gas in
      if v.attached && consumed
      then (true, record { vault = paid_by_compute v user gas; staking = staking' })
      else pay_from_reserves v staking user gas

  unfoldable pub pay_gas : System W → String → ℕ → Bool × System W
  unfolding pay_within_limit
  pay_gas s user gas =
      let v = note_user s.vault user in
      if ltb 1000 (tx_count s.vault user)
      then (false, record s { vault = v })
      else pay_within_limit v s.staking user gas

module _ {W : Type 0} ⦃d : Double W⦄ where
  unfoldable pub can_cover_gas : System W → ℕ → Bool
  can_cover_gas s gas =
      (s.vault.attached && ltb 0 (current_gas_credit_rate s.staking))
      || leb gas s.vault.sol_reserves

  unfoldable pub sol_reserves_sol : GasVault → W
  sol_reserves_sol v = d.div (d.of_u64 v.sol_reserves) (d.lit 1_000_000_000 1)

  unfoldable pub is_healthy : GasVault → W → Bool
  is_healthy v min_reserves_sol = d.le min_reserves_sol (sol_reserves_sol v)

  unfoldable pub compute_coverage_ratio : GasVault → W
  compute_coverage_ratio v =
      if v.total_gas_paid == 0
      then d.lit 0 1
      else d.div (d.of_u64 v.gas_paid_by_compute) (d.of_u64 v.total_gas_paid)
