-- ===== src/Staking.antt =====
-- `ComputeStaking` of include/compute_staking.hpp, over any type `W` of doubles. Readings of the clock
-- are arguments; `stakes_` is an association list in the order of its loops. Each method holds the
-- mutex from start to end and calls no other that locks it, so a call is one step.
pub mod Consume
pub mod Charge
pub mod Totals
mod Tests
use Prim.Native.String.{◌++◌}
use membra_l3_cpp.Base.{
  ℕ, String, str_eq, Bool, true, false, not, ◌&&◌, ◌||◌, Option, none, some, List, [], ◌∷◌, leb,
  if◌then◌else◌,
}
use membra_l3_cpp.Base.Dict.{Dict, lookup, insert}
use membra_l3_cpp.Base.Double.{Double}
use membra_l3_cpp.Base.Word.{add64, sub64, mul64}

pub record ComputeStake (W : Type 0) : Type 0 where
  pub stake_id : String
  pub staker_address : String
  pub cpu_cores : ℕ
  pub ram_gb : ℕ
  pub compute_units : ℕ
  pub staked_at : W
  pub unstaked_at : W
  pub active : Bool
  pub reward_rate : W
  pub instant_credit_grant : ℕ
  pub total_credit_grants_issued : ℕ
  pub gas_credit_allowance : ℕ
  pub redeemable : Bool

pub record ComputeStaking (W : Type 0) : Type 0 where
  pub stakes : Dict (ComputeStake W)
  pub total_staked_compute : ℕ
  pub total_cpu_cores : ℕ
  pub total_credit_grants_issued : ℕ

abbrev pub credit_grant_per_core : ℕ
credit_grant_per_core = 10_000_000_000

abbrev pub gas_credit_allowance_per_core : ℕ
gas_credit_allowance_per_core = 10_000_000_000

abbrev pub initial : {W : Type 0} → ComputeStaking W
initial = record {
  stakes = [];
  total_staked_compute = 0;
  total_cpu_cores = 0;
  total_credit_grants_issued = 0;
}

module _ {W : Type 0} where
  unfoldable pub get_stake : ComputeStaking W → String → Option (ComputeStake W)
  get_stake s id = lookup id s.stakes

  abbrev pub is_active_of : String → ComputeStake W → Bool
  is_active_of address k = str_eq k.staker_address address && k.active

  stakes_of : String → Dict (ComputeStake W) → List (ComputeStake W)
  stakes_of address [] = []
  stakes_of address ((id, k) ∷ rest) =
      if str_eq k.staker_address address then k ∷ stakes_of address rest else stakes_of address rest

  unfoldable pub get_staker_stakes : ComputeStaking W → String → List (ComputeStake W)
  unfolding stakes_of
  get_staker_stakes s address = stakes_of address s.stakes

  abbrev pub charged : ComputeStake W → ℕ → ComputeStake W
  charged k cost = record k { gas_credit_allowance = sub64 k.gas_credit_allowance cost }

  -- The loop of `consume_gas_allowance`: the first active stake that can pay does; `none` is the end
  -- of the loop.
  unfoldable pub consume_loop : String → ℕ → Dict (ComputeStake W) → Option (Dict (ComputeStake W))
  consume_loop address cost [] = none
  consume_loop address cost ((id, k) ∷ rest) =
      let later = consume_loop address cost rest in
      if is_active_of address k && leb cost k.gas_credit_allowance
      then some ((id, charged k cost) ∷ rest)
      else elim later [ none ↦ none | some rest' ↦ some ((id, k) ∷ rest') ]

  unfoldable pub consume_gas_allowance : ComputeStaking W → String → ℕ → Bool × ComputeStaking W
  consume_gas_allowance s address cost = elim (consume_loop address cost s.stakes) [
    | none ↦ (false, s)
    | some stakes ↦ (true, record s { stakes = stakes })
  ]

  allowance_loop : String → Dict (ComputeStake W) → ℕ
  allowance_loop address [] = 0
  allowance_loop address ((id, k) ∷ rest) =
      if is_active_of address k then k.gas_credit_allowance else allowance_loop address rest

  unfoldable pub get_gas_allowance : ComputeStaking W → String → ℕ
  unfolding allowance_loop
  get_gas_allowance s address = allowance_loop address s.stakes

  -- The stake that `unstake_compute` leaves.
  abbrev pub closed : ComputeStake W → ℕ → W → ComputeStake W
  closed k credits now = record k {
    total_credit_grants_issued = add64 k.total_credit_grants_issued credits;
    active = false;
    unstaked_at = now;
  }

module _ {W : Type 0} ⦃d : Double W⦄ where
  -- The stake that `stake_compute` enters.
  unfoldable pub new_stake : String → String → ℕ → ℕ → ℕ → W → ComputeStake W
  new_stake id address cores ram units now = record {
    stake_id = id;
    staker_address = address;
    cpu_cores = cores;
    ram_gb = ram;
    compute_units = units;
    staked_at = now;
    unstaked_at = d.lit 0 1;
    active = true;
    reward_rate = d.mul (d.lit 1000 1) (d.lit 15 10);
    instant_credit_grant = mul64 cores credit_grant_per_core;
    total_credit_grants_issued = mul64 cores credit_grant_per_core;
    gas_credit_allowance = mul64 cores gas_credit_allowance_per_core;
    redeemable = false;
  }

  abbrev pub stake_id_of : String → W → String
  stake_id_of address t = "stake_" ++ (address ++ ("_" ++ d.shown t))

  -- The id, the credit grant and the new state; `t₁` and `t₂` are read for the id and the time stamp.
  unfoldable pub stake_compute :
      ComputeStaking W → String → ℕ → ℕ → ℕ → W → W → String × ℕ × ComputeStaking W
  stake_compute s address cores ram units t₁ t₂ =
      let id = stake_id_of address t₁ in
      let grant = mul64 cores credit_grant_per_core in
      (
        id,
        grant,
        record {
          stakes = insert id (new_stake id address cores ram units t₂) s.stakes;
          total_staked_compute = add64 s.total_staked_compute units;
          total_cpu_cores = add64 s.total_cpu_cores cores;
          total_credit_grants_issued = add64 s.total_credit_grants_issued grant;
        },
      )

  unfoldable pub calculate_time_rewards : ComputeStake W → W → ℕ
  calculate_time_rewards k duration =
      d.to_u64 (d.mul (d.mul (d.of_u64 k.compute_units) k.reward_rate) duration)

  -- `none` is false; else the additional credits. `t₁` is read for the duration, `t₂` for the end.
  unfoldable pub unstake_compute : ComputeStaking W → String → W → W → Option ℕ × ComputeStaking W
  unstake_compute s id t₁ t₂ = elim (lookup id s.stakes) [
    | none ↦ (none, s)
    | some k ↦
        let duration = d.sub t₁ k.staked_at in
        if not k.active || d.lt duration (d.lit 3600 1)
        then (none, s)
        else (let credits = calculate_time_rewards k duration in
            (
              some credits,
              record s {
                stakes = insert id (closed k credits t₂) s.stakes;
                total_staked_compute = sub64 s.total_staked_compute k.compute_units;
                total_cpu_cores = sub64 s.total_cpu_cores k.cpu_cores;
              },
            ))
  ]

  unfoldable pub current_gas_credit_rate : ComputeStaking W → ℕ
  current_gas_credit_rate s = d.to_u64 (d.mul (d.of_u64 s.total_cpu_cores) (d.lit 1000 1))
