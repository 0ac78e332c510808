-- ===== src/Reimbursement/Pool.antt =====
-- `GasPoolManager` of src/gas_reimbursement.cpp, over any type `W` of doubles.
pub mod Solvency
use membra_l3_cpp.Base.{ℕ, String, Bool, true, false, some, none, [], leb, if◌then◌else◌}
use membra_l3_cpp.Base.Dict.{Dict, lookup, insert, get_or}
use membra_l3_cpp.Base.Double.{Double}
use membra_l3_cpp.Base.Word.{add64, sub64}
use membra_l3_cpp.Reimbursement.{GasPoolConfig, default_config}

pub record PoolStats (W : Type 0) : Type 0 where
  pub total_deposited : ℕ
  pub total_withdrawn : ℕ
  pub current_balance : ℕ
  pub reserved_amount : ℕ
  pub total_reimbursements : ℕ
  pub utilization_ratio : W

pub record Pools (W : Type 0) : Type 0 where
  pub configs : Dict GasPoolConfig
  pub reserved : Dict ℕ
  pub stats : PoolStats W

abbrev credited : GasPoolConfig → ℕ → GasPoolConfig
credited config amount = record config {
  total_pool_balance = add64 config.total_pool_balance amount;
  available_balance = add64 config.available_balance amount;
}

module _ {W : Type 0} where
  -- `reserved_amounts_[pool_id]`, which enters a missing pool as 0.
  abbrev pub reserved_of : Pools W → String → ℕ
  reserved_of p id = get_or 0 (lookup id p.reserved)

  abbrev touch : Pools W → String → Pools W
  touch p id = record p { reserved = insert id (reserved_of p id) p.reserved }

  unfoldable pub initialize_pool : Pools W → GasPoolConfig → Bool × Pools W
  initialize_pool p config = (
    true,
    record p {
      configs = insert config.pool_id config p.configs;
      stats = record p.stats {
        total_deposited = config.total_pool_balance;
        current_balance = config.available_balance;
      };
    },
  )

  unfoldable pub get_pool_config : Pools W → String → GasPoolConfig
  get_pool_config p id = get_or default_config (lookup id p.configs)

  unfoldable pub update_pool_balance : Pools W → String → ℕ → Bool × Pools W
  update_pool_balance p id amount = elim (lookup id p.configs) [
    | none ↦ (false, p)
    | some config ↦ (
      true,
      record p {
        configs = insert id (credited config amount) p.configs;
        stats = record p.stats { current_balance = (credited config amount).available_balance };
      },
    )
  ]

  unfoldable pub check_availability : Pools W → String → ℕ → Bool × Pools W
  check_availability p id required = elim (lookup id p.configs) [
    | none ↦ (false, p)
    | some config ↦ (leb required (sub64 config.available_balance (reserved_of p id)), touch p id)
  ]

module _ {W : Type 0} ⦃d : Double W⦄ where
  abbrev ratio : ℕ → ℕ → W
  ratio reserved total = d.div (d.of_u64 reserved) (d.of_u64 total)

  -- `reserve_funds` once `check_availability` has answered.
  unfoldable pub reserve_checked : Pools W → String → ℕ → Pools W
  reserve_checked p id amount =
      let held = add64 (reserved_of p id) amount in
      let config = get_or default_config (lookup id p.configs) in
      record p {
        configs = insert id config p.configs;
        reserved = insert id held p.reserved;
        stats = record p.stats {
          reserved_amount = held;
          utilization_ratio = ratio held config.total_pool_balance;
        };
      }

  unfoldable pub reserve_funds : Pools W → String → ℕ → Bool × Pools W
  reserve_funds p id amount =
      let (available, p') = check_availability p id amount in
      if available then (true, reserve_checked p' id amount) else (false, p')

  unfoldable pub release_funds : Pools W → String → ℕ → Pools W
  release_funds p id amount = record p {
    reserved = insert id held p.reserved;
    stats = record p.stats {
      reserved_amount = held;
      utilization_ratio = elim (lookup id p.configs) [
        | none ↦ p.stats.utilization_ratio
        | some config ↦ ratio held config.total_pool_balance
      ];
    };
  }
    where
      held : ℕ
      held = if leb amount (reserved_of p id) then sub64 (reserved_of p id) amount else 0

  -- `stats_ = {0, 0, 0, 0, 0, 0.0}`, and the `PoolStats()` of a missing pool.
  abbrev pub no_stats : PoolStats W
  no_stats = record {
    total_deposited = 0;
    total_withdrawn = 0;
    current_balance = 0;
    reserved_amount = 0;
    total_reimbursements = 0;
    utilization_ratio = d.lit 0 1;
  }

  abbrev pub initial : Pools W
  initial = record { configs = []; reserved = []; stats = no_stats }

  unfoldable pub get_pool_stats : Pools W → String → PoolStats W × Pools W
  get_pool_stats p id = elim (lookup id p.configs) [
    | none ↦ (no_stats, p)
    | some config ↦ (
      record {
        total_deposited = config.total_pool_balance;
        total_withdrawn = sub64 config.total_pool_balance config.available_balance;
        current_balance = config.available_balance;
        reserved_amount = reserved_of p id;
        total_reimbursements = p.stats.total_reimbursements;
        utilization_ratio = p.stats.utilization_ratio;
      },
      touch p id,
    )
  ]
