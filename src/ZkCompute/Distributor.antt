-- ===== src/ZkCompute/Distributor.antt =====
-- `RewardDistributor` of src/zk_compute.cpp.
pub mod Ledger
use membra_l3_cpp.Base.{
  ℕ, ◌/◌, String, str_eq, Bool, true, false, none, some, [], ◌∷◌, if◌then◌else◌,
}
use membra_l3_cpp.Base.Dict.{Dict, lookup, insert, get_or}
use membra_l3_cpp.Base.Word.{add64, mul64}
use membra_l3_cpp.ZkCompute.{
  ComputeType, llm_inference, merkle_computation, microtask_completion, collateral_locking,
  gas_reimbursement, ido_appraisal, circuit_compilation, proof_verification, ZkComputeProof,
  ComputeTask, VerificationResult,
}

pub record RewardDistributor : Type 0 where
  pub reward_balances : Dict ℕ
  pub total_rewards_distributed : ℕ

abbrev pub new_distributor : RewardDistributor
new_distributor = record { reward_balances = []; total_rewards_distributed = 0 }

-- `reward_balances_[w] += amount`.
unfoldable pub distribute_reward :
    RewardDistributor → ZkComputeProof → String → Bool × RewardDistributor
distribute_reward s proof recipient =
    if str_eq proof.verification_status "verified"
    then (
      true,
      record {
        reward_balances =
            insert recipient
              (add64 (get_or 0 (lookup recipient s.reward_balances)) proof.reward_amount)
              s.reward_balances;
        total_rewards_distributed = add64 s.total_rewards_distributed proof.reward_amount;
      },
    )
    else (false, s)

-- `base_reward` after the switch.
abbrev pub distributor_base : ComputeType → ℕ
distributor_base llm_inference = 2_000_000
distributor_base merkle_computation = 1_500_000
distributor_base microtask_completion = 500_000
distributor_base collateral_locking = 1_000_000
distributor_base gas_reimbursement = 750_000
distributor_base ido_appraisal = 3_000_000
distributor_base circuit_compilation = 2_500_000
distributor_base proof_verification = 500_000

unfoldable pub calculate_reward_amount : ComputeTask → VerificationResult → ℕ
calculate_reward_amount task verification =
    if verification.success
    then mul64 (distributor_base task.compute_type) (task.required_compute_units / 1000)
    else 0

unfoldable pub get_reward_history : RewardDistributor → String → Dict ℕ
get_reward_history s wallet =
    if str_eq wallet ""
    then elim (lookup wallet s.reward_balances) [
      | none ↦ []
      | some balance ↦ (wallet, balance) ∷ []
    ]
    else s.reward_balances

unfoldable pub get_total_rewards_distributed : RewardDistributor → ℕ
get_total_rewards_distributed s = s.total_rewards_distributed
