-- ===== src/ZkCompute/Manager/Verification.antt =====
-- `verify_task_completion` and the rewards of src/zk_compute.cpp.
use membra_l3_cpp.Base.{
  ℕ, ◌≡◌, refl, ◌∙◌, String, true, false, none, some, arith, ◌==◌, if◌then◌else◌, inl, inr,
  Bool-cases,
}
use membra_l3_cpp.Base.Dict.{lookup, lookup-insert_self}
use membra_l3_cpp.Base.Double.{Double}
use membra_l3_cpp.Base.Word.{add64}
use membra_l3_cpp.Merkle.{Bytes}
use membra_l3_cpp.ZkCompute.{
  ComputeType, llm_inference, merkle_computation, microtask_completion, collateral_locking,
  gas_reimbursement, ido_appraisal, circuit_compilation, proof_verification, ZkComputeProof,
  ComputeTask, VerificationResult, new_result, verify_proof, first_byte,
}
use membra_l3_cpp.ZkCompute.Manager.{
  ZkComputeManager, base_reward, at_least_one, calculate_reward, verified_proof, verified_manager,
  verify_task_completion, get_task_status,
}
use membra_l3_cpp.ZkCompute.Distributor.{calculate_reward_amount, distributor_base}

-- A proof is accepted unless the first byte of its hash is 0, whatever `rand` returns.
pub verify_proof-success :
    (sha256 : Bytes → Bytes) (proof : ZkComputeProof) (r₁ r₂ : ℕ)
    → first_byte proof.proof_hash == 0 ≡ false
    → ((verify_proof sha256 proof r₁ r₂).success ≡ true)
      × ((verify_proof sha256 proof r₁ r₂).verification_status ≡ "verified")
unfolding verify_proof
verify_proof-success sha256 proof r₁ r₂ h = rw h (refl, refl)

pub verify_proof-refused :
    (sha256 : Bytes → Bytes) (proof : ZkComputeProof) (r₁ r₂ : ℕ)
    → first_byte proof.proof_hash == 0 ≡ true
    → ((verify_proof sha256 proof r₁ r₂).success ≡ false)
      × ((verify_proof sha256 proof r₁ r₂).verification_status ≡ "invalid_proof")
unfolding verify_proof
verify_proof-refused sha256 proof r₁ r₂ h = rw h (refl, refl)

module _ {W : Type 0} ⦃d : Double W⦄ (sha256 : Bytes → Bytes) where
  pub verify_task_completion-missing :
      (m : ZkComputeManager W) (task_id : String) (r₁ r₂ now : ℕ)
      → lookup task_id m.proofs ≡ none
      → verify_task_completion sha256 m task_id r₁ r₂ now
        ≡ (record new_result { success = false; verification_status = "task_not_found" }, m)
  unfolding verify_task_completion
  verify_task_completion-missing m task_id r₁ r₂ now gone = rw (verify_task_completion, gone) refl

  pub verify_task_completion-found :
      (m : ZkComputeManager W) (task_id : String) (r₁ r₂ now : ℕ) (proof : ZkComputeProof)
      → lookup task_id m.proofs ≡ some proof
      → verify_task_completion sha256 m task_id r₁ r₂ now ≡ (
        verify_proof sha256 proof r₁ r₂,
        if first_byte proof.proof_hash == 0
            then m
            else verified_manager m task_id proof (verify_proof sha256 proof r₁ r₂) now,
      )
  unfolding verify_task_completion
  verify_task_completion-found m task_id r₁ r₂ now proof found =
      elim (Bool-cases (first_byte proof.proof_hash == 0)) [
        | inl zero_byte ↦
            rw
              (
                verify_task_completion,
                found,
                (verify_proof-refused sha256 proof r₁ r₂ zero_byte).0,
                zero_byte,
              )
              refl
        | inr good ↦
            rw
              (
                verify_task_completion,
                found,
                (verify_proof-success sha256 proof r₁ r₂ good).0,
                good,
              )
              refl
      ]

  pub verify_task_completion-accepted :
      (m : ZkComputeManager W) (task_id : String) (r₁ r₂ now : ℕ) (proof : ZkComputeProof)
      → lookup task_id m.proofs ≡ some proof
      → first_byte proof.proof_hash == 0 ≡ false
      → verify_task_completion sha256 m task_id r₁ r₂ now ≡ (
        verify_proof sha256 proof r₁ r₂,
        verified_manager m task_id proof (verify_proof sha256 proof r₁ r₂) now,
      )
  verify_task_completion-accepted m task_id r₁ r₂ now proof found good =
      verify_task_completion-found m task_id r₁ r₂ now proof found ∙ rw good refl

  -- What `get_task_status` shows after a verification.
  pub get_task_status-verified :
      (m : ZkComputeManager W) (task_id : String) (proof : ZkComputeProof) (v : VerificationResult)
      (now : ℕ)
      → get_task_status (verified_manager m task_id proof v now) task_id
        ≡ verified_proof W proof v now
  unfolding get_task_status
  get_task_status-verified m task_id proof v now =
      rw (get_task_status, lookup-insert_self task_id (verified_proof W proof v now) m.proofs) refl

  -- A proof that was verified is verified again by the next call, whatever `rand` and the clock return:
  -- it is counted, and its reward added to `total_rewards_paid`, each time.
  pub verify_task_completion-again :
      (m : ZkComputeManager W) (task_id : String) (r₁ r₂ now r₃ r₄ later : ℕ)
      (proof : ZkComputeProof)
      → lookup task_id m.proofs ≡ some proof
      → first_byte proof.proof_hash == 0 ≡ false
      → let first = verify_task_completion sha256 m task_id r₁ r₂ now in
        let second = verify_task_completion sha256 first.1 task_id r₃ r₄ later in
        (first.0.success ≡ true)
        × (second.0.success ≡ true)
        × (second.1.stats.total_tasks_verified ≡ add64 (add64 m.stats.total_tasks_verified 1) 1)
        × (second.1.stats.total_rewards_paid
            ≡ add64
                (add64 m.stats.total_rewards_paid (get_task_status first.1 task_id).reward_amount)
                (get_task_status second.1 task_id).reward_amount)
  verify_task_completion-again m task_id r₁ r₂ now r₃ r₄ later proof found good =
      let v = verify_proof sha256 proof r₁ r₂ in
      let p = verified_proof W proof v now in
      let m' = verified_manager m task_id proof v now in
      let v' = verify_proof sha256 p r₃ r₄ in
      rw
        (
          verify_task_completion-accepted m task_id r₁ r₂ now proof found good,
          verify_task_completion-accepted m' task_id r₃ r₄ later p
              (lookup-insert_self task_id p m.proofs) good,
          get_task_status-verified m task_id proof v now,
          get_task_status-verified m' task_id p v' later,
        )
        (
          (verify_proof-success sha256 proof r₁ r₂ good).0,
          (verify_proof-success sha256 p r₃ r₄ good).0,
          refl,
          refl,
        )

base_reward-distributor_base : (kind : ComputeType) → base_reward kind ≡ distributor_base kind
base_reward-distributor_base llm_inference = refl
base_reward-distributor_base merkle_computation = refl
base_reward-distributor_base microtask_completion = refl
base_reward-distributor_base collateral_locking = refl
base_reward-distributor_base gas_reimbursement = refl
base_reward-distributor_base ido_appraisal = refl
base_reward-distributor_base circuit_compilation = refl
base_reward-distributor_base proof_verification = refl

-- The reward that the manager computes is the one that the distributor computes, times the bonus for a
-- fast verification, 1000 / time but at least 1; both are 0 for a failed verification.
pub calculate_reward-calculate_reward_amount :
    (W : Type 0) ⦃d : Double W⦄ (task : ComputeTask) (v : VerificationResult)
    → calculate_reward W task v ≡ (
        if v.success
        then d.to_u64 (
            d.mul
              (d.of_u64 (calculate_reward_amount task v))
              (at_least_one (d.div (d.lit 1000 1) (d.of_u64 v.verification_time_ms))))
        else calculate_reward_amount task v)
unfolding calculate_reward calculate_reward_amount
calculate_reward-calculate_reward_amount W task v =
    rw (base_reward-distributor_base task.compute_type) (ground arith)
