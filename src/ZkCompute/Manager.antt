-- ===== src/ZkCompute/Manager.antt =====
-- `ZKComputeManager` of src/zk_compute.cpp, over any type `W` of doubles. `proofs_` is a `std::map`,
-- whose loops take the entries in the order of the keys.
pub mod Verification
pub mod Statuses
pub mod Roots
use Prim.Native.String.{◌++◌}
use membra_l3_cpp.Base.{
  ℕ, ◌*◌, ◌/◌, String, str_eq, Bool, true, false, Option, none, some, List, [], ◌∷◌, if◌then◌else◌,
}
use membra_l3_cpp.Base.Dict.{Dict, lookup, insert}
use membra_l3_cpp.Base.Ordered.{in_key_order}
use membra_l3_cpp.Base.Double.{Double}
use membra_l3_cpp.Base.Word.{add64, sub64, mul64}
use membra_l3_cpp.Merkle.{Bytes, zero_hash, Builder, Outcome, returned, ◌>>=◌, add_leaf, build_root}
use membra_l3_cpp.Merkle.{initial as empty_builder}
use membra_l3_cpp.ZkCompute.{
  ComputeType, llm_inference, merkle_computation, microtask_completion, collateral_locking,
  gas_reimbursement, ido_appraisal, circuit_compilation, proof_verification, ZkComputeProof,
  ComputeTask, ResourceCommitment, VerificationResult, ZkProver, new_proof, new_task, new_result,
  new_prover, generate_proof, verify_proof, proof_data,
}

pub record ComputeStats (W : Type 0) : Type 0 where
  pub total_tasks_submitted : ℕ
  pub total_tasks_verified : ℕ
  pub total_rewards_paid : ℕ
  pub total_compute_units : ℕ
  pub average_verification_time_ms : W

pub record ZkComputeManager (W : Type 0) : Type 0 where
  pub proofs : Dict ZkComputeProof
  pub prover : ZkProver
  pub merkle_builder : Builder
  pub stats : ComputeStats W

-- `base_reward` after the switch.
abbrev pub base_reward : ComputeType → ℕ
base_reward llm_inference = 2_000_000
base_reward merkle_computation = 1_500_000
base_reward microtask_completion = 500_000
base_reward collateral_locking = 1_000_000
base_reward gas_reimbursement = 750_000
base_reward ido_appraisal = 3_000_000
base_reward circuit_compilation = 2_500_000
base_reward proof_verification = 500_000

with_status : String → Dict ZkComputeProof → List ZkComputeProof
with_status status [] = []
with_status status ((id, proof) ∷ rest) =
    let others = with_status status rest in
    if str_eq proof.verification_status status then proof ∷ others else others

-- The loop of `generate_merkle_root`.
unfoldable pub add_leaves : (Bytes → Bytes) → List ZkComputeProof → Builder → Builder
add_leaves sha256 [] b = b
add_leaves sha256 (proof ∷ rest) b = add_leaves sha256 rest (add_leaf sha256 (proof_data proof) b)

module _ {W : Type 0} where
  unfoldable pub get_task_status : ZkComputeManager W → String → ZkComputeProof
  get_task_status m task_id = elim (lookup task_id m.proofs) [
    | none ↦ record new_proof { task_id = task_id; verification_status = "not_found" }
    | some proof ↦ proof
  ]

  unfoldable pub get_pending_tasks : ZkComputeManager W → List ZkComputeProof
  unfolding with_status
  get_pending_tasks m = with_status "pending" (in_key_order m.proofs)

  unfoldable pub get_verified_proofs : ZkComputeManager W → List ZkComputeProof
  unfolding with_status
  get_verified_proofs m = with_status "verified" (in_key_order m.proofs)

  unfoldable pub get_stats : ZkComputeManager W → ComputeStats W
  get_stats m = m.stats

  module _ (sha256 : Bytes → Bytes) where
    unfoldable pub submit_task :
        ZkComputeManager W → ComputeTask → ResourceCommitment → ℕ → ℕ → String × ZkComputeManager W
    submit_task m task commitment count seconds =
        let proof = generate_proof sha256 m.prover task commitment count seconds in
        (
          proof.task_id,
          record m {
            proofs = insert proof.task_id proof m.proofs;
            stats = record m.stats {
              total_tasks_submitted = add64 m.stats.total_tasks_submitted 1;
              total_compute_units = add64 m.stats.total_compute_units task.required_compute_units;
            };
          },
        )

    unfoldable pub generate_merkle_root : ZkComputeManager W → Outcome (Bytes × ZkComputeManager W)
    generate_merkle_root m = elim (get_verified_proofs m) [
      | [] ↦ returned (zero_hash, m)
      | proof ∷ rest ↦ do
        (root, built) ← build_root sha256 (add_leaves sha256 (proof ∷ rest) m.merkle_builder)
        returned (root, record m { merkle_builder = built })
    ]

module _ {W : Type 0} ⦃d : Double W⦄ where
  -- `std::max(1.0, x)`.
  abbrev pub at_least_one : W → W
  at_least_one x = if d.lt (d.lit 1 1) x then x else d.lit 1 1

module _ (W : Type 0) ⦃d : Double W⦄ where
  unfoldable pub calculate_reward : ComputeTask → VerificationResult → ℕ
  calculate_reward task verification =
      if verification.success
      then (let reward =
            mul64 (base_reward task.compute_type) (task.required_compute_units / 1000) in
          let speed_bonus =
            at_least_one (d.div (d.lit 1000 1) (d.of_u64 verification.verification_time_ms)) in
          d.to_u64 (d.mul (d.of_u64 reward) speed_bonus))
      else 0

  -- The proof that a successful verification leaves; `now` is read for `verified_at`.
  abbrev pub verified_proof : ZkComputeProof → VerificationResult → ℕ → ZkComputeProof
  verified_proof proof verification now = record proof {
    verification_status = verification.verification_status;
    verified_at = now;
    output_hash = verification.verified_hash;
    reward_amount =
        calculate_reward (record new_task { compute_type = proof.compute_type }) verification;
  }

module _ {W : Type 0} ⦃d : Double W⦄ where
  abbrev pub new_manager : ZkComputeManager W
  new_manager = record {
    proofs = [];
    prover = new_prover;
    merkle_builder = empty_builder;
    stats = record {
      total_tasks_submitted = 0;
      total_tasks_verified = 0;
      total_rewards_paid = 0;
      total_compute_units = 0;
      average_verification_time_ms = d.lit 0 1;
    };
  }

  abbrev pub verified_stats : ComputeStats W → ℕ → ℕ → ComputeStats W
  verified_stats stats reward time_ms =
      let verified = add64 stats.total_tasks_verified 1 in
      let total_time =
        d.add (d.mul stats.average_verification_time_ms (d.of_u64 (sub64 verified 1)))
          (d.of_u64 time_ms) in
      record stats {
        total_tasks_verified = verified;
        total_rewards_paid = add64 stats.total_rewards_paid reward;
        average_verification_time_ms = d.div total_time (d.of_u64 verified);
      }

  abbrev pub verified_manager :
      ZkComputeManager W → String → ZkComputeProof → VerificationResult → ℕ → ZkComputeManager W
  verified_manager m task_id proof verification now =
      let proof' = verified_proof W proof verification now in
      record m {
        proofs = insert task_id proof' m.proofs;
        stats = verified_stats m.stats proof'.reward_amount verification.verification_time_ms;
      }

  unfoldable pub verify_task_completion :
      (Bytes → Bytes)
      → ZkComputeManager W
      → String
      → ℕ
      → ℕ
      → ℕ
      → VerificationResult × ZkComputeManager W
  verify_task_completion sha256 m task_id r₁ r₂ now = elim (lookup task_id m.proofs) [
    | none ↦ (record new_result { success = false; verification_status = "task_not_found" }, m)
    | some proof ↦
        let verification = verify_proof sha256 proof r₁ r₂ in
        (
          verification,
          if verification.success then verified_manager m task_id proof verification now else m,
        )
  ]
