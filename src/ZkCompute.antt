-- ===== src/ZkCompute.antt =====
-- include/zk_compute.hpp and src/zk_compute.cpp: the records and ZKProver. Time stamps are counts of
-- the clock, each reading of which is an argument, as is each call of `rand`. SHA-256 is OpenSSL's and
-- stands as the parameter `sha256`.
pub mod Manager
pub mod Allocator
pub mod Distributor
mod Tests
use Prim.Native.String.{◌++◌}
use mathlib.Core.List.{◌++◌ as append_lists}
use membra_l3_cpp.Base.{
  ℕ, ◌+◌, ◌%◌, String, str_eq, Bool, true, false, [], ◌∷◌, ◌==◌, if◌then◌else◌,
}
use membra_l3_cpp.Base.Bytes.{bytes_of}
use membra_l3_cpp.Base.Decimal.{to_string}
use membra_l3_cpp.Base.Dict.{Dict}
use membra_l3_cpp.Merkle.{Bytes, zero_hash}

abbrev pub default_reward_amount : ℕ
default_reward_amount = 1_000_000

pub data ComputeType : Type 0 where
  llm_inference merkle_computation microtask_completion collateral_locking : ComputeType
  gas_reimbursement ido_appraisal circuit_compilation proof_verification : ComputeType

-- `static_cast<uint8_t>` of the type.
abbrev pub byte_of : ComputeType → ℕ
byte_of llm_inference = 0
byte_of merkle_computation = 1
byte_of microtask_completion = 2
byte_of collateral_locking = 3
byte_of gas_reimbursement = 4
byte_of ido_appraisal = 5
byte_of circuit_compilation = 6
byte_of proof_verification = 7

pub record ZkComputeProof : Type 0 where
  pub task_id : String
  pub prover_endpoint : String
  pub compute_type : ComputeType
  pub input_hash : Bytes
  pub output_hash : Bytes
  pub resource_commitment : Bytes
  pub proof_hash : Bytes
  pub verification_status : String
  pub reward_amount : ℕ
  pub created_at : ℕ
  pub verified_at : ℕ
  pub circuit_identifier : String
  pub metadata : Dict String

-- The default constructor.
abbrev pub new_proof : ZkComputeProof
new_proof = record {
  task_id = "";
  prover_endpoint = "";
  compute_type = llm_inference;
  input_hash = zero_hash;
  output_hash = zero_hash;
  resource_commitment = zero_hash;
  proof_hash = zero_hash;
  verification_status = "pending";
  reward_amount = default_reward_amount;
  created_at = 0;
  verified_at = 0;
  circuit_identifier = "";
  metadata = [];
}

pub record ComputeTask : Type 0 where
  pub task_id : String
  pub compute_type : ComputeType
  pub input_data : Bytes
  pub circuit_identifier : String
  pub required_compute_units : ℕ
  pub timeout_seconds : ℕ
  pub requester_wallet : String
  pub created_at : ℕ

-- The default constructor.
abbrev pub new_task : ComputeTask
new_task = record {
  task_id = "";
  compute_type = llm_inference;
  input_data = [];
  circuit_identifier = "";
  required_compute_units = 1000;
  timeout_seconds = 300;
  requester_wallet = "";
  created_at = 0;
}

pub record ResourceCommitment : Type 0 where
  pub commitment_id : String
  pub node_id : String
  pub cpu_cores_committed : ℕ
  pub memory_mb_committed : ℕ
  pub gpu_committed : Bool
  pub duration_seconds : ℕ
  pub commitment_hash : Bytes
  pub expires_at : ℕ

-- The default constructor.
abbrev pub new_commitment : ResourceCommitment
new_commitment = record {
  commitment_id = "";
  node_id = "";
  cpu_cores_committed = 0;
  memory_mb_committed = 0;
  gpu_committed = false;
  duration_seconds = 0;
  commitment_hash = zero_hash;
  expires_at = 0;
}

pub record VerificationResult : Type 0 where
  pub success : Bool
  pub verification_status : String
  pub error_message : String
  pub gas_used : ℕ
  pub verification_time_ms : ℕ
  pub verified_hash : Bytes

-- The default constructor.
abbrev pub new_result : VerificationResult
new_result = record {
  success = false;
  verification_status = "failed";
  error_message = "";
  gas_used = 0;
  verification_time_ms = 0;
  verified_hash = zero_hash;
}

pub record ZkProver : Type 0 where
  pub prover_endpoint : String

abbrev pub new_prover : ZkProver
new_prover = record { prover_endpoint = "http://localhost:8080" }

unfoldable pub get_endpoint_info : ZkProver → String
get_endpoint_info p = p.prover_endpoint

unfoldable pub set_endpoint : ZkProver → String → ZkProver
set_endpoint p endpoint = record p { prover_endpoint = endpoint }

-- `proof_hash[0]` of an array of 32 bytes, which is never empty.
abbrev pub first_byte : Bytes → ℕ
first_byte [] = 0
first_byte (b ∷ bs) = b

-- The task id and the proof hash, as bytes: what is hashed again to verify, and the leaf of the tree.
abbrev pub proof_data : ZkComputeProof → Bytes
proof_data proof = append_lists (bytes_of proof.task_id) proof.proof_hash

module _ (sha256 : Bytes → Bytes) where
  unfoldable pub generate_mock_proof : ComputeTask → Bytes
  generate_mock_proof task = sha256 (
      append_lists (append_lists (bytes_of task.task_id) task.input_data)
        (byte_of task.compute_type ∷ []))

  -- `count` is read for the id of a task without one, `seconds` for the time stamp.
  unfoldable pub generate_proof :
      ZkProver → ComputeTask → ResourceCommitment → ℕ → ℕ → ZkComputeProof
  generate_proof p task commitment count seconds = record new_proof {
    task_id = if str_eq task.task_id "" then "task_" ++ to_string count else task.task_id;
    prover_endpoint = p.prover_endpoint;
    compute_type = task.compute_type;
    input_hash = sha256 task.input_data;
    resource_commitment = sha256 (bytes_of commitment.commitment_id);
    proof_hash = generate_mock_proof task;
    circuit_identifier = task.circuit_identifier;
    verification_status = "pending";
    created_at = seconds;
  }

  -- `r₁` and `r₂` are what the two calls of `rand` return.
  unfoldable pub verify_proof : ZkComputeProof → ℕ → ℕ → VerificationResult
  verify_proof proof r₁ r₂ =
      let result = record new_result {
        success = true;
        verification_status = "verified";
        verification_time_ms = 100 + r₁ % 200;
        gas_used = 50_000 + r₂ % 100_000;
        verified_hash = sha256 (proof_data proof);
      } in
      if first_byte proof.proof_hash == 0
      then record result {
        success = false;
        verification_status = "invalid_proof";
        error_message = "Proof hash is empty";
      }
      else result
