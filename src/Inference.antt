-- ===== src/Inference.antt =====
-- `ProofOfInference` of include/proof_of_inference.hpp, over any type `W` of doubles. Each method holds
-- the mutex from its first line to its last, so a call is one step; the counters are atomic. Readings of
-- the clock are arguments. SHA-256 is OpenSSL's and stands as the parameter `sha256`. `receipts_` is an
-- association list in the order of its loops.
pub mod Receipts
pub mod Claiming
mod Tests
use Prim.Native.String.{◌++◌}
use membra_l3_cpp.Base.{
  ℕ, ◌%◌, ◌^◌, String, str_eq, Bool, true, false, not, ◌&&◌, Option, none, some, List, [], ◌∷◌,
  length, if◌then◌else◌,
}
use membra_l3_cpp.Base.Bytes.{bytes_of, hash_to_hex}
use membra_l3_cpp.Base.Decimal.{to_string}
use membra_l3_cpp.Base.Dict.{Dict, lookup, insert}
use membra_l3_cpp.Base.Double.{Double}
use membra_l3_cpp.Base.Word.{add64}
use membra_l3_cpp.Merkle.{Bytes}

pub data InferenceType : Type 0 where
  proof_generation validation consensus zk_computation : InferenceType

pub record InferenceReceipt (W : Type 0) : Type 0 where
  pub receipt_id : String
  pub worker_address : String
  pub task_id : String
  pub inference_type : InferenceType
  pub input_hash : ℕ
  pub output_hash : ℕ
  pub compute_units_consumed : ℕ
  pub cpu_cycles : ℕ
  pub memory_bytes_used : ℕ
  pub execution_time_sec : W
  pub timestamp : W
  pub signature : String
  pub verified : Bool
  pub reward_lamports : ℕ
  pub reward_claimed : Bool
  pub reward_claimed_at : W

pub record ProofOfInference (W : Type 0) : Type 0 where
  pub receipts : Dict (InferenceReceipt W)
  pub receipt_counter : ℕ
  pub total_compute_units : ℕ
  pub total_rewards_paid : ℕ

abbrev pub new_inference : {W : Type 0} → ProofOfInference W
new_inference = record {
  receipts = [];
  receipt_counter = 0;
  total_compute_units = 0;
  total_rewards_paid = 0;
}

abbrev pub receipt_id_of : ℕ → String
receipt_id_of n = "infer_" ++ to_string n

module _ {W : Type 0} where
  -- The receipt that `claim_reward` leaves.
  abbrev pub rewarded : InferenceReceipt W → ℕ → W → InferenceReceipt W
  rewarded r amount now = record r {
    reward_lamports = amount;
    reward_claimed = true;
    reward_claimed_at = now;
  }

  unfoldable pub claim_reward : ProofOfInference W → String → ℕ → W → Bool × ProofOfInference W
  claim_reward p id amount now = elim (lookup id p.receipts) [
    | none ↦ (false, p)
    | some r ↦ if not r.verified then (false, p) else if r.reward_claimed then (false, p) else (
      true,
      record p {
        receipts = insert id (rewarded r amount now) p.receipts;
        total_rewards_paid = add64 p.total_rewards_paid amount;
      },
    )
  ]

  unfoldable pub is_replay : ProofOfInference W → String → Bool
  is_replay p id = elim (lookup id p.receipts) [ none ↦ false | some r ↦ r.reward_claimed ]

  -- A copy of what the pointer points to; a write through the pointer is not one of the operations.
  unfoldable pub get_receipt : ProofOfInference W → String → Option (InferenceReceipt W)
  get_receipt p id = lookup id p.receipts

  receipts_of : String → Dict (InferenceReceipt W) → List (InferenceReceipt W)
  receipts_of worker [] = []
  receipts_of worker ((id, r) ∷ rest) =
      let others = receipts_of worker rest in
      if str_eq r.worker_address worker then r ∷ others else others

  unfoldable pub get_worker_receipts : ProofOfInference W → String → List (InferenceReceipt W)
  unfolding receipts_of
  get_worker_receipts p worker = receipts_of worker p.receipts

  unfoldable pub receipt_count : ProofOfInference W → ℕ
  receipt_count p = length p.receipts

module _ {W : Type 0} ⦃d : Double W⦄ where
  -- The receipt before it is signed.
  abbrev pub unsigned_receipt :
      String → String → String → InferenceType → ℕ → ℕ → ℕ → ℕ → ℕ → W → W → InferenceReceipt W
  unsigned_receipt id worker task kind input output units cycles memory time now = record {
    receipt_id = id;
    worker_address = worker;
    task_id = task;
    inference_type = kind;
    input_hash = input;
    output_hash = output;
    compute_units_consumed = units;
    cpu_cycles = cycles;
    memory_bytes_used = memory;
    execution_time_sec = time;
    timestamp = now;
    signature = "";
    verified = false;
    reward_lamports = 0;
    reward_claimed = false;
    reward_claimed_at = d.lit 0 1;
  }

module _ {W : Type 0} ⦃d : Double W⦄ (sha256 : Bytes → Bytes) where
  -- What is signed: the id, the worker, the input's hash and the time stamp.
  unfoldable pub sign_receipt : InferenceReceipt W → String
  sign_receipt r = hash_to_hex (
      sha256 (
        bytes_of
          (r.receipt_id ++ (r.worker_address ++ (to_string r.input_hash ++ d.shown r.timestamp)))))

  unfoldable pub verify_signature : InferenceReceipt W → Bool
  verify_signature r =
      str_eq
        (hash_to_hex (
          sha256 (
            bytes_of (
              r.receipt_id
              ++ (r.worker_address ++ (to_string r.input_hash ++ d.shown r.timestamp))))))
        r.signature

  unfoldable pub create_receipt :
      ProofOfInference W
      → String
      → String
      → InferenceType
      → ℕ
      → ℕ
      → ℕ
      → ℕ
      → ℕ
      → W
      → W
      → String × ProofOfInference W
  create_receipt p worker task kind input output units cycles memory time now =
      let id = receipt_id_of p.receipt_counter in
      let r = unsigned_receipt id worker task kind input output units cycles memory time now in
      (
        id,
        record p {
          receipts = insert id (record r { signature = sign_receipt r }) p.receipts;
          receipt_counter = add64 p.receipt_counter 1;
          total_compute_units = add64 p.total_compute_units units;
        },
      )

  unfoldable pub verify_receipt : ProofOfInference W → String → Bool × ProofOfInference W
  verify_receipt p id = elim (lookup id p.receipts) [
    | none ↦ (false, p)
    | some r ↦
        let verified = verify_signature r in
        (verified, record p { receipts = insert id (record r { verified = verified }) p.receipts })
  ]
