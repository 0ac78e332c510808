-- ===== src/Reimbursement/ZkBacked.antt =====
-- `ZKGasReimbursement` of src/gas_reimbursement.cpp, over any type `W` of doubles, with the
-- `ZKComputeManager` that it makes for itself. Readings of the clock are arguments.
pub mod Unpaid
use Prim.Native.String.{◌++◌}
use membra_l3_cpp.Base.{
  ℕ, ◌≡◌, refl, ap, ◌∙◌, String, str_eq, Bool, true, false, none, some, List, [], ◌∷◌, arith,
  if◌then◌else◌, inl, inr, Option-cases,
}
use membra_l3_cpp.Base.Decimal.{to_string}
use membra_l3_cpp.Base.Dict.{Dict, lookup, insert, lookup-insert_self}
use membra_l3_cpp.Base.Double.{Double}
use membra_l3_cpp.ZkCompute.{ZkComputeProof, VerificationResult, new_result}
use membra_l3_cpp.ZkCompute.Manager.{ZkComputeManager, new_manager, get_task_status, at_least_one}
use membra_l3_cpp.Reimbursement.{
  TransactionGasInfo, ReimbursementRecord, zk_compute_backed, default_gas_info, default_record,
}

pub record ZkGasReimbursement (W : Type 0) : Type 0 where
  pub zk_records : Dict ReimbursementRecord
  pub zk_manager : ZkComputeManager W

module _ {W : Type 0} where
  -- The proof is not looked at. `count` is read for the id.
  unfoldable pub request_zk_reimbursement :
      ZkGasReimbursement W → TransactionGasInfo → ZkComputeProof → ℕ → String × ZkGasReimbursement W
  request_zk_reimbursement z gas_info proof count =
      let request_id = "zk_gas_" ++ to_string count in
      (
        request_id,
        record z {
          zk_records =
              insert request_id
                (record default_record {
                  request_id = request_id;
                  transaction_id = gas_info.transaction_id;
                  wallet_address = gas_info.wallet_address;
                  reimbursement_type = zk_compute_backed;
                  gas_cost = gas_info.total_gas_cost;
                  status = "pending_zk_verification";
                })
                z.zk_records;
        },
      )

  unfoldable pub get_zk_status : ZkGasReimbursement W → String → ReimbursementRecord
  get_zk_status z request_id = elim (lookup request_id z.zk_records) [
    | none ↦ record default_record { request_id = request_id; status = "not_found" }
    | some entry ↦ entry
  ]

  -- The result that `verify_zk_reimbursement` makes of the status of the proof's task.
  abbrev pub zk_verification : ZkComputeManager W → String → VerificationResult
  zk_verification m task_id =
      if str_eq (get_task_status m task_id).verification_status "verified"
      then record new_result { success = true; verification_status = "verified" }
      else record new_result {
        success = false;
        verification_status = "failed";
        error_message = "Proof not verified";
      }

module _ (W : Type 0) ⦃d : Double W⦄ where
  abbrev pub new_zk_reimbursement : ZkGasReimbursement W
  new_zk_reimbursement = record { zk_records = []; zk_manager = new_manager }

  -- `std::min(2.0, x)`.
  abbrev at_most_two : W → W
  at_most_two x = if d.lt x (d.lit 2 1) then x else d.lit 2 1

  unfoldable pub calculate_zk_amount : TransactionGasInfo → VerificationResult → ℕ
  calculate_zk_amount gas_info verification = d.to_u64 (
      d.mul (d.of_u64 gas_info.total_gas_cost) (
        at_most_two
          (d.div (d.lit 1000 1) (at_least_one (d.of_u64 verification.verification_time_ms)))))

  -- The record of a verified request.
  abbrev pub zk_paid : ReimbursementRecord → VerificationResult → ℕ → ReimbursementRecord
  zk_paid entry verification now =
      let zk_amount =
        calculate_zk_amount
          (record default_gas_info {
            transaction_id = entry.transaction_id;
            wallet_address = entry.wallet_address;
            total_gas_cost = entry.gas_cost;
            success = true;
          })
          verification in
      record entry {
        reimbursed_amount = zk_amount;
        total_amount = zk_amount;
        status = "zk_verified";
        processed_at = now;
      }

  unfoldable pub verify_zk_reimbursement :
      ZkGasReimbursement W → String → ZkComputeProof → ℕ → Bool × ZkGasReimbursement W
  verify_zk_reimbursement z request_id proof now = elim (lookup request_id z.zk_records) [
    | none ↦ (false, z)
    | some entry ↦
        let verification = zk_verification z.zk_manager proof.task_id in
        if verification.success
        then (
          true,
          record z { zk_records = insert request_id (zk_paid entry verification now) z.zk_records },
        )
        else (
          false,
          record z {
            zk_records =
                insert request_id (record entry { status = "zk_verification_failed" }) z.zk_records;
          },
        )
  ]
