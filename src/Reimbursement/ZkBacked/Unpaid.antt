-- ===== src/Reimbursement/ZkBacked/Unpaid.antt =====
-- What `ZKGasReimbursement` of src/gas_reimbursement.cpp can come to: its manager never gets a task.
use membra_l3_cpp.Base.{ℕ, ◌≡◌, refl, String, false, List, [], ◌∷◌, inl, inr, Option-cases}
use membra_l3_cpp.Base.Dict.{lookup, Entries, insert-Entries, nil-Entries}
use membra_l3_cpp.Base.Double.{Double}
use membra_l3_cpp.ZkCompute.{ZkComputeProof}
use membra_l3_cpp.ZkCompute.Manager.{get_task_status}
use membra_l3_cpp.Reimbursement.{TransactionGasInfo}
use membra_l3_cpp.Reimbursement.ZkBacked.{
  ZkGasReimbursement, new_zk_reimbursement, request_zk_reimbursement, verify_zk_reimbursement,
  get_zk_status,
}

-- The calls, with the readings of the clock.
pub data Call : Type 0 where
  requests : TransactionGasInfo → ZkComputeProof → ℕ → Call
  verifies : String → ZkComputeProof → ℕ → Call

module _ (W : Type 0) ⦃d : Double W⦄ where
  unfoldable pub step : ZkGasReimbursement W → Call → ZkGasReimbursement W
  step z (requests gas_info proof count) = (request_zk_reimbursement z gas_info proof count).1
  step z (verifies request_id proof now) = (verify_zk_reimbursement W z request_id proof now).1

  unfoldable pub run : ZkGasReimbursement W → List Call → ZkGasReimbursement W
  run z [] = z
  run z (c ∷ cs) = run (step z c) cs

  abbrev IsUnpaid : ZkGasReimbursement W → Type 0
  IsUnpaid z =
      (z.zk_manager.proofs ≡ []) × Entries (λ id entry. entry.total_amount ≡ 0) z.zk_records

  -- `verify_zk_reimbursement` with a manager that has no proofs.
  verify-IsUnpaid :
      (z : ZkGasReimbursement W) (request_id : String) (proof : ZkComputeProof) (now : ℕ)
      → IsUnpaid z
      → ((verify_zk_reimbursement W z request_id proof now).0 ≡ false)
        × IsUnpaid (verify_zk_reimbursement W z request_id proof now).1
  unfolding verify_zk_reimbursement get_task_status lookup
  verify-IsUnpaid z request_id proof now (empty, unpaid) =
      elim (Option-cases (lookup request_id z.zk_records)) [
        | inl gone ↦ rw (verify_zk_reimbursement, gone) (refl, (empty, unpaid))
        | inr (entry, found) ↦
            rw (verify_zk_reimbursement, found, get_task_status, empty)
              (
                refl,
                (
                  refl,
                  insert-Entries _ request_id (record entry { status = "zk_verification_failed" })
                      z.zk_records unpaid (unpaid request_id entry found),
                ),
              )
      ]

  run-IsUnpaid : (cs : List Call) (z : ZkGasReimbursement W) → IsUnpaid z → IsUnpaid (run z cs)
  unfolding run step request_zk_reimbursement
  run-IsUnpaid [] z h = h
  run-IsUnpaid (requests gas_info proof count ∷ cs) z (empty, unpaid) =
      run-IsUnpaid cs (request_zk_reimbursement z gas_info proof count).1
        (empty, insert-Entries _ _ _ z.zk_records unpaid refl)
  run-IsUnpaid (verifies request_id proof now ∷ cs) z h =
      run-IsUnpaid cs (verify_zk_reimbursement W z request_id proof now).1
        (verify-IsUnpaid z request_id proof now h).1

  unpaid_status :
      (z : ZkGasReimbursement W) (request_id : String)
      → IsUnpaid z
      → (get_zk_status z request_id).total_amount ≡ 0
  unfolding get_zk_status
  unpaid_status z request_id (empty, unpaid) =
      elim (Option-cases (lookup request_id z.zk_records)) [
        | inl gone ↦ rw (get_zk_status, gone) refl
        | inr (entry, found) ↦ rw (get_zk_status, found) (unpaid request_id entry found)
      ]

  -- After any requests and verifications, `verify_zk_reimbursement` of any request and any proof
  -- returns false, and the amount of every request is 0: the manager that is asked is the component's
  -- own, and no call submits a task to it.
  pub run-verify_zk_reimbursement :
      (cs : List Call) (request_id : String) (proof : ZkComputeProof) (now : ℕ)
      → ((verify_zk_reimbursement W (run (new_zk_reimbursement W) cs) request_id proof now).0
          ≡ false)
        × ((get_zk_status (run (new_zk_reimbursement W) cs) request_id).total_amount ≡ 0)
  run-verify_zk_reimbursement cs request_id proof now =
      let h = run-IsUnpaid cs (new_zk_reimbursement W) (refl, nil-Entries _) in
      (
        (verify-IsUnpaid (run (new_zk_reimbursement W) cs) request_id proof now h).0,
        unpaid_status (run (new_zk_reimbursement W) cs) request_id h,
      )
