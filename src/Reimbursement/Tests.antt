-- ===== src/Reimbursement/Tests.antt =====
-- Gas reimbursement, src/gas_reimbursement.cpp, at concrete inputs.
use membra_l3_cpp.Base.{ℕ, ◌+◌, ◌≡◌, refl, true, false, List, [], ◌∷◌, arith, eq_iff}
use membra_l3_cpp.Base.Dict.{lookup, insert, total}
use membra_l3_cpp.Base.Fixed.{fixed}
use membra_l3_cpp.Reimbursement.{
  pre_transaction, ReimbursementRequest, ReimbursementRecord, GasPoolConfig, WalletBalanceState,
  default_config, default_wallet, default_record,
}
use membra_l3_cpp.Reimbursement.Manager.{
  Manager, initial, calculate_reimbursement, calculate_bonus, update_wallet_state, id_of,
  pending_record, submit_request, info_of, processed, process_request, approvable, approved,
  approve_reimbursement, check_wallet_balance, count_approved,
}
use membra_l3_cpp.Reimbursement.Manager.History.{Call, submits, processes, approves, step, run}
use membra_l3_cpp.Reimbursement.Manager.Accounts.{
  approved_amount, IsAccounted, run-IsAccounted, process_request-overpays,
}
use membra_l3_cpp.Reimbursement.Manager.Wallets.{check_wallet_balance-wraps}
use membra_l3_cpp.ZkCompute.{new_proof}
use membra_l3_cpp.Reimbursement.{default_gas_info}
use membra_l3_cpp.Reimbursement.ZkBacked.{
  new_zk_reimbursement, verify_zk_reimbursement, get_zk_status,
}
use membra_l3_cpp.Reimbursement.ZkBacked.Unpaid as unpaid
use membra_l3_cpp.Reimbursement.Pool.{Pools, no_stats}
use membra_l3_cpp.Reimbursement.Pool.Solvency as Solvency
use membra_l3_cpp.Reimbursement.Pool.Solvency.{
  IsSolvent, reserve_funds_iff, step-IsSolvent, reserves,
}

abbrev request : ReimbursementRequest
request = record {
  request_id = "r1";
  transaction_id = "tx1";
  wallet_address = "w1";
  reimbursement_type = pre_transaction;
  gas_cost = 5000;
  requested_amount = 5000;
  justification = "";
  transaction_hash = [];
  created_at = 1;
}

-- One request that was submitted, processed and approved.
abbrev paid_out : List Call
paid_out = submits request 10 1 ∷ processes "r1" 2 ∷ approves "r1" "sig" 3 ∷ []

run-IsAccounted_example : IsAccounted (run initial paid_out)
unfolding run step submit_request id_of update_wallet_state process_request lookup insert
    approved_amount pending_record
run-IsAccounted_example =
    run-IsAccounted paid_out ((λ r e. ground arith), ((λ r e. ground arith), (tt, tt)))

abbrev submitted : Manager
submitted = (submit_request initial request 10 1).1

-- The approved record of the history.
abbrev paid_record : ReimbursementRecord
paid_record = record default_record {
  request_id = "r1";
  transaction_id = "tx1";
  wallet_address = "w1";
  gas_cost = 5000;
  reimbursed_amount = 5000;
  total_amount = 5000;
  status = "approved";
  processed_at = 3;
  approval_signature = "sig";
}

process_request-overpays_example :
    let m = (process_request (run initial paid_out) "r1" 4).1 in
    let m' = (approve_reimbursement m "r1" "sig" 5).1 in
    m'.stats.total_reimbursed ≡ total approved_amount m'.records + 5000
unfolding run step submit_request id_of update_wallet_state process_request approve_reimbursement
    lookup insert count_approved approvable processed pending_record info_of calculate_reimbursement
    calculate_bonus approved total approved_amount
process_request-overpays_example =
    process_request-overpays (run initial paid_out) "r1" "sig" 4 5 request paid_record refl refl
      refl refl (omega arith)

abbrev noted_wallet : WalletBalanceState
noted_wallet = record default_wallet {
  wallet_address = "w1";
  pending_reimbursements = 5000;
  last_updated = 1;
  is_below_threshold = true;
}

check_wallet_balance-wraps_example :
    (noted_wallet.current_balance ≡ 0)
    × (check_wallet_balance (run initial paid_out) "w1" 1_000_000_000 ≡ true)
unfolding run step submit_request id_of update_wallet_state process_request approve_reimbursement
    lookup insert approvable processed pending_record
check_wallet_balance-wraps_example =
    check_wallet_balance-wraps paid_out "w1" 1_000_000_000 noted_wallet refl (omega arith)
      (omega arith)

-- A pool with 8000 of 10000 lamports available and 1000 reserved.
abbrev pool : GasPoolConfig
pool = record default_config {
  pool_id = "p1";
  total_pool_balance = 10_000;
  available_balance = 8000;
}

abbrev pools : Pools ℕ
pools = record { configs = ("p1", pool) ∷ []; reserved = ("p1", 1000) ∷ []; stats = no_stats }

pools-IsSolvent : IsSolvent pools
unfolding lookup
pools-IsSolvent = record {
  covered = λ id config e. ground (arith, eq_iff "p1" id);
  bounded = λ id. ground arith;
}

step-IsSolvent_example : IsSolvent (Solvency.step pools (reserves "p1" 7000))
step-IsSolvent_example = step-IsSolvent pools (reserves "p1" 7000) tt pools-IsSolvent

abbrev zk_calls : List unpaid.Call
zk_calls =
    unpaid.requests default_gas_info new_proof 3 ∷ unpaid.verifies "zk_gas_3" new_proof 4 ∷ []

run-verify_zk_reimbursement_example :
    let z = unpaid.run ℕ (new_zk_reimbursement ℕ) zk_calls in
    ((verify_zk_reimbursement ℕ z "zk_gas_3" new_proof 5).0 ≡ false)
    × ((get_zk_status z "zk_gas_3").total_amount ≡ 0)
run-verify_zk_reimbursement_example =
    unpaid.run-verify_zk_reimbursement ℕ zk_calls "zk_gas_3" new_proof 5
