-- ===== src/Reimbursement/Manager/Amounts.antt =====
-- The amounts that src/gas_reimbursement.cpp computes for one transaction.
use membra_l3_cpp.Base.{ℕ, ◌*◌, ◌/◌, ◌^◌, ◌≤◌, ◌<◌, ◌≡◌, String, some, min, arith, if◌then◌else◌}
use membra_l3_cpp.Base.Dict.{lookup, get_or, lookup-insert_self}
use membra_l3_cpp.Reimbursement.{
  TransactionGasInfo, ReimbursementRequest, GasPoolConfig, default_record,
}
use membra_l3_cpp.Reimbursement.Manager.{
  Manager, calculate_reimbursement, calculate_bonus, process_request, processed,
  get_reimbursement_status, info_of,
}

-- Where the product of gas cost and rate fits 64 bits, a reimbursement is 0 for a failed transaction, and
-- the rate of the gas cost, rounded down and cut to the pool's cap per transaction, for a successful one.
pub calculate_reimbursement_lem :
    (info : TransactionGasInfo) (config : GasPoolConfig)
    → info.total_gas_cost * config.reimbursement_rate_bps < 2 ^ 64
    → calculate_reimbursement info config ≡ (
        if info.success
        then min
            (info.total_gas_cost * config.reimbursement_rate_bps / 10_000)
            config.max_reimbursement_per_tx
        else 0)
unfolding calculate_reimbursement
calculate_reimbursement_lem info config fits = ground arith

-- Where the product of gas cost and rate fits 64 bits, a bonus is 0 for a failed transaction, and the
-- rate of the gas cost, rounded down and cut to half of the gas cost, for a successful one.
pub calculate_bonus_lem :
    (info : TransactionGasInfo) (config : GasPoolConfig)
    → info.total_gas_cost * config.bonus_rate_bps < 2 ^ 64
    → calculate_bonus info config ≡ (
        if info.success
        then min (info.total_gas_cost * config.bonus_rate_bps / 10_000) (info.total_gas_cost / 2)
        else 0)
unfolding calculate_bonus
calculate_bonus_lem info config fits = ground arith

-- Whatever wraps, a reimbursement is within the pool's cap per transaction, and a bonus within half of
-- the gas cost.
pub payouts_bounded :
    (info : TransactionGasInfo) (config : GasPoolConfig)
    → (calculate_reimbursement info config ≤ config.max_reimbursement_per_tx)
      × (calculate_bonus info config ≤ info.total_gas_cost / 2)
unfolding calculate_reimbursement calculate_bonus
payouts_bounded info config = ground arith

-- `process_request` of a known request whose gas cost times 10000 fits 64 bits returns the record that
-- it stores: the whole gas cost up to 10000000 lamports, no bonus, and a status that still wants
-- approval. The statistics stay as they were.
pub process_request_lem :
    (m : Manager) (id : String) (now : ℕ) (request : ReimbursementRequest)
    → lookup id m.requests ≡ some request
    → request.gas_cost * 10_000 < 2 ^ 64
    → let (r, m') = process_request m id now in
      (get_reimbursement_status m' id ≡ r)
      × (r.reimbursed_amount ≡ min request.gas_cost 10_000_000)
      × (r.bonus_amount ≡ 0)
      × (r.total_amount ≡ r.reimbursed_amount)
      × (r.status ≡ "pending_approval")
      × (m'.stats ≡ m.stats)
unfolding process_request processed info_of calculate_reimbursement calculate_bonus
    get_reimbursement_status
process_request_lem m id now request e fits =
    let r = processed request (get_or default_record (lookup id m.records)) now in
    ground (arith, lookup-insert_self id r m.records)
