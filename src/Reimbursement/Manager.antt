-- ===== src/Reimbursement/Manager.antt =====
-- `GasReimbursementManager` of src/gas_reimbursement.cpp. Each reading of the clock is an argument:
-- `now` in ticks, `millis` for the request id. Of the statistics, the average time is set to 0.0 and
-- never written, and is left out.
pub mod Amounts
pub mod History
pub mod Lifecycle
pub mod Accounts
pub mod Wallets
use membra_l3_cpp.Base.{
  ℕ, ◌+◌, ◌-◌, ◌*◌, ◌/◌, ◌%◌, ◌^◌, ◌≡◌, String, str_eq, Bool, true, false, not, ◌&&◌, ◌||◌, Option,
  none, some, List, [], ◌∷◌, min, arith, ltb, leb, ◌==◌, if◌then◌else◌,
}
use membra_l3_cpp.Base.Decimal.{to_string}
use membra_l3_cpp.Base.Ordered.{in_key_order}
use membra_l3_cpp.Base.Dict.{Dict, lookup, insert, get_or}
use membra_l3_cpp.Base.Word.{add64, sub64, mul64}
use membra_l3_cpp.Reimbursement.{
  TransactionGasInfo, ReimbursementRequest, ReimbursementRecord, GasPoolConfig, WalletBalanceState,
  default_gas_info, default_record, default_config, default_wallet,
}
use Prim.Native.String.{◌++◌}

pub record ReimbursementStats : Type 0 where
  pub total_requests : ℕ
  pub total_approved : ℕ
  pub total_rejected : ℕ
  pub total_reimbursed : ℕ
  pub total_bonus_paid : ℕ

pub record Manager : Type 0 where
  pub requests : Dict ReimbursementRequest
  pub records : Dict ReimbursementRecord
  pub wallet_states : Dict WalletBalanceState
  pub stats : ReimbursementStats

abbrev pub initial : Manager
initial = record {
  requests = [];
  records = [];
  wallet_states = [];
  stats = record {
    total_requests = 0;
    total_approved = 0;
    total_rejected = 0;
    total_reimbursed = 0;
    total_bonus_paid = 0;
  };
}

unfoldable pub calculate_reimbursement : TransactionGasInfo → GasPoolConfig → ℕ
calculate_reimbursement info config =
    let base = mul64 info.total_gas_cost config.reimbursement_rate_bps / 10_000 in
    let capped = min base config.max_reimbursement_per_tx in
    mul64 capped (if info.success then 1 else 0)

unfoldable pub calculate_bonus : TransactionGasInfo → GasPoolConfig → ℕ
calculate_bonus info config =
    if not info.success || (config.bonus_rate_bps == 0)
    then 0
    else min (mul64 info.total_gas_cost config.bonus_rate_bps / 10_000) (info.total_gas_cost / 2)

unfoldable pub update_wallet_state : Manager → String → ℕ → ℕ → Manager
update_wallet_state m address amount now = record m {
  wallet_states = insert address noted m.wallet_states;
}
  where
    state : WalletBalanceState
    state = get_or default_wallet (lookup address m.wallet_states)

    noted : WalletBalanceState
    noted = record state {
      wallet_address = address;
      pending_reimbursements = add64 state.pending_reimbursements amount;
      last_updated = now;
      is_below_threshold =
          if ltb state.current_balance state.min_balance_threshold
          then true
          else state.is_below_threshold;
    }

unfoldable pub generate_request_id : ℕ → String
generate_request_id millis = "gas_req_" ++ to_string millis

unfoldable pub id_of : ReimbursementRequest → ℕ → String
id_of request millis =
    if str_eq request.request_id "" then generate_request_id millis else request.request_id

unfoldable pub pending_record : ReimbursementRequest → String → ReimbursementRecord
pending_record request id = record default_record {
  request_id = id;
  transaction_id = request.transaction_id;
  wallet_address = request.wallet_address;
  reimbursement_type = request.reimbursement_type;
  gas_cost = request.gas_cost;
  status = "pending";
  processed_at = 0;
}

unfoldable pub submit_request : Manager → ReimbursementRequest → ℕ → ℕ → String × Manager
submit_request m request millis now =
    (id, update_wallet_state filed request.wallet_address request.gas_cost now)
  where
    id : String
    id = id_of request millis

    filed : Manager
    filed = record m {
      requests = insert id request m.requests;
      records = insert id (pending_record request id) m.records;
      stats = record m.stats { total_requests = add64 m.stats.total_requests 1 };
    }

abbrev pub not_found : String → ReimbursementRecord
not_found id = record default_record { request_id = id; status = "not_found" }

unfoldable pub count_approved : ReimbursementStats → ReimbursementRecord → ReimbursementStats
count_approved s r = record s {
  total_approved = add64 s.total_approved 1;
  total_reimbursed = add64 s.total_reimbursed r.total_amount;
  total_bonus_paid =
      if ltb 0 r.bonus_amount then add64 s.total_bonus_paid r.bonus_amount else s.total_bonus_paid;
}

unfoldable pub info_of : ReimbursementRequest → TransactionGasInfo
info_of request = record default_gas_info {
  transaction_id = request.transaction_id;
  wallet_address = request.wallet_address;
  total_gas_cost = request.gas_cost;
  transaction_type = "custom";
  success = true;
}

-- The record that `process_request` leaves.
unfoldable pub processed : ReimbursementRequest → ReimbursementRecord → ℕ → ReimbursementRecord
processed request old now = record old {
  reimbursed_amount = amount;
  bonus_amount = bonus;
  total_amount = add64 amount bonus;
  processed_at = now;
  status = if default_config.auto_approve_enabled then "approved" else "pending_approval";
}
  where
    amount : ℕ
    amount = calculate_reimbursement (info_of request) default_config

    bonus : ℕ
    bonus = calculate_bonus (info_of request) default_config

unfoldable pub process_request : Manager → String → ℕ → ReimbursementRecord × Manager
process_request m id now = elim (lookup id m.requests) [
  | none ↦ (not_found id, m)
  | some request ↦
      let r = processed request (get_or default_record (lookup id m.records)) now in
      (
        r,
        record m {
          records = insert id r m.records;
          stats = if default_config.auto_approve_enabled then count_approved m.stats r else m.stats;
        },
      )
]

-- The tests of `approve_reimbursement` and `reject_reimbursement`.
unfoldable pub approvable : ReimbursementRecord → Bool
approvable r = str_eq r.status "pending" || str_eq r.status "pending_approval"

unfoldable pub settled : ReimbursementRecord → Bool
settled r = str_eq r.status "approved" || str_eq r.status "paid"

unfoldable pub approved : ReimbursementRecord → String → ℕ → ReimbursementRecord
approved r signature now = record r {
  status = "approved";
  approval_signature = signature;
  processed_at = now;
}

unfoldable pub rejected : ReimbursementRecord → String → ℕ → ReimbursementRecord
rejected r reason now = record r {
  status = "rejected";
  metadata = insert "rejection_reason" reason r.metadata;
  processed_at = now;
}

unfoldable pub approve_reimbursement : Manager → String → String → ℕ → Bool × Manager
approve_reimbursement m id signature now = elim (lookup id m.records) [
  | none ↦ (false, m)
  | some r ↦
      if approvable r
      then (
        true,
        record m {
          records = insert id (approved r signature now) m.records;
          stats = count_approved m.stats r;
        },
      )
      else (false, m)
]

unfoldable pub reject_reimbursement : Manager → String → String → ℕ → Bool × Manager
reject_reimbursement m id reason now = elim (lookup id m.records) [
  | none ↦ (false, m)
  | some r ↦ if settled r then (false, m) else (
    true,
    record m {
      records = insert id (rejected r reason now) m.records;
      stats = record m.stats { total_rejected = add64 m.stats.total_rejected 1 };
    },
  )
]

-- The available balance is a difference of unsigned numbers.
unfoldable pub check_wallet_balance : Manager → String → ℕ → Bool
check_wallet_balance m address required = elim (lookup address m.wallet_states) [
  | none ↦ true
  | some state ↦
      leb (add64 required state.min_balance_threshold)
        (sub64 state.current_balance state.pending_reimbursements)
]

unfoldable pub get_reimbursement_status : Manager → String → ReimbursementRecord
get_reimbursement_status m id = get_or (not_found id) (lookup id m.records)

unfoldable pub pending_of : Dict ReimbursementRecord → List ReimbursementRecord
pending_of [] = []
pending_of ((id, r) ∷ rest) = if approvable r then r ∷ pending_of rest else pending_of rest

unfoldable pub get_pending_reimbursements : Manager → List ReimbursementRecord
get_pending_reimbursements m = pending_of (in_key_order m.records)
