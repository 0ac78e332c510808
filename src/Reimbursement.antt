-- ===== src/Reimbursement.antt =====
-- include/gas_reimbursement.hpp and src/gas_reimbursement.cpp: the records that the gas estimator
-- (Estimator), the reimbursement manager (Manager) and the pool manager (Pool) share. Amounts are
-- `uint64_t` with their wrap-around, time stamps are the readings of the clock.
pub mod Estimator
pub mod Manager
pub mod Pool
pub mod ZkBacked
mod Tests
use membra_l3_cpp.Base.{ℕ, String, Bool, false, List, []}
use membra_l3_cpp.Base.Dict.{Dict}

pub data ReimbursementType : Type 0 where
  pre_transaction post_transaction bonus emergency zk_compute_backed : ReimbursementType

pub record TransactionGasInfo : Type 0 where
  pub transaction_id : String
  pub wallet_address : String
  pub estimated_gas_units : ℕ
  pub actual_gas_used : ℕ
  pub gas_price_lamports : ℕ
  pub total_gas_cost : ℕ
  pub transaction_type : String
  pub timestamp : ℕ
  pub success : Bool
  pub error_message : String

pub record ReimbursementRequest : Type 0 where
  pub request_id : String
  pub transaction_id : String
  pub wallet_address : String
  pub reimbursement_type : ReimbursementType
  pub gas_cost : ℕ
  pub requested_amount : ℕ
  pub justification : String
  pub transaction_hash : List ℕ
  pub created_at : ℕ

pub record ReimbursementRecord : Type 0 where
  pub request_id : String
  pub transaction_id : String
  pub wallet_address : String
  pub reimbursement_type : ReimbursementType
  pub gas_cost : ℕ
  pub reimbursed_amount : ℕ
  pub bonus_amount : ℕ
  pub total_amount : ℕ
  pub status : String
  pub processed_at : ℕ
  pub approval_signature : String
  pub metadata : Dict String

pub record GasPoolConfig : Type 0 where
  pub pool_id : String
  pub total_pool_balance : ℕ
  pub available_balance : ℕ
  pub reimbursement_rate_bps : ℕ
  pub bonus_rate_bps : ℕ
  pub max_reimbursement_per_tx : ℕ
  pub min_balance_threshold : ℕ
  pub auto_approve_enabled : Bool
  pub zk_compute_backing_enabled : Bool

pub record WalletBalanceState : Type 0 where
  pub wallet_address : String
  pub current_balance : ℕ
  pub min_balance_threshold : ℕ
  pub is_below_threshold : Bool
  pub pending_reimbursements : ℕ
  pub total_reimbursed : ℕ
  pub last_updated : ℕ

abbrev pub min_balance_lamports : ℕ
min_balance_lamports = 1000

-- The default constructors.
abbrev pub default_gas_info : TransactionGasInfo
default_gas_info = record {
  transaction_id = "";
  wallet_address = "";
  estimated_gas_units = 0;
  actual_gas_used = 0;
  gas_price_lamports = 0;
  total_gas_cost = 0;
  transaction_type = "";
  timestamp = 0;
  success = false;
  error_message = "";
}

abbrev pub default_record : ReimbursementRecord
default_record = record {
  request_id = "";
  transaction_id = "";
  wallet_address = "";
  reimbursement_type = pre_transaction;
  gas_cost = 0;
  reimbursed_amount = 0;
  bonus_amount = 0;
  total_amount = 0;
  status = "pending";
  processed_at = 0;
  approval_signature = "";
  metadata = [];
}

abbrev pub default_config : GasPoolConfig
default_config = record {
  pool_id = "";
  total_pool_balance = 0;
  available_balance = 0;
  reimbursement_rate_bps = 10_000;
  bonus_rate_bps = 0;
  max_reimbursement_per_tx = 10_000_000;
  min_balance_threshold = min_balance_lamports;
  auto_approve_enabled = false;
  zk_compute_backing_enabled = false;
}

abbrev pub default_wallet : WalletBalanceState
default_wallet = record {
  wallet_address = "";
  current_balance = 0;
  min_balance_threshold = min_balance_lamports;
  is_below_threshold = false;
  pending_reimbursements = 0;
  total_reimbursed = 0;
  last_updated = 0;
}
