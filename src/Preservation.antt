-- ===== src/Preservation.antt =====
-- include/zero_balance_preservation.hpp and src/zero_balance_preservation.cpp: the records, and
-- WalletPreservationMonitor. Each reading of the clock is an argument; SHA-256 is OpenSSL's and stands
-- as the parameter `sha256`; numbers lie in memory with their lowest byte first.
pub mod Watching
pub mod Manager
pub mod Recovery
pub mod Governance
mod Tests
use mathlib.Core.List.{◌++◌ as append_lists}
use membra_l3_cpp.Base.{
  ℕ, String, str_eq, Bool, true, false, not, ◌&&◌, ◌||◌, none, some, List, [], ◌∷◌, leb,
  if◌then◌else◌,
}
use membra_l3_cpp.Base.Bytes.{bytes_of, le_bytes}
use membra_l3_cpp.Base.Dict.{Dict, lookup, insert}
use membra_l3_cpp.Merkle.{Bytes, zero_hash}

abbrev pub preservation_threshold_lamports : ℕ
preservation_threshold_lamports = 5000

abbrev pub critical_threshold_lamports : ℕ
critical_threshold_lamports = 1000

abbrev pub archival_cooldown : ℕ
archival_cooldown = 86_400

pub data PreservationStatus : Type 0 where
  active monitored preserved recovered governance_locked emergency_frozen : PreservationStatus

pub data PreservationAction : Type 0 where
  no_action archive restore freeze unfreeze : PreservationAction
  transfer_funds notify_user governance_review : PreservationAction

pub record WalletSnapshot : Type 0 where
  pub wallet_address : String
  pub balance : ℕ
  pub transaction_count : ℕ
  pub last_transaction_hash : String
  pub last_activity_timestamp : ℕ
  pub associated_account : String
  pub metadata : Dict String
  pub state_hash : Bytes
  pub snapshot_timestamp : ℕ

pub record PreservationRecord : Type 0 where
  pub record_id : String
  pub wallet_address : String
  pub status : PreservationStatus
  pub action_taken : PreservationAction
  pub balance_at_preservation : ℕ
  pub preservation_amount : ℕ
  pub preservation_timestamp : ℕ
  pub recovery_timestamp : ℕ
  pub governance_signature : String
  pub recovery_key : String
  pub archive_location : String
  pub metadata : Dict String

-- The default constructor.
abbrev pub new_record : PreservationRecord
new_record = record {
  record_id = "";
  wallet_address = "";
  status = active;
  action_taken = no_action;
  balance_at_preservation = 0;
  preservation_amount = 0;
  preservation_timestamp = 0;
  recovery_timestamp = 0;
  governance_signature = "";
  recovery_key = "";
  archive_location = "";
  metadata = [];
}

pub record PreservationPolicy : Type 0 where
  pub policy_id : String
  pub preservation_threshold : ℕ
  pub critical_threshold : ℕ
  pub minimum_maintenance_amount : ℕ
  pub auto_preserve_enabled : Bool
  pub auto_restore_enabled : Bool
  pub governance_approval_required : Bool
  pub archival_cooldown_seconds : ℕ
  pub exempt_wallets : List String
  pub priority_wallets : List String

-- The default constructor.
abbrev pub new_policy : PreservationPolicy
new_policy = record {
  policy_id = "default";
  preservation_threshold = preservation_threshold_lamports;
  critical_threshold = critical_threshold_lamports;
  minimum_maintenance_amount = 1000;
  auto_preserve_enabled = true;
  auto_restore_enabled = false;
  governance_approval_required = false;
  archival_cooldown_seconds = archival_cooldown;
  exempt_wallets = [];
  priority_wallets = [];
}

pub record Monitor : Type 0 where
  pub wallet_snapshots : Dict WalletSnapshot
  pub wallet_statuses : Dict PreservationStatus
  pub policy : PreservationPolicy

abbrev pub new_monitor : Monitor
new_monitor = record { wallet_snapshots = []; wallet_statuses = []; policy = new_policy }

-- `std::find` on a vector of strings.
unfoldable pub has_wallet : List String → String → Bool
has_wallet [] x = false
has_wallet (y ∷ ys) x = str_eq y x || has_wallet ys x

unfoldable pub is_exempt : Monitor → String → Bool
is_exempt m wallet = has_wallet m.policy.exempt_wallets wallet

-- The test of twice the preservation threshold decides nothing: both its answers are NONE.
unfoldable pub check_wallet_status : Monitor → String → ℕ → PreservationAction
check_wallet_status m wallet current_balance =
    if is_exempt m wallet
    then no_action
    else if leb current_balance m.policy.critical_threshold
    then transfer_funds
    else if leb current_balance m.policy.preservation_threshold
    then notify_user
    else no_action

unfoldable pub needs_preservation : Monitor → String → ℕ → Bool
needs_preservation m wallet current_balance =
    leb current_balance m.policy.preservation_threshold && not (is_exempt m wallet)

unfoldable pub get_wallet_status : Monitor → String → PreservationStatus
get_wallet_status m wallet = elim (lookup wallet m.wallet_statuses) [
  | none ↦ active
  | some status ↦ status
]

unfoldable pub set_policy : Monitor → PreservationPolicy → Monitor
set_policy m policy = record m { policy = policy }

abbrev pub set_status : Monitor → String → PreservationStatus → Monitor
set_status m wallet status = record m { wallet_statuses = insert wallet status m.wallet_statuses }

-- The status after `update_wallet_state`.
abbrev pub watched : PreservationAction → PreservationStatus
watched no_action = active
watched _ = monitored

module _ (sha256 : Bytes → Bytes) where
  unfoldable pub generate_state_hash : WalletSnapshot → Bytes
  generate_state_hash snapshot = sha256 (
      append_lists (append_lists (bytes_of snapshot.wallet_address) (le_bytes 8 snapshot.balance))
        (le_bytes 8 snapshot.snapshot_timestamp))

  -- `t₁` and `t₂` are read for the last activity and for the snapshot.
  abbrev pub snapshot_of : String → ℕ → ℕ → ℕ → WalletSnapshot
  snapshot_of wallet current_balance t₁ t₂ =
      let snapshot : WalletSnapshot = record {
        wallet_address = wallet;
        balance = current_balance;
        transaction_count = 0;
        last_transaction_hash = "";
        last_activity_timestamp = t₁;
        associated_account = "";
        metadata = [];
        state_hash = zero_hash;
        snapshot_timestamp = t₂;
      } in
      record snapshot { state_hash = generate_state_hash snapshot }

  unfoldable pub create_snapshot : Monitor → String → ℕ → ℕ → ℕ → WalletSnapshot × Monitor
  create_snapshot m wallet current_balance t₁ t₂ =
      let snapshot = snapshot_of wallet current_balance t₁ t₂ in
      (snapshot, record m { wallet_snapshots = insert wallet snapshot m.wallet_snapshots })

  -- The snapshots after `update_wallet_state`.
  abbrev pub refreshed : Monitor → String → ℕ → ℕ → ℕ → Monitor
  refreshed m wallet new_balance t₁ t₂ = elim (lookup wallet m.wallet_snapshots) [
    | none ↦ (create_snapshot m wallet new_balance t₁ t₂).1
    | some snapshot ↦ record m {
      wallet_snapshots =
          insert wallet (record snapshot { balance = new_balance; last_activity_timestamp = t₁ })
            m.wallet_snapshots;
    }
  ]

  unfoldable pub update_wallet_state : Monitor → String → ℕ → ℕ → ℕ → Monitor
  update_wallet_state m wallet new_balance t₁ t₂ =
      let m' = refreshed m wallet new_balance t₁ t₂ in
      set_status m' wallet (watched (check_wallet_status m' wallet new_balance))
