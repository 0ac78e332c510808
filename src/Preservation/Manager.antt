-- ===== src/Preservation/Manager.antt =====
-- `WalletPreservationManager` of src/zero_balance_preservation.cpp, over any type `W` of doubles.
-- `preservation_records_` is a `std::map`, whose loops take the records in the order of the keys. A
-- reading of the clock in milliseconds is `ms`; the others are the t's, in the order of their reading.
pub mod Records
pub mod Freezing
use Prim.Native.String.{◌++◌}
use mathlib.Core.List.{◌++◌ as append_lists}
use membra_l3_cpp.Base.{
  ℕ, String, str_eq, Bool, true, false, none, some, List, [], ◌∷◌, if◌then◌else◌,
}
use membra_l3_cpp.Base.Bytes.{bytes_of, le_bytes, hash_to_hex}
use membra_l3_cpp.Base.Decimal.{to_string}
use membra_l3_cpp.Base.Dict.{Dict, lookup, insert}
use membra_l3_cpp.Base.Double.{Double}
use membra_l3_cpp.Base.Ordered.{in_key_order}
use membra_l3_cpp.Base.Word.{add64, sub64}
use membra_l3_cpp.Merkle.{Bytes}
use membra_l3_cpp.Preservation.{
  PreservationStatus, active, monitored, preserved, recovered, governance_locked, emergency_frozen,
  PreservationAction, archive, restore, freeze, unfreeze, governance_review, WalletSnapshot,
  PreservationRecord, new_record, Monitor, new_monitor, set_status, create_snapshot,
  update_wallet_state,
}

pub record PreservationStats (W : Type 0) : Type 0 where
  pub total_preservations : ℕ
  pub total_restorations : ℕ
  pub total_funds_transferred : ℕ
  pub total_frozen : ℕ
  pub active_preservations : ℕ
  pub average_preservation_time_hours : W

pub record Manager (W : Type 0) : Type 0 where
  pub preservation_records : Dict PreservationRecord
  pub monitor : Monitor
  pub stats : PreservationStats W

abbrev pub generate_record_id : ℕ → String
generate_record_id ms = "preserve_" ++ to_string ms

-- `metadata[key] = reason`, in a record that is frozen.
abbrev pub frozen : PreservationRecord → String → PreservationRecord
frozen r reason = record r {
  status = emergency_frozen;
  action_taken = freeze;
  metadata = insert "freeze_reason" reason r.metadata;
}

-- The records after `freeze_wallet`: a wallet's record is looked up under its address, and entered under
-- an id.
abbrev pub with_frozen : Dict PreservationRecord → String → String → ℕ → ℕ → Dict PreservationRecord
with_frozen records wallet reason ms t₁ = elim (lookup wallet records) [
  | none ↦
      insert (generate_record_id ms)
        (frozen
          (record new_record {
            record_id = generate_record_id ms;
            wallet_address = wallet;
            preservation_timestamp = t₁;
          })
          reason)
        records
  | some r ↦ insert wallet (frozen r reason) records
]

abbrev pub is_preserved : PreservationStatus → Bool
is_preserved preserved = true
is_preserved _ = false

history_of : String → Dict PreservationRecord → List PreservationRecord
history_of wallet [] = []
history_of wallet ((id, r) ∷ rest) =
    let others = history_of wallet rest in
    if str_eq r.wallet_address wallet then r ∷ others else others

preserved_of : Dict PreservationRecord → List PreservationRecord
preserved_of [] = []
preserved_of ((id, r) ∷ rest) =
    let others = preserved_of rest in if is_preserved r.status then r ∷ others else others

unfoldable pub archive_snapshot : (Bytes → Bytes) → WalletSnapshot → String
archive_snapshot sha256 snapshot =
    "ipfs://"
    ++ hash_to_hex
        (sha256 (append_lists (bytes_of snapshot.wallet_address) (le_bytes 8 snapshot.balance)))

module _ {W : Type 0} where
  unfoldable pub freeze_wallet : Manager W → String → String → ℕ → ℕ → Bool × Manager W
  freeze_wallet m wallet reason ms t₁ = (
    true,
    record m {
      preservation_records = with_frozen m.preservation_records wallet reason ms t₁;
      monitor = set_status m.monitor wallet emergency_frozen;
      stats = record m.stats { total_frozen = add64 m.stats.total_frozen 1 };
    },
  )

  unfoldable pub unfreeze_wallet : Manager W → String → Bool × Manager W
  unfreeze_wallet m wallet = elim (lookup wallet m.preservation_records) [
    | none ↦ (false, m)
    | some r ↦ (
      true,
      record m {
        preservation_records =
            insert wallet (record r { status = active; action_taken = unfreeze })
              m.preservation_records;
        monitor = set_status m.monitor wallet active;
      },
    )
  ]

  unfoldable pub request_governance_review :
      Manager W → String → String → ℕ → ℕ → String × Manager W
  request_governance_review m wallet reason t₁ t₂ =
      let request_id = "gov_review_" ++ to_string t₁ in
      (
        request_id,
        record m {
          preservation_records =
              insert request_id
                (record new_record {
                  record_id = request_id;
                  wallet_address = wallet;
                  status = governance_locked;
                  action_taken = governance_review;
                  preservation_timestamp = t₂;
                  metadata = ("review_reason", reason) ∷ [];
                })
                m.preservation_records;
        },
      )

  unfoldable pub get_preservation_record : Manager W → String → PreservationRecord
  get_preservation_record m record_id = elim (lookup record_id m.preservation_records) [
    | none ↦ record new_record { record_id = record_id }
    | some r ↦ r
  ]

  unfoldable pub get_wallet_history : Manager W → String → List PreservationRecord
  unfolding history_of
  get_wallet_history m wallet = history_of wallet (in_key_order m.preservation_records)

  unfoldable pub get_all_preserved : Manager W → List PreservationRecord
  unfolding preserved_of
  get_all_preserved m = preserved_of (in_key_order m.preservation_records)

  unfoldable pub get_stats : Manager W → PreservationStats W
  get_stats m = m.stats

  module _ (sha256 : Bytes → Bytes) where
    -- The record that `preserve_wallet` enters; `t₁`, `t₂` are read for the snapshot, `t₃` here.
    abbrev pub preservation_record :
        Manager W → String → String → ℕ → ℕ → ℕ → ℕ → PreservationRecord
    preservation_record m id wallet current_balance t₁ t₂ t₃ =
        let snapshot = (create_snapshot sha256 m.monitor wallet current_balance t₁ t₂).0 in
        record new_record {
          record_id = id;
          wallet_address = wallet;
          status = preserved;
          action_taken = archive;
          balance_at_preservation = current_balance;
          preservation_amount = m.monitor.policy.minimum_maintenance_amount;
          preservation_timestamp = t₃;
          archive_location = archive_snapshot sha256 snapshot;
        }

    unfoldable pub preserve_wallet :
        Manager W → String → ℕ → ℕ → ℕ → ℕ → ℕ → ℕ → ℕ → String × Manager W
    preserve_wallet m wallet current_balance ms t₁ t₂ t₃ t₄ t₅ =
        let id = generate_record_id ms in
        let monitor = (create_snapshot sha256 m.monitor wallet current_balance t₁ t₂).1 in
        (
          id,
          record {
            preservation_records =
                insert id (preservation_record m id wallet current_balance t₁ t₂ t₃)
                  m.preservation_records;
            monitor = update_wallet_state sha256 monitor wallet current_balance t₄ t₅;
            stats = record m.stats {
              total_preservations = add64 m.stats.total_preservations 1;
              active_preservations = add64 m.stats.active_preservations 1;
            };
          },
        )

    unfoldable pub restore_wallet : Manager W → String → String → ℕ → ℕ → ℕ → Bool × Manager W
    restore_wallet m record_id recovery_key t₁ t₂ t₃ =
        elim (lookup record_id m.preservation_records) [
          | none ↦ (false, m)
          | some r ↦
              if str_eq r.recovery_key recovery_key
              then (
                true,
                record {
                  preservation_records =
                      insert record_id
                        (record r {
                          status = recovered;
                          action_taken = restore;
                          recovery_timestamp = t₁;
                        })
                        m.preservation_records;
                  monitor =
                      update_wallet_state sha256 m.monitor r.wallet_address
                        r.balance_at_preservation t₂ t₃;
                  stats = record m.stats {
                    total_restorations = add64 m.stats.total_restorations 1;
                    active_preservations = sub64 m.stats.active_preservations 1;
                  };
                },
              )
              else (false, m)
        ]

    unfoldable pub transfer_maintenance_funds :
        Manager W → String → ℕ → ℕ → ℕ → ℕ → ℕ → Bool × Manager W
    transfer_maintenance_funds m wallet amount t₁ t₂ t₃ t₄ =
        let (snapshot, monitor) = create_snapshot sha256 m.monitor wallet 0 t₁ t₂ in
        (
          true,
          record m {
            monitor =
                update_wallet_state sha256 monitor wallet (add64 snapshot.balance amount) t₃ t₄;
            stats = record m.stats {
              total_funds_transferred = add64 m.stats.total_funds_transferred amount;
            };
          },
        )

module _ {W : Type 0} ⦃d : Double W⦄ where
  abbrev pub new_preservation_manager : Manager W
  new_preservation_manager = record {
    preservation_records = [];
    monitor = new_monitor;
    stats = record {
      total_preservations = 0;
      total_restorations = 0;
      total_funds_transferred = 0;
      total_frozen = 0;
      active_preservations = 0;
      average_preservation_time_hours = d.lit 0 1;
    };
  }
