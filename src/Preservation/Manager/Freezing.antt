-- ===== src/Preservation/Manager/Freezing.antt =====
-- Freezing and unfreezing of wallets in src/zero_balance_preservation.cpp.
use Prim.Native.String.{◌++◌}
use membra_l3_cpp.Base.{
  ℕ, ◌≡◌, refl, ◌⊎◌, inl, inr, String, str_eq, true, List, [], ◌∷◌, arith, Option-cases, Bool-cases,
}
use membra_l3_cpp.Base.Decimal.{to_string}
use membra_l3_cpp.Base.Dict.{Dict, lookup, Entries, insert-Entries, nil-Entries}
use membra_l3_cpp.Base.Double.{Double}
use membra_l3_cpp.Merkle.{Bytes}
use membra_l3_cpp.Preservation.{
  PreservationRecord, active, monitored, emergency_frozen, get_wallet_status,
}
use membra_l3_cpp.Preservation.Watching.{update_wallet_state-watched, get_wallet_status-set_status}
use membra_l3_cpp.Preservation.Manager.{
  Manager, generate_record_id, with_frozen, freeze_wallet, unfreeze_wallet, preserve_wallet,
  restore_wallet, transfer_maintenance_funds, request_governance_review, new_preservation_manager,
}

-- The calls that change the manager, with the readings of the clock.
pub data Call : Type 0 where
  preserves : String → ℕ → ℕ → ℕ → ℕ → ℕ → ℕ → ℕ → Call
  restores : String → String → ℕ → ℕ → ℕ → Call
  transfers : String → ℕ → ℕ → ℕ → ℕ → ℕ → Call
  freezes : String → String → ℕ → ℕ → Call
  unfreezes : String → Call
  reviews : String → String → ℕ → ℕ → Call

-- A key that the manager makes.
abbrev pub IsRecordId : String → Type 0
IsRecordId id =
    ((ms : ℕ) × (id ≡ generate_record_id ms)) ⊎ ((t : ℕ) × (id ≡ "gov_review_" ++ to_string t))

abbrev HasRecordId : Dict PreservationRecord → Type 0
HasRecordId records = Entries (λ id r. IsRecordId id) records

module _ {W : Type 0} (sha256 : Bytes → Bytes) where
  unfoldable pub step : Manager W → Call → Manager W
  step m (preserves wallet balance ms t₁ t₂ t₃ t₄ t₅) =
      (preserve_wallet sha256 m wallet balance ms t₁ t₂ t₃ t₄ t₅).1
  step m (restores id key t₁ t₂ t₃) = (restore_wallet sha256 m id key t₁ t₂ t₃).1
  step m (transfers wallet amount t₁ t₂ t₃ t₄) =
      (transfer_maintenance_funds sha256 m wallet amount t₁ t₂ t₃ t₄).1
  step m (freezes wallet reason ms t₁) = (freeze_wallet m wallet reason ms t₁).1
  step m (unfreezes wallet) = (unfreeze_wallet m wallet).1
  step m (reviews wallet reason t₁ t₂) = (request_governance_review m wallet reason t₁ t₂).1

  unfoldable pub run : Manager W → List Call → Manager W
  run m [] = m
  run m (c ∷ cs) = run (step m c) cs

with_frozen-HasRecordId :
    (records : Dict PreservationRecord) (wallet reason : String) (ms t₁ : ℕ)
    → HasRecordId records
    → HasRecordId (with_frozen records wallet reason ms t₁)
with_frozen-HasRecordId records wallet reason ms t₁ h =
    elim (Option-cases (lookup wallet records)) [
      | inl gone ↦ rw (with_frozen, gone) (insert-Entries _ _ _ records h (inl (ms, refl)))
      | inr (r, found) ↦
          rw (with_frozen, found) (insert-Entries _ wallet _ records h (h wallet r found))
    ]

module _ {W : Type 0} (sha256 : Bytes → Bytes) where
  step-HasRecordId :
      (m : Manager W) (c : Call)
      → HasRecordId m.preservation_records
      → HasRecordId (step sha256 m c).preservation_records
  unfolding step preserve_wallet restore_wallet transfer_maintenance_funds freeze_wallet
      unfreeze_wallet request_governance_review
  step-HasRecordId m (preserves wallet balance ms t₁ t₂ t₃ t₄ t₅) h =
      insert-Entries _ _ _ m.preservation_records h (inl (ms, refl))
  step-HasRecordId m (restores id key t₁ t₂ t₃) h =
      elim (Option-cases (lookup id m.preservation_records)) [
        | inl gone ↦ rw (step, restore_wallet, gone) h
        | inr (r, found) ↦ elim (Bool-cases (str_eq r.recovery_key key)) [
          | inl good ↦
              rw (step, restore_wallet, found, good)
                (insert-Entries _ id _ m.preservation_records h (h id r found))
          | inr bad ↦ rw (step, restore_wallet, found, bad) h
        ]
      ]
  step-HasRecordId m (transfers wallet amount t₁ t₂ t₃ t₄) h = h
  step-HasRecordId m (freezes wallet reason ms t₁) h =
      with_frozen-HasRecordId m.preservation_records wallet reason ms t₁ h
  step-HasRecordId m (unfreezes wallet) h =
      elim (Option-cases (lookup wallet m.preservation_records)) [
        | inl gone ↦ rw (step, unfreeze_wallet, gone) h
        | inr (r, found) ↦
            rw (step, unfreeze_wallet, found)
              (insert-Entries _ wallet _ m.preservation_records h (h wallet r found))
      ]
  step-HasRecordId m (reviews wallet reason t₁ t₂) h =
      insert-Entries _ _ _ m.preservation_records h (inr (t₁, refl))

  run-HasRecordId :
      (cs : List Call) (m : Manager W)
      → HasRecordId m.preservation_records
      → HasRecordId (run sha256 m cs).preservation_records
  unfolding run
  run-HasRecordId [] m h = h
  run-HasRecordId (c ∷ cs) m h = run-HasRecordId cs (step sha256 m c) (step-HasRecordId m c h)

  -- A transfer of maintenance funds undoes a freeze: the wallet is then active or monitored again.
  pub freeze_wallet-transfer_maintenance_funds :
      (m : Manager W) (wallet reason : String) (ms t₁ amount t₂ t₃ t₄ t₅ : ℕ)
      → let frozen_manager = (freeze_wallet m wallet reason ms t₁).1 in
        let funded =
          (transfer_maintenance_funds sha256 frozen_manager wallet amount t₂ t₃ t₄ t₅).1 in
        (get_wallet_status frozen_manager.monitor wallet ≡ emergency_frozen)
        × ((get_wallet_status funded.monitor wallet ≡ active)
            ⊎ (get_wallet_status funded.monitor wallet ≡ monitored))
  unfolding freeze_wallet transfer_maintenance_funds
  freeze_wallet-transfer_maintenance_funds m wallet reason ms t₁ amount t₂ t₃ t₄ t₅ = (
    get_wallet_status-set_status m.monitor wallet emergency_frozen,
    update_wallet_state-watched sha256 _ wallet _ t₄ t₅,
  )

module _ (W : Type 0) ⦃d : Double W⦄ (sha256 : Bytes → Bytes) where
  -- From the start, after any calls, `unfreeze_wallet` succeeds only for an argument that reads like a
  -- key of the manager, "preserve_" or "gov_review_" and a number: no other wallet, frozen or not, can
  -- be unfrozen, because records stand under their ids and are looked up under the wallet's address.
  pub run-unfreeze_wallet :
      (cs : List Call) (wallet : String)
      → (unfreeze_wallet {W = W} (run sha256 new_preservation_manager cs) wallet).0 ≡ true
      → IsRecordId wallet
  unfolding unfreeze_wallet
  run-unfreeze_wallet cs wallet unfrozen =
      let m : Manager W = run sha256 new_preservation_manager cs in
      elim (Option-cases (lookup wallet m.preservation_records)) [
        | inl gone ↦ absurd (ground (arith, gone, unfrozen))
        | inr (r, found) ↦
            run-HasRecordId sha256 cs new_preservation_manager (nil-Entries _) wallet r found
      ]
