-- ===== src/Preservation/Watching.antt =====
-- The statuses that `WalletPreservationMonitor` of src/zero_balance_preservation.cpp gives.
use membra_l3_cpp.Base.{
  ℕ, ◌≤◌, ◌≡◌, refl, ◌∙◌, ◌⊎◌, inl, inr, String, some, arith, if◌then◌else◌, Option-cases,
}
use membra_l3_cpp.Base.Dict.{lookup, lookup-insert_self}
use membra_l3_cpp.Merkle.{Bytes}
use membra_l3_cpp.Preservation.{
  WalletSnapshot, PreservationStatus, active, monitored, PreservationAction, no_action, archive,
  restore, freeze, unfreeze, transfer_funds, notify_user, governance_review, Monitor, is_exempt,
  check_wallet_status, needs_preservation, get_wallet_status, watched, set_status, create_snapshot,
  snapshot_of, refreshed, update_wallet_state,
}

watched-cases : (a : PreservationAction) → (watched a ≡ active) ⊎ (watched a ≡ monitored)
watched-cases no_action = inl refl
watched-cases archive = inr refl
watched-cases restore = inr refl
watched-cases freeze = inr refl
watched-cases unfreeze = inr refl
watched-cases transfer_funds = inr refl
watched-cases notify_user = inr refl
watched-cases governance_review = inr refl

check_wallet_status-needs_preservation :
    (m : Monitor) (wallet : String) (balance : ℕ)
    → m.policy.critical_threshold ≤ m.policy.preservation_threshold
    → watched (check_wallet_status m wallet balance)
      ≡ (if needs_preservation m wallet balance then monitored else active)
unfolding check_wallet_status needs_preservation
check_wallet_status-needs_preservation m wallet balance h = ground arith

-- The policy is all that `needs_preservation` reads of the monitor.
needs_preservation-policy :
    (m m' : Monitor) (wallet : String) (balance : ℕ)
    → m'.policy ≡ m.policy
    → needs_preservation m' wallet balance ≡ needs_preservation m wallet balance
unfolding needs_preservation is_exempt
needs_preservation-policy m m' wallet balance same = rw same refl

pub get_wallet_status-set_status :
    (m : Monitor) (wallet : String) (status : PreservationStatus)
    → get_wallet_status (set_status m wallet status) wallet ≡ status
unfolding get_wallet_status
get_wallet_status-set_status m wallet status =
    rw (get_wallet_status, lookup-insert_self wallet status m.wallet_statuses) refl

module _ (sha256 : Bytes → Bytes) where
  -- The snapshots change, and nothing else.
  refreshed-policy :
      (m : Monitor) (wallet : String) (balance t₁ t₂ : ℕ)
      → ((refreshed sha256 m wallet balance t₁ t₂).policy ≡ m.policy)
        × ((s : WalletSnapshot) × (lookup wallet
                (refreshed sha256 m wallet balance t₁ t₂).wallet_snapshots
              ≡ some s)
            × (s.balance ≡ balance))
  unfolding create_snapshot
  refreshed-policy m wallet balance t₁ t₂ = elim (Option-cases (lookup wallet m.wallet_snapshots)) [
    | inl gone ↦
        rw (refreshed, gone)
          (
            refl,
            (
              snapshot_of sha256 wallet balance t₁ t₂,
              lookup-insert_self _ _ m.wallet_snapshots,
              refl,
            ),
          )
    | inr (s, found) ↦
        rw (refreshed, found)
          (
            refl,
            (
              record s { balance = balance; last_activity_timestamp = t₁ },
              lookup-insert_self _ _ m.wallet_snapshots,
              refl,
            ),
          )
  ]

  -- `update_wallet_state` records the new balance, and its status says whether the wallet needs
  -- preservation at that balance, if the critical threshold is not above the other: it is MONITORED if
  -- so and ACTIVE if not, whatever the status was before.
  pub update_wallet_state-needs_preservation :
      (m : Monitor) (wallet : String) (balance t₁ t₂ : ℕ)
      → m.policy.critical_threshold ≤ m.policy.preservation_threshold
      → let m' = update_wallet_state sha256 m wallet balance t₁ t₂ in
        (get_wallet_status m' wallet
          ≡ (if needs_preservation m wallet balance then monitored else active))
        × ((s : WalletSnapshot) × (lookup wallet m'.wallet_snapshots ≡ some s)
            × (s.balance ≡ balance))
  unfolding update_wallet_state
  update_wallet_state-needs_preservation m wallet balance t₁ t₂ h =
      let m' = refreshed sha256 m wallet balance t₁ t₂ in
      let (kept, entered) = refreshed-policy m wallet balance t₁ t₂ in
      (
        get_wallet_status-set_status m' wallet (watched (check_wallet_status m' wallet balance))
            ∙ check_wallet_status-needs_preservation m' wallet balance (rw kept h)
            ∙ rw (needs_preservation-policy m m' wallet balance kept) refl,
        entered,
      )

  -- Whatever the status was, `update_wallet_state` leaves the wallet active or monitored.
  pub update_wallet_state-watched :
      (m : Monitor) (wallet : String) (balance t₁ t₂ : ℕ)
      → let status = get_wallet_status (update_wallet_state sha256 m wallet balance t₁ t₂) wallet in
        (status ≡ active) ⊎ (status ≡ monitored)
  unfolding update_wallet_state
  update_wallet_state-watched m wallet balance t₁ t₂ =
      let m' = refreshed sha256 m wallet balance t₁ t₂ in
      rw (get_wallet_status-set_status m' wallet (watched (check_wallet_status m' wallet balance)))
        (watched-cases (check_wallet_status m' wallet balance))
