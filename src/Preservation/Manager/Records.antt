-- ===== src/Preservation/Manager/Records.antt =====
-- Archived wallets and their statistics in src/zero_balance_preservation.cpp.
use membra_l3_cpp.Base.{
  ℕ, ◌+◌, ◌%◌, ◌^◌, ◌<◌, ◌≡◌, refl, inl, inr, String, str_eq, true, false, some, List, [], ◌∷◌,
  if◌then◌else◌, arith, Option-cases, Bool-cases,
}
use membra_l3_cpp.Base.Dict.{lookup, insert, lookup-insert_self}
use membra_l3_cpp.Base.Double.{Double}
use membra_l3_cpp.Base.Word.{add64, sub64}
use membra_l3_cpp.Merkle.{Bytes}
use membra_l3_cpp.Preservation.{PreservationRecord, recovered, restore, update_wallet_state}
use membra_l3_cpp.Preservation.Manager.{
  Manager, generate_record_id, preserve_wallet, restore_wallet, freeze_wallet, unfreeze_wallet,
  transfer_maintenance_funds, request_governance_review, new_preservation_manager,
  preservation_record,
}
use membra_l3_cpp.Preservation.Manager.Freezing.{
  Call, preserves, restores, transfers, freezes, unfreezes, reviews, step, run,
}

module _ {W : Type 0} where
  -- The statistics are 64-bit numbers, and the active preservations are those that were made and not
  -- restored, modulo 2 ^ 64.
  pub record IsTallied (m : Manager W) : Type 0 where
    pub active_fits : m.stats.active_preservations < 2 ^ 64
    pub made_fits : m.stats.total_preservations < 2 ^ 64
    pub tally :
        (m.stats.active_preservations + m.stats.total_restorations) % 2 ^ 64
        ≡ m.stats.total_preservations

module _ {W : Type 0} (sha256 : Bytes → Bytes) where
  restore_wallet-IsTallied :
      (m : Manager W) (id key : String) (t₁ t₂ t₃ : ℕ)
      → IsTallied m
      → IsTallied (restore_wallet sha256 m id key t₁ t₂ t₃).1
  unfolding restore_wallet
  restore_wallet-IsTallied m id key t₁ t₂ t₃ h =
      elim (Option-cases (lookup id m.preservation_records)) [
        | inl gone ↦ rw (restore_wallet, gone) h
        | inr (r, found) ↦ elim (Bool-cases (str_eq r.recovery_key key)) [
          | inl good ↦
              rw (restore_wallet, found, good)
                (record {
                  active_fits = omega arith;
                  made_fits = h.made_fits;
                  tally = omega (arith, h.tally, h.active_fits);
                })
          | inr bad ↦ rw (restore_wallet, found, bad) h
        ]
      ]

  unfreeze_wallet-IsTallied :
      (m : Manager W) (wallet : String) → IsTallied m → IsTallied (unfreeze_wallet m wallet).1
  unfolding unfreeze_wallet
  unfreeze_wallet-IsTallied m wallet h =
      elim (Option-cases (lookup wallet m.preservation_records)) [
        | inl gone ↦ rw (unfreeze_wallet, gone) h
        | inr (r, found) ↦
            rw (unfreeze_wallet, found)
              (record { active_fits = h.active_fits; made_fits = h.made_fits; tally = h.tally })
      ]

  step-IsTallied : (m : Manager W) (c : Call) → IsTallied m → IsTallied (step sha256 m c)
  unfolding step preserve_wallet transfer_maintenance_funds freeze_wallet request_governance_review
  step-IsTallied m (preserves wallet balance ms t₁ t₂ t₃ t₄ t₅) h = record {
    active_fits = omega arith;
    made_fits = omega arith;
    tally = omega (arith, h.tally);
  }
  step-IsTallied m (restores id key t₁ t₂ t₃) h = restore_wallet-IsTallied m id key t₁ t₂ t₃ h
  step-IsTallied m (transfers wallet amount t₁ t₂ t₃ t₄) h = record {
    active_fits = h.active_fits;
    made_fits = h.made_fits;
    tally = h.tally;
  }
  step-IsTallied m (freezes wallet reason ms t₁) h = record {
    active_fits = h.active_fits;
    made_fits = h.made_fits;
    tally = h.tally;
  }
  step-IsTallied m (unfreezes wallet) h = unfreeze_wallet-IsTallied m wallet h
  step-IsTallied m (reviews wallet reason t₁ t₂) h = record {
    active_fits = h.active_fits;
    made_fits = h.made_fits;
    tally = h.tally;
  }

  run-IsTallied_from : (cs : List Call) (m : Manager W) → IsTallied m → IsTallied (run sha256 m cs)
  unfolding run
  run-IsTallied_from [] m h = h
  run-IsTallied_from (c ∷ cs) m h = run-IsTallied_from cs (step sha256 m c) (step-IsTallied m c h)

  -- What `restore_wallet` does with the right key.
  abbrev after_restore : Manager W → String → PreservationRecord → ℕ → ℕ → ℕ → Manager W
  after_restore m id r t₁ t₂ t₃ = record {
    preservation_records =
        insert id (record r { status = recovered; action_taken = restore; recovery_timestamp = t₁ })
          m.preservation_records;
    monitor = update_wallet_state sha256 m.monitor r.wallet_address r.balance_at_preservation t₂ t₃;
    stats = record m.stats {
      total_restorations = add64 m.stats.total_restorations 1;
      active_preservations = sub64 m.stats.active_preservations 1;
    };
  }

  restore_wallet-found :
      (m : Manager W) (id key : String) (r : PreservationRecord) (t₁ t₂ t₃ : ℕ)
      → lookup id m.preservation_records ≡ some r
      → restore_wallet sha256 m id key t₁ t₂ t₃
        ≡ (if str_eq r.recovery_key key then (true, after_restore m id r t₁ t₂ t₃) else (false, m))
  unfolding restore_wallet
  restore_wallet-found m id key r t₁ t₂ t₃ found = rw (restore_wallet, found) refl

  -- The key that restores a wallet which was preserved is the empty one and no other: no operation gives
  -- a record a key. A second restoration succeeds as well, and is taken off the active preservations
  -- once more.
  pub preserve_wallet-restore_wallet :
      (m : Manager W) (wallet key : String) (balance ms t₁ t₂ t₃ t₄ t₅ t₆ t₇ t₈ t₉ u₁ u₂ : ℕ)
      → let (id, m₁) = preserve_wallet sha256 m wallet balance ms t₁ t₂ t₃ t₄ t₅ in
        let (restored, m₂) = restore_wallet sha256 m₁ id key t₆ t₇ t₈ in
        let (again, m₃) = restore_wallet sha256 m₂ id key t₉ u₁ u₂ in
        (restored ≡ str_eq "" key)
        × (again ≡ str_eq "" key)
        × (m₃.stats.active_preservations ≡ (
            if str_eq "" key
            then sub64 (sub64 (add64 m.stats.active_preservations 1) 1) 1
            else add64 m.stats.active_preservations 1))
  unfolding preserve_wallet
  preserve_wallet-restore_wallet m wallet key balance ms t₁ t₂ t₃ t₄ t₅ t₆ t₇ t₈ t₉ u₁ u₂ =
      let id = generate_record_id ms in
      let m₁ = (preserve_wallet sha256 m wallet balance ms t₁ t₂ t₃ t₄ t₅).1 in
      let r = preservation_record sha256 m id wallet balance t₁ t₂ t₃ in
      let found = lookup-insert_self id r m.preservation_records in
      let r' = record r { status = recovered; action_taken = restore; recovery_timestamp = t₆ } in
      let m₂ = after_restore m₁ id r t₆ t₇ t₈ in
      let found' = lookup-insert_self id r' m₁.preservation_records in
      elim (Bool-cases (str_eq "" key)) [
        | inl empty ↦
            rw
              (
                restore_wallet-found m₁ id key r t₆ t₇ t₈ found,
                empty,
                restore_wallet-found m₂ id key r' t₉ u₁ u₂ found',
                empty,
              )
              (refl, refl, refl)
        | inr other ↦
            rw
              (
                restore_wallet-found m₁ id key r t₆ t₇ t₈ found,
                other,
                restore_wallet-found m₁ id key r t₉ u₁ u₂ found,
                other,
              )
              (refl, refl, refl)
      ]

module _ (W : Type 0) ⦃d : Double W⦄ (sha256 : Bytes → Bytes) where
  -- From the start, after any calls, `active_preservations` and `total_restorations` add up to
  -- `total_preservations`, modulo 2 ^ 64.
  pub run-IsTallied : (cs : List Call) → IsTallied {W = W} (run sha256 new_preservation_manager cs)
  run-IsTallied cs =
      run-IsTallied_from sha256 cs new_preservation_manager
        (record { active_fits = omega arith; made_fits = omega arith; tally = refl })
