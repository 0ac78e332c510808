-- ===== src/Preservation/Tests.antt =====
-- Zero-balance preservation, src/zero_balance_preservation.cpp, at concrete inputs, with a short checksum
-- in the place of SHA-256.
use membra_l3_cpp.Base.{
  ℕ, ◌%◌, ◌≡◌, refl, String, true, false, some, List, [], ◌∷◌, arith, length, replicate,
  if◌then◌else◌,
}
use membra_l3_cpp.Base.Dict.{lookup, insert}
use membra_l3_cpp.Base.Fixed.{fixed}
use membra_l3_cpp.Merkle.{Bytes}
use membra_l3_cpp.Preservation.{
  WalletSnapshot, new_monitor, active, monitored, get_wallet_status, needs_preservation,
  update_wallet_state,
}
use membra_l3_cpp.Preservation.Watching.{update_wallet_state-needs_preservation}
use membra_l3_cpp.Preservation.Manager.{new_preservation_manager, freeze_wallet, unfreeze_wallet}
use membra_l3_cpp.Preservation.Manager.Freezing.{
  Call, preserves, restores, freezes, run, step, IsRecordId, run-unfreeze_wallet,
}
use membra_l3_cpp.Preservation.Manager.Records.{IsTallied, run-IsTallied}
use membra_l3_cpp.Preservation.Recovery.{
  RecoveryStatus, Requests, initiate_recovery, verify_recovery_request, complete_recovery,
  generate_recovery_key, get_recovery_status, validate_recovery_key,
}
use membra_l3_cpp.Base.Bytes.{bytes_of}
use membra_l3_cpp.Base.Decimal.{to_string}
use membra_l3_cpp.Preservation.Recovery.Lifecycle as recovery
use membra_l3_cpp.Preservation.Recovery.Lifecycle.{
  Proceeds, step-Proceeds, initiate_recovery-completes, complete_recovery-again,
}

-- Thirty-two numbers: the length, filled up.
abbrev short_sha : Bytes → Bytes
short_sha xs = (length xs % 256) ∷ replicate 31 7

short_sha-length : (x : Bytes) → length (short_sha x) ≡ 32
short_sha-length x = refl

update_wallet_state-needs_preservation_example :
    let m = update_wallet_state short_sha new_monitor "alice" 4000 1 2 in
    (get_wallet_status m "alice"
      ≡ (if needs_preservation new_monitor "alice" 4000 then monitored else active))
    × ((s : WalletSnapshot) × (lookup "alice" m.wallet_snapshots ≡ some s) × (s.balance ≡ 4000))
update_wallet_state-needs_preservation_example =
    update_wallet_state-needs_preservation short_sha new_monitor "alice" 4000 1 2 (omega arith)

-- A wallet that is frozen at millisecond 5, and the one whose address is the record's id.
abbrev freezing : List Call
freezing = freezes "alice" "theft" 5 6 ∷ []

run-unfreeze_wallet_example : IsRecordId "preserve_5"
unfolding run step freeze_wallet unfreeze_wallet lookup insert to_string
run-unfreeze_wallet_example = run-unfreeze_wallet ℕ short_sha freezing "preserve_5" refl

abbrev archiving : List Call
archiving =
    preserves "alice" 900 5 1 2 3 4 5
    ∷ restores "preserve_5" "" 6 7 8
    ∷ freezes "bob" "theft" 9 10
    ∷ []

run-IsTallied_example : IsTallied {W = ℕ} (run short_sha new_preservation_manager archiving)
run-IsTallied_example = run-IsTallied ℕ short_sha archiving

abbrev asked : RecoveryStatus
asked = record {
  recovery_id = "recovery_1";
  record_id = "preserve_5";
  status = "completed";
  initiated_at = 1;
  completed_at = 2;
  verification_method = "signature";
}

abbrev one_request : Requests
one_request = ("recovery_1", asked) ∷ []

step-Proceeds_example :
    Proceeds
      (lookup "recovery_1" one_request)
      (lookup "recovery_1" (recovery.step one_request (recovery.verifies "recovery_1" 3)))
step-Proceeds_example = step-Proceeds one_request (recovery.verifies "recovery_1" 3) "recovery_1"

initiate_recovery-completes_example :
    let (id, rs₁) = initiate_recovery one_request "preserve_5" "sig" 7 8 0 in
    let (verified, rs₂) = verify_recovery_request rs₁ id 9 in
    let (completed, rs₃) =
      complete_recovery rs₂ id (generate_recovery_key short_sha "alice" 10) 11 in
    (verified ≡ true)
    × (completed ≡ true)
    × ((get_recovery_status rs₃ id 0 0).status ≡ "completed")
    × ((get_recovery_status rs₃ id 0 0).record_id ≡ "preserve_5")
initiate_recovery-completes_example =
    initiate_recovery-completes short_sha one_request "preserve_5" "sig" "alice" 7 8 0 10 9 11 0 0
      short_sha-length

abbrev some_key : String
some_key = "0123456789012345678901234567890123456789012345678901234567890123"

complete_recovery-again_example :
    ((complete_recovery one_request "recovery_1" some_key 3).0 ≡ false)
    × ((verify_recovery_request one_request "recovery_1" 3).0 ≡ true)
    × ((complete_recovery
          (verify_recovery_request one_request "recovery_1" 3).1
          "recovery_1"
          some_key
          4).0
        ≡ true)
unfolding lookup validate_recovery_key bytes_of
complete_recovery-again_example =
    complete_recovery-again one_request "recovery_1" some_key 3 4 asked refl refl refl
