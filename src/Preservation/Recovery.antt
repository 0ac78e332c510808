-- ===== src/Preservation/Recovery.antt =====
-- `WalletRecoveryService` of src/zero_balance_preservation.cpp. `completed_at` is not set when a
-- request is made: its content is the argument `indeterminate`. Each reading of the clock is an
-- argument.
pub mod Lifecycle
use Prim.Native.String.{◌++◌}
use mathlib.Core.List.{◌++◌ as append_lists}
use membra_l3_cpp.Base.{
  ℕ, String, str_eq, Bool, true, false, not, none, some, [], ◌∷◌, length, ◌==◌, if◌then◌else◌,
}
use membra_l3_cpp.Base.Bytes.{bytes_of, hash_to_hex}
use membra_l3_cpp.Base.Decimal.{to_string}
use membra_l3_cpp.Base.Dict.{Dict, lookup, insert}
use membra_l3_cpp.Merkle.{Bytes}

pub record RecoveryStatus : Type 0 where
  pub recovery_id : String
  pub record_id : String
  pub status : String
  pub initiated_at : ℕ
  pub completed_at : ℕ
  pub verification_method : String

-- `recovery_requests_`.
abbrev pub Requests : Type 0
Requests = Dict RecoveryStatus

-- `t₁` is read for the id, `t₂` for the time stamp. The signature is not looked at.
unfoldable pub initiate_recovery : Requests → String → String → ℕ → ℕ → ℕ → String × Requests
initiate_recovery rs record_id user_signature t₁ t₂ indeterminate =
    let recovery_id = "recovery_" ++ to_string t₁ in
    (
      recovery_id,
      insert recovery_id
          (record {
            recovery_id = recovery_id;
            record_id = record_id;
            status = "pending";
            initiated_at = t₂;
            completed_at = indeterminate;
            verification_method = "signature";
          })
          rs,
    )

unfoldable pub verify_recovery_request : Requests → String → ℕ → Bool × Requests
verify_recovery_request rs recovery_id now = elim (lookup recovery_id rs) [
  | none ↦ (false, rs)
  | some r ↦ (true, insert recovery_id (record r { status = "verified"; completed_at = now }) rs)
]

-- The length of the key is all that is looked at.
unfoldable pub validate_recovery_key : String → Bool
validate_recovery_key recovery_key = length (bytes_of recovery_key) == 64

unfoldable pub complete_recovery : Requests → String → String → ℕ → Bool × Requests
complete_recovery rs recovery_id recovery_key now = elim (lookup recovery_id rs) [
  | none ↦ (false, rs)
  | some r ↦
      if not (str_eq r.status "verified")
      then (false, rs)
      else if not (validate_recovery_key recovery_key)
      then (false, rs)
      else (true, insert recovery_id (record r { status = "completed"; completed_at = now }) rs)
]

unfoldable pub generate_recovery_key : (Bytes → Bytes) → String → ℕ → String
generate_recovery_key sha256 wallet ms =
    hash_to_hex (sha256 (append_lists (bytes_of wallet) (bytes_of (to_string ms))))

-- The time stamps of a request that is not there are never set.
unfoldable pub get_recovery_status : Requests → String → ℕ → ℕ → RecoveryStatus
get_recovery_status rs recovery_id indeterminate₁ indeterminate₂ = elim (lookup recovery_id rs) [
  | none ↦ record {
    recovery_id = recovery_id;
    record_id = "";
    status = "not_found";
    initiated_at = indeterminate₁;
    completed_at = indeterminate₂;
    verification_method = "";
  }
  | some r ↦ r
]
