-- ===== src/Preservation/Governance.antt =====
-- `PreservationGovernance` of src/zero_balance_preservation.cpp. A field that is not set has the
-- content that the argument gives it; each reading of the clock is an argument.
pub mod Decisions
use Prim.Native.String.{◌++◌}
use membra_l3_cpp.Base.{ℕ, String, Bool, true, false, none, some, if◌then◌else◌}
use membra_l3_cpp.Base.Decimal.{to_string}
use membra_l3_cpp.Base.Dict.{Dict, lookup, insert}
use membra_l3_cpp.Preservation.{PreservationAction, freeze, governance_review}

pub record ApprovalStatus : Type 0 where
  pub request_id : String
  pub wallet_address : String
  pub action : PreservationAction
  pub status : String
  pub governance_signature : String
  pub requested_at : ℕ
  pub decided_at : ℕ

-- `approval_requests_`.
abbrev pub Approvals : Type 0
Approvals = Dict ApprovalStatus

unfoldable pub request_approval :
    Approvals → String → PreservationAction → ℕ → ℕ → ℕ → String × Approvals
request_approval rs wallet action t₁ t₂ indeterminate =
    let request_id = "gov_approve_" ++ to_string t₁ in
    (
      request_id,
      insert request_id
          (record {
            request_id = request_id;
            wallet_address = wallet;
            action = action;
            status = "pending";
            governance_signature = "";
            requested_at = t₂;
            decided_at = indeterminate;
          })
          rs,
    )

unfoldable pub submit_decision : Approvals → String → Bool → String → ℕ → Bool × Approvals
submit_decision rs request_id approved signature now = elim (lookup request_id rs) [
  | none ↦ (false, rs)
  | some a ↦ (
    true,
    insert request_id
        (record a {
          status = if approved then "approved" else "rejected";
          governance_signature = signature;
          decided_at = now;
        })
        rs,
  )
]

-- A request that is not there has an action and time stamps that are never set.
unfoldable pub get_approval_status :
    Approvals → String → PreservationAction → ℕ → ℕ → ApprovalStatus
get_approval_status rs request_id indeterminate indeterminate₁ indeterminate₂ =
    elim (lookup request_id rs) [
      | none ↦ record {
        request_id = request_id;
        wallet_address = "";
        action = indeterminate;
        status = "not_found";
        governance_signature = "";
        requested_at = indeterminate₁;
        decided_at = indeterminate₂;
      }
      | some a ↦ a
    ]

unfoldable pub requires_approval : String → PreservationAction → Bool
requires_approval wallet freeze = true
requires_approval wallet governance_review = true
requires_approval wallet _ = false
