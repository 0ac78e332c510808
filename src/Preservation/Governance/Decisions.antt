-- ===== src/Preservation/Governance/Decisions.antt =====
-- Decisions on the approvals of src/zero_balance_preservation.cpp.
use membra_l3_cpp.Base.{
  ℕ, ◌≡◌, refl, inl, inr, String, Bool, true, false, some, none, if◌then◌else◌, Option-cases,
}
use membra_l3_cpp.Base.Dict.{lookup, insert, lookup-insert_self}
use membra_l3_cpp.Base.Erase.{insert-insert}
use membra_l3_cpp.Preservation.Governance.{ApprovalStatus, Approvals, submit_decision}

submit_decision-found :
    (rs : Approvals) (id : String) (approved : Bool) (signature : String) (now : ℕ)
    (a : ApprovalStatus)
    → lookup id rs ≡ some a
    → submit_decision rs id approved signature now ≡ (
      true,
      insert id
          (record a {
            status = if approved then "approved" else "rejected";
            governance_signature = signature;
            decided_at = now;
          })
          rs,
    )
unfolding submit_decision
submit_decision-found rs id approved signature now a found = rw (submit_decision, found) refl

submit_decision-missing :
    (rs : Approvals) (id : String) (approved : Bool) (signature : String) (now : ℕ)
    → lookup id rs ≡ none
    → submit_decision rs id approved signature now ≡ (false, rs)
unfolding submit_decision
submit_decision-missing rs id approved signature now gone = rw (submit_decision, gone) refl

-- A decision is not final: a later one on the same request replaces it, whatever it was, and leaves no
-- trace of it.
pub submit_decision-submit_decision :
    (rs : Approvals) (id : String) (first second : Bool) (s₁ s₂ : String) (t₁ t₂ : ℕ)
    → submit_decision (submit_decision rs id first s₁ t₁).1 id second s₂ t₂
      ≡ submit_decision rs id second s₂ t₂
submit_decision-submit_decision rs id first second s₁ s₂ t₁ t₂ =
    elim (Option-cases (lookup id rs)) [
      | inl gone ↦
          rw
            (
              submit_decision-missing rs id first s₁ t₁ gone,
              submit_decision-missing rs id second s₂ t₂ gone,
            )
            refl
      | inr (a, found) ↦
          let a' = record a {
            status = if first then "approved" else "rejected";
            governance_signature = s₁;
            decided_at = t₁;
          } in
          rw
            (
              submit_decision-found rs id first s₁ t₁ a found,
              submit_decision-found rs id second s₂ t₂ a found,
              submit_decision-found (insert id a' rs) id second s₂ t₂ a'
                  (lookup-insert_self id a' rs),
              insert-insert,
            )
            refl
    ]
