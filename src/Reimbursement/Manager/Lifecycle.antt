-- ===== src/Reimbursement/Manager/Lifecycle.antt =====
-- The life of a reimbursement record in src/gas_reimbursement.cpp.
use membra_l3_cpp.Base.{ℕ, ◌≡◌, ◌≢◌, refl, inl, inr, String, true, false, some, arith, Option-cases}
use membra_l3_cpp.Base.Dict.{lookup, get_or, lookup-insert_ne, lookup-insert_self}
use membra_l3_cpp.Base.Word.{add64}
use membra_l3_cpp.Reimbursement.{ReimbursementRequest, ReimbursementRecord, default_record}
use membra_l3_cpp.Reimbursement.Manager.{
  Manager, approve_reimbursement, reject_reimbursement, process_request, processed, approvable,
  settled, approved, rejected, count_approved,
}

approvable-approved :
    (r : ReimbursementRecord) (signature : String) (now : ℕ)
    → (approvable (approved r signature now) ≡ false) × (settled (approved r signature now) ≡ true)
unfolding approvable settled approved
approvable-approved r signature now = (refl, refl)

approvable-rejected :
    (r : ReimbursementRecord) (reason : String) (now : ℕ)
    → (approvable (rejected r reason now) ≡ false) × (settled (rejected r reason now) ≡ false)
unfolding approvable settled rejected
approvable-rejected r reason now = (refl, refl)

pub approvable-processed :
    (request : ReimbursementRequest) (r : ReimbursementRecord) (now : ℕ)
    → approvable (processed request r now) ≡ true
unfolding approvable processed
approvable-processed request r now = refl

-- An approval is final for `approve_reimbursement` and `reject_reimbursement`: after it both return
-- false for the record and change nothing.
pub approve_reimbursement-final :
    (m m' : Manager) (id signature signature' reason : String) (now later : ℕ)
    → approve_reimbursement m id signature now ≡ (true, m')
    → (approve_reimbursement m' id signature' later ≡ (false, m'))
      × (reject_reimbursement m' id reason later ≡ (false, m'))
unfolding approve_reimbursement reject_reimbursement
approve_reimbursement-final m m' id signature signature' reason now later h =
    elim (Option-cases (lookup id m.records)) [
      | inl e ↦ absurd (ground arith)
      | inr (r, e) ↦ ground (
        arith,
        lookup-insert_self id (approved r signature now) m.records,
        approvable-approved r signature now,
      )
    ]

-- A rejection bars approval, but not a second rejection, which is counted again.
pub reject_reimbursement-again :
    (m m' : Manager) (id reason reason' signature : String) (now later : ℕ)
    → reject_reimbursement m id reason now ≡ (true, m')
    → (approve_reimbursement m' id signature later ≡ (false, m'))
      × ((reject_reimbursement m' id reason' later).0 ≡ true)
      × ((reject_reimbursement m' id reason' later).1.stats.total_rejected
          ≡ add64 (add64 m.stats.total_rejected 1) 1)
unfolding approve_reimbursement reject_reimbursement
reject_reimbursement-again m m' id reason reason' signature now later h =
    elim (Option-cases (lookup id m.records)) [
      | inl e ↦ absurd (ground arith)
      | inr (r, e) ↦ ground (
        arith,
        lookup-insert_self id (rejected r reason now) m.records,
        approvable-rejected r reason now,
      )
    ]

-- `process_request` reopens any request: whatever the record's status was, approved and rejected
-- included, the record can be approved after it.
pub process_request-approve_reimbursement :
    (m : Manager) (id signature : String) (now later : ℕ) (request : ReimbursementRequest)
    → lookup id m.requests ≡ some request
    → let (r, m') = process_request m id now in
      let (done, m'') = approve_reimbursement m' id signature later in
      (done ≡ true)
      × (m''.stats.total_approved ≡ add64 m.stats.total_approved 1)
      × (m''.stats.total_reimbursed ≡ add64 m.stats.total_reimbursed r.total_amount)
unfolding process_request approve_reimbursement count_approved
process_request-approve_reimbursement m id signature now later request e =
    let old = get_or default_record (lookup id m.records) in
    ground (
      arith,
      lookup-insert_self id (processed request old now) m.records,
      approvable-processed request old now,
    )

-- The operations on one record leave the record of every other request as it was.
pub other_records_kept :
    (m : Manager) (id j text : String) (now : ℕ)
    → id ≢ j
    → (lookup j (process_request m id now).1.records ≡ lookup j m.records)
      × (lookup j (approve_reimbursement m id text now).1.records ≡ lookup j m.records)
      × (lookup j (reject_reimbursement m id text now).1.records ≡ lookup j m.records)
unfolding process_request approve_reimbursement reject_reimbursement
other_records_kept m id j text now ne =
    let old = get_or default_record (lookup id m.records) in
    (
      grind (arith, lookup-insert_ne),
      grind (arith, lookup-insert_ne),
      grind (arith, lookup-insert_ne),
    )
