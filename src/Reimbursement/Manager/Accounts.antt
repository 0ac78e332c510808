-- ===== src/Reimbursement/Manager/Accounts.antt =====
-- The statistics of src/gas_reimbursement.cpp against the records.
use mathlib.Core.Bool.{false≢true}
use membra_l3_cpp.Base.{
  ℕ, ◌+◌, ◌%◌, ◌^◌, ◌≤◌, ◌<◌, ◌≡◌, refl, inl, inr, String, str_eq, eq_iff, true, false, some, arith,
  Option-cases, Bool-cases, if◌then◌else◌, List, [], ◌∷◌,
}
use membra_l3_cpp.Base.Dict.{
  lookup, insert, get_or, lookup-insert_self, total, total-insert, total-insert_new,
}
use membra_l3_cpp.Reimbursement.{ReimbursementRequest, ReimbursementRecord, default_record}
use membra_l3_cpp.Reimbursement.Manager.{
  Manager, initial, submit_request, approve_reimbursement, reject_reimbursement, process_request,
  processed, approvable, settled, approved, rejected, count_approved, pending_record, id_of,
  update_wallet_state, calculate_reimbursement, calculate_bonus, info_of,
}
use membra_l3_cpp.Reimbursement.Manager.Lifecycle.{approvable-processed}
use membra_l3_cpp.Reimbursement.Manager.History.{
  Call, submits, processes, approves, rejects, step, run,
}

-- What a record counts for in the total of the reimbursements.
unfoldable pub approved_amount : ReimbursementRecord → ℕ
approved_amount r = if str_eq r.status "approved" then r.total_amount else 0

-- The statistics hold the sum of the approved records, and at most as much was wrapped away.
abbrev pub IsAccounted : Manager → Type 0
IsAccounted m = m.stats.total_reimbursed ≡ total approved_amount m.records % 2 ^ 64

-- The request or record that a call would overwrite is not an approved one.
abbrev pub Keeps : Manager → String → Type 0
Keeps m id = (r : ReimbursementRecord) → lookup id m.records ≡ some r → approved_amount r ≡ 0

abbrev pub Respects : Manager → Call → Type 0
Respects m (submits request millis now) = Keeps m (id_of request millis)
Respects m (processes id now) = Keeps m id
Respects m (approves id signature now) = Unit
Respects m (rejects id reason now) = Unit

abbrev pub RespectsAll : Manager → List Call → Type 0
RespectsAll m [] = Unit
RespectsAll m (c ∷ cs) = Respects m c × RespectsAll (step m c) cs

amount-approvable : (r : ReimbursementRecord) → approvable r ≡ true → approved_amount r ≡ 0
unfolding approvable approved_amount
amount-approvable r h = elim (Bool-cases (str_eq r.status "approved")) [
  | inl final ↦ absurd (false≢true (rw ((eq_iff _ _).0 final) at h))
  | inr open_still ↦ rw open_still
]

amount-settled : (r : ReimbursementRecord) → settled r ≡ false → approved_amount r ≡ 0
unfolding settled approved_amount
amount-settled r h = ground arith

amount-approved :
    (r : ReimbursementRecord) (signature : String) (now : ℕ)
    → approved_amount (approved r signature now) ≡ r.total_amount
unfolding approved approved_amount
amount-approved r signature now = refl

amount-rejected :
    (r : ReimbursementRecord) (reason : String) (now : ℕ)
    → approved_amount (rejected r reason now) ≡ 0
unfolding rejected approved_amount
amount-rejected r reason now = refl

amount-processed :
    (request : ReimbursementRequest) (r : ReimbursementRecord) (now : ℕ)
    → approved_amount (processed request r now) ≡ 0
unfolding processed approved_amount
amount-processed request r now = refl

amount-pending :
    (request : ReimbursementRequest) (id : String) → approved_amount (pending_record request id) ≡ 0
unfolding pending_record approved_amount
amount-pending request id = refl

approve-IsAccounted :
    (m : Manager) (id signature : String) (now : ℕ)
    → IsAccounted m
    → IsAccounted (approve_reimbursement m id signature now).1
unfolding approve_reimbursement count_approved
approve-IsAccounted m id signature now v = elim (Option-cases (lookup id m.records)) [
  | inl e ↦ ground arith
  | inr (r, e) ↦ ground (
    arith,
    amount-approvable r,
    amount-approved r signature now,
    total-insert approved_amount id (approved r signature now) r m.records e,
  )
]

reject-IsAccounted :
    (m : Manager) (id reason : String) (now : ℕ)
    → IsAccounted m
    → IsAccounted (reject_reimbursement m id reason now).1
unfolding reject_reimbursement
reject-IsAccounted m id reason now v = elim (Option-cases (lookup id m.records)) [
  | inl e ↦ ground arith
  | inr (r, e) ↦ ground (
    arith,
    amount-settled r,
    amount-rejected r reason now,
    total-insert approved_amount id (rejected r reason now) r m.records e,
  )
]

-- Overwriting what counts for nothing with what counts for nothing keeps the total.
total-overwrite :
    (m : Manager) (id : String) (r : ReimbursementRecord)
    → approved_amount r ≡ 0
    → Keeps m id
    → total approved_amount (insert id r m.records) ≡ total approved_amount m.records
total-overwrite m id r z keeps = elim (Option-cases (lookup id m.records)) [
  | inl e ↦ omega (arith, total-insert_new approved_amount id r m.records e)
  | inr (old, e) ↦ omega (arith, total-insert approved_amount id r old m.records e, keeps old e)
]

process-IsAccounted :
    (m : Manager) (id : String) (now : ℕ)
    → Keeps m id
    → IsAccounted m
    → IsAccounted (process_request m id now).1
unfolding process_request
process-IsAccounted m id now keeps v = elim (Option-cases (lookup id m.requests)) [
  | inl e ↦ ground arith
  | inr (request, e) ↦
      let r = processed request (get_or default_record (lookup id m.records)) now in
      ground (arith, total-overwrite m id r (amount-processed request _ now) keeps)
]

submit-IsAccounted :
    (m : Manager) (request : ReimbursementRequest) (millis now : ℕ)
    → Keeps m (id_of request millis)
    → IsAccounted m
    → IsAccounted (submit_request m request millis now).1
unfolding submit_request update_wallet_state
submit-IsAccounted m request millis now keeps v =
    let id = id_of request millis in
    rw (total-overwrite m id (pending_record request id) (amount-pending request id) keeps) v

step-IsAccounted : (m : Manager) (c : Call) → Respects m c → IsAccounted m → IsAccounted (step m c)
unfolding step
step-IsAccounted m (submits request millis now) ok v = submit-IsAccounted m request millis now ok v
step-IsAccounted m (processes id now) ok v = process-IsAccounted m id now ok v
step-IsAccounted m (approves id signature now) ok v = approve-IsAccounted m id signature now v
step-IsAccounted m (rejects id reason now) ok v = reject-IsAccounted m id reason now v

run-IsAccounted_from :
    (cs : List Call) (m : Manager) → RespectsAll m cs → IsAccounted m → IsAccounted (run m cs)
unfolding run
run-IsAccounted_from [] m ok v = v
run-IsAccounted_from (c ∷ cs) m ok v =
    run-IsAccounted_from cs (step m c) ok.1 (step-IsAccounted m c ok.0 v)

-- After any history of calls from the initial state in which no call submits or processes over an
-- approved record, `total_reimbursed` is the sum of the total amounts of the approved records, modulo
-- 2 ^ 64.
pub run-IsAccounted : (cs : List Call) → RespectsAll initial cs → IsAccounted (run initial cs)
unfolding total
run-IsAccounted cs ok = run-IsAccounted_from cs initial ok refl

processed_total-le :
    (request : ReimbursementRequest) (r : ReimbursementRecord) (now : ℕ)
    → (processed request r now).total_amount ≤ 10_000_000
unfolding processed calculate_reimbursement calculate_bonus info_of
processed_total-le request r now = omega arith

amount-status :
    (r : ReimbursementRecord) → r.status ≡ "approved" → approved_amount r ≡ r.total_amount
unfolding approved_amount
amount-status r e = rw e

-- Where `process_request` runs over an approved record, the total keeps the amount that the record no
-- longer counts for: approved again, the same request is paid out twice.
pub process_request-overpays :
    (m : Manager) (id signature : String) (now later : ℕ) (request : ReimbursementRequest)
    (r : ReimbursementRecord)
    → lookup id m.requests ≡ some request
    → lookup id m.records ≡ some r
    → r.status ≡ "approved"
    → IsAccounted m
    → total approved_amount m.records + 10_000_000 < 2 ^ 64
    → let m' = (process_request m id now).1 in
      let m'' = (approve_reimbursement m' id signature later).1 in
      m''.stats.total_reimbursed ≡ total approved_amount m''.records + r.total_amount
unfolding process_request approve_reimbursement count_approved
process_request-overpays m id signature now later request r er e status v fits =
    let r' = processed request r now in
    let r'' = approved r' signature later in
    ground (
      arith,
      lookup-insert_self id r' m.records,
      approvable-processed request r now,
      processed_total-le request r now,
      amount-status r status,
      amount-processed request r now,
      amount-approved r' signature later,
      total-insert approved_amount id r' r m.records e,
      total-insert approved_amount id r'' r' (insert id r' m.records),
    )
